-- ===== src/Agent/Rule/Build.antt =====
-- What is packed for a rule, and that nothing reaches the driver unless it was.
use mathlib.Core.Path.{subst, ap₂}
use esnet_smartnic_fw.Base.{
  Each, ◌≡◌, refl, ap, ◌∙◌, inr, true, false, List, Option, none, some, length,
}
use esnet_smartnic_fw.Agent.Errors.{ErrorCode}
use esnet_smartnic_fw.Agent.Info.{
  ActionInfo, TableInfo, PipelineInfo, get_table_info, get_table_action_info,
}
use esnet_smartnic_fw.Agent.Info.Laws.{get_table_info-name, get_table_action_info-name}
use esnet_smartnic_fw.Agent.Driver.{Status, SnMatch, SnRule, SnParam, SnPack, Driver}
use esnet_smartnic_fw.Agent.Rule.{
  Action, TableRule, Result, or_error, check_count, pack_error, pack_result, parse_match,
  parse_action_parameter, load_matches, load_params, load_action, table_rule_pack, insert_rule,
  delete_rule, build_insert, build_delete, build, build_in, build_rule,
}
use esnet_smartnic_fw.Agent.Rule.Parsing.{
  >>=-inr, or_error-inr, check_count-inr, packed-inr, inr-injective, pack_error_iff, parse_all_iff,
}

module _ {Handle Mpz Hw : Type 0} (drv : Driver Handle Mpz Hw) where
  -- The matches that a rule of a table loads.
  abbrev pub Matches : TableInfo → TableRule → List (SnMatch Mpz) → Type 0
  Matches ti rule ms =
      (length rule.matches ≡ length ti.matches)
      × Each (λ m x. parse_match drv m ≡ inr x) rule.matches ms

  -- The parameters that an action loads.
  abbrev pub Params : ActionInfo → Action → List (SnParam Mpz) → Type 0
  Params ai action ps =
      (length action.parameters ≡ length ai.params)
      × Each (λ t n. parse_action_parameter drv t ≡ inr n) action.parameters ps

  abbrev count_matches : TableInfo → TableRule → Result (Unit {0})
  count_matches ti rule =
      check_count ErrorCode.too_few_matches ErrorCode.too_many_matches (length rule.matches)
        (length ti.matches)

  abbrev count_params : ActionInfo → Action → Result (Unit {0})
  count_params ai action =
      check_count ErrorCode.too_few_action_parameters ErrorCode.too_many_action_parameters
        (length action.parameters) (length ai.params)

  load_matches-inr :
      (ti : TableInfo) (rule : TableRule) (ms : List (SnMatch Mpz))
      → load_matches drv ti rule ≡ inr ms
      → Matches ti rule ms
  unfolding load_matches
  load_matches-inr ti rule ms e =
      let (u, e1, e2) = >>=-inr (count_matches ti rule) _ ms e in
      (
        check_count-inr _ _ (length rule.matches) (length ti.matches) e1,
        (parse_all_iff (parse_match drv) rule.matches ms).0 e2,
      )

  load_params-inr :
      (ai : ActionInfo) (action : Action) (ps : List (SnParam Mpz))
      → load_params drv ai action ≡ inr ps
      → Params ai action ps
  unfolding load_params
  load_params-inr ai action ps e =
      let (u, e1, e2) = >>=-inr (count_params ai action) _ ps e in
      (
        check_count-inr _ _ (length action.parameters) (length ai.params) e1,
        (parse_all_iff (parse_action_parameter drv) action.parameters ps).0 e2,
      )

  load_action-inr :
      (ti : TableInfo) (action : Action) (ai : ActionInfo) (ps : List (SnParam Mpz))
      → load_action drv ti action ≡ inr (ai, ps)
      → (get_table_action_info ti action.name ≡ some ai) × Params ai action ps
  unfolding load_action
  load_action-inr ti action ai ps e =
      let (ai', e1, e2) =
        >>=-inr (or_error ErrorCode.invalid_action_name (get_table_action_info ti action.name)) _
          (ai, ps) e in
      let (ps', e3, e4) = >>=-inr (load_params drv ai' action) _ (ai, ps) e2 in
      let same : (ai', ps') ≡ (ai, ps) = inr-injective e4 in
      subst
        (λ (q : ActionInfo × List (SnParam Mpz)).
          (get_table_action_info ti action.name ≡ some q.0) × Params q.0 action q.1)
        same
        (or_error-inr ErrorCode.invalid_action_name _ ai' e1, load_params-inr ai' action ps' e3)

  -- A rule packed for an insertion into a table: the table's number of matches, an action of the
  -- table, the action's number of parameters, and a packing that succeeded.
  abbrev pub Inserts : PipelineInfo → TableInfo → TableRule → SnRule Mpz → SnPack → Type 0
  Inserts pi ti rule sr pack =
      Matches ti rule sr.matches
      × (ai : ActionInfo) × (get_table_action_info ti rule.action.name ≡ some ai)
      × Params ai rule.action sr.params
      × (sr.table_name ≡ ti.name)
      × (sr.action_name ≡ some ai.name)
      × (sr.priority ≡ rule.priority)
      × (drv.rule_pack pi sr ≡ some (Status.ok, pack))

  -- And for a deletion from it, where only the matches count.
  abbrev pub Deletes : TableInfo → TableRule → SnRule Mpz → SnPack → Type 0
  Deletes ti rule sr pack =
      Matches ti rule sr.matches
      × (sr.table_name ≡ ti.name)
      × (drv.rule_pack_matches ti.matches ti.key_bits sr.matches ≡ some (Status.ok, pack))

  packed-ok :
      (r : Option (Status × SnPack)) (p : SnPack) → pack_result r ≡ inr p → r ≡ some (Status.ok, p)
  unfolding pack_result
  packed-ok none p e = absurd cc
  packed-ok (some (status, pack)) p e =
      let (e1, e2) = packed-inr (pack_error status) pack p e in
      ap₂ (λ x y. some (x, y)) ((pack_error_iff status).0 e1) e2

  insert_rule-Inserts :
      (pi : PipelineInfo) (ti : TableInfo) (rule : TableRule) (ms : List (SnMatch Mpz))
      (q : ActionInfo × List (SnParam Mpz)) (pack : SnPack)
      → load_matches drv ti rule ≡ inr ms
      → load_action drv ti rule.action ≡ inr q
      → table_rule_pack drv pi none (insert_rule drv ti rule ms q) ≡ inr pack
      → Inserts pi ti rule (insert_rule drv ti rule ms q) pack
  unfolding table_rule_pack insert_rule
  insert_rule-Inserts pi ti rule ms (ai, ps) pack loaded acted done =
      let (found, params) = load_action-inr ti rule.action ai ps acted in
      (
        load_matches-inr ti rule ms loaded,
        ai,
        found,
        params,
        refl,
        refl,
        refl,
        packed-ok (drv.rule_pack pi (insert_rule drv ti rule ms (ai, ps))) pack done,
      )

  -- What an insertion hands to the driver is packed from a rule that fits the table and the action.
  pub build_insert-Inserts :
      (pi : PipelineInfo) (ti : TableInfo) (rule : TableRule) (sr : SnRule Mpz) (pack : SnPack)
      → build_insert drv pi ti rule ≡ inr (sr, pack)
      → Inserts pi ti rule sr pack
  unfolding build_insert
  build_insert-Inserts pi ti rule sr pack e =
      let (ms, e1, e2) = >>=-inr (load_matches drv ti rule) _ (sr, pack) e in
      let (q, e3, e4) = >>=-inr (load_action drv ti rule.action) _ (sr, pack) e2 in
      let (p, e5, e6) =
        >>=-inr (table_rule_pack drv pi none (insert_rule drv ti rule ms q)) _ (sr, pack) e4 in
      let same : (insert_rule drv ti rule ms q, p) ≡ (sr, pack) = inr-injective e6 in
      subst (λ (r : SnRule Mpz × SnPack). Inserts pi ti rule r.0 r.1) same
        (insert_rule-Inserts pi ti rule ms q p e1 e3 e5)

  pub build_delete-Deletes :
      (pi : PipelineInfo) (ti : TableInfo) (rule : TableRule) (sr : SnRule Mpz) (pack : SnPack)
      → build_delete drv pi ti rule ≡ inr (sr, pack)
      → Deletes ti rule sr pack
  unfolding build_delete delete_rule table_rule_pack
  build_delete-Deletes pi ti rule sr pack e =
      let (ms, e1, e2) = >>=-inr (load_matches drv ti rule) _ (sr, pack) e in
      let (p, e3, e4) =
        >>=-inr (table_rule_pack drv pi (some ti) (delete_rule drv ti rule ms)) _ (sr, pack) e2 in
      let same : (delete_rule drv ti rule ms, p) ≡ (sr, pack) = inr-injective e4 in
      subst (λ (r : SnRule Mpz × SnPack). Deletes ti rule r.0 r.1) same
        (
          load_matches-inr ti rule ms e1,
          refl,
          packed-ok (drv.rule_pack_matches ti.matches ti.key_bits ms) p e3,
        )

  abbrev pub InsertsInto : PipelineInfo → TableRule → SnRule Mpz → SnPack → Type 0
  InsertsInto pi rule sr pack =
      (ti : TableInfo) × (get_table_info pi rule.table_name ≡ some ti)
      × (sr.table_name ≡ rule.table_name)
      × (sr.action_name ≡ some rule.action.name)
      × Inserts pi ti rule sr pack

  abbrev pub DeletesFrom : PipelineInfo → TableRule → SnRule Mpz → SnPack → Type 0
  DeletesFrom pi rule sr pack =
      (ti : TableInfo) × (get_table_info pi rule.table_name ≡ some ti)
      × (sr.table_name ≡ rule.table_name)
      × Deletes ti rule sr pack

  build_in-InsertsInto :
      (pi : PipelineInfo) (o : Option TableInfo) (rule : TableRule) (sr : SnRule Mpz)
      (pack : SnPack)
      → get_table_info pi rule.table_name ≡ o
      → build_in drv true pi o rule ≡ inr (sr, pack)
      → InsertsInto pi rule sr pack
  unfolding build_in build
  build_in-InsertsInto pi none rule sr pack found e = absurd cc
  build_in-InsertsInto pi (some ti) rule sr pack found e =
      let inserts : Inserts pi ti rule sr pack = build_insert-Inserts pi ti rule sr pack e in
      let (counted, ai, named, params, table, action, priority, done) = inserts in
      (
        ti,
        found,
        table ∙ get_table_info-name pi rule.table_name ti found,
        action ∙ ap some (get_table_action_info-name ti rule.action.name ai named),
        inserts,
      )

  build_in-DeletesFrom :
      (pi : PipelineInfo) (o : Option TableInfo) (rule : TableRule) (sr : SnRule Mpz)
      (pack : SnPack)
      → get_table_info pi rule.table_name ≡ o
      → build_in drv false pi o rule ≡ inr (sr, pack)
      → DeletesFrom pi rule sr pack
  unfolding build_in build
  build_in-DeletesFrom pi none rule sr pack found e = absurd cc
  build_in-DeletesFrom pi (some ti) rule sr pack found e =
      let deletes : Deletes ti rule sr pack = build_delete-Deletes pi ti rule sr pack e in
      let (counted, table, done) = deletes in
      (ti, found, table ∙ get_table_info-name pi rule.table_name ti found, deletes)

  -- Where a rule is built for an insertion, the table that the driver is to change is the one that
  -- the request names, and so is the action; the matches are as many as the table has, the
  -- parameters as many as the action has, each parsed from the request in order; and the pack is
  -- the one with which the library reported success.
  pub build_rule-InsertsInto :
      (pi : PipelineInfo) (rule : TableRule) (sr : SnRule Mpz) (pack : SnPack)
      → build_rule drv true pi rule ≡ inr (sr, pack)
      → InsertsInto pi rule sr pack
  unfolding build_rule
  build_rule-InsertsInto pi rule sr pack e =
      build_in-InsertsInto pi (get_table_info pi rule.table_name) rule sr pack refl e

  -- Where a rule is built for a deletion, the table is the one that the request names, the matches
  -- are as many as it has, each parsed from the request in order, and the pack of these matches is
  -- the one with which the library reported success.
  pub build_rule-DeletesFrom :
      (pi : PipelineInfo) (rule : TableRule) (sr : SnRule Mpz) (pack : SnPack)
      → build_rule drv false pi rule ≡ inr (sr, pack)
      → DeletesFrom pi rule sr pack
  unfolding build_rule
  build_rule-DeletesFrom pi rule sr pack e =
      build_in-DeletesFrom pi (get_table_info pi rule.table_name) rule sr pack refl e
