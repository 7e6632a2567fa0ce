-- ===== src/Agent/Rule/Built.antt =====
-- Every rule that fits is built: the converse of what Build shows of an insertion.
use esnet_smartnic_fw.Base.{
  ℕ, ◌≡◌, refl, sym, ap, ◌∙◌, ◌↔◌, inr, true, List, Option, none, some, length, arith,
}
use esnet_smartnic_fw.Text.{Text}
use esnet_smartnic_fw.Agent.Errors.{ErrorCode}
use esnet_smartnic_fw.Agent.Info.{
  ActionInfo, TableInfo, PipelineInfo, get_table_info, get_table_action_info,
}
use esnet_smartnic_fw.Agent.Driver.{Status, SnMatch, SnRule, SnParam, SnPack, Driver}
use esnet_smartnic_fw.Agent.Rule.{
  Action, TableRule, Result, ◌>>=◌, or_error, check_count, pack_error, packed, pack_result,
  parse_match, parse_action_parameter, parse_all, load_matches, load_params, load_action,
  table_rule_pack, insert_rule, build_insert, build, build_in, build_rule,
}
use esnet_smartnic_fw.Agent.Rule.Parsing.{parse_all_iff}
use esnet_smartnic_fw.Agent.Rule.Build.{
  Matches, Params, Inserts, InsertsInto, build_rule-InsertsInto,
}

check_count_equal :
    (few many : ErrorCode) (n expected : ℕ)
    → n ≡ expected
    → check_count few many n expected ≡ inr tt
unfolding check_count
check_count_equal few many n expected e = ground arith

module _ {Handle Mpz Hw : Type 0} (drv : Driver Handle Mpz Hw) where
  Matches-load_matches :
      (ti : TableInfo) (rule : TableRule) (ms : List (SnMatch Mpz))
      → Matches drv ti rule ms
      → load_matches drv ti rule ≡ inr ms
  unfolding load_matches ◌>>=◌
  Matches-load_matches ti rule ms (counted, each) =
      ap (λ r. r >>= λ u. parse_all (parse_match drv) rule.matches)
        (check_count_equal ErrorCode.too_few_matches ErrorCode.too_many_matches
          (length rule.matches) (length ti.matches) counted)
      ∙ (parse_all_iff (parse_match drv) rule.matches ms).1 each

  Params-load_action :
      (ti : TableInfo) (action : Action) (ai : ActionInfo) (ps : List (SnParam Mpz))
      → get_table_action_info ti action.name ≡ some ai
      → Params drv ai action ps
      → load_action drv ti action ≡ inr (ai, ps)
  unfolding load_action load_params or_error ◌>>=◌
  Params-load_action ti action ai ps named (counted, each) =
      ap
        (λ o. or_error ErrorCode.invalid_action_name o >>= λ ai'.
          load_params drv ai' action >>= λ ps'. inr (ai', ps'))
        named
      ∙ ap
          (λ r. (r >>= λ u. parse_all (parse_action_parameter drv) action.parameters) >>= λ ps'.
            inr (ai, ps'))
          (check_count_equal ErrorCode.too_few_action_parameters
            ErrorCode.too_many_action_parameters (length action.parameters) (length ai.params)
            counted)
      ∙ ap (λ r. r >>= λ ps'. inr (ai, ps'))
          ((parse_all_iff (parse_action_parameter drv) action.parameters ps).1 each)

  -- Where all before it succeeds, an insertion is what its packing makes of it.
  pub build_rule-packing :
      (pi : PipelineInfo) (ti : TableInfo) (ai : ActionInfo) (rule : TableRule)
      (ms : List (SnMatch Mpz)) (ps : List (SnParam Mpz))
      → get_table_info pi rule.table_name ≡ some ti
      → get_table_action_info ti rule.action.name ≡ some ai
      → Matches drv ti rule ms
      → Params drv ai rule.action ps
      → let sr = insert_rule drv ti rule ms (ai, ps) in
        build_rule drv true pi rule ≡ (pack_result (drv.rule_pack pi sr) >>= λ p. inr (sr, p))
  unfolding build_rule build_in build build_insert ◌>>=◌ table_rule_pack
  build_rule-packing pi ti ai rule ms ps found named matches params =
      ap (λ o. build_in drv true pi o rule) found
      ∙ rw (Matches-load_matches ti rule ms matches)
          (rw (Params-load_action ti rule.action ai ps named params) refl)

  Inserts-build_insert :
      (pi : PipelineInfo) (ti : TableInfo) (rule : TableRule) (sr : SnRule Mpz) (pack : SnPack)
      → Inserts drv pi ti rule sr pack
      → build_insert drv pi ti rule ≡ inr (sr, pack)
  unfolding build_insert ◌>>=◌ table_rule_pack pack_result packed pack_error insert_rule
  Inserts-build_insert pi ti rule sr pack
        (matches, ai, named, params, table, action, priority, done) =
      ap (λ r. r >>= rest) (Matches-load_matches ti rule sr.matches matches)
      ∙ ap (λ r. r >>= last sr.matches)
          (Params-load_action ti rule.action ai sr.params named params)
      ∙ ap finish_rule same
      ∙ ap (λ (r : Option (Status × SnPack)). pack_result r >>= λ p. inr (sr, p)) done
    where
      finish_rule : SnRule Mpz → Result (SnRule Mpz × SnPack)
      finish_rule r = table_rule_pack drv pi none r >>= λ p. inr (r, p)

      last : List (SnMatch Mpz) → ActionInfo × List (SnParam Mpz) → Result (SnRule Mpz × SnPack)
      last ms q = finish_rule (insert_rule drv ti rule ms q)

      rest : List (SnMatch Mpz) → Result (SnRule Mpz × SnPack)
      rest ms = load_action drv ti rule.action >>= last ms

      made : Text → Option Text → ℕ → SnRule Mpz
      made t a p = record {
        table_name = t;
        matches = sr.matches;
        action_name = a;
        params = sr.params;
        priority = p;
      }

      same : insert_rule drv ti rule sr.matches (ai, sr.params) ≡ sr
      same = sym (
          ap (λ t. made t sr.action_name sr.priority) table
          ∙ ap (λ a. made ti.name a sr.priority) action
          ∙ ap (λ p. made ti.name (some ai.name) p) priority)

  InsertsInto-build_rule :
      (pi : PipelineInfo) (rule : TableRule) (sr : SnRule Mpz) (pack : SnPack)
      → InsertsInto drv pi rule sr pack
      → build_rule drv true pi rule ≡ inr (sr, pack)
  unfolding build_rule build_in build
  InsertsInto-build_rule pi rule sr pack (ti, found, table, action, inserts) =
      ap (λ o. build_in drv true pi o rule) found ∙ Inserts-build_insert pi ti rule sr pack inserts

  -- A rule is built for an insertion exactly if it fits: the table and the action are those that the
  -- request names, the matches are as many as the table has and the parameters as many as the action
  -- has, each parses, in order, and the library reports success for the pack.
  pub build_rule-insert_iff :
      (pi : PipelineInfo) (rule : TableRule) (sr : SnRule Mpz) (pack : SnPack)
      → (build_rule drv true pi rule ≡ inr (sr, pack)) ↔ InsertsInto drv pi rule sr pack
  build_rule-insert_iff pi rule sr pack =
      (build_rule-InsertsInto drv pi rule sr pack, InsertsInto-build_rule pi rule sr pack)
