-- ===== src/Agent/Rule/Driven.antt =====
-- What a rule does to the hardware: nothing unless the driver is called, and a deletion only what
-- its table and matches say.
use esnet_smartnic_fw.Base.{ℕ, ◌≡◌, refl, inl, inr, Bool, true, false, List, Option, none, some}
use esnet_smartnic_fw.Agent.Errors.{ErrorCode}
use esnet_smartnic_fw.Agent.Info.{TableInfo, PipelineInfo, get_table_info}
use esnet_smartnic_fw.Agent.Driver.{SnMatch, SnRule, SnPack, Driver}
use esnet_smartnic_fw.Agent.Rule.{
  Action, TableRule, Stop, Result, load_matches, table_rule_pack, delete_rule, build, build_delete,
  build_in, build_rule, apply_rule, process_rule, ◌>>=◌,
}

module _ {Handle Mpz Hw : Type 0} (drv : Driver Handle Mpz Hw) (pi : PipelineInfo)
    (handle : Handle) where
  -- The call of the driver for a rule that was built, with its answer and the hardware after it.
  abbrev pub Calls : Bool → Bool → SnRule Mpz → SnPack → Hw → Bool → Hw → Type 0
  Calls true replace sr pack hw success hw' =
      drv.table_insert_kma handle sr.table_name pack sr.action_name sr.priority replace hw
      ≡ (success, hw')
  Calls false replace sr pack hw success hw' =
      drv.table_delete_k handle sr.table_name pack.key pack.mask hw ≡ (success, hw')

  -- The code that the answer of the driver becomes.
  abbrev pub code_of : Bool → Bool → ErrorCode
  code_of do_insert true = ErrorCode.ok
  code_of true false = ErrorCode.failed_insert_table_rule
  code_of false false = ErrorCode.failed_delete_table_rule

  -- What processing answers, by how far a rule comes.
  abbrev pub Processed :
      Bool → Bool → Result (SnRule Mpz × SnPack) → Hw → Option (ErrorCode × Hw) → Type 0
  Processed do_insert replace (inl (Stop.refused err)) hw answer = answer ≡ some (err, hw)
  Processed do_insert replace (inl Stop.fault) hw answer = answer ≡ none
  Processed do_insert replace (inr (sr, pack)) hw answer =
      (success : Bool) × (hw' : Hw) × Calls do_insert replace sr pack hw success hw'
      × (answer ≡ some (code_of do_insert success, hw'))

  -- The same rule with another priority, another flag `replace` and another action.
  abbrev pub with_action : ℕ → Bool → Action → TableRule → TableRule
  with_action priority replace action rule = record {
    table_name = rule.table_name;
    priority = priority;
    replace = replace;
    matches = rule.matches;
    action = action;
  }

  module _ (ti : TableInfo) (rule rule' : TableRule) (replace replace' : Bool) (hw : Hw) where
    -- The rest of a deletion, from the packing on.
    abbrev pack_and_delete :
        TableRule → List (SnMatch Mpz) → Result SnPack → Result (SnRule Mpz × SnPack)
    pack_and_delete r ms packing = packing >>= λ pack. inr (delete_rule drv ti r ms, pack)

    same_pack :
        (ms : List (SnMatch Mpz)) (packing : Result SnPack)
        → apply_rule drv false handle replace (pack_and_delete rule ms packing) hw
          ≡ apply_rule drv false handle replace' (pack_and_delete rule' ms packing) hw
    unfolding apply_rule ◌>>=◌ delete_rule
    same_pack ms (inl (Stop.refused err)) = refl
    same_pack ms (inl Stop.fault) = refl
    same_pack ms (inr pack) = refl

    same_delete :
        (loaded : Result (List (SnMatch Mpz)))
        → apply_rule drv false handle replace
            (loaded >>= λ ms.
              pack_and_delete rule ms
                (table_rule_pack drv pi (some ti) (delete_rule drv ti rule ms)))
            hw
          ≡ apply_rule drv false handle replace'
              (loaded >>= λ ms.
                pack_and_delete rule' ms
                  (table_rule_pack drv pi (some ti) (delete_rule drv ti rule' ms)))
              hw
    unfolding apply_rule ◌>>=◌ table_rule_pack delete_rule
    same_delete (inl (Stop.refused err)) = refl
    same_delete (inl Stop.fault) = refl
    same_delete (inr ms) =
        same_pack ms (table_rule_pack drv pi (some ti) (delete_rule drv ti rule ms))

  same_in :
      (o : Option TableInfo) (rule : TableRule) (priority : ℕ) (replace : Bool) (action : Action)
      (hw : Hw)
      → apply_rule drv false handle rule.replace (build_in drv false pi o rule) hw
        ≡ apply_rule drv false handle replace
            (build_in drv false pi o (with_action priority replace action rule))
            hw
  unfolding build_in build build_delete apply_rule load_matches
  same_in none rule priority replace action hw = refl
  same_in (some ti) rule priority replace action hw =
      same_delete ti rule (with_action priority replace action rule) rule.replace replace hw
        (load_matches drv ti rule)

  -- A deletion gives the same answer and leaves the same hardware whatever the priority, the flag
  -- `replace` and the action of the rule are.
  pub process_rule-with_action :
      (rule : TableRule) (priority : ℕ) (replace : Bool) (action : Action) (hw : Hw)
      → process_rule drv false pi handle rule hw
        ≡ process_rule drv false pi handle (with_action priority replace action rule) hw
  unfolding process_rule build_rule
  process_rule-with_action rule priority replace action hw =
      same_in (get_table_info pi rule.table_name) rule priority replace action hw
