-- ===== src/Agent/Rule/Packing.antt =====
-- Insertions with the packing of rules of libsnp4/src/snp4_table.c: the driver's functions
-- rule_pack and rule_pack_matches are those of Snp4.Pack.
mod Tests
use esnet_smartnic_fw.Base.{
  ℕ, ◌-◌, ◌+◌, ◌≤◌, ◌^◌, ◌≡◌, refl, sym, ap, ◌∙◌, true, List, [], ◌∷◌, Option, none, some, inl, inr,
  length, take, and_then,
}
use esnet_smartnic_fw.Text.{Text}
use esnet_smartnic_fw.Agent.Info.{
  ActionInfo, TableInfo, PipelineInfo, get_table_info, get_table_action_info,
}
use esnet_smartnic_fw.Agent.Info.Laws.{get_table_info-name, get_table_action_info-name}
use esnet_smartnic_fw.Agent.Driver.{Status, SnMatch, SnParam, SnRule, SnPack, Driver}
use esnet_smartnic_fw.Agent.Rule.{
  TableRule, Stop, ◌>>=◌, pack_result, packed, pack_error, insert_rule, apply_rule, next_rule,
  process_rule, build_rule, process_rules,
}
use esnet_smartnic_fw.Agent.Rule.Build.{Matches, Params}
use esnet_smartnic_fw.Agent.Rule.Built.{build_rule-packing}
use esnet_smartnic_fw.Snp4.Gmp.{Gmp, GmpLaws}
use esnet_smartnic_fw.Snp4.Pack.{
  Buffer, Pack, pack_init, get_table_by_name, get_action_by_name, rule_pack, rule_pack_matches,
}
use esnet_smartnic_fw.Snp4.Pack.Concat.{concat_from}
use esnet_smartnic_fw.Snp4.Pack.Keys.{widths, Carries, AllFit}
use esnet_smartnic_fw.Snp4.Pack.Params.{param_widths, ParamsFit, CarriesParams}
use esnet_smartnic_fw.Snp4.Pack.Whole.{Conforms, rule_pack-Carries, rule_pack-double_free}

-- What the driver's calls take of a pack: the pointers with their lengths.
abbrev pub bytes_of : Buffer → ℕ → List ℕ
bytes_of Buffer.null len = []
bytes_of Buffer.freed len = []
bytes_of (Buffer.live bytes) len = take len bytes

abbrev pub sent : Pack → SnPack
sent p = record {
  key = bytes_of p.key p.key_len;
  mask = bytes_of p.mask p.mask_len;
  params = bytes_of p.params p.params_len;
}

abbrev pub answered : Option (Status × Pack) → Option (Status × SnPack)
answered none = none
answered (some (status, p)) = some (status, sent p)

module _ {Handle Mpz Hw : Type 0} (gmp : Gmp Mpz) (drv : Driver Handle Mpz Hw) where
  -- The driver with this packing.
  abbrev pub with_packing : Driver Handle Mpz Hw
  with_packing = record drv {
    rule_pack = λ pi sr. answered (rule_pack gmp pi sr);
    rule_pack_matches = λ infos bits ms. answered (rule_pack_matches gmp infos bits ms pack_init);
  }

module _ {Handle Mpz Hw : Type 0} {gmp : Gmp Mpz} (laws : GmpLaws gmp) (drv : Driver Handle Mpz Hw)
    (pi : PipelineInfo) (ti : TableInfo) (ai : ActionInfo) (rule : TableRule)
    (ms : List (SnMatch Mpz)) (ps : List (SnParam Mpz))
    (found : get_table_info pi rule.table_name ≡ some ti)
    (named : get_table_action_info ti rule.action.name ≡ some ai)
    (matches : Matches (with_packing gmp drv) ti rule ms)
    (params : Params (with_packing gmp drv) ai rule.action ps) where
  abbrev linked : Driver Handle Mpz Hw
  linked = with_packing gmp drv

  -- The rule that is packed.
  abbrev pub to_pack : SnRule Mpz
  to_pack = record {
    table_name = ti.name;
    matches = ms;
    action_name = some ai.name;
    params = ps;
    priority = rule.priority;
  }

  table_again : get_table_by_name pi to_pack.table_name ≡ some ti
  unfolding get_table_by_name get_table_info
  table_again = ap (get_table_info pi) (get_table_info-name pi rule.table_name ti found) ∙ found

  action_again : get_action_by_name ti to_pack.action_name ≡ some ai
  unfolding get_action_by_name get_table_action_info
  action_again =
      ap (get_table_action_info ti) (get_table_action_info-name ti rule.action.name ai named)
      ∙ named

  build_rule-linked :
      build_rule linked true pi rule
      ≡ (pack_result (answered (rule_pack gmp pi to_pack)) >>= λ p. inr (to_pack, p))
  unfolding insert_rule
  build_rule-linked = build_rule-packing linked pi ti ai rule ms ps found named matches params

  -- An insertion for a table and an action that the pipeline has, with as many matches and parameters
  -- as they have, which parse to keys and masks that fit the fields and to parameters that fit, is
  -- built, where the sizes in the description agree; and what goes to the driver comes from a pack
  -- in which every field's key and mask and every parameter is found again.
  pub build_rule-Carries :
      (ks ns vs : List ℕ)
      → AllFit laws ti.matches ms ks ns
      → ParamsFit laws ai.params ps vs
      → Conforms ti ai
      → (p : Pack) × (build_rule linked true pi rule ≡ inr (to_pack, sent p))
        × Carries p.key p.key_len ti.key_bits (widths ti.matches) ks
        × Carries p.mask p.mask_len ti.key_bits (widths ti.matches) ns
        × CarriesParams laws ai.param_bits
            (ti.response_bits - ti.actionid_bits)
            p
            (param_widths ai.params)
            vs
  unfolding pack_result packed pack_error ◌>>=◌
  build_rule-Carries ks ns vs h hp c =
      let (p, e, keys, masks, parameters) =
        rule_pack-Carries laws pi to_pack ti ai table_again action_again ks ns vs h hp c in
      (p, build_rule-linked ∙ rw e refl, keys, masks, parameters)

  -- Where the fields of the table are wider together than its key, an insertion whose key needs the
  -- excess does not return, and with it the loop over the rules: no response is written for it and no
  -- rule after it is processed.
  pub process_rules-double_free :
      (ks ns : List ℕ) (handle : Handle) (rules : List TableRule) (hw : Hw)
      → AllFit laws ti.matches ms ks ns
      → length ps ≡ length ai.params
      → 2 ^ ti.key_bits ≤ concat_from 0 (widths ti.matches) ks
      → process_rules linked true pi handle (rule ∷ rules) hw ≡ none
  unfolding process_rules process_rule apply_rule next_rule pack_result ◌>>=◌
  process_rules-double_free ks ns handle rules hw h counted wide =
      let e =
        rule_pack-double_free laws pi to_pack ti ai table_again action_again ks ns h counted wide in
      let faults : build_rule linked true pi rule ≡ inl Stop.fault =
        build_rule-linked ∙ rw e refl in
      rw faults refl
