-- ===== src/Snp4/Pack/Whole.antt =====
-- The packing of a whole rule: the lookups, the counts, the key and mask, and the parameters.
use esnet_smartnic_fw.Base.{
  ℕ, ◌+◌, ◌-◌, ◌^◌, ◌≤◌, ◌<◌, ◌≡◌, refl, ◌∙◌, true, List, some, none, length, ltb, arith, and_then,
  ==_refl, Bool-cases, inl, inr,
}
use esnet_smartnic_fw.Agent.Info.{ActionInfo, TableInfo, PipelineInfo}
use esnet_smartnic_fw.Agent.Driver.{Status, SnRule}
use esnet_smartnic_fw.Snp4.Gmp.{Gmp, GmpLaws, IsSize}
use esnet_smartnic_fw.Snp4.Pack.{
  Pack, pack_init, get_table_by_name, get_action_by_name, rule_pack_params, rule_pack_matches,
  or_clear, table_param_bits, pack_found, pack_action, pack_table, rule_pack, store_keys,
  store_keys_of, pack_clear,
}
use esnet_smartnic_fw.Snp4.Pack.Fields.{IsSize-le}
use esnet_smartnic_fw.Snp4.Pack.Concat.{total, concat_from}
use esnet_smartnic_fw.Snp4.Pack.Keys.{
  widths, Carries, AllFit, length-AllFit, extend_all-AllFit, rule_pack_matches-Carries,
}
use esnet_smartnic_fw.Snp4.Pack.Params.{
  param_widths, ParamsFit, CarriesParams, length-ParamsFit, rule_pack_params-Carries,
}

-- The sizes that the description of a table and of an action gives agree: the fields of the key fit
-- the key, and the parameters their action's share of the table's response.
pub record Conforms (ti : TableInfo) (ai : ActionInfo) : Type 0 where
  pub fields_fit : total (widths ti.matches) ≤ ti.key_bits
  pub key_positive : 0 < ti.key_bits
  pub key_bound : ti.key_bits < 2 ^ 16
  pub params_fit : total (param_widths ai.params) ≤ ai.param_bits
  pub response : ti.actionid_bits + ai.param_bits ≤ ti.response_bits
  pub response_bound : ti.response_bits < 2 ^ 16

module _ {Mpz : Type 0} {gmp : Gmp Mpz} (laws : GmpLaws gmp) (pi : PipelineInfo) (rule : SnRule Mpz)
    (ti : TableInfo) (ai : ActionInfo) (found : get_table_by_name pi rule.table_name ≡ some ti)
    (action : get_action_by_name ti rule.action_name ≡ some ai) where
  param_bits :
      ti.actionid_bits ≤ ti.response_bits
      → ti.response_bits < 2 ^ 16
      → table_param_bits gmp ti ≡ ti.response_bits - ti.actionid_bits
  unfolding table_param_bits
  param_bits le small = omega arith

  rule_pack-found : rule_pack gmp pi rule ≡ pack_found gmp ti ai rule
  unfolding rule_pack pack_table pack_action
  rule_pack-found = rw (found, action) refl

  pack_counted :
      length rule.matches ≡ length ti.matches
      → length rule.params ≡ length ai.params
      → pack_found gmp ti ai rule
        ≡ and_then (rule_pack_matches gmp ti.matches ti.key_bits rule.matches pack_init) λ matched.
          or_clear gmp matched λ pack.
            and_then
              (rule_pack_params gmp ai.params
                (table_param_bits gmp ti)
                ai.param_bits
                rule.params
                pack)
              λ packed. or_clear gmp packed λ pack'. some (Status.ok, pack')
  unfolding pack_found
  pack_counted em ep = rw (em, ep, ==_refl (length ti.matches), ==_refl (length ai.params)) refl

  -- A rule for a table and an action that the pipeline has, whose matches mean keys and masks that
  -- fit the table's fields and whose parameters fit the action's, is packed, where the sizes in the
  -- description agree: every field's key and mask is found again in the packed key and mask, and
  -- every parameter in the packed parameters, which have as many bytes as the longest parameters of
  -- the table need and none where the action has no parameters.
  pub rule_pack-Carries :
      (ks ns vs : List ℕ)
      → AllFit laws ti.matches rule.matches ks ns
      → ParamsFit laws ai.params rule.params vs
      → Conforms ti ai
      → (p : Pack) × (rule_pack gmp pi rule ≡ some (Status.ok, p))
        × Carries p.key p.key_len ti.key_bits (widths ti.matches) ks
        × Carries p.mask p.mask_len ti.key_bits (widths ti.matches) ns
        × CarriesParams laws ai.param_bits
            (ti.response_bits - ti.actionid_bits)
            p
            (param_widths ai.params)
            vs
  unfolding or_clear
  rule_pack-Carries ks ns vs h hp c =
      let (p, e, keys, masks, same) =
        rule_pack_matches-Carries laws ti.matches ti.key_bits rule.matches ks ns pack_init h
          c.fields_fit c.key_positive c.key_bound in
      let (p', e', params, k1, k2, m1, m2) =
        rule_pack_params-Carries laws ai.params (ti.response_bits - ti.actionid_bits) ai.param_bits
          rule.params vs p hp c.params_fit (omega (arith, c.response))
          (omega (arith, c.response_bound)) in
      let bits : table_param_bits gmp ti ≡ ti.response_bits - ti.actionid_bits =
        param_bits (omega (arith, c.response)) c.response_bound in
      (
        p',
        rule_pack-found
            ∙ pack_counted (length-AllFit laws h) (length-ParamsFit laws hp)
            ∙ rw (e, bits, e') refl,
        rw (k1, k2) keys,
        rw (m1, m2) masks,
        params,
      )

  -- Where the fields of a table are wider together than its key, a rule whose key needs the excess is
  -- not refused: rule packing frees its buffers twice.
  pub rule_pack-double_free :
      (ks ns : List ℕ)
      → AllFit laws ti.matches rule.matches ks ns
      → length rule.params ≡ length ai.params
      → 2 ^ ti.key_bits ≤ concat_from 0 (widths ti.matches) ks
      → rule_pack gmp pi rule ≡ none
  unfolding or_clear rule_pack_matches store_keys_of store_keys pack_clear
  rule_pack-double_free ks ns h counted wide =
      let (key, mask, e, is_k, is_n) =
        extend_all-AllFit laws h gmp.init gmp.init 0 0 laws.init_value laws.init_value in
      let size = laws.sizeinbase_value key _ is_k in
      let large : ltb ti.key_bits (gmp.sizeinbase_2 key) ≡ true =
        too_large (gmp.sizeinbase_2 key) (concat_from 0 (widths ti.matches) ks) size wide in
      rule_pack-found ∙ pack_counted (length-AllFit laws h) counted ∙ rw (e, large) refl
    where
      too_large : (s v : ℕ) → IsSize v s → 2 ^ ti.key_bits ≤ v → ltb ti.key_bits s ≡ true
      too_large s v size le = elim (Bool-cases (ltb ti.key_bits s)) [
        | inl yes_large ↦ yes_large
        | inr small ↦ absurd (omega (arith, (IsSize-le v s ti.key_bits size (ground arith)).1))
      ]
