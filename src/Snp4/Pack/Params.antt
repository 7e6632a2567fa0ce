-- ===== src/Snp4/Pack/Params.antt =====
-- The parameters of a rule, and the packing of the whole rule.
use native.Mathlib.Nat.{pow-le-pow_right, le_trans}
use esnet_smartnic_fw.Base.{
  ℕ, zero, suc, ◌+◌, ◌*◌, ◌^◌, ◌≤◌, ◌<◌, ◌≡◌, refl, sym, ap, ◌∙◌, false, List, [], ◌∷◌, map, some,
  length, ltb, ◌==◌, arith,
}
use esnet_smartnic_fw.Base.Int.{pos}
use esnet_smartnic_fw.Agent.Info.{ParamInfo}
use esnet_smartnic_fw.Agent.Driver.{Status, SnParam}
use esnet_smartnic_fw.Snp4.Gmp.{Gmp, GmpLaws}
use esnet_smartnic_fw.Snp4.Pack.{
  Outcome, Buffer, Pack, padded_bytes, param_value, pack_partial_param, extend, extend_params,
  store_params, rule_pack_params,
}
use esnet_smartnic_fw.Snp4.Pack.Fields.{le-IsSize}
use esnet_smartnic_fw.Snp4.Pack.Bytes.{padded_bytes-small, export_to-Holds}
use esnet_smartnic_fw.Snp4.Pack.Concat.{
  total, FitWidths, concat_from, fields, fields-concat_from, concat-lt-total, extend_value,
}
use esnet_smartnic_fw.Snp4.Pack.Keys.{Carries}

abbrev pub param_widths : List ParamInfo → List ℕ
param_widths infos = map (λ i. i.bits) infos

module _ {Mpz : Type 0} {gmp : Gmp Mpz} (laws : GmpLaws gmp) where
  abbrev pub ParamMeans : SnParam Mpz → ℕ → Type 0
  ParamMeans (SnParam.ui n) v = v ≡ n
  ParamMeans (SnParam.mpz x) v = laws.value x ≡ pos v
  ParamMeans SnParam.unset v = ⊥

  -- Each parameter stands for a number that fits its field.
  pub data ParamsFit : List ParamInfo → List (SnParam Mpz) → List ℕ → Type 0 where
    none_left : ParamsFit [] [] []
    one_more :
        {info : ParamInfo} {infos : List ParamInfo} {p : SnParam Mpz} {ps : List (SnParam Mpz)}
        {v : ℕ} {vs : List ℕ}
        → ParamMeans p v
        → 0 < info.bits
        → v < 2 ^ info.bits
        → ParamsFit infos ps vs
        → ParamsFit (info ∷ infos) (p ∷ ps) (v ∷ vs)

  pub length-ParamsFit :
      {infos : List ParamInfo} {ps : List (SnParam Mpz)} {vs : List ℕ}
      → ParamsFit infos ps vs
      → length ps ≡ length infos
  length-ParamsFit none_left = refl
  length-ParamsFit (one_more means positive lt h) = ap suc (length-ParamsFit h)

  ParamsFit-FitWidths :
      {infos : List ParamInfo} {ps : List (SnParam Mpz)} {vs : List ℕ}
      → ParamsFit infos ps vs
      → FitWidths (param_widths infos) vs
  ParamsFit-FitWidths none_left = tt
  ParamsFit-FitWidths (one_more means positive lt h) = (lt, ParamsFit-FitWidths h)

  param_value-done :
      (p : SnParam Mpz) (v : ℕ)
      → ParamMeans p v
      → (x : Mpz) × (param_value gmp p ≡ Outcome.done x) × (laws.value x ≡ pos v)
  unfolding param_value
  param_value-done (SnParam.ui n) v e = (_, refl, laws.set_ui_value n ∙ ap pos (sym e))
  param_value-done (SnParam.mpz x) v e = (x, refl, e)
  param_value-done SnParam.unset v h = absurd h

  pack_partial_param-done :
      (info : ParamInfo) (p : SnParam Mpz) (v : ℕ)
      → ParamMeans p v
      → 0 < info.bits
      → v < 2 ^ info.bits
      → (x : Mpz) × (pack_partial_param gmp info p ≡ Outcome.done x) × (laws.value x ≡ pos v)
  unfolding pack_partial_param
  pack_partial_param-done info p v means positive lt =
      let (x, e, is_v) = param_value-done p v means in
      let le =
        le-IsSize v (gmp.sizeinbase_2 x) info.bits (laws.sizeinbase_value x v is_v) positive lt in
      let fits : ltb info.bits (gmp.sizeinbase_2 x) ≡ false = ground arith in
      (x, rw (e, fits) refl, is_v)

  extend_params-ParamsFit :
      {infos : List ParamInfo} {ps : List (SnParam Mpz)} {vs : List ℕ}
      → ParamsFit infos ps vs
      → (acc : Mpz) (a : ℕ) → laws.value acc ≡ pos a
      → (x : Mpz) × (extend_params gmp infos ps acc ≡ Outcome.done x)
        × (laws.value x ≡ pos (concat_from a (param_widths infos) vs))
  unfolding extend_params
  extend_params-ParamsFit none_left acc a is_a = (acc, refl, is_a)
  extend_params-ParamsFit
        (one_more {info = info} {infos = infos} {p = p} {ps = ps} {v = v} means positive lt h) acc a
        is_a =
      let (part, e, is_v) = pack_partial_param-done info p v means positive lt in
      let (x, e', is_x) =
        extend_params-ParamsFit h (extend gmp info.bits acc part) (a * 2 ^ info.bits + v)
          (extend_value laws info.bits acc part a v is_a is_v lt) in
      (x, rw e e', is_x)

  -- Where the action has no parameters there are no bytes.
  abbrev pub CarriesParams : ℕ → ℕ → Pack → List ℕ → List ℕ → Type 0
  CarriesParams zero table_bits p ws vs = p.params_len ≡ 0
  CarriesParams (suc n) table_bits p ws vs = Carries p.params p.params_len table_bits ws vs

  pub rule_pack_params-Carries :
      (infos : List ParamInfo) (table_bits action_bits : ℕ) (ps : List (SnParam Mpz)) (vs : List ℕ)
      (old : Pack)
      → ParamsFit infos ps vs
      → total (param_widths infos) ≤ action_bits
      → action_bits ≤ table_bits
      → table_bits < 2 ^ 16
      → (p : Pack) × (rule_pack_params gmp infos table_bits action_bits ps old
          ≡ some (Status.ok, p))
        × CarriesParams action_bits table_bits p (param_widths infos) vs
        × (p.key ≡ old.key)
        × (p.key_len ≡ old.key_len)
        × (p.mask ≡ old.mask)
        × (p.mask_len ≡ old.mask_len)
  unfolding rule_pack_params store_params
  rule_pack_params-Carries infos table_bits zero ps vs old h le fits small =
      (_, refl, refl, refl, refl, refl, refl)
  rule_pack_params-Carries infos table_bits (suc n) ps vs old h le fits small =
      let (x, e, is_x) = extend_params-ParamsFit h gmp.init 0 laws.init_value in
      let v = concat_from 0 (param_widths infos) vs in
      let vf = ParamsFit-FitWidths h in
      let lt : v < 2 ^ suc n =
        le_trans (concat-lt-total (param_widths infos) vs vf)
          (pow-le-pow_right {n = 2} (omega arith) le) in
      let size =
        le-IsSize v (gmp.sizeinbase_2 x) (suc n) (laws.sizeinbase_value x v is_x) (omega arith)
          lt in
      let len = padded_bytes-small table_bits (omega arith) in
      let (bytes, done, (count, bytes_small, is_v)) =
        export_to-Holds laws (padded_bytes table_bits) x v is_x (omega (arith, len))
          (omega (arith, len)) in
      let some_bits : (suc n == 0) ≡ false = ground arith in
      let ok : ltb (suc n) (gmp.sizeinbase_2 x) ≡ false = ground arith in
      (
        record old { params = Buffer.live bytes; params_len = padded_bytes table_bits },
        rw (some_bits, e, ok, done) refl,
        (
          bytes,
          refl,
          count,
          len,
          bytes_small,
          ap (fields (param_widths infos)) is_v ∙ fields-concat_from 0 (param_widths infos) vs vf,
        ),
        refl,
        refl,
        refl,
        refl,
      )
