-- ===== src/Snp4/Pack/Keys.antt =====
-- The key and the mask of a rule: every field of the matches stands in the packed bytes.
use native.Mathlib.Nat.{pow-le-pow_right, le_trans}
use esnet_smartnic_fw.Base.{
  ℕ, suc, ◌+◌, ◌*◌, ◌/◌, ◌^◌, ◌≤◌, ◌<◌, ◌≡◌, refl, sym, ap, ◌∙◌, false, List, [], ◌∷◌, map, some,
  length, All, ltb, arith,
}
use esnet_smartnic_fw.Base.Int.{pos}
use esnet_smartnic_fw.Agent.Info.{MatchInfo}
use esnet_smartnic_fw.Agent.Driver.{Status, SnMatch}
use esnet_smartnic_fw.Snp4.Gmp.{Gmp, GmpLaws, IsByte, be_value}
use esnet_smartnic_fw.Snp4.Pack.{
  Outcome, Buffer, Pack, padded_bytes, extend, extend_all, export_to, store_keys, store_keys_of,
  rule_pack_matches,
}
use esnet_smartnic_fw.Snp4.Pack.Fields.{Fits, Means, le-IsSize}
use esnet_smartnic_fw.Snp4.Pack.Accepts.{pack_partial_key_mask_iff}
use esnet_smartnic_fw.Snp4.Pack.Bytes.{Holds, padded_bytes-small, export_to-Holds}
use esnet_smartnic_fw.Snp4.Pack.Concat.{
  total, FitWidths, concat_from, fields, fields-concat_from, concat-lt-total, extend_value,
}

abbrev pub widths : List MatchInfo → List ℕ
widths infos = map (λ i. i.bits) infos

-- A buffer of as many bytes as `bits` bits need, in which the fields of these widths are `vs`.
abbrev pub Carries : Buffer → ℕ → ℕ → List ℕ → List ℕ → Type 0
Carries buffer len bits ws vs =
    (bytes : List ℕ) × (buffer ≡ Buffer.live bytes)
    × (length bytes ≡ len)
    × (len ≡ (bits + 7) / 8)
    × All IsByte bytes
    × (fields ws (be_value bytes) ≡ vs)

module _ {Mpz : Type 0} {gmp : Gmp Mpz} (laws : GmpLaws gmp) where
  -- Each match means a key and a mask that fit its field.
  pub data AllFit : List MatchInfo → List (SnMatch Mpz) → List ℕ → List ℕ → Type 0 where
    none_left : AllFit [] [] [] []
    one_more :
        {info : MatchInfo} {infos : List MatchInfo} {m : SnMatch Mpz} {ms : List (SnMatch Mpz)}
        {k n : ℕ} {ks ns : List ℕ}
        → Means laws info m k n
        → Fits info k n
        → AllFit infos ms ks ns
        → AllFit (info ∷ infos) (m ∷ ms) (k ∷ ks) (n ∷ ns)

  -- A number that fits `bits` bits is exported.
  abbrev Exported : ℕ → Mpz → ℕ → Type 0
  Exported bits x n =
      (bytes : List ℕ) × (ltb bits (gmp.sizeinbase_2 x) ≡ false)
      × (export_to gmp (padded_bytes bits) x ≡ some bytes)
      × Holds (padded_bytes bits) n bytes

  pub export-fits :
      (bits : ℕ) (x : Mpz) (n : ℕ)
      → laws.value x ≡ pos n
      → 0 < bits
      → bits < 2 ^ 16
      → n < 2 ^ bits
      → Exported bits x n
  export-fits bits x n is_n positive small lt =
      let le = le-IsSize n (gmp.sizeinbase_2 x) bits (laws.sizeinbase_value x n is_n) positive lt in
      let len = padded_bytes-small bits (omega arith) in
      let (bytes, e, holds) =
        export_to-Holds laws (padded_bytes bits) x n is_n (omega (arith, len))
          (omega (arith, len)) in
      (bytes, ground arith, e, holds)

  -- A key and a mask that fit the table's key are stored.
  store_keys-Holds :
      (key_bits : ℕ) (old : Pack) (key mask : Mpz) (k n : ℕ)
      → Exported key_bits key k
      → Exported key_bits mask n
      → (p : Pack) × (store_keys gmp key_bits old key mask ≡ some (Status.ok, p))
        × ((bytes : List ℕ) × (p.key ≡ Buffer.live bytes) × Holds (padded_bytes key_bits) k bytes)
        × ((bytes : List ℕ) × (p.mask ≡ Buffer.live bytes) × Holds (padded_bytes key_bits) n bytes)
        × (p.key_len ≡ padded_bytes key_bits)
        × (p.mask_len ≡ padded_bytes key_bits)
        × (p.params ≡ old.params)
  unfolding store_keys
  store_keys-Holds key_bits old key mask k n (kb, k_fits, k_done, k_holds)
        (mb, n_fits, n_done, n_holds) =
      (
        record old {
          key = Buffer.live kb;
          key_len = padded_bytes key_bits;
          mask = Buffer.live mb;
          mask_len = padded_bytes key_bits;
        },
        rw (k_fits, k_done, n_fits, n_done) refl,
        (kb, refl, k_holds),
        (mb, refl, n_holds),
        refl,
        refl,
        refl,
      )

  pub extend_all-AllFit :
      {infos : List MatchInfo} {ms : List (SnMatch Mpz)} {ks ns : List ℕ}
      → AllFit infos ms ks ns
      → (key mask : Mpz) (a b : ℕ) → laws.value key ≡ pos a
      → laws.value mask ≡ pos b
      → (key' mask' : Mpz) × (extend_all gmp infos ms key mask ≡ Outcome.done (key', mask'))
        × (laws.value key' ≡ pos (concat_from a (widths infos) ks))
        × (laws.value mask' ≡ pos (concat_from b (widths infos) ns))
  unfolding extend_all
  extend_all-AllFit none_left key mask a b is_a is_b = (key, mask, refl, is_a, is_b)
  extend_all-AllFit
        (one_more {info = info} {infos = infos} {m = m} {ms = ms} {k = k} {n = n} means fits h) key
        mask a b is_a is_b =
      let (kp, mp, e, is_k, is_n) = (pack_partial_key_mask_iff laws info m k n means).1 fits in
      let (key', mask', e', is_key, is_mask) =
        extend_all-AllFit h (extend gmp info.bits key kp) (extend gmp info.bits mask mp)
          (a * 2 ^ info.bits + k) (b * 2 ^ info.bits + n)
          (extend_value laws info.bits key kp a k is_a is_k fits.1)
          (extend_value laws info.bits mask mp b n is_b is_n fits.2) in
      (key', mask', rw e e', is_key, is_mask)

  pub length-AllFit :
      {infos : List MatchInfo} {ms : List (SnMatch Mpz)} {ks ns : List ℕ}
      → AllFit infos ms ks ns
      → length ms ≡ length infos
  length-AllFit none_left = refl
  length-AllFit (one_more means fits h) = ap suc (length-AllFit h)

  AllFit-FitWidths :
      {infos : List MatchInfo} {ms : List (SnMatch Mpz)} {ks ns : List ℕ}
      → AllFit infos ms ks ns
      → FitWidths (widths infos) ks × FitWidths (widths infos) ns
  AllFit-FitWidths none_left = (tt, tt)
  AllFit-FitWidths (one_more means fits h) =
      let (kh, nh) = AllFit-FitWidths h in ((fits.1, kh), (fits.2, nh))

  -- Matches that mean keys and masks that fit the fields of a table, in order, are packed: the result
  -- is SNP4_STATUS_OK and two buffers of as many bytes as the table's key needs, most significant
  -- byte first, in which cutting at the positions of the fields finds every key and every mask again.
  -- The parameters of the pack stay. The fields together fit the key, and the key has from 1 to
  -- 65535 bits.
  pub rule_pack_matches-Carries :
      (infos : List MatchInfo) (key_bits : ℕ) (ms : List (SnMatch Mpz)) (ks ns : List ℕ)
      (old : Pack)
      → AllFit infos ms ks ns
      → total (widths infos) ≤ key_bits
      → 0 < key_bits
      → key_bits < 2 ^ 16
      → (p : Pack) × (rule_pack_matches gmp infos key_bits ms old ≡ some (Status.ok, p))
        × Carries p.key p.key_len key_bits (widths infos) ks
        × Carries p.mask p.mask_len key_bits (widths infos) ns
        × (p.params ≡ old.params)
  unfolding rule_pack_matches store_keys_of
  rule_pack_matches-Carries infos key_bits ms ks ns old h le positive small =
      let (key, mask, e, is_k, is_n) =
        extend_all-AllFit h gmp.init gmp.init 0 0 laws.init_value laws.init_value in
      let (kf, nf) = AllFit-FitWidths h in
      let wide = pow-le-pow_right {n = 2} (omega arith) le in
      let exported_key =
        export-fits key_bits key _ is_k positive small
          (le_trans (concat-lt-total (widths infos) ks kf) wide) in
      let exported_mask =
        export-fits key_bits mask _ is_n positive small
          (le_trans (concat-lt-total (widths infos) ns nf) wide) in
      let (p, done, (kb, ke, (kl, ks_small, kv)), (mb, me, (ml, ms_small, mv)), kn, mn, same) =
        store_keys-Holds key_bits old key mask _ _ exported_key exported_mask in
      let len = padded_bytes-small key_bits (omega arith) in
      (
        p,
        rw e done,
        (
          kb,
          ke,
          kl ∙ sym kn,
          kn ∙ len,
          ks_small,
          ap (fields (widths infos)) kv ∙ fields-concat_from 0 (widths infos) ks kf,
        ),
        (
          mb,
          me,
          ml ∙ sym mn,
          mn ∙ len,
          ms_small,
          ap (fields (widths infos)) mv ∙ fields-concat_from 0 (widths infos) ns nf,
        ),
        same,
      )
