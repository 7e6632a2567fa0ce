-- ===== src/Snp4/Pack/Accepts.antt =====
-- A field is packed exactly when its key and mask fit it and are of its type.
use esnet_smartnic_fw.Base.{
  ℕ, ◌^◌, ◌<◌, ◌≡◌, refl, sym, ap, ◌∙◌, ◌↔◌, ◌⊎◌, inl, inr, true, not, ◌||◌, ◌==◌, Option, none,
  some, ltb, arith, Bool-cases,
}
use esnet_smartnic_fw.Base.Int.{pos}
use esnet_smartnic_fw.Agent.Info.{MatchInfoType, MatchInfo}
use esnet_smartnic_fw.Agent.Driver.{Status, SnMatch}
use esnet_smartnic_fw.Snp4.Gmp.{Gmp, GmpLaws}
use esnet_smartnic_fw.Snp4.Pack.{
  Outcome, require, ◌>>=◌, ◌>>◌, is_eq, is_lt, zero_mask, ones_mask, prefix_mask, key_and_mask,
  mask_default, mask_or, is_prefix_form, check_mask, pack_partial_key_mask,
}
use esnet_smartnic_fw.Snp4.Pack.Fields.{
  default_mask, Allowed, Fits, Known, Means, PacksTo, IsSize-le, le-IsSize, require-done,
  zero_mask_value, ones_mask_value, prefix_mask_value, cmp-zero_mask, cmp-ones_mask, run-Allowed,
  Allowed-run,
}

>>-done :
    {A : Type 0} (m : Outcome (Unit {0})) (k : Outcome A) (a : A)
    → ((m >> k) ≡ Outcome.done a) ↔ ((m ≡ Outcome.done tt) × (k ≡ Outcome.done a))
>>-done (Outcome.done tt) k a = (λ e. (refl, e), λ (e, f). f)
>>-done (Outcome.fail s) k a = (λ e. absurd cc, λ (e, f). absurd cc)
>>-done Outcome.fault k a = (λ e. absurd cc, λ (e, f). absurd cc)

module _ {Mpz : Type 0} {gmp : Gmp Mpz} (laws : GmpLaws gmp) where
  module _ (key mask : Mpz) (k n bits : ℕ) (is_k : laws.value key ≡ pos k)
      (is_n : laws.value mask ≡ pos n) where
    is_prefix :
        n < 2 ^ bits
        → ((is_eq (gmp.cmp mask (zero_mask gmp)) || is_prefix_form gmp bits mask) ≡ true)
          ↔ Allowed MatchInfoType.prefix bits k n
    is_prefix lt = elim (Bool-cases (n == 0)) [
      | inl none_set ↦
          (λ e. (0, omega arith, ground arith), λ e. ground (arith, cmp-zero_mask laws mask n is_n))
      | inr more ↦
          let positive : 0 < n = ground arith in
          (
            λ e.
                run-Allowed laws mask n is_n bits lt positive
                  (ground (arith, cmp-zero_mask laws mask n is_n)),
            λ a.
                let wide = Allowed-run laws mask n is_n bits lt positive a in
                ground (arith, cmp-zero_mask laws mask n is_n),
          )
    ]

    -- The third switch accepts the masks of the type; `lt` is read for a prefix.
    check_mask_iff :
        (type : MatchInfoType)
        → n < 2 ^ bits
        → (check_mask gmp type bits key mask ≡ Outcome.done tt) ↔ Allowed type bits k n
    unfolding check_mask
    check_mask_iff MatchInfoType.bitfield lt =
        let zeros = cmp-zero_mask laws mask n is_n in
        let ones = cmp-ones_mask laws mask n is_n bits in
        let (f, g) =
          require-done
            (is_eq (gmp.cmp mask (zero_mask gmp)) || is_eq (gmp.cmp mask (ones_mask gmp bits)))
            Status.match_invalid_bitfield_mask in
        (
          λ e. elim (Bool-cases (n == 0)) [
            | inl none_set ↦ inl (ground arith)
            | inr more ↦ inr (ground (arith, f e, zeros, ones))
          ],
          λ a. g (elim a [
            | inl e ↦ ground (arith, zeros, ones)
            | inr e ↦ ground (arith, zeros, ones)
          ]),
        )
    check_mask_iff MatchInfoType.constant lt =
        let ones = cmp-ones_mask laws mask n is_n bits in
        let (f, g) =
          require-done (is_eq (gmp.cmp mask (ones_mask gmp bits)))
            Status.match_invalid_constant_mask in
        (λ e. ground (arith, f e, ones), λ a. g (ground (arith, ones)))
    check_mask_iff MatchInfoType.prefix lt =
        let (f, g) =
          require-done (is_eq (gmp.cmp mask (zero_mask gmp)) || is_prefix_form gmp bits mask)
            Status.match_invalid_prefix_mask in
        (λ e. (is_prefix lt).0 (f e), λ a. g ((is_prefix lt).1 a))
    check_mask_iff MatchInfoType.range lt =
        let cmp = laws.cmp_value mask key n k is_n is_k in
        let (f, g) =
          require-done (not (is_lt (gmp.cmp mask key))) Status.match_invalid_range_mask in
        (λ e. ground (arith, f e, cmp), λ a. g (ground (arith, cmp)))
    check_mask_iff MatchInfoType.ternary lt = (λ e. tt, λ a. refl)
    check_mask_iff MatchInfoType.unused lt =
        let zeros = cmp-zero_mask laws mask n is_n in
        let (f, g) =
          require-done (is_eq (gmp.cmp mask (zero_mask gmp))) Status.match_invalid_unused_mask in
        (λ e. ground (arith, f e, zeros), λ a. g (ground (arith, zeros)))
    check_mask_iff MatchInfoType.invalid lt = (λ e. absurd cc, λ a. absurd a)
    check_mask_iff (MatchInfoType.other t) lt = (λ e. absurd cc, λ a. absurd a)

    -- The third switch and the two checks of the width.
    abbrev checked : MatchInfoType → Outcome (Mpz × Mpz)
    checked type =
        check_mask gmp type bits key mask
        >> (require (not (ltb bits (gmp.sizeinbase_2 key))) Status.match_key_too_big
            >> (require (not (ltb bits (gmp.sizeinbase_2 mask))) Status.match_mask_too_big
                >> Outcome.done (key, mask)))

    key_width : (not (ltb bits (gmp.sizeinbase_2 key)) ≡ true) ↔ ((0 < bits) × (k < 2 ^ bits))
    key_width =
        let size = laws.sizeinbase_value key k is_k in
        (
          λ e. IsSize-le k (gmp.sizeinbase_2 key) bits size (ground arith),
          λ (a, b). let le = le-IsSize k (gmp.sizeinbase_2 key) bits size a b in ground arith,
        )

    mask_width : (not (ltb bits (gmp.sizeinbase_2 mask)) ≡ true) ↔ ((0 < bits) × (n < 2 ^ bits))
    mask_width =
        let size = laws.sizeinbase_value mask n is_n in
        (
          λ e. IsSize-le n (gmp.sizeinbase_2 mask) bits size (ground arith),
          λ (a, b). let le = le-IsSize n (gmp.sizeinbase_2 mask) bits size a b in ground arith,
        )

    checked-Fits :
        (type : MatchInfoType) (km : Mpz × Mpz)
        → checked type ≡ Outcome.done km
        → Fits (record { type = type; bits = bits }) k n
    checked-Fits type km e =
        let (e1, e2) = (>>-done _ _ _).0 e in
        let (e3, e4) = (>>-done _ _ _).0 e2 in
        let (e5, e6) = (>>-done _ _ _).0 e4 in
        let (positive, k_lt) = key_width.0 ((require-done _ _).0 e3) in
        let (p, n_lt) = mask_width.0 ((require-done _ _).0 e5) in
        (positive, k_lt, n_lt, (check_mask_iff type n_lt).0 e1)

    Fits-checked :
        (type : MatchInfoType)
        → Fits (record { type = type; bits = bits }) k n
        → checked type ≡ Outcome.done (key, mask)
    Fits-checked type (positive, k_lt, n_lt, allowed) = (>>-done _ _ _).1 (
      (check_mask_iff type n_lt).1 allowed,
      (>>-done _ _ _).1 (
        (require-done _ _).1 (key_width.1 (positive, k_lt)),
        (>>-done _ _ _).1 ((require-done _ _).1 (mask_width.1 (positive, n_lt)), refl),
      ),
    )

  -- The second switch, for a type that it knows and one that it does not.
  mask_default-cases :
      (type : MatchInfoType) (bits : ℕ) (key : Mpz) (k : ℕ)
      → laws.value key ≡ pos k
      → ((d : Mpz) × (mask_default gmp type bits key ≡ Outcome.done d)
          × (laws.value d ≡ pos (default_mask type bits k)))
        ⊎ ((mask_default gmp type bits key ≡ Outcome.fail Status.field_spec_unknown_type)
            × (Known type → ⊥))
  unfolding mask_default
  mask_default-cases MatchInfoType.bitfield bits key k e = inl (_, refl, ones_mask_value laws bits)
  mask_default-cases MatchInfoType.constant bits key k e = inl (_, refl, ones_mask_value laws bits)
  mask_default-cases MatchInfoType.prefix bits key k e = inl (_, refl, ones_mask_value laws bits)
  mask_default-cases MatchInfoType.range bits key k e = inl (_, refl, e)
  mask_default-cases MatchInfoType.ternary bits key k e = inl (_, refl, ones_mask_value laws bits)
  mask_default-cases MatchInfoType.unused bits key k e = inl (_, refl, zero_mask_value laws)
  mask_default-cases MatchInfoType.invalid bits key k e = inr (refl, λ h. absurd h)
  mask_default-cases (MatchInfoType.other t) bits key k e = inr (refl, λ h. absurd h)

  Allowed-Known : (type : MatchInfoType) (bits k n : ℕ) → Allowed type bits k n → Known type
  Allowed-Known MatchInfoType.bitfield bits k n a = tt
  Allowed-Known MatchInfoType.constant bits k n a = tt
  Allowed-Known MatchInfoType.prefix bits k n a = tt
  Allowed-Known MatchInfoType.range bits k n a = tt
  Allowed-Known MatchInfoType.ternary bits k n a = tt
  Allowed-Known MatchInfoType.unused bits k n a = tt
  Allowed-Known MatchInfoType.invalid bits k n a = absurd a
  Allowed-Known (MatchInfoType.other t) bits k n a = absurd a

  -- All behind the first switch.
  abbrev behind : MatchInfo → Option Mpz → Mpz → Outcome Mpz → Outcome (Mpz × Mpz)
  behind info given key default = default >>= λ d.
      check_mask gmp info.type info.bits key (mask_or gmp given d)
      >> (require (not (ltb info.bits (gmp.sizeinbase_2 key))) Status.match_key_too_big
          >> (require (not (ltb info.bits (gmp.sizeinbase_2 (mask_or gmp given d))))
                Status.match_mask_too_big
              >> Outcome.done (key, mask_or gmp given d)))

  module _ (info : MatchInfo) (m : SnMatch Mpz) (given : Option Mpz) (key : Mpz) (k n : ℕ)
      (found : key_and_mask gmp m info.bits ≡ Outcome.done (key, given))
      (is_k : laws.value key ≡ pos k)
      (is_n : (d : Mpz)
        → laws.value d ≡ pos (default_mask info.type info.bits k)
        → laws.value (mask_or gmp given d) ≡ pos n) where
    packed_behind :
        pack_partial_key_mask gmp info m
        ≡ behind info given key (mask_default gmp info.type info.bits key)
    unfolding pack_partial_key_mask
    packed_behind =
        ap
          (λ r. r >>= λ (q : Mpz × Option Mpz).
            behind info q.1 q.0 (mask_default gmp info.type info.bits q.0))
          found

    packed_iff : PacksTo laws info m k n ↔ Fits info k n
    packed_iff = elim (mask_default-cases info.type info.bits key k is_k) [
      | inl (d, known, is_d) ↦
          let whole = packed_behind ∙ ap (behind info given key) known in
          (
            λ (key', mask', e, e1, e2).
                checked-Fits key (mask_or gmp given d) k n info.bits is_k (is_n d is_d) info.type
                  (key', mask') (sym whole ∙ e),
            λ fits. (
              key,
              mask_or gmp given d,
              whole
                  ∙ Fits-checked key (mask_or gmp given d) k n info.bits is_k (is_n d is_d)
                      info.type fits,
              is_k,
              is_n d is_d,
            ),
          )
      | inr (unknown, none_known) ↦
          let whole = packed_behind ∙ ap (behind info given key) unknown in
          (
            λ (key', mask', e, e1, e2).
                let wrong : Outcome.fail Status.field_spec_unknown_type
                    ≡ Outcome.done (key', mask') =
                  sym whole ∙ e in
                absurd cc,
            λ (a, b, c, allowed).
                absurd (none_known (Allowed-Known info.type info.bits k n allowed)),
          )
    ]

  -- A match that means the key `k` and the mask `n` for a field, with the default of the field's type
  -- for a missing mask, is packed, to these two numbers, exactly when both fit the field's bits and
  -- the mask is one that the type has: 0 or all ones for a bit field, all ones for a constant, a run
  -- of leading ones for a prefix, no less than the key for a range, any for a ternary field and 0 for
  -- an unused one. A field of no bits and a type that the library does not know accept none.
  pub pack_partial_key_mask_iff :
      (info : MatchInfo) (m : SnMatch Mpz) (k n : ℕ)
      → Means laws info m k n
      → PacksTo laws info m k n ↔ Fits info k n
  unfolding key_and_mask mask_or
  pack_partial_key_mask_iff info (SnMatch.key_mask key mask) k n (is_k, is_n) =
      packed_iff info (SnMatch.key_mask key mask) (some mask) key k n refl is_k (λ d e. is_n)
  pack_partial_key_mask_iff info (SnMatch.key_only key) k n (is_k, is_n) =
      packed_iff info (SnMatch.key_only key) none key k n refl is_k (λ d e. e ∙ ap pos (sym is_n))
  pack_partial_key_mask_iff info (SnMatch.prefix key len) k n (is_k, le, is_n) =
      packed_iff info (SnMatch.prefix key len) (some (prefix_mask gmp len info.bits)) key k n
        (ground arith) is_k (λ d e. prefix_mask_value laws len info.bits ∙ ap pos (sym is_n))
  pack_partial_key_mask_iff info (SnMatch.range lower upper) k n (is_k, is_n) =
      packed_iff info (SnMatch.range lower upper) (some (gmp.set_ui upper)) (gmp.set_ui lower) k n
        refl (laws.set_ui_value lower ∙ ap pos (sym is_k))
        (λ d e. laws.set_ui_value upper ∙ ap pos (sym is_n))
  pack_partial_key_mask_iff info SnMatch.unused k n (is_k, is_n) =
      packed_iff info SnMatch.unused (some (zero_mask gmp)) (gmp.set_ui 0) k n refl
        (laws.set_ui_value 0 ∙ ap pos (sym is_k)) (λ d e. zero_mask_value laws ∙ ap pos (sym is_n))
  pack_partial_key_mask_iff info SnMatch.unset k n h = absurd h
