-- ===== src/Snp4/Pack/Fields.antt =====
-- Which matches pack_partial_key_mask accepts for a field, for keys and masks that are not negative.
use native.Mathlib.Nat.{pow-le-pow_right, one-le-pow, le_trans}
use Prim.Native.Nat.{compare}
use esnet_smartnic_fw.Base.{
  ℕ, zero, suc, ◌+◌, ◌-◌, ◌*◌, ◌^◌, ◌≤◌, ◌<◌, ◌≡◌, refl, ap, ◌∙◌, ◌↔◌, ◌⊎◌, inl, inr, Bool, true,
  false, ◌&&◌, leb, ltb, arith, Bool-cases,
}
use esnet_smartnic_fw.Base.Int.{pos}
use esnet_smartnic_fw.Word.{test_bit, test_bit_above, eq_of_bits}
use esnet_smartnic_fw.Word.Shift.{test_bit_ones, exists_bit}
use esnet_smartnic_fw.Agent.Info.{MatchInfoType, MatchInfo}
use esnet_smartnic_fw.Agent.Driver.{Status, SnMatch}
use esnet_smartnic_fw.Snp4.Gmp.{Gmp, GmpLaws, IsSize}
use esnet_smartnic_fw.Snp4.Pack.{
  Outcome, require, zero_mask, ones_mask, prefix_mask, pack_partial_key_mask,
}

-- The mask that a type gives where the format has none.
abbrev pub default_mask : MatchInfoType → ℕ → ℕ → ℕ
default_mask MatchInfoType.range bits k = k
default_mask MatchInfoType.unused bits k = 0
default_mask _ bits k = 2 ^ bits - 1

-- The masks that a type of field has: all or nothing, all, the leading bits, an upper end, any, none.
abbrev pub Allowed : MatchInfoType → ℕ → ℕ → ℕ → Type 0
Allowed MatchInfoType.bitfield bits k n = (n ≡ 0) ⊎ (n ≡ 2 ^ bits - 1)
Allowed MatchInfoType.constant bits k n = n ≡ 2 ^ bits - 1
Allowed MatchInfoType.prefix bits k n =
    (len : ℕ) × (len ≤ bits) × (n ≡ (2 ^ len - 1) * 2 ^ (bits - len))
Allowed MatchInfoType.range bits k n = k ≤ n
Allowed MatchInfoType.ternary bits k n = Unit
Allowed MatchInfoType.unused bits k n = n ≡ 0
Allowed MatchInfoType.invalid bits k n = ⊥
Allowed (MatchInfoType.other t) bits k n = ⊥

-- A key and a mask that fit the field and are of its type.
abbrev pub Fits : MatchInfo → ℕ → ℕ → Type 0
Fits info k n =
    (0 < info.bits) × (k < 2 ^ info.bits) × (n < 2 ^ info.bits) × Allowed info.type info.bits k n

abbrev pub Known : MatchInfoType → Type 0
Known MatchInfoType.invalid = ⊥
Known (MatchInfoType.other t) = ⊥
Known _ = Unit

pub IsSize-le : (v s bits : ℕ) → IsSize v s → s ≤ bits → (0 < bits) × (v < 2 ^ bits)
IsSize-le v s bits (positive, below, least, one) h =
    (omega arith, le_trans below (pow-le-pow_right (omega arith) h))

pub le-IsSize : (v s bits : ℕ) → IsSize v s → 0 < bits → v < 2 ^ bits → s ≤ bits
le-IsSize zero s bits (positive, below, least, one) h lt = omega (arith, one refl)
le-IsSize (suc v) s bits (positive, below, least, one) h lt = elim (Bool-cases (leb s bits)) [
  | inl le ↦ ground arith
  | inr gt ↦
      let large : 2 ^ bits ≤ 2 ^ (s - 1) = pow-le-pow_right (omega arith) (ground arith) in
      absurd (omega (arith, large, least (omega arith)))
]

pub require-done : (b : Bool) (s : Status) → (require b s ≡ Outcome.done tt) ↔ (b ≡ true)
require-done true s = (λ e. refl, λ e. refl)
require-done false s = (λ e. absurd cc, λ e. absurd cc)

module _ {Mpz : Type 0} {gmp : Gmp Mpz} (laws : GmpLaws gmp) where
  -- What a match means for a field: its key, and its mask or the default of the field's type.
  abbrev pub Means : MatchInfo → SnMatch Mpz → ℕ → ℕ → Type 0
  Means info (SnMatch.key_mask key mask) k n = (laws.value key ≡ pos k) × (laws.value mask ≡ pos n)
  Means info (SnMatch.key_only key) k n =
      (laws.value key ≡ pos k) × (n ≡ default_mask info.type info.bits k)
  Means info (SnMatch.prefix key len) k n =
      (laws.value key ≡ pos k) × (len ≤ info.bits) × (n ≡ (2 ^ len - 1) * 2 ^ (info.bits - len))
  Means info (SnMatch.range lower upper) k n = (k ≡ lower) × (n ≡ upper)
  Means info SnMatch.unused k n = (k ≡ 0) × (n ≡ 0)
  Means info SnMatch.unset k n = ⊥

  -- A field is packed to a key and a mask of these values.
  abbrev pub PacksTo : MatchInfo → SnMatch Mpz → ℕ → ℕ → Type 0
  PacksTo info m k n =
      (key mask : Mpz) × (pack_partial_key_mask gmp info m ≡ Outcome.done (key, mask))
      × (laws.value key ≡ pos k)
      × (laws.value mask ≡ pos n)

  pub zero_mask_value : laws.value (zero_mask gmp) ≡ pos 0
  unfolding zero_mask
  zero_mask_value = laws.set_ui_value 0

  ones_value : (x : ℕ) → laws.value (gmp.sub_ui (gmp.mul_2exp (gmp.set_ui 1) x) 1) ≡ pos (2 ^ x - 1)
  ones_value x =
      laws.sub_ui_value _ 1 (1 * 2 ^ x) (laws.mul_2exp_value _ x 1 (laws.set_ui_value 1))
        (omega (arith, one-le-pow x 2))
      ∙ ap pos (omega arith)

  pub ones_mask_value : (bits : ℕ) → laws.value (ones_mask gmp bits) ≡ pos (2 ^ bits - 1)
  unfolding ones_mask
  ones_mask_value bits = ones_value bits

  pub prefix_mask_value :
      (len bits : ℕ)
      → laws.value (prefix_mask gmp len bits) ≡ pos ((2 ^ len - 1) * 2 ^ (bits - len))
  unfolding prefix_mask
  prefix_mask_value len bits = laws.mul_2exp_value _ (bits - len) (2 ^ len - 1) (ones_value len)

  module _ (mask : Mpz) (n : ℕ) (is_n : laws.value mask ≡ pos n) where
    pub cmp-zero_mask : gmp.cmp mask (zero_mask gmp) ≡ compare n 0
    cmp-zero_mask = laws.cmp_value _ _ n 0 is_n zero_mask_value

    pub cmp-ones_mask : (bits : ℕ) → gmp.cmp mask (ones_mask gmp bits) ≡ compare n (2 ^ bits - 1)
    cmp-ones_mask bits = laws.cmp_value _ _ n (2 ^ bits - 1) is_n (ones_mask_value bits)

    module _ (bits : ℕ) (lt : n < 2 ^ bits) (nonzero : 0 < n) where
      above : test_bit n bits ≡ false
      above = test_bit_above bits n bits lt (omega arith)

      abbrev pub lowest : ℕ
      lowest = gmp.scan1 mask 0

      lowest_law : (q : ℕ) → test_bit n q ≡ true → (lowest ≤ q) × (test_bit n lowest ≡ true)
      lowest_law q e = let (a, b, c) = laws.scan1_value mask 0 n q is_n (omega arith) e in (b, c)

      lowest_set : (lowest < bits) × (test_bit n lowest ≡ true)
      lowest_set =
          let (q, e) = exists_bit n n (omega arith) nonzero in
          let (le, set) = lowest_law q e in
          elim (Bool-cases (ltb lowest bits)) [
            | inl inside ↦ (ground arith, set)
            | inr outside ↦ let clear = test_bit_above bits n lowest lt (ground arith) in absurd cc
          ]

      abbrev pub gap : ℕ
      gap = gmp.scan0 mask lowest

      gap_law :
          (q : ℕ)
          → lowest ≤ q
          → test_bit n q ≡ false
          → (lowest ≤ gap) × (gap ≤ q) × (test_bit n gap ≡ false)
      gap_law q le e = laws.scan0_value mask lowest n q is_n le e

      -- With no zero between the lowest one and the width, the mask is a run of ones.
      pub run-Allowed : bits ≤ gap → Allowed MatchInfoType.prefix bits 0 n
      run-Allowed no_gap = (
        bits - lowest,
        omega arith,
        eq_of_bits _ _ (λ p. bit p) ∙ ap (λ (t : ℕ). (2 ^ (bits - lowest) - 1) * 2 ^ t) low,
      )
        where
          low : lowest ≡ bits - (bits - lowest)
          low = omega (arith, lowest_set.0)

          bit : (p : ℕ) → test_bit n p ≡ test_bit ((2 ^ (bits - lowest) - 1) * 2 ^ lowest) p
          bit p = elim (Bool-cases (test_bit n p)) [
            | inl set ↦ ground (
              arith,
              test_bit_ones (bits - lowest) lowest p,
              lowest_law p set,
              lowest_set,
              test_bit_above bits n p lt,
            )
            | inr clear ↦
                ground
                  (arith, test_bit_ones (bits - lowest) lowest p, gap_law p, lowest_set, no_gap)
          ]

      pub Allowed-run : Allowed MatchInfoType.prefix bits 0 n → bits ≤ gap
      Allowed-run (len, le, e) =
          let (inside, set) = lowest_set in
          let (a, b, clear) = gap_law bits (omega arith) above in
          let ones : (p : ℕ) → test_bit n p ≡ (leb (bits - len) p && ltb p (bits - len + len)) =
            λ p. ap (λ (t : ℕ). test_bit t p) e ∙ test_bit_ones len (bits - len) p in
          ground (arith, ones gap, ones lowest, a, b, clear, set, le)
