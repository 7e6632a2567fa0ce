-- ===== src/Word/Shift.antt =====
-- A number shifted to the left with another in the bits below it, as the packing of fields into one
-- long number makes it.
use Prim.Native.Nat.{bit_or}
use native.Mathlib.Nat.{pow-suc, one-le-pow}
use esnet_smartnic_fw.Base.{
  ℕ, zero, suc, ◌+◌, ◌-◌, ◌*◌, ◌/◌, ◌%◌, ◌^◌, ◌≤◌, ◌<◌, ◌≡◌, ap, ◌∙◌, inl, inr, true, false, ◌&&◌,
  leb, ltb, ◌==◌, if◌then◌else◌, arith, Bool-cases,
}
use esnet_smartnic_fw.Word.{
  test_bit, test_bit_zero, test_bit-bit_or, test_bit-complement, test_bit_above, eq_of_bits,
}

pub pow_add : (a b : ℕ) → 2 ^ (a + b) ≡ 2 ^ a * 2 ^ b
pow_add zero b = ap (λ (t : ℕ). 2 ^ t) {x = 0 + b} {y = b} (omega arith) ∙ omega arith
pow_add (suc a) b =
    ap (λ (t : ℕ). 2 ^ t) {x = suc a + b} {y = suc (a + b)} (omega arith)
    ∙ grind (arith, pow-suc 2 (a + b), pow-suc 2 a, pow_add a b)

same_bit : (x y p : ℕ) → x ≡ y → test_bit x p ≡ test_bit y p
same_bit x y p e = ap (λ (z : ℕ). test_bit z p) e

pub test_bit_shifted :
    (k x r p : ℕ)
    → r < 2 ^ k
    → test_bit (x * 2 ^ k + r) p ≡ (if ltb p k then test_bit r p else test_bit x (p - k))
unfolding test_bit
test_bit_shifted zero x r p h =
    same_bit (x * 2 ^ 0 + r) x p (omega arith) ∙ ground (arith, same_bit x x p)
test_bit_shifted (suc k) x r zero h =
    let e : (x * 2 ^ suc k + r) % 2 ≡ r % 2 =
      omega (arith, pow-suc 2 k, ap (λ (t : ℕ). x * t) (pow-suc 2 k)) in
    ground (arith, e)
test_bit_shifted (suc k) x r (suc p) h =
    let e : (x * 2 ^ suc k + r) / 2 ≡ x * 2 ^ k + r / 2 =
      omega (arith, pow-suc 2 k, ap (λ (t : ℕ). x * t) (pow-suc 2 k)) in
    ap (λ (y : ℕ). test_bit y p) e
    ∙ test_bit_shifted k x (r / 2) p (omega (arith, pow-suc 2 k))
    ∙ ground arith

-- An inclusive or below a shifted number is a sum.
pub bit_or_shifted : (k x r : ℕ) → r < 2 ^ k → bit_or (x * 2 ^ k) r ≡ x * 2 ^ k + r
bit_or_shifted k x r h = eq_of_bits _ _ bit
  where
    pos : 0 < 2 ^ k
    pos = omega arith

    low : (p : ℕ) → test_bit (x * 2 ^ k) p ≡ (if ltb p k then false else test_bit x (p - k))
    low p =
        same_bit (x * 2 ^ k) (x * 2 ^ k + 0) p (omega arith)
        ∙ test_bit_shifted k x 0 p pos
        ∙ ground (arith, test_bit_zero p)

    bit : (p : ℕ) → test_bit (bit_or (x * 2 ^ k) r) p ≡ test_bit (x * 2 ^ k + r) p
    bit p = elim (Bool-cases (ltb p k)) [
      | inl below ↦
          ground (arith, test_bit-bit_or (x * 2 ^ k) r p, low p, test_bit_shifted k x r p h)
      | inr above ↦ ground (
        arith,
        test_bit-bit_or (x * 2 ^ k) r p,
        low p,
        test_bit_shifted k x r p h,
        test_bit_above k r p h (ground arith),
      )
    ]

-- The bits of a run of `len` ones above `k` zeros.
pub test_bit_ones :
    (len k p : ℕ) → test_bit ((2 ^ len - 1) * 2 ^ k) p ≡ (leb k p && ltb p (k + len))
test_bit_ones len k p =
    same_bit ((2 ^ len - 1) * 2 ^ k) ((2 ^ len - 1) * 2 ^ k + 0) p (omega arith)
    ∙ test_bit_shifted k (2 ^ len - 1) 0 p (one-le-pow k 2 (omega arith))
    ∙ ground (
      arith,
      test_bit_zero p,
      test_bit_zero (p - k),
      test_bit-complement len 0 (p - k) (one-le-pow len 2 (omega arith)),
    )

-- A number that is not 0 has a bit.
pub exists_bit : (fuel n : ℕ) → n ≤ fuel → 0 < n → (q : ℕ) × (test_bit n q ≡ true)
unfolding test_bit
exists_bit zero n h lt = absurd (omega arith)
exists_bit (suc fuel) n h lt = elim (Bool-cases (n % 2 == 1)) [
  | inl odd ↦ (0, odd)
  | inr even ↦ let (q, e) = exists_bit fuel (n / 2) (omega arith) (ground arith) in (suc q, e)
]

pub lt-two_pow : (n : ℕ) → n < 2 ^ n
lt-two_pow zero = omega arith
lt-two_pow (suc n) = omega (arith, pow-suc 2 n, lt-two_pow n)
