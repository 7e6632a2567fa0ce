-- ===== src/BitArray/Whole.antt =====
-- The operations on all words at once: setting, negating and comparing them.
use Prim.Native.Nat.{bit_xor}
use native.Mathlib.Nat.{one-le-pow}
use esnet_smartnic_fw.Base.{
  ℕ, zero, suc, ◌+◌, ◌-◌, ◌*◌, ◌/◌, ◌%◌, ◌^◌, ◌≤◌, ◌<◌, ◌≡◌, refl, ap, ◌∙◌, sym, inl, inr, true,
  false, not, ◌&&◌, List, [], ◌∷◌, map, replicate, ltb, ◌==◌, arith, Bool-cases, ==_iff,
}
use esnet_smartnic_fw.Word.{
  test_bit, test_bit_zero, test_bit-bit_xor, test_bit-complement, test_bit_above, lt_of_bits,
  eq_of_bits,
}
use esnet_smartnic_fw.BitArray.{
  full_mask, upper_mask_of, nwords_of, is_all_set_words, is_all_cleared_words, set_all_words,
  negate_all_words,
}
use esnet_smartnic_fw.BitArray.Words.{bit_at, Fits, Fits-cons}

-- The mask of the upper word covers its valid bits.
upper_mask_of-last : (n : ℕ) → 0 < n → n ≤ 64 → upper_mask_of n ≡ 2 ^ n - 1
unfolding upper_mask_of
upper_mask_of-last n h k = elim (Bool-cases (n == 64)) [
  | inl full ↦ let e : n ≡ 64 = (==_iff n 64).0 full in rw e
  | inr part ↦ let e : n % 64 ≡ n = ground arith in rw e (ground arith)
]

upper_mask_of-step : (n : ℕ) → 64 < n → upper_mask_of n ≡ upper_mask_of (n - 64)
unfolding upper_mask_of
upper_mask_of-step n h = let e : n % 64 ≡ (n - 64) % 64 = omega arith in rw e

test_bit-ones : (k p : ℕ) → test_bit (2 ^ k - 1) p ≡ ltb p k
test_bit-ones k p = ground (
  arith,
  test_bit_zero p,
  test_bit-complement k 0 p (one-le-pow k 2 (omega arith)),
  ap (λ (y : ℕ). test_bit y p) sub_zero,
)
  where
    sub_zero : 2 ^ k - 1 - 0 ≡ 2 ^ k - 1
    sub_zero = omega arith

negate-lt : (k x mask : ℕ) → mask ≡ 2 ^ k - 1 → x < 2 ^ k → bit_xor x mask < 2 ^ k
negate-lt k x mask e h = lt_of_bits k (bit_xor x mask) above
  where
    above : (p : ℕ) → k ≤ p → test_bit (bit_xor x mask) p ≡ false
    above p le = rw e (
        ground
          (arith, test_bit-ones k p, test_bit-bit_xor x (2 ^ k - 1) p, test_bit_above k x p h le))

zero_of_bits : (k w : ℕ) → w < 2 ^ k → ((m : ℕ) → m < k → test_bit w m ≡ false) → w ≡ 0
zero_of_bits k w h bits = eq_of_bits w 0 same
  where
    same : (p : ℕ) → test_bit w p ≡ test_bit 0 p
    same p = elim (Bool-cases (ltb p k)) [
      | inl low ↦ ground (arith, test_bit_zero p, bits p)
      | inr high ↦ ground (arith, test_bit_zero p, test_bit_above k w p h)
    ]

ones_of_bits : (k w : ℕ) → w < 2 ^ k → ((m : ℕ) → m < k → test_bit w m ≡ true) → w ≡ 2 ^ k - 1
ones_of_bits k w h bits = eq_of_bits w (2 ^ k - 1) same
  where
    same : (p : ℕ) → test_bit w p ≡ test_bit (2 ^ k - 1) p
    same p = elim (Bool-cases (ltb p k)) [
      | inl low ↦ ground (arith, test_bit-ones k p, bits p)
      | inr high ↦ ground (arith, test_bit-ones k p, test_bit_above k w p h)
    ]

module _ (upper : ℕ) where
  pub bit_at-set_all_words :
      (ws : List ℕ) (n m : ℕ)
      → upper ≡ upper_mask_of n
      → Fits ws n
      → bit_at (set_all_words upper ws) m ≡ ltb m n
  unfolding bit_at set_all_words
  bit_at-set_all_words [] n m e f = absurd f
  bit_at-set_all_words (w ∷ []) n m e f =
      rw (e, upper_mask_of-last n f.0 f.1) (ground (arith, test_bit-ones n m))
  bit_at-set_all_words (w ∷ v ∷ ws) n m e f = ground (
    arith,
    test_bit-ones 64 m,
    bit_at-set_all_words (v ∷ ws) (n - 64) (m - 64) (e ∙ upper_mask_of-step n f.0) f.2,
  )

  pub set_all_words-Fits :
      (ws : List ℕ) (n : ℕ) → upper ≡ upper_mask_of n → Fits ws n → Fits (set_all_words upper ws) n
  unfolding set_all_words
  set_all_words-Fits [] n e f = absurd f
  set_all_words-Fits (w ∷ []) n e f =
      (f.0, f.1, omega (arith, e, upper_mask_of-last n f.0 f.1, one-le-pow n 2 (omega arith)))
  set_all_words-Fits (w ∷ v ∷ ws) n e f =
      Fits-cons full_mask (set_all_words upper (v ∷ ws)) n f.0 (omega arith)
        (set_all_words-Fits (v ∷ ws) (n - 64) (e ∙ upper_mask_of-step n f.0) f.2)

  pub bit_at-negate_all_words :
      (ws : List ℕ) (n m : ℕ)
      → upper ≡ upper_mask_of n
      → Fits ws n
      → bit_at (negate_all_words upper ws) m ≡ (ltb m n && not (bit_at ws m))
  unfolding bit_at negate_all_words
  bit_at-negate_all_words [] n m e f = absurd f
  bit_at-negate_all_words (w ∷ []) n m e f =
      rw (e, upper_mask_of-last n f.0 f.1)
        (ground
          (arith, test_bit-ones n m, test_bit-bit_xor w (2 ^ n - 1) m, test_bit_above n w m f.2))
  bit_at-negate_all_words (w ∷ v ∷ ws) n m e f = ground (
    arith,
    test_bit-ones 64 m,
    test_bit-bit_xor w full_mask m,
    bit_at-negate_all_words (v ∷ ws) (n - 64) (m - 64) (e ∙ upper_mask_of-step n f.0) f.2,
  )

  pub negate_all_words-Fits :
      (ws : List ℕ) (n : ℕ)
      → upper ≡ upper_mask_of n
      → Fits ws n
      → Fits (negate_all_words upper ws) n
  unfolding negate_all_words
  negate_all_words-Fits [] n e f = absurd f
  negate_all_words-Fits (w ∷ []) n e f =
      (f.0, f.1, negate-lt n w upper (e ∙ upper_mask_of-last n f.0 f.1) f.2)
  negate_all_words-Fits (w ∷ v ∷ ws) n e f =
      Fits-cons (bit_xor w full_mask) (negate_all_words upper (v ∷ ws)) n f.0
        (negate-lt 64 w full_mask refl f.1)
        (negate_all_words-Fits (v ∷ ws) (n - 64) (e ∙ upper_mask_of-step n f.0) f.2)

  -- The comparison by words says that every valid bit is set.
  pub bit_at_of_is_all_set :
      (ws : List ℕ) (n m : ℕ)
      → upper ≡ upper_mask_of n
      → Fits ws n
      → is_all_set_words upper ws ≡ true
      → m < n
      → bit_at ws m ≡ true
  unfolding bit_at is_all_set_words
  bit_at_of_is_all_set [] n m e f h lt = absurd f
  bit_at_of_is_all_set (w ∷ []) n m e f h lt =
      let same : w ≡ 2 ^ n - 1 = (==_iff _ _).0 h ∙ e ∙ upper_mask_of-last n f.0 f.1 in
      rw same (ground (arith, test_bit-ones n m))
  bit_at_of_is_all_set (w ∷ v ∷ ws) n m e f h lt = ground (
    arith,
    ==_iff w full_mask,
    test_bit-ones 64 m,
    bit_at_of_is_all_set (v ∷ ws) (n - 64) (m - 64) (e ∙ upper_mask_of-step n f.0) f.2,
  )

  pub is_all_set_of_bits :
      (ws : List ℕ) (n : ℕ)
      → upper ≡ upper_mask_of n
      → Fits ws n
      → ((m : ℕ) → m < n → bit_at ws m ≡ true)
      → is_all_set_words upper ws ≡ true
  unfolding bit_at is_all_set_words
  is_all_set_of_bits [] n e f h = absurd f
  is_all_set_of_bits (w ∷ []) n e f h = (==_iff _ _).1 (
      ones_of_bits n w f.2 (λ m lt. ground (arith, h m lt))
      ∙ sym (e ∙ upper_mask_of-last n f.0 f.1))
  is_all_set_of_bits (w ∷ v ∷ ws) n e f h =
      let low : w ≡ full_mask = ones_of_bits 64 w f.1 (λ m lt. ground (arith, h m (omega arith))) in
      let rest =
        is_all_set_of_bits (v ∷ ws) (n - 64) (e ∙ upper_mask_of-step n f.0) f.2
          (λ m lt. ground (arith, h (m + 64))) in
      ground arith

pub bit_at_of_is_all_cleared :
    (ws : List ℕ) (m : ℕ) → is_all_cleared_words ws ≡ true → bit_at ws m ≡ false
unfolding bit_at is_all_cleared_words
bit_at_of_is_all_cleared [] m h = refl
bit_at_of_is_all_cleared (w ∷ ws) m h =
    ground (arith, test_bit_zero m, bit_at_of_is_all_cleared ws (m - 64), ==_iff w 0)

pub is_all_cleared_of_bits :
    (ws : List ℕ) (n : ℕ)
    → Fits ws n
    → ((m : ℕ) → m < n → bit_at ws m ≡ false)
    → is_all_cleared_words ws ≡ true
unfolding bit_at is_all_cleared_words
is_all_cleared_of_bits [] n f h = absurd f
is_all_cleared_of_bits (w ∷ []) n f h =
    let low : w ≡ 0 = zero_of_bits n w f.2 (λ m lt. ground (arith, h m lt)) in ground arith
is_all_cleared_of_bits (w ∷ v ∷ ws) n f h =
    let low : w ≡ 0 = zero_of_bits 64 w f.1 (λ m lt. ground (arith, h m (omega arith))) in
    let rest = is_all_cleared_of_bits (v ∷ ws) (n - 64) f.2 (λ m lt. ground (arith, h (m + 64))) in
    ground arith

pub map-zero-Fits : (ws : List ℕ) (n : ℕ) → Fits ws n → Fits (map (λ w. 0) ws) n
map-zero-Fits [] n f = f
map-zero-Fits (w ∷ []) n f = (f.0, f.1, one-le-pow n 2 (omega arith))
map-zero-Fits (w ∷ v ∷ ws) n f = (f.0, omega arith, map-zero-Fits (v ∷ ws) (n - 64) f.2)

pub bit_at-map_zero : (ws : List ℕ) (m : ℕ) → bit_at (map (λ w. 0) ws) m ≡ false
unfolding bit_at
bit_at-map_zero [] m = refl
bit_at-map_zero (w ∷ ws) m = ground (arith, test_bit_zero m, bit_at-map_zero ws (m - 64))

-- `k` words fit `n` bits if they are as many as `n` bits need.
replicate-Fits : (k n : ℕ) → n ≤ 64 * suc k → 64 * k < n → Fits (replicate (suc k) 0) n
replicate-Fits zero n h l = (omega arith, omega arith, one-le-pow n 2 (omega arith))
replicate-Fits (suc k) n h l =
    (omega arith, omega arith, replicate-Fits k (n - 64) (omega arith) (omega arith))

pub replicate-nwords_of-Fits : (n : ℕ) → 0 < n → Fits (replicate (nwords_of n) 0) n
unfolding nwords_of
replicate-nwords_of-Fits n h = elim (Bool-cases (ltb 64 n)) [
  | inl more ↦
      let e : (n + 64 - 1) / 64 ≡ suc ((n + 64 - 1) / 64 - 1) = ground arith in
      rw (more, e) (replicate-Fits ((n + 64 - 1) / 64 - 1) n (ground arith) (ground arith))
  | inr one ↦ rw one (omega arith, ground arith, one-le-pow n 2 (omega arith))
]
