-- ===== src/BitArray/Laws.antt =====
-- BitArray refines a Boolean function on the positions below its size.
use Prim.Native.Nat.{bit_and, bit_or, bit_xor}
use native.Mathlib.Nat.{pow-suc, le_trans, pow-le-pow_right, one-le-pow}
use esnet_smartnic_fw.Base.{
  ℕ, suc, ◌-◌, ◌/◌, ◌%◌, ◌^◌, ◌<◌, ◌≡◌, refl, ap, ◌∙◌, sym, ◌↔◌, inl, inr, Bool, true, false, not,
  ◌&&◌, ◌||◌, get_or, ltb, ◌==◌, if◌then◌else◌, arith, Bool-cases, ==_iff, some,
}
use esnet_smartnic_fw.Word.{
  test_bit, test_bit_zero, test_bit-bit_or, test_bit-bit_and, test_bit-bit_xor, test_bit_pow,
  test_bit-complement, test_bit_above, eq_of_bits,
}
use esnet_smartnic_fw.BitArray.{
  BitArray, bit_array, is_bit_set, is_all_set, is_all_cleared, set_bit, negate_bit, assign_bit,
  set_all, clear_all, negate_all, assign_all, and_assign, or_assign, update_bit, upper_mask_of,
  bit_mask, word_not, zip_words,
}
use esnet_smartnic_fw.BitArray.Words.{
  bit_at, Fits, bit_at-get_or, bit_at-update_word, update_word-Fits, bit_at-zip_words,
  zip_words-Fits, length_of_Fits,
}
use esnet_smartnic_fw.BitArray.Whole.{
  bit_at-set_all_words, set_all_words-Fits, bit_at-negate_all_words, negate_all_words-Fits,
  bit_at_of_is_all_set, is_all_set_of_bits, bit_at_of_is_all_cleared, is_all_cleared_of_bits,
  map-zero-Fits, bit_at-map_zero, replicate-nwords_of-Fits,
}

-- The array has `n` bits, at least one, and bit `m` is `b m`; the words hold no other bit.
pub record Represents (a : BitArray) (n : ℕ) (b : ℕ → Bool) : Type 0 where
  pub fits : Fits a.words n
  pub size : a.nbits ≡ n
  pub upper : a.upper_mask ≡ upper_mask_of n
  pub bits : (m : ℕ) → m < n → bit_at a.words m ≡ b m

-- Every bit of `a` is one of `b`'s, whatever `b` is called.
pub Represents-ext :
    (a : BitArray) (n : ℕ) (b c : ℕ → Bool)
    → Represents a n b
    → ((m : ℕ) → m < n → b m ≡ c m)
    → Represents a n c
Represents-ext a n b c r e = record {
  fits = r.fits;
  size = r.size;
  upper = r.upper;
  bits = λ m lt. r.bits m lt ∙ e m lt;
}

masked_bit : (w p q : ℕ) → test_bit w p ≡ false → test_bit (bit_and w (2 ^ p)) q ≡ false
masked_bit w p q off = elim (Bool-cases (p == q)) [
  | inl same ↦
      let e : q ≡ p = sym ((==_iff p q).0 same) in
      rw e (ground (arith, test_bit-bit_and w (2 ^ p) p))
  | inr other ↦ ground (arith, test_bit-bit_and w (2 ^ p) q, test_bit_pow p q)
]

-- The test of one bit of a word: `(w & (1 << p)) != 0`.
bit_and_mask-ne-zero : (w p : ℕ) → not (bit_and w (bit_mask p) == 0) ≡ test_bit w p
bit_and_mask-ne-zero w p = elim (Bool-cases (test_bit w p)) [
  | inl on ↦ ground (
    arith,
    test_bit-bit_and w (2 ^ p) p,
    test_bit_pow p p,
    test_bit_zero p,
    λ (e : bit_and w (2 ^ p) ≡ 0). ap (λ (y : ℕ). test_bit y p) e,
  )
  | inr off ↦
      let z : bit_and w (2 ^ p) ≡ 0 =
        eq_of_bits (bit_and w (2 ^ p)) 0 (λ q. masked_bit w p q off ∙ sym (test_bit_zero q)) in
      rw (z, off)
]

is_bit_set-bit_at : (a : BitArray) (m : ℕ) → is_bit_set a m ≡ (ltb m a.nbits && bit_at a.words m)
unfolding is_bit_set
is_bit_set-bit_at a m =
    ground
      (arith, bit_and_mask-ne-zero (get_or a.words (m / 64) 0) (m % 64), bit_at-get_or a.words m)

-- What `is_bit_set` answers, inside and outside the array.
pub is_bit_set_lem :
    (a : BitArray) (n : ℕ) (b : ℕ → Bool) (m : ℕ)
    → Represents a n b
    → is_bit_set a m ≡ (ltb m n && b m)
is_bit_set_lem a n b m r = ground (arith, is_bit_set-bit_at a m, r.size, r.bits m)

-- A new array has every bit cleared.
pub bit_array-Represents : (n : ℕ) → 0 < n → Represents (bit_array n) n (λ m. false)
unfolding bit_array
bit_array-Represents n h = record {
  fits = map-zero-Fits _ n (replicate-nwords_of-Fits n h);
  size = refl;
  upper = refl;
  bits = λ m lt. bit_at-map_zero _ m;
}

-- The three operations on one bit, by what each does to the bit.
module _ (u : ℕ → ℕ → ℕ) (h : Bool → Bool)
    (law : (q x p : ℕ)
      → q < 64
      → x < 2 ^ 64
      → test_bit (u q x) p ≡ (if q == p then h (test_bit x p) else test_bit x p)) where
  update_bit-Represents :
      (a : BitArray) (n : ℕ) (b : ℕ → Bool) (pos : ℕ)
      → Represents a n b
      → Represents (update_bit u a pos) n (λ m. if pos == m then h (b m) else b m)
  unfolding update_bit
  update_bit-Represents a n b pos r = elim (Bool-cases (ltb pos a.nbits)) [
    | inl inside ↦ rw inside (record {
      fits = update_word-Fits u h law a.words n pos r.fits (ground (arith, r.size));
      size = r.size;
      upper = r.upper;
      bits = λ m lt.
          ground (arith, bit_at-update_word u h law a.words n pos m r.fits, r.size, r.bits m);
    })
    | inr outside ↦ rw outside (Represents-ext a n b _ r (λ m lt. ground (arith, r.size)))
  ]

set_law :
    (q x p : ℕ)
    → q < 64
    → x < 2 ^ 64
    → test_bit (bit_or x (bit_mask q)) p ≡ (if q == p then true else test_bit x p)
set_law q x p hq hx = ground (arith, test_bit-bit_or x (2 ^ q) p, test_bit_pow q p)

negate_law :
    (q x p : ℕ)
    → q < 64
    → x < 2 ^ 64
    → test_bit (bit_xor x (bit_mask q)) p ≡ (if q == p then not (test_bit x p) else test_bit x p)
negate_law q x p hq hx = ground (arith, test_bit-bit_xor x (2 ^ q) p, test_bit_pow q p)

bit_mask-lt : (q : ℕ) → q < 64 → bit_mask q < 2 ^ 64
bit_mask-lt q h =
    le_trans (omega (arith, pow-suc 2 q, one-le-pow q 2))
      (pow-le-pow_right {n = 2} (omega arith) {i = suc q} {j = 64} h)

clear_law :
    (q x p : ℕ)
    → q < 64
    → x < 2 ^ 64
    → test_bit (bit_and x (word_not (bit_mask q))) p ≡ (if q == p then false else test_bit x p)
clear_law q x p hq hx = ground (
  arith,
  test_bit-bit_and x (2 ^ 64 - 1 - 2 ^ q) p,
  test_bit-complement 64 (2 ^ q) p (bit_mask-lt q hq),
  test_bit_pow q p,
  test_bit_above 64 x p hx,
)

-- For an array that stands for `b` on `n` bits, assigning a bit gives an array that stands for `b`
-- with that position changed; a position past the end changes nothing.
pub assign_bit-Represents :
    (a : BitArray) (n : ℕ) (b : ℕ → Bool) (pos : ℕ) (value : Bool)
    → Represents a n b
    → Represents (assign_bit a pos value) n (λ m. if pos == m then value else b m)
unfolding assign_bit
assign_bit-Represents a n b pos true r = update_bit-Represents _ (λ x. true) set_law a n b pos r
assign_bit-Represents a n b pos false r = update_bit-Represents _ (λ x. false) clear_law a n b pos r

pub set_bit-Represents :
    (a : BitArray) (n : ℕ) (b : ℕ → Bool) (pos : ℕ)
    → Represents a n b
    → Represents (set_bit a pos) n (λ m. if pos == m then true else b m)
unfolding set_bit
set_bit-Represents a n b pos r = update_bit-Represents _ (λ x. true) set_law a n b pos r

pub negate_bit-Represents :
    (a : BitArray) (n : ℕ) (b : ℕ → Bool) (pos : ℕ)
    → Represents a n b
    → Represents (negate_bit a pos) n (λ m. if pos == m then not (b m) else b m)
unfolding negate_bit
negate_bit-Represents a n b pos r = update_bit-Represents _ not negate_law a n b pos r

pub clear_all-Represents :
    (a : BitArray) (n : ℕ) (b : ℕ → Bool)
    → Represents a n b
    → Represents (clear_all a) n (λ m. false)
unfolding clear_all
clear_all-Represents a n b r = record {
  fits = map-zero-Fits a.words n r.fits;
  size = r.size;
  upper = r.upper;
  bits = λ m lt. bit_at-map_zero a.words m;
}

pub set_all-Represents :
    (a : BitArray) (n : ℕ) (b : ℕ → Bool) → Represents a n b → Represents (set_all a) n (λ m. true)
unfolding set_all
set_all-Represents a n b r = record {
  fits = set_all_words-Fits a.upper_mask a.words n r.upper r.fits;
  size = r.size;
  upper = r.upper;
  bits = λ m lt. ground (arith, bit_at-set_all_words a.upper_mask a.words n m r.upper r.fits);
}

-- For an array that stands for `b` on `n` bits, negating all gives an array that stands for the
-- negation of `b`, with no bit past the end set.
pub negate_all-Represents :
    (a : BitArray) (n : ℕ) (b : ℕ → Bool)
    → Represents a n b
    → Represents (negate_all a) n (λ m. not (b m))
unfolding negate_all
negate_all-Represents a n b r = record {
  fits = negate_all_words-Fits a.upper_mask a.words n r.upper r.fits;
  size = r.size;
  upper = r.upper;
  bits = λ m lt.
      ground (arith, bit_at-negate_all_words a.upper_mask a.words n m r.upper r.fits, r.bits m lt);
}

pub assign_all-Represents :
    (a : BitArray) (n : ℕ) (b : ℕ → Bool) (value : Bool)
    → Represents a n b
    → Represents (assign_all a value) n (λ m. value)
unfolding assign_all
assign_all-Represents a n b true r = set_all-Represents a n b r
assign_all-Represents a n b false r = clear_all-Represents a n b r

-- For two arrays of one size, `&=` does not fail its assertion, and the array then stands for the
-- conjunction, bit by bit.
pub and_assign-Represents :
    (a a' : BitArray) (n : ℕ) (b b' : ℕ → Bool)
    → Represents a n b
    → Represents a' n b'
    → (r : BitArray) × (and_assign a a' ≡ some r) × Represents r n (λ m. b m && b' m)
unfolding and_assign
and_assign-Represents a a' n b b' r r' = (
  record a { words = zip_words bit_and a.words a'.words },
  ground (arith, length_of_Fits a.words a'.words n r.fits r'.fits),
  record {
    fits =
        zip_words-Fits bit_and (λ x y. x && y) test_bit-bit_and refl a.words a'.words n r.fits
          r'.fits;
    size = r.size;
    upper = r.upper;
    bits = λ m lt. ground (
      arith,
      bit_at-zip_words bit_and (λ x y. x && y) test_bit-bit_and refl a.words a'.words n m r.fits
          r'.fits,
      r.bits m lt,
      r'.bits m lt,
    );
  },
)

-- For two arrays of one size, `|=` does not fail its assertion, and the array then stands for the
-- disjunction, bit by bit.
pub or_assign-Represents :
    (a a' : BitArray) (n : ℕ) (b b' : ℕ → Bool)
    → Represents a n b
    → Represents a' n b'
    → (r : BitArray) × (or_assign a a' ≡ some r) × Represents r n (λ m. b m || b' m)
unfolding or_assign
or_assign-Represents a a' n b b' r r' = (
  record a { words = zip_words bit_or a.words a'.words },
  ground (arith, length_of_Fits a.words a'.words n r.fits r'.fits),
  record {
    fits =
        zip_words-Fits bit_or (λ x y. x || y) test_bit-bit_or refl a.words a'.words n r.fits
          r'.fits;
    size = r.size;
    upper = r.upper;
    bits = λ m lt. ground (
      arith,
      bit_at-zip_words bit_or (λ x y. x || y) test_bit-bit_or refl a.words a'.words n m r.fits
          r'.fits,
      r.bits m lt,
      r'.bits m lt,
    );
  },
)

-- For an array that stands for `b` on `n` bits, `is_all_set`, which compares whole words, is true
-- exactly if `b` holds at each of the `n` positions.
pub is_all_set_iff :
    (a : BitArray) (n : ℕ) (b : ℕ → Bool)
    → Represents a n b
    → (is_all_set a ≡ true) ↔ ((m : ℕ) → m < n → b m ≡ true)
unfolding is_all_set
is_all_set_iff a n b r = (
  λ h m lt. sym (r.bits m lt) ∙ bit_at_of_is_all_set a.upper_mask a.words n m r.upper r.fits h lt,
  λ h. is_all_set_of_bits a.upper_mask a.words n r.upper r.fits (λ m lt. r.bits m lt ∙ h m lt),
)

-- For an array that stands for `b` on `n` bits, `is_all_cleared` is true exactly if `b` is false at
-- each of the `n` positions.
pub is_all_cleared_iff :
    (a : BitArray) (n : ℕ) (b : ℕ → Bool)
    → Represents a n b
    → (is_all_cleared a ≡ true) ↔ ((m : ℕ) → m < n → b m ≡ false)
unfolding is_all_cleared
is_all_cleared_iff a n b r = (
  λ h m lt. sym (r.bits m lt) ∙ bit_at_of_is_all_cleared a.words m h,
  λ h. is_all_cleared_of_bits a.words n r.fits (λ m lt. r.bits m lt ∙ h m lt),
)

-- The array for no value at all has a word, with no bit set.
pub is_all_cleared-bit_array_zero : is_all_cleared (bit_array 0) ≡ true
unfolding is_all_cleared bit_array
is_all_cleared-bit_array_zero = refl
