-- ===== src/Snp4/Gmp/Natural.antt =====
-- The natural numbers as an instance of what the packing uses of GMP: its documented behaviour can
-- be met.
use mathlib.Core.Path.{ap₂, subst}
use Prim.Native.Nat.{compare, bit_or}
use native.Mathlib.Nat.{pow-suc, le_trans, pow-le-pow_right}
use esnet_smartnic_fw.Base.{
  ℕ, zero, suc, ◌+◌, ◌-◌, ◌*◌, ◌/◌, ◌%◌, ◌^◌, ◌≤◌, ◌<◌, ◌≡◌, refl, sym, ap, ◌∙◌, inl, inr, Bool,
  true, false, List, [], ◌∷◌, length, All, ltb, ◌==◌, if◌then◌else◌, arith, Bool-cases,
}
use esnet_smartnic_fw.Base.Int.{pos}
use esnet_smartnic_fw.Word.{xor, test_bit, test_bit_above}
use esnet_smartnic_fw.Word.Shift.{lt-two_pow, pow_add}
use esnet_smartnic_fw.Snp4.Gmp.{Gmp, GmpLaws, IsSize, IsByte, be_value, be_value_from}

unfoldable pub size_in_base_2 : ℕ → ℕ → ℕ
size_in_base_2 zero n = 1
size_in_base_2 (suc fuel) n =
    let rest = size_in_base_2 fuel (n / 2) in if ltb n 2 then 1 else suc rest

unfoldable pub first_bit : ℕ → Bool → ℕ → ℕ → ℕ
first_bit zero b n s = s
first_bit (suc fuel) b n s =
    let rest = first_bit fuel b n (s + 1) in if xor (test_bit n s) b then rest else s

unfoldable pub bytes_before : ℕ → ℕ → List ℕ → List ℕ
bytes_before zero n acc = acc
bytes_before (suc count) n acc = bytes_before count (n / 256) (n % 256 ∷ acc)

unfoldable pub bytes_of : ℕ → List ℕ
unfolding size_in_base_2 bytes_before
bytes_of zero = []
bytes_of (suc n) = bytes_before ((size_in_base_2 (suc n) (suc n) + 7) / 8) (suc n) []

abbrev pub natural : Gmp ℕ
natural = record {
  init = 0;
  set_ui = λ n. n;
  mul_2exp = λ x k. x * 2 ^ k;
  sub_ui = λ x k. x - k;
  ior = bit_or;
  cmp = compare;
  sizeinbase_2 = λ n. size_in_base_2 n n;
  scan0 = λ x s. first_bit (x + 1) false x s;
  scan1 = λ x s. first_bit (x + 1) true x s;
  export_bytes = bytes_of;
}

doubled-IsSize : (r n : ℕ) → 2 ≤ n → IsSize (n / 2) r → IsSize n (suc r)
doubled-IsSize zero n h (positive, below, least, one) = absurd (omega (arith, positive))
doubled-IsSize (suc r) n h (positive, below, least, one) = (
  omega arith,
  omega (arith, below, pow-suc 2 (suc r)),
  λ p. omega (
    arith,
    least (omega arith),
    pow-suc 2 r,
    ap (λ (t : ℕ). 2 ^ t) {x = suc (suc r) - 1} {y = suc r} (omega arith),
    ap (λ (t : ℕ). 2 ^ t) {x = suc r - 1} {y = r} (omega arith),
  ),
  λ e. absurd (omega arith),
)

pub size_in_base_2-IsSize : (fuel n : ℕ) → n ≤ fuel → IsSize n (size_in_base_2 fuel n)
unfolding size_in_base_2
size_in_base_2-IsSize zero n h = (omega arith, omega arith, λ p. omega arith, λ e. refl)
size_in_base_2-IsSize (suc fuel) n h = elim (Bool-cases (ltb n 2)) [
  | inl small ↦ rw small (omega arith, ground arith, λ p. omega arith, λ e. refl)
  | inr large ↦ rw large (
      doubled-IsSize (size_in_base_2 fuel (n / 2)) n (ground arith)
        (size_in_base_2-IsSize fuel (n / 2) (omega arith)))
]

later_bit :
    (b : Bool) (n s q : ℕ) → s ≤ q → xor (test_bit n s) b ≡ true → test_bit n q ≡ b → suc s ≤ q
later_bit true n s q le other e = elim (Bool-cases (s == q)) [
  | inl same ↦
      let here : test_bit n s ≡ test_bit n q = ap (test_bit n) (ground arith) in ground arith
  | inr apart ↦ ground arith
]
later_bit false n s q le other e = elim (Bool-cases (s == q)) [
  | inl same ↦
      let here : test_bit n s ≡ test_bit n q = ap (test_bit n) (ground arith) in ground arith
  | inr apart ↦ ground arith
]

first_bit_lem :
    (fuel : ℕ) (b : Bool) (n s q : ℕ)
    → s ≤ q
    → q < s + fuel
    → test_bit n q ≡ b
    → (s ≤ first_bit fuel b n s)
      × (first_bit fuel b n s ≤ q)
      × (test_bit n (first_bit fuel b n s) ≡ b)
unfolding first_bit
first_bit_lem zero b n s q le lt e = absurd (omega arith)
first_bit_lem (suc fuel) b n s q le lt e = elim (Bool-cases (xor (test_bit n s) b)) [
  | inr found ↦ rw found (omega arith, le, equal (test_bit n s) b found)
  | inl other ↦
      let later : suc s ≤ q = later_bit b n s q le other e in
      let (a, c, d) = first_bit_lem fuel b n (s + 1) q (omega (arith, later)) (omega arith) e in
      rw other (omega (arith, a), c, d)
]
  where
    equal : (x y : Bool) → xor x y ≡ false → x ≡ y
    equal true true h = refl
    equal true false h = absurd cc
    equal false y h = sym h

pub pos-injective : {m n : ℕ} → pos m ≡ pos n → m ≡ n
pos-injective e = cc

pub scan1_law :
    (x s n q : ℕ)
    → pos x ≡ pos n
    → s ≤ q
    → test_bit n q ≡ true
    → (s ≤ natural.scan1 x s) × (natural.scan1 x s ≤ q) × (test_bit n (natural.scan1 x s) ≡ true)
scan1_law x s n q e le set =
    let same : test_bit x q ≡ test_bit n q = ap (λ (t : ℕ). test_bit t q) (pos-injective e) in
    let (a, b, c) = first_bit_lem (x + 1) true x s q le (below x q (same ∙ set)) (same ∙ set) in
    (a, b, ap (λ (t : ℕ). test_bit t (first_bit (x + 1) true x s)) (sym (pos-injective e)) ∙ c)
  where
    below : (y p : ℕ) → test_bit y p ≡ true → p < s + (y + 1)
    below y p h = elim (Bool-cases (ltb p (y + 1))) [
      | inl lt ↦ ground arith
      | inr ge ↦ let clear = test_bit_above y y p (lt-two_pow y) (ground arith) in absurd cc
    ]

pub scan0_law :
    (x s n q : ℕ)
    → pos x ≡ pos n
    → s ≤ q
    → test_bit n q ≡ false
    → (s ≤ natural.scan0 x s) × (natural.scan0 x s ≤ q) × (test_bit n (natural.scan0 x s) ≡ false)
scan0_law x s n q e le clear =
    let same : test_bit x q ≡ test_bit n q = ap (λ (t : ℕ). test_bit t q) (pos-injective e) in
    let back : test_bit x (first_bit (x + 1) false x s) ≡ test_bit n (first_bit (x + 1) false x s) =
      ap (λ (t : ℕ). test_bit t (first_bit (x + 1) false x s)) (pos-injective e) in
    elim (Bool-cases (ltb q (s + (x + 1)))) [
      | inl near ↦
          let (a, b, c) = first_bit_lem (x + 1) false x s q le (ground arith) (same ∙ clear) in
          (a, b, sym back ∙ c)
      | inr far ↦
          let (a, b, c) =
            first_bit_lem (x + 1) false x s (s + x) (omega arith) (omega arith)
              (test_bit_above x x (s + x) (lt-two_pow x) (omega arith)) in
          (a, ground (arith, b), sym back ∙ c)
    ]

be_value-bytes_before :
    (count n : ℕ) (acc : List ℕ)
    → n < 2 ^ (8 * count)
    → be_value (bytes_before count n acc) ≡ be_value_from n acc
unfolding bytes_before
be_value-bytes_before zero n acc h =
    ap (λ (t : ℕ). be_value_from t acc) {x = 0} {y = n} (omega arith)
be_value-bytes_before (suc count) n acc h =
    be_value-bytes_before count (n / 256) (n % 256 ∷ acc)
      (omega (arith, more, pow_add 8 (8 * count)))
    ∙ ap (λ (t : ℕ). be_value_from t acc) {x = n / 256 * 256 + n % 256} {y = n} (omega arith)
  where
    more : 2 ^ (8 * suc count) ≡ 2 ^ (8 + 8 * count)
    more = ap (λ (t : ℕ). 2 ^ t) (omega arith)

bytes_before-small :
    (count n : ℕ) (acc : List ℕ) → All IsByte acc → All IsByte (bytes_before count n acc)
unfolding bytes_before
bytes_before-small zero n acc h = h
bytes_before-small (suc count) n acc h =
    bytes_before-small count (n / 256) (n % 256 ∷ acc) (omega arith, h)

length-bytes_before :
    (count n : ℕ) (acc : List ℕ) → length (bytes_before count n acc) ≡ count + length acc
unfolding bytes_before
length-bytes_before zero n acc = omega arith
length-bytes_before (suc count) n acc =
    omega (arith, length-bytes_before count (n / 256) (n % 256 ∷ acc))

pub bytes_of_lem :
    (n : ℕ)
    → All IsByte (bytes_of n)
      × (be_value (bytes_of n) ≡ n)
      × (0 < n → length (bytes_of n) ≡ (size_in_base_2 n n + 7) / 8)
      × (n ≡ 0 → bytes_of n ≡ [])
unfolding bytes_of
bytes_of_lem zero = (tt, refl, λ p. absurd (omega arith), λ e. refl)
bytes_of_lem (suc n) =
    let size = size_in_base_2 (suc n) (suc n) in
    let count = (size + 7) / 8 in
    let (positive, below, least, one) = size_in_base_2-IsSize (suc n) (suc n) (omega arith) in
    (
      bytes_before-small count (suc n) [] tt,
      be_value-bytes_before count (suc n) []
          (le_trans below (pow-le-pow_right {n = 2} (omega arith) (omega arith))),
      λ p. length-bytes_before count (suc n) [] ∙ omega arith,
      λ e. absurd (omega arith),
    )

-- The documented behaviour holds of the natural numbers.
abbrev pub natural_laws : GmpLaws natural
natural_laws = record {
  value = pos;
  init_value = refl;
  set_ui_value = λ n. refl;
  mul_2exp_value = λ x k n e. ap (λ (t : ℕ). pos (t * 2 ^ k)) (pos-injective e);
  sub_ui_value = λ x k n e le. ap (λ (t : ℕ). pos (t - k)) (pos-injective e);
  ior_value =
      λ x y m n e f. ap₂ (λ (a : ℕ) (b : ℕ). pos (bit_or a b)) (pos-injective e) (pos-injective f);
  cmp_value =
      λ x y m n e f. ap₂ (λ (a : ℕ) (b : ℕ). compare a b) (pos-injective e) (pos-injective f);
  sizeinbase_value = λ x n e.
      subst (λ (t : ℕ). IsSize t (size_in_base_2 x x)) (pos-injective e)
        (size_in_base_2-IsSize x x (omega arith));
  scan1_value = scan1_law;
  scan0_value = scan0_law;
  export_value = λ x n e.
      subst
        (λ (t : ℕ).
          All IsByte (bytes_of x)
          × (be_value (bytes_of x) ≡ t)
          × (0 < t → length (bytes_of x) ≡ (size_in_base_2 x x + 7) / 8)
          × (t ≡ 0 → bytes_of x ≡ []))
        (pos-injective e) (bytes_of_lem x);
}
