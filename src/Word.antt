-- ===== src/Word.antt =====
-- Machine words as numbers below 2 ^ w, the test of one bit, and what the bitwise operations of
-- C++ on unsigned words do to each bit.
pub mod Shift
use Prim.Native.Nat.{min, max, bit_and, bit_or, bit_xor, digits, differ}
use Prim.Native.Nat.{bit_and-bitwise, bit_or-bitwise, bit_xor-bitwise}
use native.Mathlib.Nat.{pow-suc, one-le-pow}
use esnet_smartnic_fw.Base.{
  ℕ, zero, suc, ◌+◌, ◌-◌, ◌*◌, ◌/◌, ◌%◌, ◌^◌, ◌≤◌, ◌<◌, ◌≡◌, refl, sym, ap, ◌∙◌, Bool, true, false,
  not, ◌&&◌, ◌||◌, arith, ◌==◌, ltb,
}

abbrev pub xor : Bool → Bool → Bool
xor true b = not b
xor false b = b

-- Bit `p` of `x`.
unfoldable pub test_bit : ℕ → ℕ → Bool
test_bit x zero = x % 2 == 1
test_bit x (suc p) = test_bit (x / 2) p

pub test_bit_zero : (p : ℕ) → test_bit 0 p ≡ false
unfolding test_bit
test_bit_zero zero = refl
test_bit_zero (suc p) = test_bit_zero p

-- The native operations stand for a recursion on digits: `f` is the operation on one digit and `e`
-- the result where the first number is used up. `g` is the operation on truth values.
module _ (e : ℕ → ℕ) (f : ℕ → ℕ → ℕ) (g : Bool → Bool → Bool)
    (rest : (b p : ℕ) → test_bit (e b) p ≡ g false (test_bit b p))
    (digit : (u v : ℕ) → u < 2 → v < 2 → f u v < 2)
    (truth : (u v : ℕ) → u < 2 → v < 2 → (f u v == 1) ≡ g (u == 1) (v == 1)) where
  test_bit-digits :
      (n a b p : ℕ) → a ≤ n → test_bit (digits e f n a b) p ≡ g (test_bit a p) (test_bit b p)
  unfolding test_bit
  test_bit-digits zero zero b p h = ground (arith, rest b p, test_bit_zero p)
  test_bit-digits zero (suc a) b p h = absurd (omega arith)
  test_bit-digits (suc n) zero b p h = ground (arith, rest b p, test_bit_zero p)
  test_bit-digits (suc n) (suc a) b zero h = ground (
    arith,
    digit (suc a % 2) (b % 2) (omega arith) (omega arith),
    truth (suc a % 2) (b % 2) (omega arith) (omega arith),
  )
  test_bit-digits (suc n) (suc a) b (suc p) h = ground (
    arith,
    digit (suc a % 2) (b % 2) (omega arith) (omega arith),
    test_bit-digits n (suc a / 2) (b / 2) p (omega arith),
  )

pub test_bit-bit_or : (a b p : ℕ) → test_bit (bit_or a b) p ≡ test_bit a p || test_bit b p
test_bit-bit_or a b p = simp bit_or-bitwise (
    test_bit-digits (λ y. y) max (λ x y. x || y) (λ b p. refl) (λ u v h k. omega arith)
      (λ u v h k. ground arith) a a b p (omega arith))

pub test_bit-bit_and : (a b p : ℕ) → test_bit (bit_and a b) p ≡ test_bit a p && test_bit b p
test_bit-bit_and a b p = simp bit_and-bitwise (
    test_bit-digits (λ y. 0) min (λ x y. x && y) (λ b p. test_bit_zero p) (λ u v h k. omega arith)
      (λ u v h k. ground arith) a a b p (omega arith))

differ_digit :
    (u v : ℕ) → u < 2 → v < 2 → (differ u v < 2) × ((differ u v == 1) ≡ xor (u == 1) (v == 1))
differ_digit zero v h k = (omega arith, refl)
differ_digit (suc zero) zero h k = (omega arith, refl)
differ_digit (suc zero) (suc zero) h k = (omega arith, refl)
differ_digit (suc zero) (suc (suc v)) h k = absurd (omega arith)
differ_digit (suc (suc u)) v h k = absurd (omega arith)

pub test_bit-bit_xor : (a b p : ℕ) → test_bit (bit_xor a b) p ≡ xor (test_bit a p) (test_bit b p)
test_bit-bit_xor a b p = simp bit_xor-bitwise (
    test_bit-digits (λ y. y) differ xor (λ b p. refl) (λ u v h k. (differ_digit u v h k).0)
      (λ u v h k. (differ_digit u v h k).1) a a b p (omega arith))

pub test_bit_pow : (q p : ℕ) → test_bit (2 ^ q) p ≡ (p == q)
unfolding test_bit
test_bit_pow zero zero = refl
test_bit_pow zero (suc p) = ground (arith, test_bit_zero p)
test_bit_pow (suc q) zero = ground (arith, pow-suc 2 q)
test_bit_pow (suc q) (suc p) = ground (arith, pow-suc 2 q, test_bit_pow q p, double_half (2 ^ q))
  where
    double_half : (x : ℕ) → test_bit (2 * x / 2) p ≡ test_bit x p
    double_half x = ap (λ (y : ℕ). test_bit y p) (omega arith)

-- The complement within `k` bits; at `x = 0` it is the mask of the `k` low bits.
pub test_bit-complement :
    (k x p : ℕ) → x < 2 ^ k → test_bit (2 ^ k - 1 - x) p ≡ (ltb p k && not (test_bit x p))
unfolding test_bit
test_bit-complement zero x p h =
    ground (arith, test_bit_zero p, zero_bits (1 - 1 - x) (omega arith))
  where
    zero_bits : (y : ℕ) → y ≡ 0 → test_bit y p ≡ false
    zero_bits y e = rw e (test_bit_zero p)
test_bit-complement (suc k) x zero h = ground (arith, pow-suc 2 k, one-le-pow k 2)
test_bit-complement (suc k) x (suc p) h =
    ground (arith, pow-suc 2 k, half, test_bit-complement k (x / 2) p (omega (arith, pow-suc 2 k)))
  where
    half : test_bit ((2 ^ suc k - 1 - x) / 2) p ≡ test_bit (2 ^ k - 1 - x / 2) p
    half = ap (λ (y : ℕ). test_bit y p) (omega (arith, pow-suc 2 k, one-le-pow k 2))

pub test_bit_above : (k x p : ℕ) → x < 2 ^ k → k ≤ p → test_bit x p ≡ false
unfolding test_bit
test_bit_above zero x p h le = let e : x ≡ 0 = omega arith in rw e (test_bit_zero p)
test_bit_above (suc k) x zero h le = absurd (omega arith)
test_bit_above (suc k) x (suc p) h le =
    test_bit_above k (x / 2) p (omega (arith, pow-suc 2 k)) (omega arith)

-- Two numbers with the same bits are equal.
eq_of_bits_fuel : (n x y : ℕ) → x ≤ n → y ≤ n → ((p : ℕ) → test_bit x p ≡ test_bit y p) → x ≡ y
unfolding test_bit
eq_of_bits_fuel zero x y hx hy h = omega arith
eq_of_bits_fuel (suc n) x y hx hy h =
    ground
      (arith, h 0, eq_of_bits_fuel n (x / 2) (y / 2) (omega arith) (omega arith) (λ p. h (suc p)))

pub eq_of_bits : (x y : ℕ) → ((p : ℕ) → test_bit x p ≡ test_bit y p) → x ≡ y
eq_of_bits x y h = eq_of_bits_fuel (x + y) x y (omega arith) (omega arith) h

-- A number with no bit at `k` or above has at most `k` bits.
pub lt_of_bits : (k x : ℕ) → ((p : ℕ) → k ≤ p → test_bit x p ≡ false) → x < 2 ^ k
unfolding test_bit
lt_of_bits zero x h =
    let e : x ≡ 0 = eq_of_bits x 0 (λ p. h p (omega arith) ∙ sym (test_bit_zero p)) in omega arith
lt_of_bits (suc k) x h =
    omega (arith, pow-suc 2 k, lt_of_bits k (x / 2) (λ p le. h (suc p) (omega arith)))
