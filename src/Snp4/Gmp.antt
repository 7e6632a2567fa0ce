-- ===== src/Snp4/Gmp.antt =====
-- What snp4_table.c calls of GMP, as an interface: the functions on an `mpz_t`, and what the manual
-- of GMP says of them for numbers that are not negative.
pub mod Natural
use Prim.Native.Nat.{Ordering, compare, bit_or}
use esnet_smartnic_fw.Base.{
  ℕ, ◌+◌, ◌-◌, ◌*◌, ◌/◌, ◌^◌, ◌≤◌, ◌<◌, ◌≡◌, Bool, true, false, List, [], ◌∷◌, length, All,
}
use esnet_smartnic_fw.Base.Int.{ℤ, pos}
use esnet_smartnic_fw.Word.{test_bit}

pub record Gmp (Mpz : Type 0) : Type 0 where
  -- mpz_init, and mpz_set_ui or mpz_init_set_ui
  pub init : Mpz
  pub set_ui : ℕ → Mpz
  pub mul_2exp : Mpz → ℕ → Mpz
  pub sub_ui : Mpz → ℕ → Mpz
  pub ior : Mpz → Mpz → Mpz
  -- mpz_cmp; the sign of its result
  pub cmp : Mpz → Mpz → Ordering
  -- mpz_sizeinbase(.., 2)
  pub sizeinbase_2 : Mpz → ℕ
  pub scan0 : Mpz → ℕ → ℕ
  pub scan1 : Mpz → ℕ → ℕ
  -- the bytes that mpz_export(.., NULL, 1, 1, 1, 0, ..) writes
  pub export_bytes : Mpz → List ℕ

-- The number that bytes stand for, the most significant first.
abbrev pub be_value_from : ℕ → List ℕ → ℕ
be_value_from acc [] = acc
be_value_from acc (b ∷ bs) = be_value_from (acc * 256 + b) bs

abbrev pub be_value : List ℕ → ℕ
be_value bs = be_value_from 0 bs

abbrev pub IsByte : ℕ → Type 0
IsByte b = b < 256

-- The length of a number in bits, as `s` states it: 1 for zero.
abbrev pub IsSize : ℕ → ℕ → Type 0
IsSize n s = (0 < s) × (n < 2 ^ s) × (0 < n → 2 ^ (s - 1) ≤ n) × (n ≡ 0 → s ≡ 1)

-- `value` is the integer that an `mpz_t` holds.
pub record GmpLaws {Mpz : Type 0} (gmp : Gmp Mpz) : Type 0 where
  pub value : Mpz → ℤ
  pub init_value : value gmp.init ≡ pos 0
  pub set_ui_value : (n : ℕ) → value (gmp.set_ui n) ≡ pos n
  pub mul_2exp_value :
      (x : Mpz) (k n : ℕ) → value x ≡ pos n → value (gmp.mul_2exp x k) ≡ pos (n * 2 ^ k)
  pub sub_ui_value :
      (x : Mpz) (k n : ℕ) → value x ≡ pos n → k ≤ n → value (gmp.sub_ui x k) ≡ pos (n - k)
  pub ior_value :
      (x y : Mpz) (m n : ℕ)
      → value x ≡ pos m
      → value y ≡ pos n
      → value (gmp.ior x y) ≡ pos (bit_or m n)
  pub cmp_value :
      (x y : Mpz) (m n : ℕ) → value x ≡ pos m → value y ≡ pos n → gmp.cmp x y ≡ compare m n
  pub sizeinbase_value : (x : Mpz) (n : ℕ) → value x ≡ pos n → IsSize n (gmp.sizeinbase_2 x)
  -- the first bit at `s` or above that is set, and that is clear
  pub scan1_value :
      (x : Mpz) (s n q : ℕ)
      → value x ≡ pos n
      → s ≤ q
      → test_bit n q ≡ true
      → (s ≤ gmp.scan1 x s) × (gmp.scan1 x s ≤ q) × (test_bit n (gmp.scan1 x s) ≡ true)
  pub scan0_value :
      (x : Mpz) (s n q : ℕ)
      → value x ≡ pos n
      → s ≤ q
      → test_bit n q ≡ false
      → (s ≤ gmp.scan0 x s) × (gmp.scan0 x s ≤ q) × (test_bit n (gmp.scan0 x s) ≡ false)
  -- zero has no bytes
  pub export_value :
      (x : Mpz) (n : ℕ)
      → value x ≡ pos n
      → All IsByte (gmp.export_bytes x)
        × (be_value (gmp.export_bytes x) ≡ n)
        × (0 < n → length (gmp.export_bytes x) ≡ (gmp.sizeinbase_2 x + 7) / 8)
        × (n ≡ 0 → gmp.export_bytes x ≡ [])
