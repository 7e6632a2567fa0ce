-- ===== src/Snp4/Pack/Concat.antt =====
-- Fields one after the other in one number, the first in the highest bits, and back.
use native.Mathlib.Nat.{
  one-le-pow, mul-le-mul_right, mul-add-div_right, div-eq_of_lt, mul-add-mod_self_right,
  mod-eq_of_lt,
}
use mathlib.Core.Path.{ap₂}
use esnet_smartnic_fw.Base.{
  ℕ, suc, ◌+◌, ◌*◌, ◌/◌, ◌%◌, ◌^◌, ◌<◌, ◌≡◌, refl, ap, ◌∙◌, List, [], ◌∷◌, arith,
}
use esnet_smartnic_fw.Base.Int.{pos}
use esnet_smartnic_fw.Word.Shift.{bit_or_shifted, pow_add}
use esnet_smartnic_fw.Snp4.Gmp.{Gmp, GmpLaws}
use esnet_smartnic_fw.Snp4.Pack.{extend}

abbrev pub total : List ℕ → ℕ
total [] = 0
total (w ∷ ws) = w + total ws

-- Values that fit fields of these widths.
abbrev pub FitWidths : List ℕ → List ℕ → Type 0
FitWidths [] [] = Unit
FitWidths (w ∷ ws) (v ∷ vs) = (v < 2 ^ w) × FitWidths ws vs
FitWidths _ _ = ⊥

-- The number that the fields make behind `acc`.
abbrev pub concat_from : ℕ → List ℕ → List ℕ → ℕ
concat_from acc [] vs = acc
concat_from acc (w ∷ ws) [] = acc
concat_from acc (w ∷ ws) (v ∷ vs) = concat_from (acc * 2 ^ w + v) ws vs

-- The fields of a number, cut out by position and width.
abbrev pub fields : List ℕ → ℕ → List ℕ
fields [] x = []
fields (w ∷ ws) x = x / 2 ^ total ws % 2 ^ w ∷ fields ws x

distrib : (v q : ℕ) → suc v * q ≡ v * q + q
distrib v q = grind arith

plain : (p v : ℕ) → 0 * p + v ≡ v
plain p v = omega arith

-- The fields behind `acc` are a number of their own below it.
concat_from-split :
    (acc : ℕ) (ws vs : List ℕ)
    → FitWidths ws vs
    → (concat_from acc ws vs ≡ acc * 2 ^ total ws + concat_from 0 ws vs)
      × (concat_from 0 ws vs < 2 ^ total ws)
concat_from-split acc [] [] h = (omega arith, omega arith)
concat_from-split acc [] (v ∷ vs) h = absurd h
concat_from-split acc (w ∷ ws) [] h = absurd h
concat_from-split acc (w ∷ ws) (v ∷ vs) (lt, h) =
    let (e1, below) = concat_from-split (acc * 2 ^ w + v) ws vs h in
    let (e2, same) = concat_from-split (0 * 2 ^ w + v) ws vs h in
    (
      grind (arith, e1, e2, pow_add w (total ws)),
      omega (
        arith,
        e2,
        below,
        pow_add w (total ws),
        mul-le-mul_right {m = suc v} {n = 2 ^ w} (2 ^ total ws) lt,
        distrib v (2 ^ total ws),
        ap (λ (t : ℕ). t * 2 ^ total ws) (plain (2 ^ w) v),
      ),
    )

-- Fields that fit their widths are found again in the number, whatever stands before them.
pub fields-concat_from :
    (acc : ℕ) (ws vs : List ℕ) → FitWidths ws vs → fields ws (concat_from acc ws vs) ≡ vs
fields-concat_from acc [] [] h = refl
fields-concat_from acc [] (v ∷ vs) h = absurd h
fields-concat_from acc (w ∷ ws) [] h = absurd h
fields-concat_from acc (w ∷ ws) (v ∷ vs) (lt, h) =
    ap₂ (λ (x : ℕ) (xs : List ℕ). x ∷ xs) head (fields-concat_from (acc * 2 ^ w + v) ws vs h)
  where
    head : concat_from (acc * 2 ^ w + v) ws vs / 2 ^ total ws % 2 ^ w ≡ v
    head =
        let (e, below) = concat_from-split (acc * 2 ^ w + v) ws vs h in
        ap (λ (t : ℕ). t / 2 ^ total ws % 2 ^ w) e
        ∙ ap (λ (t : ℕ). t % 2 ^ w)
            (mul-add-div_right (one-le-pow (total ws) 2 (omega arith)) (acc * 2 ^ w + v)
                (concat_from 0 ws vs)
              ∙ omega (arith, div-eq_of_lt below))
        ∙ mul-add-mod_self_right acc (2 ^ w) v
        ∙ mod-eq_of_lt lt

pub concat-lt-total : (ws vs : List ℕ) → FitWidths ws vs → concat_from 0 ws vs < 2 ^ total ws
concat-lt-total ws vs h = (concat_from-split 0 ws vs h).1

module _ {Mpz : Type 0} {gmp : Gmp Mpz} (laws : GmpLaws gmp) where
  -- One more field below the earlier ones.
  pub extend_value :
      (w : ℕ) (acc part : Mpz) (a v : ℕ)
      → laws.value acc ≡ pos a
      → laws.value part ≡ pos v
      → v < 2 ^ w
      → laws.value (extend gmp w acc part) ≡ pos (a * 2 ^ w + v)
  unfolding extend
  extend_value w acc part a v is_a is_v lt =
      laws.ior_value (gmp.mul_2exp acc w) part (a * 2 ^ w) v (laws.mul_2exp_value acc w a is_a) is_v
      ∙ ap pos (bit_or_shifted w a v lt)
