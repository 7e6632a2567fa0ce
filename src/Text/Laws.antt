-- ===== src/Text/Laws.antt =====
-- The tests on strings, as equations between strings.
use esnet_smartnic_fw.Base.{
  ℕ, zero, suc, ◌-◌, ◌≡◌, ◌≢◌, refl, ap, sym, ◌∙◌, ◌↔◌, true, false, ◌&&◌, [], ◌∷◌, ◌++◌, length,
  length-append, take, drop, leb, ==_iff, arith, Bool-cases, inl, inr,
}
use esnet_smartnic_fw.Text.{Text, text_eq, compare_at, find}

pub text_eq_iff : (a b : Text) → (text_eq a b ≡ true) ↔ (a ≡ b)
unfolding text_eq
text_eq_iff [] [] = (λ h. refl, λ h. refl)
text_eq_iff [] (y ∷ ys) = (λ h. cc, λ h. cc)
text_eq_iff (x ∷ xs) [] = (λ h. cc, λ h. cc)
text_eq_iff (x ∷ xs) (y ∷ ys) = (
  λ h. ground (arith, text_eq_iff xs ys, ==_iff x y),
  λ h. ground (arith, text_eq_iff xs ys, ==_iff x y),
)

pub text_eq_refl : (a : Text) → text_eq a a ≡ true
text_eq_refl a = (text_eq_iff a a).1 refl

take-append : (p r : Text) → take (length p) (p ++ r) ≡ p
take-append [] r = refl
take-append (x ∷ p) r = ap (λ (t : Text). x ∷ t) (take-append p r)

take-append-drop : (n : ℕ) (xs : Text) → take n xs ++ drop n xs ≡ xs
take-append-drop zero xs = refl
take-append-drop (suc n) [] = refl
take-append-drop (suc n) (x ∷ xs) = ap (λ (t : Text). x ∷ t) (take-append-drop n xs)

drop-append : (l r : Text) → drop (length l) (l ++ r) ≡ r
drop-append [] r = refl
drop-append (x ∷ l) r = drop-append l r

take_all : (xs : Text) → take (length xs) xs ≡ xs
take_all [] = refl
take_all (x ∷ xs) = ap (λ (t : Text). x ∷ t) (take_all xs)

length-drop : (n : ℕ) (xs : Text) → length (drop n xs) ≡ length xs - n
length-drop zero xs = omega arith
length-drop (suc n) [] = omega arith
length-drop (suc n) (x ∷ xs) = omega (arith, length-drop n xs)

abbrev pub StartsWith : Text → Text → Type 0
StartsWith str p = (r : Text) × (str ≡ p ++ r)

pub StartsWith-iff : (str p : Text) → (compare_at str 0 (length p) p ≡ true) ↔ StartsWith str p
unfolding compare_at
StartsWith-iff str p = (
  λ h.
      let e : take (length p) str ≡ p = (text_eq_iff _ _).0 h in
      (
        drop (length p) str,
        sym (take-append-drop (length p) str) ∙ ap (λ (t : Text). t ++ drop (length p) str) e,
      ),
  λ (r, e). (text_eq_iff (take (length p) str) p).1 (rw e (take-append p r)),
)

abbrev pub EndsWith : Text → Text → Type 0
EndsWith str p = (l : Text) × (str ≡ l ++ p)

take_rest : (xs p : Text) → length xs ≡ length p → take (length p) xs ≡ xs
take_rest xs p e = rw (← e) (take_all xs)

pub EndsWith-iff :
    (str p : Text)
    → ((leb (length p) (length str) && compare_at str (length str - length p) (length p) p) ≡ true)
      ↔ EndsWith str p
unfolding compare_at
EndsWith-iff str p = (fits, λ (l, e). rw e (placed l))
  where
    fits :
        (leb (length p) (length str)
            && text_eq (take (length p) (drop (length str - length p) str)) p)
          ≡ true
        → EndsWith str p
    fits h =
        let k = length str - length p in
        let same : take (length p) (drop k str) ≡ p = (text_eq_iff _ _).0 (ground arith) in
        let len : length (drop k str) ≡ length p = ground (arith, length-drop k str) in
        let whole : drop k str ≡ p = sym (take_rest (drop k str) p len) ∙ same in
        (take k str, sym (take-append-drop k str) ∙ ap (λ (t : Text). take k str ++ t) whole)

    placed :
        (l : Text)
        → (leb (length p) (length (l ++ p))
            && text_eq (take (length p) (drop (length (l ++ p) - length p) (l ++ p))) p)
          ≡ true
    placed l =
        let k : length (l ++ p) - length p ≡ length l = omega (arith, length-append l p) in
        rw (k, drop-append l p, take_all p) (ground (arith, text_eq_refl p, length-append l p))

abbrev pub Contains : Text → Text → Type 0
Contains str p = (l r : Text) × (str ≡ l ++ (p ++ r))

find-of-Contains : (l r sub : Text) → find (l ++ (sub ++ r)) sub ≡ true
unfolding find
find-of-Contains [] r sub = here (sub ++ r) ((StartsWith-iff (sub ++ r) sub).1 (r, refl))
  where
    here : (str : Text) → compare_at str 0 (length sub) sub ≡ true → find str sub ≡ true
    here [] h = h
    here (c ∷ str) h = rw h
find-of-Contains (c ∷ l) r sub = ground (arith, find-of-Contains l r sub)

Contains-of-find : (str sub : Text) → find str sub ≡ true → Contains str sub
unfolding find
Contains-of-find [] sub h = let (r, e) = (StartsWith-iff [] sub).0 h in ([], r, e)
Contains-of-find (c ∷ str) sub h = elim (Bool-cases (compare_at (c ∷ str) 0 (length sub) sub)) [
  | inl here ↦ let (r, e) = (StartsWith-iff (c ∷ str) sub).0 here in ([], r, e)
  | inr later ↦
      let (l, r, e) = Contains-of-find str sub (ground arith) in
      (c ∷ l, r, ap (λ (t : Text). c ∷ t) e)
]

pub find_iff : (str sub : Text) → (find str sub ≡ true) ↔ Contains str sub
find_iff str sub = (Contains-of-find str sub, λ (l, r, e). rw e (find-of-Contains l r sub))

pub ne_of_text_eq : (a b : Text) → text_eq a b ≡ false → a ≢ b
ne_of_text_eq a b h = λ e. true_ne_false (sym ((text_eq_iff a b).1 e) ∙ h)
  where
    true_ne_false : true ≡ false → ⊥
    true_ne_false p = cc
