-- ===== src/Agent/Rule/Parsing.antt =====
-- What the matches and the parameters of a rule are parsed to.
use esnet_smartnic_fw.Base.{
  Each, ℕ, ◌≡◌, ◌≤◌, refl, sym, ap, ◌∙◌, ◌↔◌, ◌⊎◌, inl, inr, List, [], ◌∷◌, Option, none, some, ltb,
  arith, Bool-cases,
}
use esnet_smartnic_fw.Text.{Text}
use esnet_smartnic_fw.Agent.Errors.{ErrorCode}
use esnet_smartnic_fw.Agent.Driver.{Status, SnMatch, SnPack, Driver, c_str}
use esnet_smartnic_fw.Agent.Rule.{
  Match, Result, ◌>>=◌, or_error, check_count, pack_error, packed, parse_match, parse_all,
  parse_mpz,
}

-- A step that succeeds has both its parts succeed.
pub >>=-inr :
    {A B : Type 0} (r : Result A) (f : A → Result B) (b : B)
    → (r >>= f) ≡ inr b
    → (a : A) × (r ≡ inr a) × (f a ≡ inr b)
unfolding ◌>>=◌
>>=-inr (inl err) f b e = absurd cc
>>=-inr (inr a) f b e = (a, refl, e)

pub or_error-inr :
    {A : Type 0} (err : ErrorCode) (o : Option A) (a : A) → or_error err o ≡ inr a → o ≡ some a
unfolding or_error
or_error-inr err none a e = absurd cc
or_error-inr err (some x) a e = ground arith

pub check_count-inr :
    (few many : ErrorCode) (n expected : ℕ)
    → check_count few many n expected ≡ inr tt
    → n ≡ expected
unfolding check_count
check_count-inr few many n expected e = ground arith

pub packed-inr :
    (err : ErrorCode) (pack p : SnPack)
    → packed err pack ≡ inr p
    → (err ≡ ErrorCode.ok) × (pack ≡ p)
unfolding packed
packed-inr ErrorCode.ok pack p e = ground arith
packed-inr err pack p e = ground arith

-- The code of a packing is EC_OK for the status SNP4_STATUS_OK and for no other: no failure of the
-- library is taken for a success.
pub pack_error_iff : (status : Status) → (pack_error status ≡ ErrorCode.ok) ↔ (status ≡ Status.ok)
unfolding pack_error
pack_error_iff Status.ok = (λ e. refl, λ e. refl)
pack_error_iff status = (λ e. absurd cc, λ e. absurd cc)

pub inr-injective : {A B : Type 0} {a b : B} → ◌≡◌ {A = A ⊎ B} (inr a) (inr b) → a ≡ b
inr-injective e = cc

module _ {A B : Type 0} (parse : A → Result B) where
  -- Loading a list succeeds exactly when each element loads, in order.
  pub parse_all_iff :
      (xs : List A) (ys : List B)
      → (parse_all parse xs ≡ inr ys) ↔ Each (λ x y. parse x ≡ inr y) xs ys
  unfolding parse_all ◌>>=◌
  parse_all_iff [] [] = (λ e. tt, λ h. refl)
  parse_all_iff [] (y ∷ ys) = (λ e. absurd cc, λ h. absurd h)
  parse_all_iff (x ∷ xs) [] = (
    λ e.
        let (y, e1, e2) = >>=-inr (parse x) _ [] e in
        let (ys', e3, e4) = >>=-inr (parse_all parse xs) _ [] e2 in absurd cc,
    λ h. absurd h,
  )
  parse_all_iff (x ∷ xs) (y ∷ ys) = (
    λ e.
        let (y', e1, e2) = >>=-inr (parse x) _ (y ∷ ys) e in
        let (ys', e3, e4) = >>=-inr (parse_all parse xs) _ (y ∷ ys) e2 in
        let e5 : y' ∷ ys' ≡ y ∷ ys = inr-injective e4 in
        (e1 ∙ ap inr cc, (parse_all_iff xs ys).0 (e3 ∙ ap inr cc)),
    λ (e, h).
        ap (λ r. r >>= λ y'. parse_all parse xs >>= λ ys'. inr (y' ∷ ys')) e
        ∙ ap (λ r. r >>= λ ys'. inr (y ∷ ys')) ((parse_all_iff xs ys).1 h),
  )

module _ {Handle Mpz Hw : Type 0} (drv : Driver Handle Mpz Hw) where
  -- The number that a text stands for, to the driver's GMP.
  abbrev pub Number : Text → Mpz → Type 0
  Number t n = drv.init_set_str (c_str t) ≡ some n

  -- What a match of a request means to the driver library.
  abbrev pub Denotes : Match → SnMatch Mpz → Type 0
  Denotes (Match.key_mask key mask) m =
      (k : Mpz) × (n : Mpz) × Number key k × Number mask n × (m ≡ SnMatch.key_mask k n)
  Denotes (Match.key_only key) m = (k : Mpz) × Number key k × (m ≡ SnMatch.key_only k)
  Denotes (Match.key_prefix key len) m =
      (k : Mpz) × (len ≤ 65535) × Number key k × (m ≡ SnMatch.prefix k len)
  Denotes (Match.range lower upper) m =
      (lower ≤ 65535) × (upper ≤ 65535) × (m ≡ SnMatch.range lower upper)
  Denotes (Match.unused b) m = m ≡ SnMatch.unused
  Denotes Match.not_set m = ⊥

  parse_mpz-inr : (err : ErrorCode) (t : Text) (n : Mpz) → parse_mpz drv err t ≡ inr n → Number t n
  unfolding parse_mpz
  parse_mpz-inr err t n e = or_error-inr err _ n e

  Number-parse_mpz :
      (err : ErrorCode) (t : Text) (n : Mpz) → Number t n → parse_mpz drv err t ≡ inr n
  unfolding parse_mpz or_error
  Number-parse_mpz err t n e = ap (or_error err) e

  -- Parsing a match succeeds exactly when it denotes a match of the library, within the 16 bits of
  -- a prefix length and of a range, and gives that match.
  pub parse_match_iff : (m : Match) (x : SnMatch Mpz) → (parse_match drv m ≡ inr x) ↔ Denotes m x
  unfolding parse_match ◌>>=◌
  parse_match_iff (Match.key_mask key mask) x = (
    λ e.
        let (k, e1, e2) = >>=-inr (parse_mpz drv ErrorCode.match_invalid_key_format key) _ x e in
        let (n, e3, e4) = >>=-inr (parse_mpz drv ErrorCode.match_invalid_mask_format mask) _ x e2 in
        (k, n, parse_mpz-inr _ key k e1, parse_mpz-inr _ mask n e3, sym (inr-injective e4)),
    λ (k, n, e1, e2, e3). ground (
      Number-parse_mpz ErrorCode.match_invalid_key_format key k e1,
      Number-parse_mpz ErrorCode.match_invalid_mask_format mask n e2,
      arith,
    ),
  )
  parse_match_iff (Match.key_only key) x = (
    λ e.
        let (k, e1, e2) = >>=-inr (parse_mpz drv ErrorCode.match_invalid_key_format key) _ x e in
        (k, parse_mpz-inr _ key k e1, sym (inr-injective e2)),
    λ (k, e1, e3). ground (Number-parse_mpz ErrorCode.match_invalid_key_format key k e1, arith),
  )
  parse_match_iff (Match.key_prefix key len) x = elim (Bool-cases (ltb 65535 len)) [
    | inl big ↦ (λ e. absurd (ground arith), λ (k, small, e1, e2). absurd (ground arith))
    | inr small ↦ (
      λ e.
          let e' : (parse_mpz drv ErrorCode.match_invalid_key_format key >>= λ k.
          inr (SnMatch.prefix k len))
              ≡ inr x =
            ground arith in
          let (k, e1, e2) = >>=-inr (parse_mpz drv ErrorCode.match_invalid_key_format key) _ x e' in
          (k, ground arith, parse_mpz-inr _ key k e1, sym (inr-injective e2)),
      λ (k, le, e1, e2).
          ground (Number-parse_mpz ErrorCode.match_invalid_key_format key k e1, arith),
    )
  ]
  parse_match_iff (Match.range lower upper) x =
      (λ e. (ground arith, ground arith, ground arith), λ (l, u, e). ground arith)
  parse_match_iff (Match.unused b) x = (λ e. sym (inr-injective e), λ e. ap inr (sym e))
  parse_match_iff Match.not_set x = (λ e. absurd cc, λ h. absurd h)
