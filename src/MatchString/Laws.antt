-- ===== src/MatchString/Laws.antt =====
-- What a string match means, and that the functions decide it.
use esnet_smartnic_fw.Base.{
  ℕ, zero, suc, ◌+◌, ◌≡◌, ◌≢◌, ◌≤◌, ◌<◌, ◌↔◌, ◌⊎◌, inl, inr, refl, ap, sym, ◌∙◌, Bool, true, false,
  not, List, [], ◌∷◌, ◌++◌, length, length-append, if◌then◌else◌, get_elem?, some, arith,
  Bool-cases, ==_iff,
}
use native.Mathlib.Nat.{zero-add}
use esnet_smartnic_fw.Text.{Text}
use esnet_smartnic_fw.Text.Laws.{
  StartsWith, EndsWith, Contains, text_eq_iff, StartsWith-iff, EndsWith-iff, find_iff,
}
use esnet_smartnic_fw.MatchString.{
  RegexLibrary, MatchString, exact, prefix, suffix, substring, regexp, split, method_not_set, Part,
  part, PartTerm, match, any_set, all_set, term_not_set, PartMatch, value, index, attribute_not_set,
  Parts, nil, cons, syntax_of, match_exact, match_prefix, match_suffix, match_substring, split_loop,
  match_string, match_part, match_part_term, match_part_attr, match_any, match_all, members_size,
  match_regexp,
}

match_prefix_iff : (p str : Text) → (match_prefix p str ≡ true) ↔ StartsWith str p
unfolding match_prefix
match_prefix_iff p str = (
  λ h. (StartsWith-iff str p).0 (ground arith),
  λ w. ground (arith, (StartsWith-iff str p).1 w, longer w),
)
  where
    longer : StartsWith str p → length p ≤ length str
    longer (r, e) = omega (arith, ap (length {0}) e, length-append p r)

match_substring_iff : (p str : Text) → (match_substring p str ≡ true) ↔ Contains str p
unfolding match_substring
match_substring_iff p str =
    (λ h. (find_iff str p).0 (ground arith), λ w. ground (arith, (find_iff str p).1 w, longer w))
  where
    longer : Contains str p → length p ≤ length str
    longer (l, r, e) = omega (arith, ap (length {0}) e, length-append l (p ++ r), length-append p r)

-- The loop over the parts, from index `i` on.
module _ (hit : Text → ℕ → Bool) where
  hit-shift : (s : Text) (i k : ℕ) → hit s (i + suc k) ≡ hit s (i + 1 + k)
  hit-shift s i k = ap (λ (j : ℕ). hit s j) (omega arith)

  hit-zero : (s : Text) (i : ℕ) → hit s (i + 0) ≡ hit s i
  hit-zero s i = ap (λ (j : ℕ). hit s j) (omega arith)

  any-found :
      (parts : List Text) (i : ℕ)
      → split_loop hit true parts i ≡ true
      → (k : ℕ) × (s : Text) × (get_elem? parts k ≡ some s) × (hit s (i + k) ≡ true)
  unfolding split_loop
  any-found [] i h = cc
  any-found (x ∷ xs) i h = elim (Bool-cases (hit x i)) [
    | inl here ↦ (0, x, refl, hit-zero x i ∙ here)
    | inr not_here ↦
        let (k, s, e, p) = any-found xs (i + 1) (ground arith) in (suc k, s, e, hit-shift s i k ∙ p)
  ]

  any-finds :
      (parts : List Text) (i k : ℕ) (s : Text)
      → get_elem? parts k ≡ some s
      → hit s (i + k) ≡ true
      → split_loop hit true parts i ≡ true
  unfolding split_loop
  any-finds [] i k s e p = cc
  any-finds (x ∷ xs) i zero s e p = ground (arith, hit-zero x i)
  any-finds (x ∷ xs) i (suc k) s e p =
      ground (arith, any-finds xs (i + 1) k s e (sym (hit-shift s i k) ∙ p))

  every-found :
      (parts : List Text) (i k : ℕ) (s : Text)
      → split_loop hit false parts i ≡ true
      → get_elem? parts k ≡ some s
      → hit s (i + k) ≡ true
  unfolding split_loop
  every-found [] i k s h e = cc
  every-found (x ∷ xs) i zero s h e = ground (arith, hit-zero x i)
  every-found (x ∷ xs) i (suc k) s h e =
      hit-shift s i k ∙ every-found xs (i + 1) k s (ground arith) e

  every-nonempty : (parts : List Text) → split_loop hit false parts 0 ≡ true → parts ≢ []
  unfolding split_loop
  every-nonempty [] h = cc
  every-nonempty (x ∷ xs) h = λ e. cc

  every-finds :
      (parts : List Text) (i : ℕ)
      → 0 < i + length parts
      → ((k : ℕ) (s : Text) → get_elem? parts k ≡ some s → hit s (i + k) ≡ true)
      → split_loop hit false parts i ≡ true
  unfolding split_loop
  every-finds [] i lt h = ground arith
  every-finds (x ∷ xs) i lt h =
      let here = sym (hit-zero x i) ∙ h 0 x refl in
      let rest =
        every-finds xs (i + 1) (omega arith) (λ k s e. sym (hit-shift s i k) ∙ h (suc k) s e) in
      ground arith

length-pos : (parts : List Text) → parts ≢ [] → 0 < 0 + length parts
length-pos [] h = absurd (h refl)
length-pos (x ∷ xs) h = omega arith

module _ (re : RegexLibrary) where
  -- Some part, or every part and at least one, satisfies `P` at its index.
  abbrev pub SomePart : (Text → ℕ → Type 0) → List Text → Type 0
  SomePart P parts = (k : ℕ) × (s : Text) × (get_elem? parts k ≡ some s) × P s k

  abbrev pub EveryPart : (Text → ℕ → Type 0) → List Text → Type 0
  EveryPart P parts = (parts ≢ []) × ((k : ℕ) (s : Text) → get_elem? parts k ≡ some s → P s k)

  abbrev pub Signed : Bool → Type 0 → Type 0
  Signed true P = ¬ P
  Signed false P = P

  abbrev mutual
    pub Matches : MatchString → Text → Type 0
    Matches (exact s) str = s ≡ str
    Matches (prefix s) str = StartsWith str s
    Matches (suffix s) str = EndsWith str s
    Matches (substring s) str = Contains str s
    Matches (regexp grammar pattern) str = re.regex_match (syntax_of grammar) pattern str ≡ true
    Matches (split pattern true p) str = SomePart (PartMatches p) (re.regex_split pattern str)
    Matches (split pattern false p) str = EveryPart (PartMatches p) (re.regex_split pattern str)
    Matches method_not_set str = Unit

    pub PartMatches : Part → Text → ℕ → Type 0
    PartMatches (part negated t) str i = Signed negated (TermMatches t str i)

    pub TermMatches : PartTerm → Text → ℕ → Type 0
    TermMatches (match m) str i = AttrMatches m str i
    TermMatches (any_set nil) str i = Unit
    TermMatches (any_set (cons m ms)) str i = PartMatches m str i ⊎ SomeMember ms str i
    TermMatches (all_set ms) str i = EveryMember ms str i
    TermMatches term_not_set str i = Unit

    pub AttrMatches : PartMatch → Text → ℕ → Type 0
    AttrMatches (value m) str i = Matches m str
    AttrMatches (index n) str i = n ≡ i
    AttrMatches attribute_not_set str i = Unit

    pub SomeMember : Parts → Text → ℕ → Type 0
    SomeMember nil str i = ⊥
    SomeMember (cons m ms) str i = PartMatches m str i ⊎ SomeMember ms str i

    pub EveryMember : Parts → Text → ℕ → Type 0
    EveryMember nil str i = Unit
    EveryMember (cons m ms) str i = PartMatches m str i × EveryMember ms str i

  Signed_iff :
      (negated ok : Bool) (P : Type 0)
      → (ok ≡ true) ↔ P
      → ((if negated then not ok else ok) ≡ true) ↔ Signed negated P
  Signed_iff true true P h = (λ e. cc, λ n. absurd (n (h.0 refl)))
  Signed_iff true false P h = (λ e w. false_ne_true (h.1 w), λ n. refl)
    where
      false_ne_true : false ≡ true → ⊥
      false_ne_true e = cc
  Signed_iff false ok P h = h

  any_set_iff :
      (ms : Parts) (s : Text) (i : ℕ)
      → (match_any re ms s i false ≡ true) ↔ SomeMember ms s i
      → (match_part_term re (any_set ms) s i ≡ true) ↔ TermMatches (any_set ms) s i
  unfolding match_string members_size
  any_set_iff nil s i h = (λ e. tt, λ w. refl)
  any_set_iff (cons m ms) s i h = (λ e. h.0 (ground arith), λ w. ground (arith, h.1 w))

  mutual
    unfolding match_string match_exact match_suffix match_regexp members_size

    -- A string passes a match exactly when the match says so of it.
    pub match_string_iff : (m : MatchString) (s : Text) → (match_string re m s ≡ true) ↔ Matches m s
    match_string_iff (exact t) s = text_eq_iff t s
    match_string_iff (prefix t) s = match_prefix_iff t s
    match_string_iff (suffix t) s = EndsWith-iff s t
    match_string_iff (substring t) s = match_substring_iff t s
    match_string_iff (regexp g t) s = (λ h. h, λ h. h)
    match_string_iff (split t true p) s = (
      λ h.
          let (k, x, e, hit) = any-found (match_part re p) (re.regex_split t s) 0 h in
          (k, x, e, (match_part_iff p x k).0 (rw zero-add at hit)),
      λ (k, x, e, hit).
          any-finds (match_part re p) (re.regex_split t s) 0 k x e
            (rw zero-add ((match_part_iff p x k).1 hit)),
    )
    match_string_iff (split t false p) s = (
      λ h. (
        every-nonempty (match_part re p) (re.regex_split t s) h,
        λ k x e.
            (match_part_iff p x k).0
              (rw zero-add at (every-found (match_part re p) (re.regex_split t s) 0 k x h e)),
      ),
      λ (nonempty, hits).
          every-finds (match_part re p) (re.regex_split t s) 0 (length-pos _ nonempty)
            (λ k x e. rw zero-add ((match_part_iff p x k).1 (hits k x e))),
    )
    match_string_iff method_not_set s = (λ h. tt, λ h. refl)

    match_part_iff :
        (p : Part) (s : Text) (i : ℕ) → (match_part re p s i ≡ true) ↔ PartMatches p s i
    match_part_iff (part negated t) s i =
        Signed_iff negated (match_part_term re t s i) (TermMatches t s i) (term_iff t s i)

    term_iff :
        (t : PartTerm) (s : Text) (i : ℕ) → (match_part_term re t s i ≡ true) ↔ TermMatches t s i
    term_iff (match m) s i = attr_iff m s i
    term_iff (any_set ms) s i = any_set_iff ms s i (some_iff ms s i)
    term_iff (all_set ms) s i = every_iff ms s i
    term_iff term_not_set s i = (λ h. tt, λ h. refl)

    attr_iff :
        (m : PartMatch) (s : Text) (i : ℕ) → (match_part_attr re m s i ≡ true) ↔ AttrMatches m s i
    attr_iff (value m) s i = match_string_iff m s
    attr_iff (index n) s i = ==_iff n i
    attr_iff attribute_not_set s i = (λ h. tt, λ h. refl)

    some_iff :
        (ms : Parts) (s : Text) (i : ℕ) → (match_any re ms s i false ≡ true) ↔ SomeMember ms s i
    some_iff nil s i = (λ h. cc, λ h. absurd h)
    some_iff (cons m ms) s i = (
      λ h. elim (Bool-cases (match_part re m s i)) [
        | inl hit ↦ inl ((match_part_iff m s i).0 hit)
        | inr miss ↦ inr ((some_iff ms s i).0 (ground arith))
      ],
      λ h. elim h [
        | inl w ↦ ground (arith, (match_part_iff m s i).1 w)
        | inr w ↦ ground (arith, (some_iff ms s i).1 w)
      ],
    )

    every_iff :
        (ms : Parts) (s : Text) (i : ℕ) → (match_all re ms s i true ≡ true) ↔ EveryMember ms s i
    every_iff nil s i = (λ h. tt, λ h. refl)
    every_iff (cons m ms) s i = (
      λ h. elim (Bool-cases (match_part re m s i)) [
        | inl hit ↦ ((match_part_iff m s i).0 hit, (every_iff ms s i).0 (ground arith))
        | inr miss ↦ cc
      ],
      λ (w, ws). ground (arith, (match_part_iff m s i).1 w, (every_iff ms s i).1 ws),
    )

-- A string match of a request answers true exactly where the string has the property that the
-- match describes: equality, a prefix, a suffix, a substring, a whole match of the regular
-- expression in its grammar, or, for a split, one or all of the parts having the described
-- property; a split into no parts never matches.
pub match_string-Matches :
    (re : RegexLibrary) (m : MatchString) (s : Text) → (match_string re m s ≡ true) ↔ Matches re m s
match_string-Matches re m s = match_string_iff re m s
