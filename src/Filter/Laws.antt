-- ===== src/Filter/Laws.antt =====
-- The arrays that the filter functions compute hold the meaning of the filter.
use esnet_smartnic_fw.Base.{
  ℕ, suc, ◌+◌, ◌-◌, ◌≡◌, ◌<◌, refl, Bool, true, false, not, ◌&&◌, ◌||◌, List, [], ◌∷◌, Option, none,
  some, length, any, ltb, ◌==◌, if◌then◌else◌, arith, Bool-cases, inl, inr,
}
use esnet_smartnic_fw.MatchString.{RegexLibrary}
use esnet_smartnic_fw.BitArray.{
  BitArray, bit_array, is_all_set, is_all_cleared, set_all, clear_all, negate_all, assign_all,
  assign_bit,
}
use esnet_smartnic_fw.BitArray.Laws.{
  Represents, Represents-ext, bit_array-Represents, assign_bit-Represents, assign_all-Represents,
  set_all-Represents, clear_all-Represents, negate_all-Represents, and_assign-Represents,
  or_assign-Represents, is_all_set_iff, is_all_cleared_iff,
}
use esnet_smartnic_fw.Filter.{
  MetricType, Value, ForEachSpec, Slice, MatchLabel, MetricMatch, type, domain, zone, block, name,
  indices, label, attribute_not_set, Filter, filter, FilterTerm, match, any_set, all_set,
  term_not_set, Filters, nil, cons, label_matches, apply_match_label, apply_match_indices,
  apply_match, apply_filter, apply_term, any_loop, all_loop, members_size,
}
use esnet_smartnic_fw.Filter.Slices.{slices_loop-Represents}
use esnet_smartnic_fw.Filter.Meaning.{
  value_at, SafeMatch, SafeFilter, SafeTerm, SafeFilters, match_selects, selects, term_selects,
  some_selects, every_selects,
}

-- The array is computed, and holds the truth values `c`.
abbrev pub Computes : Option BitArray → ℕ → (ℕ → Bool) → Type 0
Computes o size c = (r : BitArray) × (o ≡ some r) × Represents r size c

pub value_at-cons :
    (v : Value) (values : List Value) (p : Value → Bool) (n m : ℕ)
    → (not (ltb m n) && value_at (v ∷ values) (m - n) p)
      ≡ ((n == m && p v) || (not (ltb m (n + 1)) && value_at values (m - (n + 1)) p))
value_at-cons v values p n m = elim (Bool-cases (ltb m n)) [
  | inl before ↦ ground arith
  | inr reached ↦ elim (Bool-cases (n == m)) [
    | inl here ↦ let e : m - n ≡ 0 = ground arith in rw e (ground arith)
    | inr later ↦ let e : m - n ≡ suc (m - (n + 1)) = ground arith in rw e (ground arith)
  ]
]

module _ (re : RegexLibrary) where
  label_loop-Represents :
      (l : MatchLabel) (values : List Value) (n size : ℕ) (a : BitArray) (b : ℕ → Bool)
      → Represents a size b
      → Represents (apply_match_label re l values n a) size (λ m.
        b m || (not (ltb m n) && value_at values (m - n) (λ v. any (label_matches re l) v.labels)))
  unfolding apply_match_label
  label_loop-Represents l [] n size a b r = Represents-ext a size b _ r (λ m lt. ground arith)
  label_loop-Represents l (v ∷ values) n size a b r =
      elim (Bool-cases (any (label_matches re l) v.labels)) [
        | inl hit ↦ rw hit (
            Represents-ext _ size _ _
              (label_loop-Represents l values (n + 1) size (assign_bit a n true) _
                (assign_bit-Represents a size b n true r))
              (λ m lt.
                ground
                  (arith, value_at-cons v values (λ v. any (label_matches re l) v.labels) n m)))
        | inr miss ↦ rw miss (
            Represents-ext _ size _ _ (label_loop-Represents l values (n + 1) size a b r) (λ m lt.
              ground (arith, value_at-cons v values (λ v. any (label_matches re l) v.labels) n m)))
      ]

  label-Computes :
      (l : MatchLabel) (values : List Value) (size : ℕ) (a : BitArray)
      → Represents a size (λ m. false)
      → Represents
          (apply_match_label re l values 0 a)
          size
          (λ m. value_at values m (λ v. any (label_matches re l) v.labels))
  label-Computes l values size a r =
      Represents-ext _ size _ _ (label_loop-Represents l values 0 size a _ r)
        (λ m lt. let e : m - 0 ≡ m = omega arith in rw e (ground arith))

  module _ (spec : ForEachSpec) (ty : MetricType) (fuel : ℕ) (enough : length spec.values < fuel)
      (some_value : 0 < length spec.values) where
    indices-Computes :
        (slices : List Slice) (a : BitArray)
        → SafeMatch (length spec.values) (indices slices)
        → Represents a (length spec.values) (λ m. false)
        → Computes
            (apply_match_indices fuel slices spec a)
            (length spec.values)
            (match_selects re spec ty (indices slices))
    unfolding apply_match_indices match_selects
    indices-Computes slices a safe r = elim (Bool-cases spec.is_array) [
      | inl array ↦
          let (a', run, rep) =
            slices_loop-Represents fuel (length spec.values) slices a _ enough safe r in
          (a', ground (arith, run, r.size), Represents-ext a' _ _ _ rep (λ m lt. ground arith))
      | inr single ↦ (
        assign_all a (ltb (length slices) 1),
        ground arith,
        Represents-ext _ _ _ _
            (assign_all-Represents a (length spec.values) _ (ltb (length slices) 1) r)
            (λ m lt. ground arith),
      )
    ]

    match-Computes :
        (m : MetricMatch) (a : BitArray)
        → SafeMatch (length spec.values) m
        → Represents a (length spec.values) (λ m. false)
        → Computes
            (apply_match re fuel spec m ty a)
            (length spec.values)
            (match_selects re spec ty m)
    unfolding apply_match match_selects
    match-Computes (type t) a safe r = (_, refl, assign_all-Represents a _ _ _ r)
    match-Computes (domain t) a safe r = (_, refl, assign_all-Represents a _ _ _ r)
    match-Computes (zone t) a safe r = (_, refl, assign_all-Represents a _ _ _ r)
    match-Computes (block t) a safe r = (_, refl, assign_all-Represents a _ _ _ r)
    match-Computes (name t) a safe r = (_, refl, assign_all-Represents a _ _ _ r)
    match-Computes (indices slices) a safe r = indices-Computes slices a safe r
    match-Computes (label l) a safe r = (_, refl, label-Computes l spec.values _ a r)
    match-Computes attribute_not_set a safe r = (_, refl, assign_all-Represents a _ _ _ r)

    negate-Computes :
        (negated : Bool) (o : Option BitArray) (c : ℕ → Bool)
        → Computes o (length spec.values) c
        → Computes
            (elim o [ none ↦ none | some v ↦ some (if negated then negate_all v else v) ])
            (length spec.values)
            (λ m. if negated then not (c m) else c m)
    negate-Computes true o c (a, run, r) = (negate_all a, rw run, negate_all-Represents a _ c r)
    negate-Computes false o c (a, run, r) = (a, rw run, r)

    new_array : Represents (bit_array (length spec.values)) (length spec.values) (λ m. false)
    new_array = bit_array-Represents (length spec.values) some_value

    -- An empty set takes the shortcut of the code, any other the loop.
    any_set-Computes :
        (ms : Filters) (a : BitArray)
        → Represents a (length spec.values) (λ m. false)
        → Computes
            (any_loop re fuel spec ms ty (bit_array a.nbits) a)
            (length spec.values)
            (λ m. false || some_selects re spec ty ms m)
        → Computes
            (apply_term re fuel spec (any_set ms) ty a)
            (length spec.values)
            (term_selects re spec ty (any_set ms))
    unfolding apply_filter selects members_size
    any_set-Computes nil a r c = (_, refl, set_all-Represents a _ _ r)
    any_set-Computes (cons f ms) a r (a', run, rep) = (a', ground (arith, run), rep)

    all_set-Computes :
        (ms : Filters) (a : BitArray)
        → Represents a (length spec.values) (λ m. false)
        → Computes
            (all_loop re fuel spec ms ty (bit_array a.nbits) (set_all a))
            (length spec.values)
            (λ m. true && every_selects re spec ty ms m)
        → Computes
            (apply_term re fuel spec (all_set ms) ty a)
            (length spec.values)
            (term_selects re spec ty (all_set ms))
    unfolding apply_filter selects members_size
    all_set-Computes nil a r c = (_, refl, set_all-Represents a _ _ r)
    all_set-Computes (cons f ms) a r (a', run, rep) = (a', ground (arith, run), rep)

    mutual
      unfolding apply_filter selects members_size

      pub filter-Computes :
          (f : Filter) (a : BitArray)
          → SafeFilter (length spec.values) f
          → Represents a (length spec.values) (λ m. false)
          → Computes (apply_filter re fuel spec f ty a) (length spec.values) (selects re spec ty f)
      filter-Computes (filter negated t) a safe r =
          negate-Computes negated (apply_term re fuel spec t ty a) (term_selects re spec ty t)
            (term-Computes t a safe r)

      term-Computes :
          (t : FilterTerm) (a : BitArray)
          → SafeTerm (length spec.values) t
          → Represents a (length spec.values) (λ m. false)
          → Computes
              (apply_term re fuel spec t ty a)
              (length spec.values)
              (term_selects re spec ty t)
      term-Computes (match m) a safe r = match-Computes m a safe r
      term-Computes (any_set ms) a safe r =
          any_set-Computes ms a r
            (any-Computes ms (bit_array a.nbits) a (λ m. false) safe (rw r.size new_array) r)
      term-Computes (all_set ms) a safe r = all_set-Computes ms a r (
          all-Computes ms (bit_array a.nbits) (set_all a) (λ m. true) safe (rw r.size new_array)
            (set_all-Represents a _ _ r))
      term-Computes term_not_set a safe r = (_, refl, set_all-Represents a _ _ r)

      any-Computes :
          (ms : Filters) (v a : BitArray) (b : ℕ → Bool)
          → SafeFilters (length spec.values) ms
          → Represents v (length spec.values) (λ m. false)
          → Represents a (length spec.values) b
          → Computes
              (any_loop re fuel spec ms ty v a)
              (length spec.values)
              (λ m. b m || some_selects re spec ty ms m)
      any-Computes nil v a b safe rv ra =
          (a, refl, Represents-ext a _ _ _ ra (λ m lt. ground arith))
      any-Computes (cons f ms) v a b safe rv ra =
          let (v', run, rep) = filter-Computes f v safe.0 rv in
          let (a', assign, joint) = or_assign-Represents a v' _ b _ ra rep in
          elim (Bool-cases (is_all_set a')) [
            | inl early ↦ (
              a',
              ground (arith, run, assign),
              Represents-ext a' _ _ _ joint
                  (λ m lt. ground (arith, (is_all_set_iff a' _ _ joint).0 early m lt)),
            )
            | inr more ↦
                let (a'', runs, reps) =
                  any-Computes ms (clear_all v') a' _ safe.1 (clear_all-Represents v' _ _ rep)
                    joint in
                (
                  a'',
                  ground (arith, run, assign, runs),
                  Represents-ext a'' _ _ _ reps (λ m lt. ground arith),
                )
          ]

      all-Computes :
          (ms : Filters) (v a : BitArray) (b : ℕ → Bool)
          → SafeFilters (length spec.values) ms
          → Represents v (length spec.values) (λ m. false)
          → Represents a (length spec.values) b
          → Computes
              (all_loop re fuel spec ms ty v a)
              (length spec.values)
              (λ m. b m && every_selects re spec ty ms m)
      all-Computes nil v a b safe rv ra =
          (a, refl, Represents-ext a _ _ _ ra (λ m lt. ground arith))
      all-Computes (cons f ms) v a b safe rv ra =
          let (v', run, rep) = filter-Computes f v safe.0 rv in
          let (a', assign, joint) = and_assign-Represents a v' _ b _ ra rep in
          elim (Bool-cases (is_all_cleared a')) [
            | inl early ↦ (
              a',
              ground (arith, run, assign),
              Represents-ext a' _ _ _ joint
                  (λ m lt. ground (arith, (is_all_cleared_iff a' _ _ joint).0 early m lt)),
            )
            | inr more ↦
                let (a'', runs, reps) =
                  all-Computes ms (clear_all v') a' _ safe.1 (clear_all-Represents v' _ _ rep)
                    joint in
                (
                  a'',
                  ground (arith, run, assign, runs),
                  Represents-ext a'' _ _ _ reps (λ m lt. ground arith),
                )
          ]
