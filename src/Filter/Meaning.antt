-- ===== src/Filter/Meaning.antt =====
-- The meaning of a filter: for each position of a metric's values, a truth value built by the usual
-- connectives, with no arrays and no early exits.
use esnet_smartnic_fw.Base.{
  ℕ, zero, suc, Bool, true, false, not, ◌&&◌, ◌||◌, List, [], ◌∷◌, Option, none, some, length, any,
  All, ◌==◌, if◌then◌else◌,
}
use esnet_smartnic_fw.MatchString.{RegexLibrary, match_string}
use esnet_smartnic_fw.Filter.{
  MetricType, metric_type_number, Value, ForEachSpec, MetricMatch, type, domain, zone, block, name,
  indices, label, attribute_not_set, Filter, filter, FilterTerm, match, any_set, all_set,
  term_not_set, Filters, nil, cons, StatsFilters, label_matches,
}
use esnet_smartnic_fw.Filter.Slices.{slice_selects, SafeStep}

-- The value at a position has the property `p`; past the end nothing has.
abbrev pub value_at : List Value → ℕ → (Value → Bool) → Bool
value_at [] n p = false
value_at (v ∷ values) zero p = p v
value_at (v ∷ values) (suc n) p = value_at values n p

-- No slice of the filter has a step so large that its loop variable leaves `int32`.
abbrev pub SafeMatch : ℕ → MetricMatch → Type 0
SafeMatch size (indices slices) = All (SafeStep size) slices
SafeMatch size (type t) = Unit
SafeMatch size _ = Unit

abbrev mutual
  pub SafeFilter : ℕ → Filter → Type 0
  SafeFilter size (filter negated t) = SafeTerm size t

  pub SafeTerm : ℕ → FilterTerm → Type 0
  SafeTerm size (match m) = SafeMatch size m
  SafeTerm size (any_set ms) = SafeFilters size ms
  SafeTerm size (all_set ms) = SafeFilters size ms
  SafeTerm size term_not_set = Unit

  pub SafeFilters : ℕ → Filters → Type 0
  SafeFilters size nil = Unit
  SafeFilters size (cons m ms) = SafeFilter size m × SafeFilters size ms

module _ (re : RegexLibrary) (spec : ForEachSpec) (ty : MetricType) where
  unfoldable pub match_selects : MetricMatch → ℕ → Bool
  match_selects (type t) n = metric_type_number t == metric_type_number ty
  match_selects (domain m) n = match_string re m spec.domain
  match_selects (zone m) n = match_string re m spec.zone
  match_selects (block m) n = match_string re m spec.block
  match_selects (name m) n = match_string re m spec.name
  match_selects (indices slices) n =
      if spec.is_array
      then any (λ s. slice_selects (length spec.values) s n) slices
      else length slices == 0
  match_selects (label l) n = value_at spec.values n (λ v. any (label_matches re l) v.labels)
  match_selects attribute_not_set n = true

  unfoldable mutual
    pub selects : Filter → ℕ → Bool
    selects (filter negated t) n = if negated then not (term_selects t n) else term_selects t n

    pub term_selects : FilterTerm → ℕ → Bool
    term_selects (match m) n = match_selects m n
    term_selects (any_set nil) n = true
    term_selects (any_set (cons m ms)) n = selects m n || some_selects ms n
    term_selects (all_set ms) n = every_selects ms n
    term_selects term_not_set n = true

    pub some_selects : Filters → ℕ → Bool
    some_selects nil n = false
    some_selects (cons m ms) n = selects m n || some_selects ms n

    pub every_selects : Filters → ℕ → Bool
    every_selects nil n = true
    every_selects (cons m ms) n = selects m n && every_selects ms n

-- The whole request: the filter where there is one, and the test on zero where it is asked for.
module _ (re : RegexLibrary) (spec : ForEachSpec) (ty : MetricType) where
  unfoldable pub optional_selects : Option Filter → ℕ → Bool
  optional_selects none n = true
  optional_selects (some f) n = selects re spec ty f n

  unfoldable pub filters_select : StatsFilters → ℕ → Bool
  unfolding optional_selects
  filters_select filters n =
      value_at spec.values n (λ v. not filters.non_zero || not (v.u64 == 0))
      && optional_selects filters.metric_filter n

-- The filter, if there is one, is safe.
abbrev pub SafeOptional : ℕ → Option Filter → Type 0
SafeOptional size none = Unit
SafeOptional size (some f) = SafeFilter size f
