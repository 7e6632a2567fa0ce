-- ===== src/Filter/Requests.antt =====
-- All the filters of a request: the test on zero and the filter proper.
use esnet_smartnic_fw.Base.{
  ℕ, ◌+◌, ◌-◌, ◌≡◌, ◌<◌, refl, Bool, not, ◌&&◌, ◌||◌, List, [], ◌∷◌, Option, none, some, length,
  ltb, ◌==◌, if◌then◌else◌, arith, Bool-cases, inl, inr,
}
use esnet_smartnic_fw.MatchString.{RegexLibrary}
use esnet_smartnic_fw.BitArray.{BitArray, bit_array, is_all_cleared}
use esnet_smartnic_fw.BitArray.Laws.{
  Represents, Represents-ext, bit_array-Represents, assign_bit-Represents, and_assign-Represents,
  is_all_cleared_iff, is_all_cleared-bit_array_zero,
}
use esnet_smartnic_fw.Filter.{
  MetricType, Value, ForEachSpec, Filter, StatsFilters, apply_filters, apply_metric_filter,
  non_zero_loop,
}
use esnet_smartnic_fw.Filter.Meaning.{value_at, filters_select, optional_selects, SafeOptional}
use esnet_smartnic_fw.Filter.Laws.{Computes, value_at-cons, filter-Computes}

abbrev shown : Bool → Value → Bool
shown non_zero v = not non_zero || not (v.u64 == 0)

non_zero-Represents :
    (non_zero : Bool) (values : List Value) (n size : ℕ) (a : BitArray) (b : ℕ → Bool)
    → Represents a size b
    → Represents (non_zero_loop non_zero values n a) size (λ m.
      if not (ltb m n) && ltb m (n + length values)
      then value_at values (m - n) (shown non_zero)
      else b m)
unfolding non_zero_loop
non_zero-Represents non_zero [] n size a b r = Represents-ext a size b _ r (λ m lt. ground arith)
non_zero-Represents non_zero (v ∷ values) n size a b r =
    Represents-ext _ size _ _
      (non_zero-Represents non_zero values (n + 1) size _ _
        (assign_bit-Represents a size b n (shown non_zero v) r))
      (λ m lt. ground (arith, value_at-cons v values (shown non_zero) n m))

non_zero-Computes :
    (non_zero : Bool) (values : List Value) (a : BitArray) (b : ℕ → Bool)
    → Represents a (length values) b
    → Represents
        (non_zero_loop non_zero values 0 a)
        (length values)
        (λ m. value_at values m (shown non_zero))
non_zero-Computes non_zero values a b r =
    Represents-ext _ (length values) _ _ (non_zero-Represents non_zero values 0 _ a b r)
      (λ m lt. let e : m - 0 ≡ m = omega arith in rw e (ground arith))

module _ (re : RegexLibrary) (fuel : ℕ) (spec : ForEachSpec) (ty : MetricType)
    (enough : length spec.values < fuel) (some_value : 0 < length spec.values) where
  optional-Computes :
      (o : Option Filter) (a : BitArray) (b : ℕ → Bool)
      → SafeOptional (length spec.values) o
      → Represents a (length spec.values) b
      → Computes
          (apply_metric_filter re fuel spec o ty a)
          (length spec.values)
          (λ m. b m && optional_selects re spec ty o m)
  unfolding apply_metric_filter optional_selects
  optional-Computes none a b safe r = (a, refl, Represents-ext a _ _ _ r (λ m lt. ground arith))
  optional-Computes (some f) a b safe r =
      let new = bit_array-Represents (length spec.values) some_value in
      let (v, run, rep) =
        filter-Computes re spec ty fuel enough some_value f (bit_array a.nbits) safe
          (rw r.size new) in
      let (a', joined, joint) = and_assign-Represents a v _ b _ r rep in
      (a', ground (arith, run, joined), joint)

  -- The array that `apply_filters` computes has exactly the bits of the values that the request
  -- selects, whatever it held before.
  pub apply_filters-Computes :
      (filters : StatsFilters) (a : BitArray) (b : ℕ → Bool)
      → SafeOptional (length spec.values) filters.metric_filter
      → Represents a (length spec.values) b
      → Computes
          (apply_filters re fuel spec filters ty a)
          (length spec.values)
          (filters_select re spec ty filters)
  unfolding apply_filters filters_select
  apply_filters-Computes filters a b safe r =
      let zeroed = non_zero-Computes filters.non_zero spec.values a b r in
      let valid = non_zero_loop filters.non_zero spec.values 0 a in
      elim (Bool-cases (is_all_cleared valid)) [
        | inl nothing ↦ (
          valid,
          ground arith,
          Represents-ext valid _ _ _ zeroed
              (λ m lt. ground (arith, (is_all_cleared_iff valid _ _ zeroed).0 nothing m lt)),
        )
        | inr something ↦
            let (a', run, rep) = optional-Computes filters.metric_filter valid _ safe zeroed in
            (a', ground (arith, run), rep)
      ]

-- With no values the function returns before it looks at the filter.
pub apply_filters-empty :
    (re : RegexLibrary) (fuel : ℕ) (spec : ForEachSpec) (filters : StatsFilters) (ty : MetricType)
    → spec.values ≡ []
    → apply_filters re fuel spec filters ty (bit_array 0) ≡ some (bit_array 0)
unfolding apply_filters
apply_filters-empty re fuel spec filters ty e = rw (e, is_all_cleared-bit_array_zero)
