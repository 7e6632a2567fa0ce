-- ===== src/Metrics/Laws.antt =====
-- What a request gets and clears.
use mathlib.Core.List.{append-nil, append_assoc}
use esnet_smartnic_fw.Base.{
  ℕ, ◌+◌, ◌≡◌, ◌≤◌, ◌<◌, refl, ap, sym, ◌∙◌, Bool, false, ◌&&◌, List, [], ◌∷◌, ◌++◌, Option, none,
  some, length, All, if◌then◌else◌, ltb, ◌==◌, ◌⊎◌, arith, Bool-cases, inl, inr,
}
use esnet_smartnic_fw.MatchString.{RegexLibrary}
use esnet_smartnic_fw.BitArray.{BitArray, bit_array, is_all_cleared}
use esnet_smartnic_fw.BitArray.Laws.{
  Represents, is_bit_set_lem, is_all_cleared_iff, bit_array-Represents,
  is_all_cleared-bit_array_zero,
}
use esnet_smartnic_fw.Filter.{MetricType, Value, ForEachSpec, Filter, StatsFilters, apply_filters}
use esnet_smartnic_fw.Filter.Meaning.{filters_select, selects, SafeFilter, SafeOptional}
use esnet_smartnic_fw.Filter.Laws.{filter-Computes}
use esnet_smartnic_fw.Filter.Requests.{apply_filters-Computes, apply_filters-empty}
use esnet_smartnic_fw.Metrics.{
  MetricSpec, MetricValue, Metric, get_type, clear_type, metric_value, values_loop, add_metric,
  metric_of, with_valid, get_typed, get_metric, get_metrics, clear_setup, clear_match,
}

-- The values at the positions that `b` selects, in order, each under its own index.
pub selected : (ℕ → Bool) → Bool → ℕ → List Value → List MetricValue
selected b with_labels n [] = []
selected b with_labels n (v ∷ values) =
    if b n
    then metric_value with_labels n v ∷ selected b with_labels (n + 1) values
    else selected b with_labels (n + 1) values

-- No metric stands in the response for which there is no value to show.
pub report : MetricType → ForEachSpec → List MetricValue → List Metric
report ty spec [] = []
report ty spec (v ∷ vs) = add_metric ty spec (v ∷ vs) ∷ []

module _ (valid : BitArray) (size : ℕ) (b : ℕ → Bool) (with_labels : Bool)
    (r : Represents valid size b) where
  values_loop-selected :
      (n : ℕ) (values : List Value)
      → n + length values ≤ size
      → values_loop valid with_labels n values ≡ selected b with_labels n values
  unfolding values_loop selected
  values_loop-selected n [] h = refl
  values_loop-selected n (v ∷ values) h =
      ground (arith, is_bit_set_lem valid size b n r, values_loop-selected (n + 1) values)

  selected_none :
      (n : ℕ) (values : List Value)
      → n + length values ≤ size
      → ((m : ℕ) → m < size → b m ≡ false)
      → selected b with_labels n values ≡ []
  unfolding selected
  selected_none n [] h none_set = refl
  selected_none n (v ∷ values) h none_set =
      ground (arith, none_set n, selected_none (n + 1) values (omega arith) none_set)

  -- Some bit is set, so something is selected.
  selected_some :
      (n : ℕ) (values : List Value)
      → selected b with_labels n values ≡ []
      → (m : ℕ) → n ≤ m
      → m < n + length values
      → b m ≡ false
  unfolding selected
  selected_some n [] e m lo hi = absurd (omega arith)
  selected_some n (v ∷ values) e m lo hi = elim (Bool-cases (m == n)) [
    | inl here ↦ ground arith
    | inr later ↦ selected_some (n + 1) values (ground arith) m (ground arith) (omega arith)
  ]

values-cases : (vs : List Value) → (vs ≡ []) ⊎ (0 < length vs)
values-cases [] = inl refl
values-cases (v ∷ vs) = inr (omega arith)

report-nonempty :
    (ty : MetricType) (spec : ForEachSpec) (vs : List MetricValue)
    → (vs ≡ [] → ⊥)
    → report ty spec vs ≡ add_metric ty spec vs ∷ []
unfolding report
report-nonempty ty spec [] h = absurd (h refl)
report-nonempty ty spec (v ∷ vs) h = refl

metric_of-report :
    (ty : MetricType) (spec : ForEachSpec) (with_labels : Bool) (valid : BitArray) (b : ℕ → Bool)
    → Represents valid (length spec.values) b
    → metric_of ty spec with_labels valid ≡ report ty spec (selected b with_labels 0 spec.values)
unfolding metric_of
metric_of-report ty spec with_labels valid b r = elim (Bool-cases (is_all_cleared valid)) [
  | inl nothing ↦
      let empty : selected b with_labels 0 spec.values ≡ [] =
        selected_none valid _ b with_labels r 0 spec.values (omega arith)
          ((is_all_cleared_iff valid _ b r).0 nothing) in
      rw (nothing, empty) (unfold report in refl)
  | inr something ↦
      let same = values_loop-selected valid _ b with_labels r 0 spec.values (omega arith) in
      rw (something, same) (sym (report-nonempty ty spec _ (λ e. set_bits e something)))
]
  where
    set_bits : selected b with_labels 0 spec.values ≡ [] → is_all_cleared valid ≡ false → ⊥
    set_bits e something = ground (
      arith,
      (is_all_cleared_iff valid _ b r).1 (λ m lt.
          selected_some valid _ b with_labels r 0 spec.values e m (omega arith) (omega arith)),
    )

-- What a request should report of a metric: its selected values, or nothing for a metric of a type
-- that the agent does not know.
pub expected_typed : RegexLibrary → StatsFilters → ForEachSpec → Option MetricType → List Metric
expected_typed re filters spec none = []
expected_typed re filters spec (some ty) =
    report ty spec (selected (filters_select re spec ty filters) filters.with_labels 0 spec.values)

pub expected : RegexLibrary → StatsFilters → MetricSpec → List Metric
expected re filters m = expected_typed re filters m.spec (get_type m.type)

-- The reports on several metrics, one after the other.
unfoldable pub reports : RegexLibrary → StatsFilters → List MetricSpec → List Metric
reports re filters [] = []
reports re filters (m ∷ ms) = expected re filters m ++ reports re filters ms

-- The filters have no slice whose loop leaves `int32` on this metric.
abbrev pub Safe : StatsFilters → MetricSpec → Type 0
Safe filters m = SafeOptional (length m.spec.values) filters.metric_filter

metric_of_zero :
    (ty : MetricType) (spec : ForEachSpec) (with_labels : Bool)
    → metric_of ty spec with_labels (bit_array 0) ≡ []
unfolding metric_of
metric_of_zero ty spec with_labels = rw is_all_cleared-bit_array_zero

report_zero :
    (ty : MetricType) (spec : ForEachSpec) (with_labels : Bool) (b : ℕ → Bool) (vs : List Value)
    → vs ≡ []
    → report ty spec (selected b with_labels 0 vs) ≡ []
unfolding report selected
report_zero ty spec with_labels b [] e = refl
report_zero ty spec with_labels b (v ∷ vs) e = cc

module _ (re : RegexLibrary) (fuel : ℕ) (filters : StatsFilters) where
  typed_empty :
      (spec : ForEachSpec) (ty : MetricType)
      → spec.values ≡ []
      → get_typed re fuel filters spec (some ty) ≡ some (expected_typed re filters spec (some ty))
  unfolding get_typed expected_typed
  typed_empty spec ty e =
      let run : apply_filters re fuel spec filters ty (bit_array (length spec.values))
          ≡ some (bit_array 0) =
        ap (λ (n : ℕ). apply_filters re fuel spec filters ty (bit_array n)) (ap (length {0}) e)
        ∙ apply_filters-empty re fuel spec filters ty e in
      ap (with_valid ty spec filters.with_labels) run
      ∙ ap some (
          metric_of_zero ty spec filters.with_labels
          ∙ sym (report_zero ty spec filters.with_labels _ spec.values e))

  typed_metric :
      (spec : ForEachSpec) (o : Option MetricType)
      → length spec.values < fuel
      → SafeOptional (length spec.values) filters.metric_filter
      → get_typed re fuel filters spec o ≡ some (expected_typed re filters spec o)
  unfolding get_typed expected_typed
  typed_metric spec none enough safe = refl
  typed_metric spec (some ty) enough safe = elim (values-cases spec.values) [
    | inl empty ↦ typed_empty spec ty empty
    | inr some_value ↦
        let (valid, run, rep) =
          apply_filters-Computes re fuel spec ty enough some_value filters
            (bit_array (length spec.values)) _ safe
            (bit_array-Represents (length spec.values) some_value) in
        ap (with_valid ty spec filters.with_labels) run
        ∙ ap some (metric_of-report ty spec filters.with_labels valid _ rep)
  ]

  -- The callback reports exactly what it should.
  pub get_metric-expected :
      (m : MetricSpec)
      → length m.spec.values < fuel
      → Safe filters m
      → get_metric re fuel filters m ≡ some (expected re filters m)
  unfolding get_metric expected
  get_metric-expected m enough safe = typed_metric m.spec (get_type m.type) enough safe

  -- If on each metric the values are fewer than the fuel and the slices of the filter stay within
  -- their integers, then the walk over the metrics ends, and appends to the response, in order, one
  -- report for each metric with a selected value, which holds exactly the selected values with their
  -- indices.
  pub get_metrics-reports :
      (ms : List MetricSpec) (stats : List Metric)
      → All (λ m. (length m.spec.values < fuel) × Safe filters m) ms
      → get_metrics re fuel filters ms stats ≡ some (stats ++ reports re filters ms)
  unfolding get_metrics reports
  get_metrics-reports [] stats h = ap some (sym (append-nil stats))
  get_metrics-reports (m ∷ ms) stats ((enough, safe), rest) = ground (
    arith,
    get_metric-expected m enough safe,
    get_metrics-reports ms (stats ++ expected re filters m) rest,
    append_assoc stats (expected re filters m) (reports re filters ms),
  )

  -- If the values are fewer than the fuel, at least one, and the slices of the filter stay within their
  -- integers, then setting up a clear request ends, and its callbacks answer true for
  -- exactly the indices of values that the filter selects; the test on zero of a
  -- request plays no part.
  pub clear_setup-selects :
      (f : Filter) (m : MetricSpec)
      → length m.spec.values < fuel
      → 0 < length m.spec.values
      → SafeFilter (length m.spec.values) f
      → (valid : BitArray) × (clear_setup re fuel f m ≡ some valid)
        × ((n : ℕ)
            → clear_match valid n
              ≡ (ltb n (length m.spec.values) && selects re m.spec (clear_type m.type) f n))
  unfolding clear_setup clear_match
  clear_setup-selects f m enough some_value safe =
      let (valid, run, rep) =
        filter-Computes re m.spec (clear_type m.type) fuel enough some_value f
          (bit_array (length m.spec.values)) safe
          (bit_array-Represents (length m.spec.values) some_value) in
      (valid, run, λ n. is_bit_set_lem valid _ _ n rep)
