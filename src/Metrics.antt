-- ===== src/Metrics.antt =====
-- The callbacks of sn-p4/src/agent/stats.cpp (and sn-cfg's copy) that the statistics library runs
-- on each metric: get_stats_for_each_metric adds a metric's selected values to a response, and
-- clear_stats_filter_* say which values are to be cleared.
pub mod Laws
mod Tests
use esnet_smartnic_fw.Base.{
  ℕ, zero, suc, ◌+◌, Bool, true, false, List, [], ◌∷◌, ◌++◌, Option, none, some, length,
  if◌then◌else◌,
}
use esnet_smartnic_fw.Text.{Text}
use esnet_smartnic_fw.MatchString.{RegexLibrary}
use esnet_smartnic_fw.BitArray.{BitArray, bit_array, is_all_cleared, is_bit_set}
use esnet_smartnic_fw.Filter.{
  MetricType, Label, Value, ForEachSpec, Filter, StatsFilters, apply_filters, apply_filter,
}

-- stats_metric_type, the type that the statistics library gives a metric
pub data SpecType : Type 0 where
  counter gauge flag : SpecType
  other : ℕ → SpecType

-- A metric as the library hands it to a callback.
pub record MetricSpec : Type 0 where
  pub type : SpecType
  pub spec : ForEachSpec

-- The messages StatsMetricValue and StatsMetric
pub record MetricValue : Type 0 where
  pub index : ℕ
  pub u64 : ℕ
  pub f64 : ℕ
  pub labels : List Label

pub record Metric : Type 0 where
  pub type : MetricType
  pub name : Text
  pub num_elements : ℕ
  pub domain : Text
  pub zone : Text
  pub block : Text
  pub seconds : ℕ
  pub nanos : ℕ
  pub values : List MetricValue

-- The switch of get_stats_for_each_metric; `none` is its early return.
pub get_type : SpecType → Option MetricType
get_type SpecType.counter = some MetricType.counter
get_type SpecType.gauge = some MetricType.gauge
get_type SpecType.flag = some MetricType.flag
get_type (SpecType.other n) = none

-- The switch of clear_stats_filter_setup.
pub clear_type : SpecType → MetricType
clear_type SpecType.counter = MetricType.counter
clear_type SpecType.gauge = MetricType.gauge
clear_type SpecType.flag = MetricType.flag
clear_type (SpecType.other n) = MetricType.unknown

pub metric_value : Bool → ℕ → Value → MetricValue
metric_value with_labels n v = record {
  index = n;
  u64 = v.u64;
  f64 = v.f64;
  labels = if with_labels then v.labels else [];
}

-- The loop over the values, from index `n` on.
pub values_loop : BitArray → Bool → ℕ → List Value → List MetricValue
unfolding metric_value
values_loop valid with_labels n [] = []
values_loop valid with_labels n (v ∷ values) =
    let rest = values_loop valid with_labels (n + 1) values in
    if is_bit_set valid n then metric_value with_labels n v ∷ rest else rest

pub add_metric : MetricType → ForEachSpec → List MetricValue → Metric
add_metric ty spec values = record {
  type = ty;
  name = spec.name;
  num_elements = spec.nelements;
  domain = spec.domain;
  zone = spec.zone;
  block = spec.block;
  seconds = spec.seconds;
  nanos = spec.nanos;
  values = values;
}

-- What the callback appends once the valid values are known.
pub metric_of : MetricType → ForEachSpec → Bool → BitArray → List Metric
unfolding values_loop add_metric
metric_of ty spec with_labels valid =
    if is_all_cleared valid
    then []
    else add_metric ty spec (values_loop valid with_labels 0 spec.values) ∷ []

-- The rest of the callback, from the array that `apply_filters` computed.
pub with_valid : MetricType → ForEachSpec → Bool → Option BitArray → Option (List Metric)
unfolding metric_of
with_valid ty spec with_labels none = none
with_valid ty spec with_labels (some valid) = some (metric_of ty spec with_labels valid)

module _ (re : RegexLibrary) where
  pub get_typed : ℕ → StatsFilters → ForEachSpec → Option MetricType → Option (List Metric)
  unfolding with_valid
  get_typed fuel filters spec none = some []
  get_typed fuel filters spec (some ty) =
      with_valid ty spec filters.with_labels
        (apply_filters re fuel spec filters ty (bit_array (length spec.values)))

  -- The metrics that one call adds to the response, one at most; `none` where the filter's loops do
  -- not end within the fuel.
  pub get_metric : ℕ → StatsFilters → MetricSpec → Option (List Metric)
  unfolding get_type get_typed
  get_metric fuel filters m = get_typed fuel filters m.spec (get_type m.type)

  -- The library's walk over the metrics: the callback returns 0, so none is left out.
  pub get_metrics : ℕ → StatsFilters → List MetricSpec → List Metric → Option (List Metric)
  unfolding get_metric
  get_metrics fuel filters [] stats = some stats
  get_metrics fuel filters (m ∷ ms) stats = elim (get_metric fuel filters m) [
    | none ↦ none
    | some added ↦ get_metrics fuel filters ms (stats ++ added)
  ]

  -- clear_stats_filter_setup: the bits that clear_stats_filter_match tests.
  pub clear_setup : ℕ → Filter → MetricSpec → Option BitArray
  unfolding clear_type
  clear_setup fuel f m =
      apply_filter re fuel m.spec f (clear_type m.type) (bit_array (length m.spec.values))

-- clear_stats_filter_match
pub clear_match : BitArray → ℕ → Bool
clear_match valid value_idx = is_bit_set valid value_idx
