-- ===== src/Metrics/Tests.antt =====
-- The statistics callbacks on a metric of three values.
use esnet_smartnic_fw.Base.{ℕ, ◌≡◌, true, false, ◌&&◌, [], ◌∷◌, ◌++◌, ltb, none, some, arith}
use esnet_smartnic_fw.Text.{Text, text, text_eq}
use esnet_smartnic_fw.MatchString.{RegexLibrary, MatchString}
use esnet_smartnic_fw.BitArray.{BitArray}
use esnet_smartnic_fw.Filter.{
  MetricType, Value, MetricMatch, Filter, FilterTerm, Filters, StatsFilters,
}
use esnet_smartnic_fw.Filter.Meaning.{selects}
use esnet_smartnic_fw.Metrics.{
  SpecType, MetricSpec, clear_type, get_metrics, clear_setup, clear_match,
}
use esnet_smartnic_fw.Metrics.Laws.{reports, get_metrics-reports, clear_setup-selects}

abbrev literal_regex : RegexLibrary
literal_regex = record {
  regex_match = λ syntax pattern s. text_eq pattern s;
  regex_split = λ pattern s. s ∷ [];
}

abbrev queue_value : ℕ → Text → Value
queue_value n queue = record {
  u64 = n;
  f64 = 0;
  labels = record { key = text "queue"; value = queue } ∷ [];
}

abbrev packets : MetricSpec
packets = record {
  type = SpecType.counter;
  spec = record {
    domain = text "counters_stats";
    zone = text "pipeline0";
    block = text "drops";
    name = text "packets";
    is_array = true;
    nelements = 3;
    values = queue_value 5 (text "a") ∷ queue_value 0 (text "b") ∷ queue_value 7 (text "b") ∷ [];
    seconds = 1;
    nanos = 2;
  };
}

-- The values of the queue "b" of a counter.
abbrev queue_b : Filter
queue_b = Filter.filter false (
    FilterTerm.all_set (
      Filters.cons (Filter.filter false (FilterTerm.match (MetricMatch.type MetricType.counter))) (
        Filters.cons
          (Filter.filter false (
            FilterTerm.match (
              MetricMatch.label
                (record { key = none; value = some (MatchString.exact (text "b")) }))))
          Filters.nil)))

abbrev queue_filters : StatsFilters
queue_filters = record { metric_filter = some queue_b; non_zero = true; with_labels = true }

get_metrics-reports_example :
    get_metrics literal_regex 4 queue_filters (packets ∷ []) []
    ≡ some ([] ++ reports literal_regex queue_filters (packets ∷ []))
get_metrics-reports_example =
    get_metrics-reports literal_regex 4 queue_filters (packets ∷ []) []
      ((omega arith, (tt, (tt, tt))), tt)

clear_setup-selects_example :
    (valid : BitArray) × (clear_setup literal_regex 4 queue_b packets ≡ some valid)
    × ((n : ℕ)
        → clear_match valid n
          ≡ (ltb n 3 && selects literal_regex packets.spec (clear_type packets.type) queue_b n))
clear_setup-selects_example =
    clear_setup-selects literal_regex 4 queue_filters queue_b packets (omega arith) (omega arith)
      (tt, (tt, tt))
