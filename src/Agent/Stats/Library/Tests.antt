-- ===== src/Agent/Stats/Library/Tests.antt =====
-- A clearing with a metric filter, on a metric with two elements, and requests for its statistics.
use esnet_smartnic_fw.Base.{
  ℕ, ◌+◌, ◌≡◌, refl, false, List, [], ◌∷◌, none, some, get_elem?, and_then,
}
use esnet_smartnic_fw.Text.{Text, text}
use esnet_smartnic_fw.MatchString.{MatchString}
use esnet_smartnic_fw.Base.{arith}
use esnet_smartnic_fw.Filter.{MetricMatch, Filter, FilterTerm}
use esnet_smartnic_fw.Metrics.{SpecType, clear_setup}
use esnet_smartnic_fw.Base.Int.{pos}
use esnet_smartnic_fw.Base.{true}
use esnet_smartnic_fw.Filter.{StatsFilters}
use esnet_smartnic_fw.Opennic.Metric.{metric_get_values}
use esnet_smartnic_fw.Opennic.Block.{metric_view, block_views}
use esnet_smartnic_fw.Opennic.Zone.{zone_views, domain_views}
use esnet_smartnic_fw.Agent.Errors.{ErrorCode}
use esnet_smartnic_fw.Agent.Device.{Device, DevicePipeline, State}
use esnet_smartnic_fw.Agent.Messages.{respond}
use esnet_smartnic_fw.Agent.Stats.{
  StatsLibrary, get_or_clear_stats, get_or_clear_pipeline_stats, stats_response, with_hw,
}
use esnet_smartnic_fw.Agent.Stats.Laws as Laws
use esnet_smartnic_fw.Agent.Stats.Pipelines as Pipelines
use esnet_smartnic_fw.Agent.Example.{example_regex, pipeline_info}
use esnet_smartnic_fw.Opennic.Metric.{StatsMetric, Element}
use esnet_smartnic_fw.Opennic.Block.{BlockDriver, StatsBlock, read_values, update_metric}
use esnet_smartnic_fw.Agent.Stats.Library.{
  World, ZonePlace, library, views_at, slot_views, zone_views_at, request_filter, after, clears,
  update_metric-selects,
}

abbrev driver : BlockDriver (Unit {0}) ℕ
driver = record {
  latch_metrics = λ hw. (tt, hw);
  read_metric = some (λ spec data_ hw. ((λ n. hw + n), data_, hw + 1));
  bus_read = λ size offset hw. (0, hw);
  convert_metric = λ spec u64 data_. u64;
  release_metrics = λ data_ hw. hw;
}

abbrev element : ℕ → Text → Element
element n queue = record {
  value = record { u64 = n; f64 = n; labels = record { key = text "queue"; value = queue } ∷ [] };
  last = n;
}

abbrev metric : StatsMetric
metric = record {
  spec = record {
    name = text "rx";
    nelements = 2;
    labels = [];
    type = SpecType.counter;
    flags = 4;
    init_value = 0;
    io = record { offset = 0; size = 8; width = 0; shift = 0; invert = false };
  };
  elements = element 3 (text "a") ∷ element 4 (text "b") ∷ [];
  mask = 0;
}

abbrev block : StatsBlock (Unit {0}) ℕ
block = record {
  name = text "b";
  driver = driver;
  metrics = metric ∷ [];
  nvalues = 2;
  seconds = 0;
  nanos = 0;
}

-- The values of the queue "b"
abbrev queue_b : Filter
queue_b = Filter.filter false (
    FilterTerm.match
      (MetricMatch.label (record { key = none; value = some (MatchString.exact (text "b")) })))

read : read_values driver metric tt 10 ≡ some ((λ n. 10 + n), tt, 11)
unfolding read_values
read = refl

update_metric-selects_example :
    (es : List Element) × (update_metric
        (text "d")
        (text "z")
        (request_filter (some (clear_setup example_regex 5 queue_b)))
        block
        metric
        tt
        none
        10
      ≡ some (record metric { elements = es }, tt, none, 11))
    × ((i : ℕ)
        → get_elem? es i
          ≡ and_then (get_elem? metric.elements i) λ e. some (
              after metric.spec
                (λ u64. u64)
                (clears example_regex 5 queue_b (text "d") (text "z") block metric i)
                (10 + i)
                e))
update_metric-selects_example =
    update_metric-selects example_regex 5 queue_b (text "d") (text "z") block metric tt none 10
      (λ n. 10 + n) tt 11 read (ground arith) (ground arith) tt

-- A domain with one zone, which is also that of the counters of a pipeline.
abbrev world : World (Unit {0}) ℕ
world = record {
  domains =
      record {
        name = text "d";
        zones =
            some (record {
              name = text "z";
              blocks = block ∷ [];
              nvalues = 2;
              ref_count = 1;
              enabled = true;
            })
            ∷ [];
        nvalues = 2;
        running = true;
      }
      ∷ [];
  hw = 10;
}

abbrev stats_library : StatsLibrary ZonePlace ℕ (World (Unit {0}) ℕ)
stats_library = library (λ hw. ((1, 2), hw))

abbrev counted : DevicePipeline ℕ ZonePlace
counted = record {
  id = 0;
  handle = 7;
  info = pipeline_info;
  counters = some (record { domain = 0; zone = 0 });
}

abbrev card : Device ℕ ZonePlace ℕ
card = record { bus_id = text "d8:00.0"; pipelines = counted ∷ []; domains = 0 ∷ [] }

abbrev queue_filters : StatsFilters
queue_filters = record { metric_filter = some queue_b; non_zero = false; with_labels = true }

abbrev running : State (World (Unit {0}) ℕ)
running = record { flags = λ n. false; hw = world }

card-AllSafe : Laws.AllSafe example_regex 5 stats_library (card ∷ []) queue_filters (0 ∷ []) world
unfolding library views_at domain_views zone_views block_views metric_view metric_get_values
card-AllSafe = (((ground arith, tt), tt), tt)

counted-AllSafe :
    Pipelines.AllSafe example_regex 5 stats_library (card ∷ []) queue_filters counted.counters world
unfolding library zone_views_at slot_views zone_views block_views metric_view metric_get_values
counted-AllSafe = ((ground arith, tt), tt)

get_stats-one_example :
    get_or_clear_stats example_regex 5 stats_library
      (card ∷ [])
      (record { dev_id = pos 0; filters = queue_filters })
      false
      running
    ≡ (let (stats, w) =
          Laws.domain_reports example_regex 5 stats_library
            (card ∷ [])
            queue_filters
            (0 ∷ [])
            world in
        some (with_hw running w, stats_response ErrorCode.ok 0 (some stats) ∷ [], tt))
get_stats-one_example =
    Laws.get_stats-one example_regex 5 stats_library (card ∷ []) queue_filters 0 card running
      card-AllSafe refl

get_pipeline_stats-one_example :
    get_or_clear_pipeline_stats example_regex 5 stats_library
      (card ∷ [])
      (record { dev_id = pos 0; pipeline_id = pos 0; filters = queue_filters })
      false
      running
    ≡ (let (stats, w) =
          Pipelines.zone_reports example_regex 5 stats_library
            (card ∷ [])
            queue_filters
            counted.counters
            world in
        some (with_hw running w, respond stats ErrorCode.ok 0 0 ∷ [], tt))
get_pipeline_stats-one_example =
    Pipelines.get_pipeline_stats-one example_regex 5 stats_library (card ∷ []) queue_filters 0 0
      card counted running counted-AllSafe refl refl
