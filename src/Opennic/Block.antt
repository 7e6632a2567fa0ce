-- ===== src/Opennic/Block.antt =====
-- Blocks of libopennic/src/stats.c: the update of their metrics, which reads and perhaps clears, and
-- the walk that hands each metric to a callback. The functions of a driver are a parameter; `none` is
-- no result: the process exits, or a callback does not return.
pub mod Clearing
pub mod Updates
use esnet_smartnic_fw.Base.{
  ℕ, zero, suc, ◌+◌, ◌-◌, ◌*◌, ◌/◌, ◌%◌, ◌^◌, Bool, true, false, not, ◌&&◌, ◌||◌, List, [], ◌∷◌,
  ◌++◌, map, Option, none, some, length, ltb, ◌==◌, if◌then◌else◌, and_then,
}
use esnet_smartnic_fw.Text.{Text}
use esnet_smartnic_fw.Filter.{Value, ForEachSpec}
use esnet_smartnic_fw.Metrics.{MetricSpec}
use esnet_smartnic_fw.Opennic.Metric.{
  StatsMetricSpec, StatsMetric, Element, is_array, is_never_clear, metric_alloc, metric_attach,
  metric_read, metric_get_values, update_element,
}

-- The functions of a block's driver, with the defaults that the library takes where a pointer is
-- NULL: the latch buffer, the reading of a metric's array of values (NULL: by registers), the
-- conversion to a double, and the release.
pub record BlockDriver (Data Hw : Type 0) : Type 0 where
  pub latch_metrics : Hw → Data × Hw
  pub read_metric : Option (StatsMetricSpec → Data → Hw → (ℕ → ℕ) × Data × Hw)
  pub bus_read : ℕ → ℕ → Hw → ℕ × Hw
  pub convert_metric : StatsMetricSpec → ℕ → Data → ℕ
  pub release_metrics : Data → Hw → Hw

-- stats_block; `nvalues` counts the elements of all metrics once it is attached. `last_update` has
-- seconds and nanoseconds.
pub record StatsBlock (Data Hw : Type 0) : Type 0 where
  pub name : Text
  pub driver : BlockDriver Data Hw
  pub metrics : List StatsMetric
  pub nvalues : ℕ
  pub seconds : ℕ
  pub nanos : ℕ

-- stats_clear_filter, each function with the state behind `arg`; a NULL `match` clears all.
pub record ClearFilter (Arg : Type 0) : Type 0 where
  pub setup : Option (MetricSpec → Arg → Option Arg)
  pub match : Option (MetricSpec → ℕ → Arg → Bool × Arg)
  pub teardown : Option (MetricSpec → Arg → Arg)

-- The filter that stands for none in a clearing.
abbrev pub clear_all : {Arg : Type 0} → ClearFilter Arg
clear_all = record { setup = none; match = none; teardown = none }

-- What a callback sees of a metric.
unfoldable pub metric_view : Text → Text → Text → ℕ → ℕ → StatsMetricSpec → List Value → MetricSpec
unfolding is_array
metric_view domain zone block seconds nanos spec values = record {
  type = spec.type;
  spec = record {
    domain = domain;
    zone = zone;
    block = block;
    name = spec.name;
    is_array = is_array spec;
    nelements = spec.nelements;
    values = values;
    seconds = seconds;
    nanos = nanos;
  };
}

module _ {Arg : Type 0} where
  -- `filter != NULL && filter->setup != NULL`, and the same of the teardown
  unfoldable pub setup_filter : Option (ClearFilter Arg) → MetricSpec → Arg → Option Arg
  setup_filter none view arg = some arg
  setup_filter (some filter) view arg = elim filter.setup [
    | none ↦ some arg
    | some setup ↦ setup view arg
  ]

  unfoldable pub teardown_filter : Option (ClearFilter Arg) → MetricSpec → Arg → Arg
  teardown_filter none view arg = arg
  teardown_filter (some filter) view arg = elim filter.teardown [
    | none ↦ arg
    | some teardown ↦ teardown view arg
  ]

  -- `do_clear` of element `n`.
  unfoldable pub wants_clear : Bool → Option (ClearFilter Arg) → MetricSpec → ℕ → Arg → Bool × Arg
  wants_clear true filter view n arg = (false, arg)
  wants_clear false none view n arg = (false, arg)
  wants_clear false (some filter) view n arg = elim filter.match [
    | none ↦ (true, arg)
    | some match ↦ match view n arg
  ]

  -- The loop over the elements of a metric, from index `n` on.
  pub update_elements :
      StatsMetricSpec
      → Option (ClearFilter Arg)
      → MetricSpec
      → (ℕ → ℕ)
      → (ℕ → ℕ)
      → ℕ
      → List Element
      → Arg
      → List Element × Arg
  unfolding wants_clear update_element is_never_clear
  update_elements spec filter view convert values n [] arg = ([], arg)
  update_elements spec filter view convert values n (e ∷ es) arg =
      let (do_clear, arg') = wants_clear (is_never_clear spec) filter view n arg in
      let (es', arg'') = update_elements spec filter view convert values (n + 1) es arg' in
      (update_element spec convert do_clear (values n) e ∷ es', arg'')

-- stats_block_get_values: as many as there is room for.
unfoldable pub get_values_loop : List StatsMetric → ℕ → List Value
unfolding metric_get_values
get_values_loop [] room = []
get_values_loop (m ∷ ms) room =
    let values = metric_get_values m room in values ++ get_values_loop ms (room - length values)

-- stats_block_alloc, from the specifications of the metrics
unfoldable pub alloc_metrics : List StatsMetricSpec → Option (List StatsMetric)
unfolding metric_alloc
alloc_metrics [] = some []
alloc_metrics (spec ∷ specs) =
    and_then (metric_alloc spec) λ m. and_then (alloc_metrics specs) λ ms. some (m ∷ ms)

-- stats_block_attach: the labels, and the count of the values; the registration with Prometheus and
-- the function `attach_metrics` of a driver come after it and are left out.
unfoldable pub count_elements : List StatsMetric → ℕ → ℕ
count_elements [] n = n
count_elements (m ∷ ms) n = count_elements ms (n + length m.elements)

module _ {Data Hw : Type 0} where
  -- The values of a metric's array, by the driver's function or by its registers.
  unfoldable pub read_by :
      Option (StatsMetricSpec → Data → Hw → (ℕ → ℕ) × Data × Hw)
      → (ℕ → ℕ → Hw → ℕ × Hw)
      → StatsMetric
      → Data
      → Hw
      → Option ((ℕ → ℕ) × Data × Hw)
  unfolding metric_read
  read_by (some read) bus m data_ hw = some (read m.spec data_ hw)
  read_by none bus m data_ hw =
      and_then (metric_read bus m hw) λ (values, hw'). some (values, data_, hw')

  unfoldable pub read_values :
      BlockDriver Data Hw → StatsMetric → Data → Hw → Option ((ℕ → ℕ) × Data × Hw)
  unfolding read_by
  read_values driver m data_ hw = read_by driver.read_metric driver.bus_read m data_ hw

  module _ {Arg : Type 0} (domain zone : Text) (filter : Option (ClearFilter Arg)) where
    -- One round of the loop over the metrics.
    unfoldable pub update_metric :
        StatsBlock Data Hw → StatsMetric → Data → Arg → Hw → Option (StatsMetric × Data × Arg × Hw)
    unfolding read_values metric_view setup_filter update_elements teardown_filter
    update_metric blk m data_ arg hw =
        and_then (read_values blk.driver m data_ hw) λ (values, data', hw').
          (let view = metric_view domain zone blk.name 0 0 m.spec (map (λ e. e.value) m.elements) in
            and_then (setup_filter filter view arg) λ arg1.
              (let (es, arg2) =
                  update_elements m.spec filter view
                    (λ u64. blk.driver.convert_metric m.spec u64 data') values 0 m.elements arg1 in
                some (record m { elements = es }, data', teardown_filter filter view arg2, hw')))

    unfoldable pub update_loop :
        StatsBlock Data Hw
        → List StatsMetric
        → Data
        → Arg
        → Hw
        → Option (List StatsMetric × Data × Arg × Hw)
    unfolding update_metric
    update_loop blk [] data_ arg hw = some ([], data_, arg, hw)
    update_loop blk (m ∷ ms) data_ arg hw =
        and_then (update_metric blk m data_ arg hw) λ (m', data1, arg1, hw1).
          and_then (update_loop blk ms data1 arg1 hw1)
            λ (ms', data2, arg2, hw2). some (m' ∷ ms', data2, arg2, hw2)

    -- stats_block_update_metrics; `clock` is the monotonic clock.
    unfoldable pub block_update_metrics :
        (Hw → (ℕ × ℕ) × Hw) → StatsBlock Data Hw → Arg → Hw → Option (StatsBlock Data Hw × Arg × Hw)
    unfolding update_loop
    block_update_metrics clock blk arg hw =
        let ((seconds, nanos), hw1) = clock hw in
        let (data_, hw2) = blk.driver.latch_metrics hw1 in
        and_then (update_loop blk blk.metrics data_ arg hw2) λ (ms, data', arg', hw3). some (
          record blk { metrics = ms; seconds = seconds; nanos = nanos },
          arg',
          blk.driver.release_metrics data' hw3,
        )

  unfoldable pub block_get_values : StatsBlock Data Hw → ℕ → List Value
  unfolding get_values_loop
  block_get_values blk room = get_values_loop blk.metrics room

  -- What stats_block_for_each_metric hands to its callback, in order.
  unfoldable pub block_views : Text → Text → StatsBlock Data Hw → List MetricSpec
  unfolding metric_view metric_get_values
  block_views domain zone blk =
      map
        (λ m.
          metric_view domain zone blk.name blk.seconds blk.nanos m.spec
            (metric_get_values m (length m.elements)))
        blk.metrics

  unfoldable pub block_alloc :
      Text → BlockDriver Data Hw → List StatsMetricSpec → Option (StatsBlock Data Hw)
  unfolding alloc_metrics
  block_alloc name driver specs = and_then (alloc_metrics specs) λ ms.
      some
        (record { name = name; driver = driver; metrics = ms; nvalues = 0; seconds = 0; nanos = 0 })

  unfoldable pub block_attach : Text → Text → StatsBlock Data Hw → StatsBlock Data Hw
  unfolding metric_attach count_elements
  block_attach domain zone blk = record blk {
    metrics = map (metric_attach domain zone blk.name) blk.metrics;
    nvalues = count_elements blk.metrics blk.nvalues;
  }
