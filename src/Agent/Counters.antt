-- ===== src/Agent/Counters.antt =====
-- The statistics of a pipeline's counters (sn-p4/src/agent/counters.cpp): the metrics and the driver
-- functions of each counter block, and the zone that holds them.
pub mod Latch
pub mod Counting
pub mod Zones
mod Tests
use esnet_smartnic_fw.Base.{
  ℕ, suc, ◌+◌, ◌-◌, ◌*◌, Bool, true, false, not, ◌&&◌, List, [], ◌∷◌, ◌++◌, map, Option, none, some,
  ltb, if◌then◌else◌, get_elem?, and_then,
}
use esnet_smartnic_fw.Text.{Text, text}
use esnet_smartnic_fw.Metrics.{SpecType}
use esnet_smartnic_fw.Opennic.Metric.{LabelFormatSpec, LabelSpec, StatsMetricSpec, decimal_digits}
use esnet_smartnic_fw.Opennic.Block.{BlockDriver}
use esnet_smartnic_fw.Opennic.Zone.{StatsDomain, BlockSpec, zone_alloc}
use esnet_smartnic_fw.Agent.Info.{CounterType, CounterBlockInfo, PipelineInfo}

-- The two readings of libsnp4: whether they succeed, and the first values of their arrays.
pub record CounterReads (Handle Hw : Type 0) : Type 0 where
  pub combo_read : Handle → Text → ℕ → Hw → Bool × (ℕ → ℕ) × (ℕ → ℕ) × Hw
  pub simple_read : Handle → Text → ℕ → Hw → Bool × (ℕ → ℕ) × Hw

pub record CountersLatchData : Type 0 where
  pub valid : Bool
  pub values : ℕ → ℕ

-- The buffer as the library hands it over
abbrev pub zeroed : CountersLatchData
zeroed = record { valid = false; values = λ i. 0 }

-- `n` values stored from `start` on
unfoldable pub store : ℕ → ℕ → (ℕ → ℕ) → (ℕ → ℕ) → ℕ → ℕ
store start n new values i =
    if not (ltb i start) && ltb i (start + n) then new (i - start) else values i

module _ {Handle Hw : Type 0} (reads : CounterReads Handle Hw) (handle : Handle)
    (info : CounterBlockInfo) where
  unfoldable pub latch_simple : CountersLatchData → Hw → CountersLatchData × Hw
  unfolding store
  latch_simple ld hw =
      let (ok, counts, hw') = reads.simple_read handle info.name info.num_counters hw in
      (record { valid = ok; values = store 0 info.num_counters counts ld.values }, hw')

  unfoldable pub latch_combo : CountersLatchData → Hw → CountersLatchData × Hw
  unfolding store
  latch_combo ld hw =
      let n = info.num_counters in
      let (ok, packets, bytes, hw') = reads.combo_read handle info.name n hw in
      (record { valid = ok; values = store n n bytes (store 0 n packets ld.values) }, hw')

  unfoldable pub latch_by : CounterType → CountersLatchData → Hw → CountersLatchData × Hw
  unfolding latch_simple latch_combo
  latch_by CounterType.packets_and_bytes ld hw = latch_combo ld hw
  latch_by CounterType.packets ld hw = latch_simple ld hw
  latch_by CounterType.bytes ld hw = latch_simple ld hw
  latch_by CounterType.flag ld hw = latch_simple ld hw
  latch_by (CounterType.other n) ld hw = (ld, hw)

  unfoldable pub counters_latch_metrics : CountersLatchData → Hw → CountersLatchData × Hw
  unfolding latch_by
  counters_latch_metrics ld hw = latch_by info.type ld hw

unfoldable pub counters_read_metric : StatsMetricSpec → CountersLatchData → ℕ → ℕ
counters_read_metric spec ld n = if ld.valid then ld.values (spec.io.offset + n) else 0

-- counter_block_label_value_alias; an index past the end and a NULL alias are the empty string.
abbrev pub or_empty : Option (Option Text) → Text
or_empty (some (some alias)) = alias
or_empty (some none) = []
or_empty none = []

unfoldable pub label_value_alias : List (Option Text) → LabelFormatSpec → Text
label_value_alias aliases fspec = or_empty (get_elem? aliases fspec.idx)

unfoldable pub metric_name : Text → Option Text → Bool → Text
metric_name name none add_suffix = name
metric_name name (some units) add_suffix = if add_suffix then name ++ (text "_" ++ units) else name

abbrev pub fixed : Text → Text → LabelSpec
fixed key value = record { key = key; value = some value; value_alloc = none }

unfoldable pub units_labels : Option Text → List LabelSpec
units_labels none = []
units_labels (some units) = fixed (text "units") units ∷ []

unfoldable pub alias_labels : Option (List (Option Text)) → List LabelSpec
unfolding label_value_alias
alias_labels none = []
alias_labels (some aliases) =
    record { key = text "alias"; value = none; value_alloc = some (label_value_alias aliases) } ∷ []

unfoldable pub metric_type : CounterType → SpecType
metric_type CounterType.flag = SpecType.flag
metric_type CounterType.packets = SpecType.counter
metric_type CounterType.bytes = SpecType.counter
metric_type CounterType.packets_and_bytes = SpecType.counter
metric_type (CounterType.other n) = SpecType.counter

-- init_counters_block_metric; the flags are CLEAR_ON_READ and ARRAY.
unfoldable pub counter_metric : Text → CounterBlockInfo → ℕ → Option Text → Bool → StatsMetricSpec
unfolding metric_name units_labels alias_labels metric_type
counter_metric pipeline info idx units add_suffix = record {
  name = metric_name info.name units add_suffix;
  nelements = info.num_counters;
  labels = fixed (text "pipeline") pipeline ∷ (units_labels units ++ alias_labels info.aliases);
  type = metric_type info.type;
  flags = 5;
  init_value = 0;
  io = record { offset = idx * info.num_counters; size = 0; width = 0; shift = 0; invert = false };
}

-- `nmetrics` of a block; an unknown type leaves it 0.
unfoldable pub nmetrics : CounterType → ℕ
nmetrics CounterType.packets_and_bytes = 2
nmetrics CounterType.packets = 1
nmetrics CounterType.bytes = 1
nmetrics CounterType.flag = 1
nmetrics (CounterType.other n) = 0

unfoldable pub metrics_by : Text → CounterBlockInfo → CounterType → List StatsMetricSpec
unfolding counter_metric
metrics_by pipeline info CounterType.packets_and_bytes =
    counter_metric pipeline info 0 (some (text "packets")) true
    ∷ counter_metric pipeline info 1 (some (text "bytes")) true
    ∷ []
metrics_by pipeline info CounterType.packets =
    counter_metric pipeline info 0 (some (text "packets")) false ∷ []
metrics_by pipeline info CounterType.bytes =
    counter_metric pipeline info 0 (some (text "bytes")) false ∷ []
metrics_by pipeline info CounterType.flag = counter_metric pipeline info 0 none false ∷ []
metrics_by pipeline info (CounterType.other n) = []

unfoldable pub zone_name : ℕ → Text
unfolding decimal_digits
zone_name id = text "pipeline" ++ decimal_digits (suc id) id []

module _ {Handle Hw : Type 0} (reads : CounterReads Handle Hw) (bus : ℕ → ℕ → Hw → ℕ × Hw)
    (to_double : ℕ → ℕ) where
  -- The driver of a block: no function converts or releases.
  unfoldable pub counters_driver : Handle → CounterBlockInfo → BlockDriver CountersLatchData Hw
  unfolding counters_latch_metrics counters_read_metric
  counters_driver handle info = record {
    latch_metrics = λ hw. counters_latch_metrics reads handle info zeroed hw;
    read_metric = some (λ spec ld hw. (counters_read_metric spec ld, ld, hw));
    bus_read = bus;
    convert_metric = λ spec u64 ld. to_double u64;
    release_metrics = λ ld hw. hw;
  }

  unfoldable pub counter_block : Text → Handle → CounterBlockInfo → BlockSpec CountersLatchData Hw
  unfolding metrics_by counters_driver
  counter_block pipeline handle info = record {
    name = info.name;
    driver = counters_driver handle info;
    metrics = metrics_by pipeline info info.type;
  }

  -- The domain of the counters, with a new zone where the pipeline has counters; `none` where the
  -- process exits.
  unfoldable pub init_counters :
      StatsDomain CountersLatchData Hw
      → ℕ
      → Handle
      → PipelineInfo
      → Option (StatsDomain CountersLatchData Hw)
  unfolding counter_block zone_name
  init_counters d id handle info = elim info.counter_blocks [
    | [] ↦ some d
    | b ∷ bs ↦ zone_alloc d (zone_name id) (map (counter_block info.name handle) (b ∷ bs))
  ]
