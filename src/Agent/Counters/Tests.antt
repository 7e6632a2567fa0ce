-- ===== src/Agent/Counters/Tests.antt =====
-- A block of two counters for packets and bytes.
use esnet_smartnic_fw.Base.{arith, ℕ, ◌+◌, ◌*◌, ◌≡◌, refl, true, [], ◌∷◌, none, some}
use esnet_smartnic_fw.Text.{Text, text}
use esnet_smartnic_fw.Opennic.Metric.{StatsMetric, Element}
use esnet_smartnic_fw.Opennic.Block.{StatsBlock, block_update_metrics}
use esnet_smartnic_fw.Opennic.Zone.{StatsZone, StatsDomain}
use esnet_smartnic_fw.Agent.Info.{CounterType, CounterBlockInfo, PipelineInfo}
use esnet_smartnic_fw.Agent.Counters.{
  init_counters, zone_name, CounterReads, CountersLatchData, metric_type, counter_metric, nmetrics,
  counters_driver,
}
use esnet_smartnic_fw.Agent.Counters.Latch.{columns}
use esnet_smartnic_fw.Agent.Counters.Zones.{AreCounterBlocks, init_counters-AreCounterBlocks}
use esnet_smartnic_fw.Agent.Counters.Counting.{IsCounterBlock, Shows, block_update_metrics-Shows}

abbrev info : CounterBlockInfo
info = record {
  name = text "rx";
  type = CounterType.packets_and_bytes;
  width = 64;
  num_counters = 2;
  aliases = none;
}

-- Hardware that counts its readings
abbrev reads : CounterReads (Unit {0}) ℕ
reads = record {
  combo_read = λ handle name n hw. (true, (λ i. hw + i), (λ i. 64 * (hw + i)), hw + 1);
  simple_read = λ handle name n hw. (true, (λ i. hw + i), hw + 1);
}

abbrev bus : ℕ → ℕ → ℕ → ℕ × ℕ
bus size offset hw = (0, hw)

abbrev element : ℕ → Element
element n = record { value = record { u64 = n; f64 = n; labels = [] }; last = 0 }

abbrev metric : ℕ → Text → StatsMetric
metric idx units = record {
  spec = counter_metric (text "p") info idx (some units) true;
  elements = element 7 ∷ element 8 ∷ [];
  mask = 0;
}

abbrev block : StatsBlock CountersLatchData ℕ
block = record {
  name = text "rx";
  driver = counters_driver reads bus (λ u64. u64) tt info;
  metrics = metric 0 (text "packets") ∷ metric 1 (text "bytes") ∷ [];
  nvalues = 4;
  seconds = 0;
  nanos = 0;
}

block-IsCounterBlock : IsCounterBlock reads bus (λ u64. u64) tt info block
unfolding counter_metric metric_type nmetrics
block-IsCounterBlock = (refl, (((refl, refl, refl), refl), (((refl, refl, refl), refl), tt)), refl)

abbrev clock : ℕ → (ℕ × ℕ) × ℕ
clock hw = ((1, 2), hw)

block_update_metrics-Shows_example :
    (blk' : StatsBlock CountersLatchData ℕ) × (block_update_metrics
        (text "d")
        (text "z")
        none
        clock
        block
        true
        3
      ≡ some (blk', true, (columns reads tt info CounterType.packets_and_bytes 3).1))
    × IsCounterBlock reads bus (λ u64. u64) tt info blk'
    × Shows info
        (λ u64. u64)
        (columns reads tt info CounterType.packets_and_bytes 3).0
        block.metrics
        blk'.metrics
block_update_metrics-Shows_example =
    block_update_metrics-Shows reads bus (λ u64. u64) tt info (text "d") (text "z") clock block true
      3 block-IsCounterBlock

abbrev domain : StatsDomain CountersLatchData ℕ
domain = record { name = text "counters"; zones = []; nvalues = 0; running = true }

abbrev pipeline : PipelineInfo
pipeline = record { name = text "p"; tables = []; counter_blocks = info ∷ [] }

init_counters-AreCounterBlocks_example :
    (d' : StatsDomain CountersLatchData ℕ) × (z : StatsZone CountersLatchData ℕ) × (init_counters
        reads bus
        (λ u64. u64)
        domain
        12
        tt
        pipeline
      ≡ some d')
    × (d'.zones ≡ some z ∷ [])
    × (z.name ≡ zone_name 12)
    × AreCounterBlocks reads bus (λ u64. u64) tt (info ∷ []) z.blocks
    × (z.ref_count ≡ 1)
init_counters-AreCounterBlocks_example =
    init_counters-AreCounterBlocks reads bus (λ u64. u64) tt domain 12 pipeline info [] refl
      (ground arith, tt)

twelve : zone_name 12 ≡ text "pipeline12"
unfolding zone_name
twelve = refl
