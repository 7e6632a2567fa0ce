-- ===== src/Opennic/Block/Updates.antt =====
-- An update of a block from what it does to each metric.
use esnet_smartnic_fw.Base.{
  ℕ, ◌≡◌, refl, true, List, [], ◌∷◌, Option, none, some, length, get_or, Each, All,
}
use esnet_smartnic_fw.Text.{Text}
use esnet_smartnic_fw.Opennic.Metric.{
  StatsMetricSpec, StatsMetric, metric_read, read_registers, is_register_size,
}
use esnet_smartnic_fw.Opennic.Block.{
  BlockDriver, StatsBlock, ClearFilter, read_by, read_values, update_metric, update_loop,
  block_update_metrics,
}

-- A metric can be read: the driver has a function, or its registers have a size that is known.
abbrev pub ReadableBy : {F : Type 0} → Option F → StatsMetric → Type 0
ReadableBy (some read) m = Unit {0}
ReadableBy none m = is_register_size m.spec.io.size ≡ true

abbrev pub Readable : {Data Hw : Type 0} → BlockDriver Data Hw → StatsMetric → Type 0
Readable driver m = ReadableBy driver.read_metric m

module _ {Data Hw Arg : Type 0} (domain zone : Text) (filter : Option (ClearFilter Arg))
    (R : StatsMetric → StatsMetric → Type 0) where
  -- A metric that can be read is updated to one that `R` relates it to.
  module _
      (step : (blk : StatsBlock Data Hw) (m : StatsMetric) (data_ : Data) (arg : Arg) (hw : Hw)
        → Readable blk.driver m
        → (m' : StatsMetric) × (data' : Data) × (arg' : Arg) × (hw' : Hw) × (update_metric domain
              zone filter blk m data_ arg hw
            ≡ some (m', data', arg', hw'))
          × R m m') where
    update_loop-Each :
        (blk : StatsBlock Data Hw) (ms : List StatsMetric) (data_ : Data) (arg : Arg) (hw : Hw)
        → All (Readable blk.driver) ms
        → (ms' : List StatsMetric) × (data' : Data) × (arg' : Arg) × (hw' : Hw) × (update_loop
              domain zone filter blk ms data_ arg hw
            ≡ some (ms', data', arg', hw'))
          × Each R ms ms'
    unfolding update_loop
    update_loop-Each blk [] data_ arg hw h = ([], data_, arg, hw, refl, tt)
    update_loop-Each blk (m ∷ ms) data_ arg hw (h, hs) =
        let (m', data1, arg1, hw1, e, r) = step blk m data_ arg hw h in
        let (ms', data2, arg2, hw2, es, rs) = update_loop-Each blk ms data1 arg1 hw1 hs in
        (m' ∷ ms', data2, arg2, hw2, rw (e, es) refl, (r, rs))

    -- The block's name and driver stay.
    pub block_update_metrics-Each :
        (clock : Hw → (ℕ × ℕ) × Hw) (blk : StatsBlock Data Hw) (arg : Arg) (hw : Hw)
        → All (Readable blk.driver) blk.metrics
        → (blk' : StatsBlock Data Hw) × (arg' : Arg) × (hw' : Hw) × (block_update_metrics domain
              zone filter clock blk arg hw
            ≡ some (blk', arg', hw'))
          × Each R blk.metrics blk'.metrics
    unfolding block_update_metrics
    block_update_metrics-Each clock blk arg hw h =
        let (at, hw1) = clock hw in
        let (data_, hw2) = blk.driver.latch_metrics hw1 in
        let (ms, data', arg', hw3, e, r) = update_loop-Each blk blk.metrics data_ arg hw2 h in
        (
          record blk { metrics = ms; seconds = at.0; nanos = at.1 },
          arg',
          blk.driver.release_metrics data' hw3,
          rw e refl,
          r,
        )

module _ {Data Hw : Type 0} where
  read_by-ReadableBy :
      (read : Option (StatsMetricSpec → Data → Hw → (ℕ → ℕ) × Data × Hw))
      (bus : ℕ → ℕ → Hw → ℕ × Hw) (m : StatsMetric) (data_ : Data) (hw : Hw)
      → ReadableBy read m
      → (values : ℕ → ℕ) × (data' : Data) × (hw' : Hw) × (read_by read bus m data_ hw
          ≡ some (values, data', hw'))
  unfolding read_by metric_read
  read_by-ReadableBy (some read) bus m data_ hw h =
      let (values, data', hw') = read m.spec data_ hw in (values, data', hw', refl)
  read_by-ReadableBy none bus m data_ hw h =
      let (registers, hw') =
        read_registers bus m.spec.io m.mask (length m.elements) m.spec.io.offset hw in
      ((λ n. get_or registers n 0), data_, hw', rw h refl)

  -- Reading does not fail.
  pub read_values-Readable :
      (driver : BlockDriver Data Hw) (m : StatsMetric) (data_ : Data) (hw : Hw)
      → Readable driver m
      → (values : ℕ → ℕ) × (data' : Data) × (hw' : Hw) × (read_values driver m data_ hw
          ≡ some (values, data', hw'))
  unfolding read_values
  read_values-Readable driver m data_ hw h =
      read_by-ReadableBy driver.read_metric driver.bus_read m data_ hw h
