-- ===== src/Agent/Counters/Counting.antt =====
-- What an update of a counter block adds to its counters.
use esnet_smartnic_fw.Base.{
  ℕ, map, ◌+◌, ◌*◌, ◌%◌, ◌<◌, ◌≡◌, refl, ap, sym, ◌∙◌, Bool, true, false, List, [], ◌∷◌, length,
  Option, none, some, get_elem?, and_then, Each, length-Each, ◌==◌, if◌then◌else◌, arith,
}
use esnet_smartnic_fw.Text.{Text}
use esnet_smartnic_fw.Metrics.{MetricSpec}
use esnet_smartnic_fw.Opennic.Metric.{
  u64_mod, StatsMetricSpec, StatsMetric, Element, is_clear_on_read, is_never_clear, update_by_type,
  update_value, update_element,
}
use esnet_smartnic_fw.Opennic.Block.{
  BlockDriver, StatsBlock, metric_view, setup_filter, teardown_filter, wants_clear, read_by,
  read_values, update_elements, update_metric, update_loop, block_update_metrics,
}
use esnet_smartnic_fw.Opennic.Block.Clearing.{update_elements-each, update_elements_arg}
use esnet_smartnic_fw.Agent.Info.{CounterType, CounterBlockInfo}
use esnet_smartnic_fw.Agent.Counters.{
  CounterReads, CountersLatchData, zeroed, counters_latch_metrics, counters_read_metric,
  metric_type, nmetrics, counters_driver, latch_by,
}
use esnet_smartnic_fw.Agent.Counters.Latch.{columns, Latched, latch_by-Latched}

-- The number that element `i` shows
abbrev pub u64_at : StatsMetric → ℕ → Option ℕ
u64_at m i = and_then (get_elem? m.elements i) λ e. some e.value.u64

-- What is shown next: the sum, in 64 bits, or for a flag whether anything was counted.
abbrev pub shows : CounterType → ℕ → ℕ → ℕ
shows CounterType.flag u64 n = if n == 0 then 0 else 1
shows CounterType.packets u64 n = (u64 + n) % u64_mod
shows CounterType.bytes u64 n = (u64 + n) % u64_mod
shows CounterType.packets_and_bytes u64 n = (u64 + n) % u64_mod
shows (CounterType.other k) u64 n = (u64 + n) % u64_mod

shows-type :
    (t : CounterType) (u64 last n : ℕ)
    → (update_by_type (metric_type t) true 0 false n u64 last).0 ≡ shows t u64 n
unfolding update_by_type metric_type
shows-type CounterType.flag u64 last n = refl
shows-type CounterType.packets u64 last n = refl
shows-type CounterType.bytes u64 last n = refl
shows-type CounterType.packets_and_bytes u64 last n = refl
shows-type (CounterType.other k) u64 last n = refl

-- A metric of init_counters_block_metric, with the labels of the library: what its counting needs.
abbrev pub IsCounter : CounterType → StatsMetricSpec → Type 0
IsCounter t spec = (spec.type ≡ metric_type t) × (spec.flags ≡ 5) × (spec.init_value ≡ 0)

update_element-shows :
    (t : CounterType) (spec : StatsMetricSpec) (convert : ℕ → ℕ) (n : ℕ) (e : Element)
    → IsCounter t spec
    → (update_element spec convert false n e).value.u64 ≡ shows t e.value.u64 n
unfolding update_element update_value is_clear_on_read
update_element-shows t spec convert n e (type, flags, init) =
    rw (type, flags, init) (shows-type t e.value.u64 e.last n)

wants_clear-none :
    {Arg : Type 0} (never : Bool) (view : MetricSpec) (n : ℕ) (arg : Arg)
    → wants_clear never none view n arg ≡ (false, arg)
unfolding wants_clear
wants_clear-none true view n arg = refl
wants_clear-none false view n arg = refl

module _ (info : CounterBlockInfo) (to_double : ℕ → ℕ) where
  -- One metric after an update that latched `ld`.
  abbrev pub Counted : CountersLatchData → StatsMetric → StatsMetric → Type 0
  Counted ld m m' =
      (m'.spec ≡ m.spec)
      × ((i : ℕ)
          → get_elem? m'.elements i
            ≡ and_then (get_elem? m.elements i) λ e.
              some (update_element m.spec to_double false (counters_read_metric m.spec ld i) e))

  -- The metrics of a counter block, from number `idx` on.
  abbrev pub AreCounters : ℕ → List StatsMetric → Type 0
  AreCounters idx [] = Unit
  AreCounters idx (m ∷ ms) =
      (IsCounter info.type m.spec × (m.spec.io.offset ≡ idx * info.num_counters))
      × AreCounters (idx + 1) ms

  -- Each metric shows its column on top of what it showed.
  abbrev pub Shows : List (ℕ → ℕ) → List StatsMetric → List StatsMetric → Type 0
  Shows [] [] [] = Unit
  Shows (c ∷ cs) (m ∷ ms) (m' ∷ ms') =
      ((i : ℕ)
        → i < info.num_counters
        → u64_at m' i ≡ and_then (u64_at m i) λ u64. some (shows info.type u64 (c i)))
      × Shows cs ms ms'
  Shows cs ms ms' = ⊥

  element-shows :
      (spec : StatsMetricSpec) (o : Option Element)
      → IsCounter info.type spec
      → (n : ℕ)
      → (and_then
          (and_then o λ e. some (update_element spec to_double false n e))
          λ e. some e.value.u64)
        ≡ (and_then (and_then o λ e. some e.value.u64) λ u64. some (shows info.type u64 n))
  element-shows spec none counter n = refl
  element-shows spec (some e) counter n =
      ap some (update_element-shows info.type spec to_double n e counter)

  u64_at-Counted :
      (m m' : StatsMetric) (ld : CountersLatchData) (i n : ℕ)
      → IsCounter info.type m.spec
      → Counted ld m m'
      → counters_read_metric m.spec ld i ≡ n
      → u64_at m' i ≡ and_then (u64_at m i) λ u64. some (shows info.type u64 n)
  u64_at-Counted m m' ld i n counter (same, each) read =
      rw (each i, read) (element-shows m.spec (get_elem? m.elements i) counter n)

  Each-Shows :
      (ld : CountersLatchData) (idx : ℕ) (cs : List (ℕ → ℕ)) (ms ms' : List StatsMetric)
      → Latched info idx cs ld
      → AreCounters idx ms
      → length cs ≡ length ms
      → Each (Counted ld) ms ms'
      → Shows cs ms ms'
  Each-Shows ld idx [] [] [] l a n h = tt
  Each-Shows ld idx [] (m ∷ ms) ms' l a n h = absurd (omega arith)
  Each-Shows ld idx (c ∷ cs) [] ms' l a n h = absurd (omega arith)
  Each-Shows ld idx [] [] (m' ∷ ms') l a n h = h
  Each-Shows ld idx (c ∷ cs) (m ∷ ms) [] l a n h = h
  Each-Shows ld idx (c ∷ cs) (m ∷ ms) (m' ∷ ms') (read, l) ((counter, at), a) n (each, h) = (
    λ i small. u64_at-Counted m m' ld i (c i) counter each (read m.spec i at small),
    Each-Shows ld (idx + 1) cs ms ms' l a (omega arith) h,
  )

  Each-AreCounters :
      (ld : CountersLatchData) (idx : ℕ) (ms ms' : List StatsMetric)
      → AreCounters idx ms
      → Each (Counted ld) ms ms'
      → AreCounters idx ms'
  Each-AreCounters ld idx [] [] a h = tt
  Each-AreCounters ld idx [] (m' ∷ ms') a h = absurd h
  Each-AreCounters ld idx (m ∷ ms) [] a h = absurd h
  Each-AreCounters ld idx (m ∷ ms) (m' ∷ ms') ((counter, at), a) ((same, each), h) =
      (rw same (counter, at), Each-AreCounters ld (idx + 1) ms ms' a h)

module _ {Handle Hw : Type 0} (reads : CounterReads Handle Hw) (bus : ℕ → ℕ → Hw → ℕ × Hw)
    (to_double : ℕ → ℕ) (handle : Handle) (info : CounterBlockInfo) where
  -- A block as init_counters makes it, at any time.
  abbrev pub IsCounterBlock : StatsBlock CountersLatchData Hw → Type 0
  IsCounterBlock blk =
      (blk.driver ≡ counters_driver reads bus to_double handle info)
      × AreCounters info to_double 0 blk.metrics
      × (length blk.metrics ≡ nmetrics info.type)

  length-columns :
      (t : CounterType) (hw : Hw) → length (columns reads handle info t hw).0 ≡ nmetrics t
  unfolding columns nmetrics
  length-columns CounterType.packets_and_bytes hw = refl
  length-columns CounterType.packets hw = refl
  length-columns CounterType.bytes hw = refl
  length-columns CounterType.flag hw = refl
  length-columns (CounterType.other n) hw = refl

module _ {Handle Hw Arg : Type 0} (reads : CounterReads Handle Hw) (bus : ℕ → ℕ → Hw → ℕ × Hw)
    (to_double : ℕ → ℕ) (handle : Handle) (info : CounterBlockInfo) (domain zone : Text) where
  module _ (blk : StatsBlock CountersLatchData Hw)
      (driven : blk.driver ≡ counters_driver reads bus to_double handle info) where
    update_metric-Counted :
        (m : StatsMetric) (ld : CountersLatchData) (arg : Arg) (hw : Hw)
        → (m' : StatsMetric) × (update_metric domain zone none blk m ld arg hw
            ≡ some (m', ld, arg, hw))
          × Counted info to_double ld m m'
    unfolding update_metric read_values read_by setup_filter teardown_filter counters_driver
    update_metric-Counted m ld arg hw =
        let view = metric_view domain zone blk.name 0 0 m.spec (map (λ e. e.value) m.elements) in
        let values = counters_read_metric m.spec ld in
        let never : (n : ℕ)
            → wants_clear {Arg = Arg} (is_never_clear m.spec) none view n arg ≡ (false, arg) =
          λ n. wants_clear-none (is_never_clear m.spec) view n arg in
        let updated = update_elements m.spec none view to_double values 0 m.elements arg in
        (
          record m { elements = updated.0 },
          rw driven (
              ap (λ (a : Arg). some (record m { elements = updated.0 }, ld, a, hw))
                (update_elements_arg m.spec none view to_double values arg (λ n. false) never
                  m.elements 0)),
          (
            refl,
            λ i.
                update_elements-each m.spec none view to_double values arg (λ n. false) never
                  m.elements 0 i
                ∙ ap
                    (λ (t : ℕ).
                      and_then (get_elem? m.elements i)
                        λ e. some (update_element m.spec to_double false (values t) e))
                    {x = 0 + i} {y = i} (omega arith),
          ),
        )

    update_loop-Counted :
        (ms : List StatsMetric) (ld : CountersLatchData) (arg : Arg) (hw : Hw)
        → (ms' : List StatsMetric) × (update_loop domain zone none blk ms ld arg hw
            ≡ some (ms', ld, arg, hw))
          × Each (Counted info to_double ld) ms ms'
    unfolding update_loop
    update_loop-Counted [] ld arg hw = ([], refl, tt)
    update_loop-Counted (m ∷ ms) ld arg hw =
        let (m', e, r) = update_metric-Counted m ld arg hw in
        let (ms', es, rs) = update_loop-Counted ms ld arg hw in (m' ∷ ms', rw (e, es) refl, (r, rs))

  block_update_metrics-latched :
      (clock : Hw → (ℕ × ℕ) × Hw) (blk : StatsBlock CountersLatchData Hw) (arg arg' : Arg)
      (hw hw2 hw3 : Hw) (ld ld' : CountersLatchData) (ms' : List StatsMetric)
      → blk.driver.latch_metrics (clock hw).1 ≡ (ld, hw2)
      → update_loop domain zone none blk blk.metrics ld arg hw2 ≡ some (ms', ld', arg', hw3)
      → block_update_metrics domain zone none clock blk arg hw
        ≡ some (
          record blk { metrics = ms'; seconds = (clock hw).0.0; nanos = (clock hw).0.1 },
          arg',
          blk.driver.release_metrics ld' hw3,
        )
  unfolding block_update_metrics
  block_update_metrics-latched clock blk arg arg' hw hw2 hw3 ld ld' ms' e f = rw (e, f) refl

  -- An update of a counter block without a clearing ends, with one reading of the hardware. It adds
  -- what was read, column by column, to what each metric shows, in 64 bits; a flag shows whether
  -- anything was read; and a reading that fails adds nothing. The block stays a counter block.
  pub block_update_metrics-Shows :
      (clock : Hw → (ℕ × ℕ) × Hw) (blk : StatsBlock CountersLatchData Hw) (arg : Arg) (hw : Hw)
      → IsCounterBlock reads bus to_double handle info blk
      → (blk' : StatsBlock CountersLatchData Hw) × (block_update_metrics domain zone none clock blk
            arg hw
          ≡ some (blk', arg, (columns reads handle info info.type (clock hw).1).1))
        × IsCounterBlock reads bus to_double handle info blk'
        × Shows info to_double
            (columns reads handle info info.type (clock hw).1).0
            blk.metrics
            blk'.metrics
  unfolding counters_driver counters_latch_metrics
  block_update_metrics-Shows clock blk arg hw (driven, counters, n) =
      let (at, hw1) = clock hw in
      let (latched, rest) = latch_by-Latched reads handle info info.type hw1 in
      let (ld, hw2) = latch_by reads handle info info.type zeroed hw1 in
      let (ms', e, r) = update_loop-Counted blk driven blk.metrics ld arg hw2 in
      (
        record blk { metrics = ms'; seconds = at.0; nanos = at.1 },
        block_update_metrics-latched clock blk arg arg hw hw2 hw2 ld ld ms'
              (ap (λ (t : BlockDriver CountersLatchData Hw). t.latch_metrics hw1) driven) e
            ∙ ap
                (λ (w : Hw).
                  some (record blk { metrics = ms'; seconds = at.0; nanos = at.1 }, arg, w))
                (ap (λ (t : BlockDriver CountersLatchData Hw). t.release_metrics ld hw2) driven
                  ∙ rest),
        (
          driven,
          Each-AreCounters info to_double ld 0 blk.metrics ms' counters r,
          length-Each (Counted info to_double ld) blk.metrics ms' r ∙ n,
        ),
        Each-Shows info to_double ld 0 (columns reads handle info info.type hw1).0 blk.metrics ms'
            latched counters (length-columns reads bus to_double handle info info.type hw1 ∙ sym n)
            r,
      )
