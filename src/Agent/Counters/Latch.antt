-- ===== src/Agent/Counters/Latch.antt =====
-- What the metrics of a counter block read from the latched data.
use esnet_smartnic_fw.Base.{
  ℕ, ◌+◌, ◌-◌, ◌*◌, ◌<◌, ◌≡◌, refl, ap, ◌∙◌, Bool, true, false, List, [], ◌∷◌, ltb, if◌then◌else◌,
  arith,
}
use esnet_smartnic_fw.Opennic.Metric.{StatsMetricSpec}
use esnet_smartnic_fw.Agent.Info.{CounterType, CounterBlockInfo}
use esnet_smartnic_fw.Agent.Counters.{
  CounterReads, CountersLatchData, zeroed, store, latch_by, latch_simple, latch_combo,
  counters_read_metric,
}

-- The numbers of a reading, none of them where it fails
abbrev pub or_zero : Bool → (ℕ → ℕ) → ℕ → ℕ
or_zero ok counts i = if ok then counts i else 0

module _ (info : CounterBlockInfo) where
  -- The columns stand in the latched data one after the other, from metric `idx` on.
  abbrev pub Latched : ℕ → List (ℕ → ℕ) → CountersLatchData → Type 0
  Latched idx [] ld = Unit
  Latched idx (c ∷ cs) ld =
      ((spec : StatsMetricSpec) (i : ℕ)
        → spec.io.offset ≡ idx * info.num_counters
        → i < info.num_counters
        → counters_read_metric spec ld i ≡ c i)
      × Latched (idx + 1) cs ld

module _ {Handle Hw : Type 0} (reads : CounterReads Handle Hw) (handle : Handle)
    (info : CounterBlockInfo) where
  abbrev pub simple_column : Hw → List (ℕ → ℕ) × Hw
  simple_column hw =
      let (ok, counts, hw') = reads.simple_read handle info.name info.num_counters hw in
      (or_zero ok counts ∷ [], hw')

  -- What a reading of the hardware counts, one column for each metric.
  unfoldable pub columns : CounterType → Hw → List (ℕ → ℕ) × Hw
  columns CounterType.packets_and_bytes hw =
      let (ok, packets, bytes, hw') = reads.combo_read handle info.name info.num_counters hw in
      (or_zero ok packets ∷ or_zero ok bytes ∷ [], hw')
  columns CounterType.packets hw = simple_column hw
  columns CounterType.bytes hw = simple_column hw
  columns CounterType.flag hw = simple_column hw
  columns (CounterType.other n) hw = ([], hw)

  store-in :
      (start n : ℕ) (new values : ℕ → ℕ) (o i : ℕ)
      → o ≡ start
      → i < n
      → store start n new values (o + i) ≡ new i
  unfolding store
  store-in start n new values o i e h =
      let low : ltb (o + i) start ≡ false = ground arith in
      let high : ltb (o + i) (start + n) ≡ true = ground arith in
      rw (low, high) (ap new {x = o + i - start} {y = i} (omega arith))

  store-below : (n : ℕ) (new values : ℕ → ℕ) (j : ℕ) → j < n → store n n new values j ≡ values j
  unfolding store
  store-below n new values j h = let low : ltb j n ≡ true = ground arith in rw low refl

  simple-Latched :
      (hw : Hw) → Latched info 0 (simple_column hw).0 (latch_simple reads handle info zeroed hw).0
  unfolding latch_simple counters_read_metric
  simple-Latched hw =
      let (ok, counts, hw') = reads.simple_read handle info.name info.num_counters hw in
      (
        λ spec i at h.
            ap (λ (v : ℕ). if ok then v else 0)
              (store-in 0 info.num_counters counts (λ j. 0) spec.io.offset i (omega arith) h),
        tt,
      )

  pub latch_by-Latched :
      (t : CounterType) (hw : Hw)
      → Latched info 0 (columns t hw).0 (latch_by reads handle info t zeroed hw).0
        × ((latch_by reads handle info t zeroed hw).1 ≡ (columns t hw).1)
  unfolding latch_by columns latch_simple latch_combo counters_read_metric
  latch_by-Latched CounterType.packets_and_bytes hw =
      let n = info.num_counters in
      let (ok, packets, bytes, hw') = reads.combo_read handle info.name n hw in
      let first = store 0 n packets (λ j. 0) in
      (
        (
          λ spec i at h.
              ap (λ (v : ℕ). if ok then v else 0)
                (store-below n bytes first (spec.io.offset + i) (omega arith)
                  ∙ store-in 0 n packets (λ j. 0) spec.io.offset i (omega arith) h),
          (
            λ spec i at h.
                ap (λ (v : ℕ). if ok then v else 0)
                  (store-in n n bytes first spec.io.offset i (omega arith) h),
            tt,
          ),
        ),
        refl,
      )
  latch_by-Latched CounterType.packets hw = (simple-Latched hw, refl)
  latch_by-Latched CounterType.bytes hw = (simple-Latched hw, refl)
  latch_by-Latched CounterType.flag hw = (simple-Latched hw, refl)
  latch_by-Latched (CounterType.other n) hw = (tt, refl)
