-- ===== src/Agent/Counters/Zones.antt =====
-- The zone that init_counters makes.
use esnet_smartnic_fw.Base.{
  ℕ, ◌+◌, ◌*◌, ◌%◌, ◌<◌, ◌≡◌, refl, Bool, true, false, List, [], ◌∷◌, ◌++◌, map, length, Option,
  none, some, All, Each, ◌==◌, arith, replicate,
}
use esnet_smartnic_fw.Text.{Text, text}
use esnet_smartnic_fw.Opennic.Metric.{
  u64_mod, StatsMetric, is_array, metric_mask, metric_alloc, metric_attach, all_labels,
  element_alloc,
}
use esnet_smartnic_fw.Opennic.Block.{StatsBlock, alloc_metrics, block_alloc, block_attach}
use esnet_smartnic_fw.Opennic.Zone.{
  StatsZone, StatsDomain, zone_get, alloc_blocks, attach_blocks, zone_attach, zone_alloc,
}
use esnet_smartnic_fw.Agent.Info.{CounterType, CounterBlockInfo, PipelineInfo}
use esnet_smartnic_fw.Agent.Counters.{
  CounterReads, CountersLatchData, counter_metric, nmetrics, metrics_by, counters_driver,
  counter_block, zone_name, init_counters,
}
use esnet_smartnic_fw.Agent.Counters.Counting.{IsCounter, AreCounters, IsCounterBlock}

module _ (pipeline : Text) (info : CounterBlockInfo) (some_counters : 0 < info.num_counters)
    (to_double : ℕ → ℕ) (domain zone : Text) where
  counter_metric-alloc :
      (idx : ℕ) (units : Option Text) (add_suffix : Bool)
      → (m : StatsMetric) × (metric_alloc (counter_metric pipeline info idx units add_suffix)
          ≡ some m)
        × IsCounter info.type (metric_attach domain zone info.name m).spec
        × ((metric_attach domain zone info.name m).spec.io.offset ≡ idx * info.num_counters)
  unfolding metric_alloc counter_metric is_array metric_mask metric_attach
  counter_metric-alloc idx units add_suffix =
      let nonzero : (info.num_counters == 0) ≡ false = ground arith in
      let spec = counter_metric pipeline info idx units add_suffix in
      (
        record {
          spec = record spec { labels = all_labels spec };
          elements = replicate info.num_counters (element_alloc spec);
          mask = 0;
        },
        rw nonzero refl,
        (refl, refl, refl),
        refl,
      )

  alloc_metrics-AreCounters :
      (t : CounterType)
      → (ms : List StatsMetric) × (alloc_metrics (metrics_by pipeline info t) ≡ some ms)
        × AreCounters info to_double 0 (map (metric_attach domain zone info.name) ms)
        × (length (map (metric_attach domain zone info.name) ms) ≡ nmetrics t)
  unfolding alloc_metrics metrics_by nmetrics
  alloc_metrics-AreCounters CounterType.packets_and_bytes =
      let (m, e, counter, at) = counter_metric-alloc 0 (some (text "packets")) true in
      let (m', e', counter', at') = counter_metric-alloc 1 (some (text "bytes")) true in
      (m ∷ m' ∷ [], rw (e, e') refl, ((counter, at), ((counter', at'), tt)), refl)
  alloc_metrics-AreCounters CounterType.packets =
      let (m, e, counter, at) = counter_metric-alloc 0 (some (text "packets")) false in
      (m ∷ [], rw e refl, ((counter, at), tt), refl)
  alloc_metrics-AreCounters CounterType.bytes =
      let (m, e, counter, at) = counter_metric-alloc 0 (some (text "bytes")) false in
      (m ∷ [], rw e refl, ((counter, at), tt), refl)
  alloc_metrics-AreCounters CounterType.flag =
      let (m, e, counter, at) = counter_metric-alloc 0 none false in
      (m ∷ [], rw e refl, ((counter, at), tt), refl)
  alloc_metrics-AreCounters (CounterType.other n) = ([], refl, tt, refl)

module _ {Handle Hw : Type 0} (reads : CounterReads Handle Hw) (bus : ℕ → ℕ → Hw → ℕ × Hw)
    (to_double : ℕ → ℕ) (pipeline : Text) (handle : Handle) where
  counter_block-alloc :
      (domain zone : Text) (info : CounterBlockInfo)
      → 0 < info.num_counters
      → let spec = counter_block reads bus to_double pipeline handle info in
        (blk : StatsBlock CountersLatchData Hw) × (block_alloc spec.name spec.driver spec.metrics
          ≡ some blk)
        × IsCounterBlock reads bus to_double handle info (block_attach domain zone blk)
  unfolding block_alloc block_attach counter_block
  counter_block-alloc domain zone info h =
      let (ms, e, counters, n) =
        alloc_metrics-AreCounters pipeline info h to_double domain zone info.type in
      (
        record {
          name = info.name;
          driver = counters_driver reads bus to_double handle info;
          metrics = ms;
          nvalues = 0;
          seconds = 0;
          nanos = 0;
        },
        rw e refl,
        (refl, counters, n),
      )

  alloc_blocks-Each :
      (domain zone : Text) (infos : List CounterBlockInfo)
      → All (λ (info : CounterBlockInfo). 0 < info.num_counters) infos
      → (blks : List (StatsBlock CountersLatchData Hw)) × (alloc_blocks
            (map (counter_block reads bus to_double pipeline handle) infos)
          ≡ some blks)
        × Each
            (λ info blk. IsCounterBlock reads bus to_double handle info blk)
            infos
            (attach_blocks domain zone blks)
  unfolding alloc_blocks attach_blocks
  alloc_blocks-Each domain zone [] h = ([], refl, tt)
  alloc_blocks-Each domain zone (info ∷ infos) (h, hs) =
      let (blk, e, r) = counter_block-alloc domain zone info h in
      let (blks, es, rs) = alloc_blocks-Each domain zone infos hs in
      (blk ∷ blks, rw (e, es) refl, (r, rs))

module _ {Handle Hw : Type 0} (reads : CounterReads Handle Hw) (bus : ℕ → ℕ → Hw → ℕ × Hw)
    (to_double : ℕ → ℕ) (handle : Handle) where
  abbrev pub AreCounterBlocks :
      List CounterBlockInfo → List (StatsBlock CountersLatchData Hw) → Type 0
  AreCounterBlocks = Each (λ info blk. IsCounterBlock reads bus to_double handle info blk)

  zone_alloc-AreCounterBlocks :
      (d : StatsDomain CountersLatchData Hw) (name pipeline : Text) (infos : List CounterBlockInfo)
      → All (λ (info : CounterBlockInfo). 0 < info.num_counters) infos
      → (d' : StatsDomain CountersLatchData Hw) × (z : StatsZone CountersLatchData Hw) × (zone_alloc
            d name
            (map (counter_block reads bus to_double pipeline handle) infos)
          ≡ some d')
        × (d'.zones ≡ d.zones ++ (some z ∷ []))
        × (z.name ≡ name)
        × AreCounterBlocks infos z.blocks
        × (z.ref_count ≡ 1)
  unfolding zone_alloc zone_attach zone_get
  zone_alloc-AreCounterBlocks d name pipeline infos h =
      let (blks, e, r) =
        alloc_blocks-Each reads bus to_double pipeline handle d.name name infos h in
      let attached =
        zone_attach d.name
          (record { name = name; blocks = blks; nvalues = 0; ref_count = 0; enabled = false }) in
      (
        record d {
          zones = d.zones ++ (some (zone_get attached) ∷ []);
          nvalues = (d.nvalues + attached.nvalues) % u64_mod;
        },
        zone_get attached,
        rw e refl,
        refl,
        refl,
        r,
        refl,
      )

  -- For a pipeline with counter blocks, none of them without counters, init_counters gives the domain
  -- one more zone, the last one, which carries the number of the pipeline in its name and has one
  -- reference and one counter block for each that the pipeline has, in order.
  pub init_counters-AreCounterBlocks :
      (d : StatsDomain CountersLatchData Hw) (id : ℕ) (info : PipelineInfo) (b : CounterBlockInfo)
      (bs : List CounterBlockInfo)
      → info.counter_blocks ≡ b ∷ bs
      → All (λ (i : CounterBlockInfo). 0 < i.num_counters) (b ∷ bs)
      → (d' : StatsDomain CountersLatchData Hw) × (z : StatsZone CountersLatchData Hw)
        × (init_counters reads bus to_double d id handle info ≡ some d')
        × (d'.zones ≡ d.zones ++ (some z ∷ []))
        × (z.name ≡ zone_name id)
        × AreCounterBlocks (b ∷ bs) z.blocks
        × (z.ref_count ≡ 1)
  unfolding init_counters
  init_counters-AreCounterBlocks d id info b bs has h =
      let (d', z, e, last, named, blocks, count) =
        zone_alloc-AreCounterBlocks d (zone_name id) info.name (b ∷ bs) h in
      (d', z, rw (has, e) refl, last, named, blocks, count)
