-- ===== src/Opennic/Zone/Walks.antt =====
-- A walk over the zones of a domain, from what it does to each zone.
use esnet_smartnic_fw.Base.{
  ℕ, ◌+◌, ◌-◌, ◌^◌, ◌<◌, ◌≡◌, refl, false, List, [], ◌∷◌, Option, none, some, Each, All, ◌==◌,
  arith,
}
use esnet_smartnic_fw.Text.{Text}
use esnet_smartnic_fw.Opennic.Metric.{StatsMetric}
use esnet_smartnic_fw.Opennic.Block.{StatsBlock, ClearFilter, update_metric}
use esnet_smartnic_fw.Opennic.Block.Updates.{Readable, block_update_metrics-Each}
use esnet_smartnic_fw.Opennic.Zone.{StatsZone, zone_get, zone_put, update_blocks, walk_zones}

module _ {Data Hw : Type 0} where
  abbrev pub BlockReadable : StatsBlock Data Hw → Type 0
  BlockReadable blk = All (Readable blk.driver) blk.metrics

  abbrev pub ZoneReadable : StatsZone Data Hw → Type 0
  ZoneReadable z = All BlockReadable z.blocks

  -- A property of the zones that are not freed, and a relation of each with what it becomes.
  abbrev pub OnSlot : (StatsZone Data Hw → Type 0) → Option (StatsZone Data Hw) → Type 0
  OnSlot P none = Unit {0}
  OnSlot P (some z) = P z

  abbrev pub Slots :
      (StatsZone Data Hw → StatsZone Data Hw → Type 0)
      → Option (StatsZone Data Hw)
      → Option (StatsZone Data Hw)
      → Type 0
  Slots S none none = Unit {0}
  Slots S (some z) (some z') = S z z'
  Slots S _ _ = ⊥

  -- The blocks are related, and the references and the enabling stay.
  abbrev pub ZoneRel :
      (List (StatsBlock Data Hw) → List (StatsBlock Data Hw) → Type 0)
      → StatsZone Data Hw
      → StatsZone Data Hw
      → Type 0
  ZoneRel T z z' =
      T z.blocks z'.blocks
      × (z'.ref_count ≡ z.ref_count)
      × (z'.enabled ≡ z.enabled)
      × (z'.nvalues ≡ z.nvalues)

  module _ {W : Type 0} (body : StatsZone Data Hw → W → Option (StatsZone Data Hw × W))
      (P : List (StatsBlock Data Hw) → Type 0)
      (T : List (StatsBlock Data Hw) → List (StatsBlock Data Hw) → Type 0)
      (step : (z : StatsZone Data Hw) (w : W)
        → P z.blocks
        → (z' : StatsZone Data Hw) × (w' : W) × (body z w ≡ some (z', w')) × ZoneRel T z z') where
    pub walk_zones-Each :
        (slots : List (Option (StatsZone Data Hw))) (nvalues : ℕ) (w : W)
        → All (OnSlot (λ z. (z.ref_count + 1 < 2 ^ 32) × P z.blocks)) slots
        → (slots' : List (Option (StatsZone Data Hw))) × (w' : W) × (walk_zones body slots nvalues w
            ≡ some (slots', nvalues, w'))
          × Each (Slots (ZoneRel T)) slots slots'
    unfolding walk_zones zone_get zone_put
    walk_zones-Each [] nvalues w h = ([], w, refl, tt)
    walk_zones-Each (none ∷ slots) nvalues w (h, hs) =
        let (slots', w', e, r) = walk_zones-Each slots nvalues w hs in
        (none ∷ slots', w', rw e refl, (tt, r))
    walk_zones-Each (some z ∷ slots) nvalues w ((few, p), hs) =
        let (z', w1, e1, (t, refs, enabled, values)) = step (zone_get z) w p in
        let (slots', w', e, r) = walk_zones-Each slots nvalues w1 hs in
        let held : (z'.ref_count == 0) ≡ false = ground (arith, refs) in
        let back : z'.ref_count - 1 ≡ z.ref_count = omega (arith, refs) in
        (
          some (record z' { ref_count = z'.ref_count - 1 }) ∷ slots',
          w',
          rw e1 (rw held (rw e refl)),
          ((t, back, enabled, values), r),
        )

  module _ {Arg : Type 0} (clock : Hw → (ℕ × ℕ) × Hw) (domain zone : Text)
      (filter : Option (ClearFilter Arg)) (R : StatsMetric → StatsMetric → Type 0)
      (step : (blk : StatsBlock Data Hw) (m : StatsMetric) (data_ : Data) (arg : Arg) (hw : Hw)
        → Readable blk.driver m
        → (m' : StatsMetric) × (data' : Data) × (arg' : Arg) × (hw' : Hw) × (update_metric domain
              zone filter blk m data_ arg hw
            ≡ some (m', data', arg', hw'))
          × R m m') where
    pub update_blocks-Each :
        (blks : List (StatsBlock Data Hw)) (arg : Arg) (hw : Hw)
        → All BlockReadable blks
        → (blks' : List (StatsBlock Data Hw)) × (arg' : Arg) × (hw' : Hw) × (update_blocks clock
              domain zone filter blks arg hw
            ≡ some (blks', arg', hw'))
          × Each (λ b b'. Each R b.metrics b'.metrics) blks blks'
    unfolding update_blocks
    update_blocks-Each [] arg hw h = ([], arg, hw, refl, tt)
    update_blocks-Each (blk ∷ blks) arg hw (h, hs) =
        let (blk', arg1, hw1, e, r) =
          block_update_metrics-Each domain zone filter R step clock blk arg hw h in
        let (blks', arg2, hw2, es, rs) = update_blocks-Each blks arg1 hw1 hs in
        (blk' ∷ blks', arg2, hw2, rw (e, es) refl, (r, rs))
