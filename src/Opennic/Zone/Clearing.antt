-- ===== src/Opennic/Zone/Clearing.antt =====
-- Clearing all the metrics of a domain.
use esnet_smartnic_fw.Base.{ℕ, ◌+◌, ◌^◌, ◌<◌, ◌≡◌, refl, List, none, some, Each, All, and_then}
use esnet_smartnic_fw.Text.{Text}
use esnet_smartnic_fw.Opennic.Metric.{StatsMetric}
use esnet_smartnic_fw.Opennic.Block.{StatsBlock, clear_all}
use esnet_smartnic_fw.Opennic.Block.Clearing.{IsCleared, update_metric-clear_all}
use esnet_smartnic_fw.Opennic.Zone.{
  StatsZone, StatsDomain, update_zone, or_clear_all, zone_clear_metrics, walk_domain,
  domain_clear_metrics,
}
use esnet_smartnic_fw.Opennic.Zone.Walks.{
  BlockReadable, OnSlot, Slots, ZoneRel, walk_zones-Each, update_blocks-Each,
}

-- A metric that stays what it is and shows its initial values.
abbrev pub Resets : StatsMetric → StatsMetric → Type 0
Resets m m' = (m'.spec ≡ m.spec) × IsCleared m'

module _ {Data Hw : Type 0} where
  abbrev pub BlocksReset : List (StatsBlock Data Hw) → List (StatsBlock Data Hw) → Type 0
  BlocksReset = Each (λ b b'. Each Resets b.metrics b'.metrics)

  -- The zones that are not freed have fewer than 2 ^ 32 - 1 references, and metrics that can be read.
  abbrev pub IsWalkable : StatsDomain Data Hw → Type 0
  IsWalkable d = All (OnSlot (λ z. (z.ref_count + 1 < 2 ^ 32) × All BlockReadable z.blocks)) d.zones

  module _ {Arg : Type 0} (clock : Hw → (ℕ × ℕ) × Hw) where
    zone_clear_metrics-BlocksReset :
        (domain : Text) (z : StatsZone Data Hw) (arg : Arg) (hw : Hw)
        → All BlockReadable z.blocks
        → (z' : StatsZone Data Hw) × (arg' : Arg) × (hw' : Hw) × (zone_clear_metrics clock none
              domain z arg hw
            ≡ some (z', arg', hw'))
          × ZoneRel BlocksReset z z'
    unfolding zone_clear_metrics or_clear_all update_zone
    zone_clear_metrics-BlocksReset domain z arg hw h =
        let (blks, arg', hw', e, r) =
          update_blocks-Each clock domain z.name (some clear_all) Resets
            (update_metric-clear_all domain z.name) z.blocks arg hw h in
        (record z { blocks = blks }, arg', hw', rw e refl, (r, refl, refl, refl))

    -- Clearing a domain without a filter ends, where its metrics can be read, with every metric of
    -- every zone, the disabled ones too, showing its initial value in every element, unless it is
    -- marked as never cleared; the references, the enabling and the counts of values stay.
    pub domain_clear_metrics-BlocksReset :
        (d : StatsDomain Data Hw) (arg : Arg) (hw : Hw)
        → IsWalkable d
        → (d' : StatsDomain Data Hw) × (arg' : Arg) × (hw' : Hw) × (domain_clear_metrics clock none
              d arg hw
            ≡ some (d', arg', hw'))
          × Each (Slots (ZoneRel BlocksReset)) d.zones d'.zones
          × (d'.nvalues ≡ d.nvalues)
    unfolding domain_clear_metrics walk_domain
    domain_clear_metrics-BlocksReset d arg hw h =
        let (slots, w, e, r) =
          walk_zones-Each
            (λ z (v : Arg × Hw).
              and_then (zone_clear_metrics clock none d.name z v.0 v.1)
                λ (z', arg', hw'). some (z', (arg', hw')))
            (All BlockReadable) BlocksReset
            (λ z v p.
              let (z', arg', hw', e, r) = zone_clear_metrics-BlocksReset d.name z v.0 v.1 p in
              (z', (arg', hw'), rw e refl, r))
            d.zones d.nvalues (arg, hw) h in
        (record d { zones = slots }, w.0, w.1, rw e refl, r, refl)
