-- ===== src/Opennic/Zone.antt =====
-- Zones and domains of libopennic/src/stats.c. A domain's list of zones is in the order of their
-- attachment and keeps the place of one that was freed, as `none`, so that a zone is named by its
-- place. The list is walked with a reference held on the zone at hand; one thread runs at a time.
pub mod Walks
pub mod Values
pub mod References
pub mod Leaks
mod Tests
pub mod Clearing
use esnet_smartnic_fw.Base.{
  ℕ, zero, suc, ◌+◌, ◌-◌, ◌%◌, ◌^◌, Bool, true, false, List, [], ◌∷◌, ◌++◌, map, Option, none, some,
  length, set, get_elem?, leb, ◌==◌, if◌then◌else◌, and_then,
}
use esnet_smartnic_fw.Text.{Text}
use esnet_smartnic_fw.Filter.{Value}
use esnet_smartnic_fw.Metrics.{MetricSpec}
use esnet_smartnic_fw.Opennic.Metric.{u64_mod, StatsMetricSpec}
use esnet_smartnic_fw.Opennic.Block.{
  BlockDriver, StatsBlock, ClearFilter, clear_all, block_alloc, block_attach, block_update_metrics,
  block_get_values, block_views,
}

pub record StatsZone (Data Hw : Type 0) : Type 0 where
  pub name : Text
  pub blocks : List (StatsBlock Data Hw)
  pub nvalues : ℕ
  pub ref_count : ℕ
  pub enabled : Bool

pub record StatsDomain (Data Hw : Type 0) : Type 0 where
  pub name : Text
  pub zones : List (Option (StatsZone Data Hw))
  pub nvalues : ℕ
  pub running : Bool

-- stats_block_spec
pub record BlockSpec (Data Hw : Type 0) : Type 0 where
  pub name : Text
  pub driver : BlockDriver Data Hw
  pub metrics : List StatsMetricSpec

-- `if (filter == NULL) filter = &clear_all;`
pub or_clear_all : {Arg : Type 0} → Option (ClearFilter Arg) → ClearFilter Arg
or_clear_all none = clear_all
or_clear_all (some filter) = filter

module _ {Data Hw : Type 0} where
  unfoldable pub zone_get : StatsZone Data Hw → StatsZone Data Hw
  zone_get z = record z { ref_count = (z.ref_count + 1) % 2 ^ 32 }

  -- The test is on the count before it is decremented. A zone that is detached and freed takes its
  -- values from those of the domain, `nvalues`.
  pub zone_put : StatsZone Data Hw → ℕ → Option (StatsZone Data Hw) × ℕ
  zone_put z nvalues =
      if z.ref_count == 0
      then (none, (nvalues + u64_mod - z.nvalues) % u64_mod)
      else (some (record z { ref_count = z.ref_count - 1 }), nvalues)

  unfoldable pub alloc_blocks : List (BlockSpec Data Hw) → Option (List (StatsBlock Data Hw))
  alloc_blocks [] = some []
  alloc_blocks (spec ∷ specs) =
      and_then (block_alloc spec.name spec.driver spec.metrics)
        λ blk. and_then (alloc_blocks specs) λ blks. some (blk ∷ blks)

  -- The loop that attaches the blocks, and the zone's count of values.
  unfoldable pub attach_blocks : Text → Text → List (StatsBlock Data Hw) → List (StatsBlock Data Hw)
  attach_blocks domain zone blks = map (block_attach domain zone) blks

  pub count_values : List (StatsBlock Data Hw) → ℕ → ℕ
  count_values [] n = n
  count_values (blk ∷ blks) n = count_values blks (n + blk.nvalues)

  unfoldable pub zone_attach : Text → StatsZone Data Hw → StatsZone Data Hw
  unfolding attach_blocks count_values
  zone_attach domain z =
      let blks = attach_blocks domain z.name z.blocks in
      record z { blocks = blks; nvalues = count_values blks z.nvalues; enabled = true }

  -- The zone is the last one of the domain, with one reference.
  unfoldable pub zone_alloc :
      StatsDomain Data Hw → Text → List (BlockSpec Data Hw) → Option (StatsDomain Data Hw)
  unfolding alloc_blocks zone_attach zone_get
  zone_alloc d name specs = and_then (alloc_blocks specs) λ blks.
      (let attached =
          zone_attach d.name
            (record { name = name; blocks = blks; nvalues = 0; ref_count = 0; enabled = false }) in
        some (record d {
          zones = d.zones ++ (some (zone_get attached) ∷ []);
          nvalues = (d.nvalues + attached.nvalues) % u64_mod;
        }))

  -- stats_zone_free and the enabling and disabling of a zone; `none` where the zone was freed.
  pub free_slot :
      StatsDomain Data Hw → ℕ → Option (Option (StatsZone Data Hw)) → Option (StatsDomain Data Hw)
  unfolding zone_put
  free_slot d i (some (some z)) =
      let (slot, nvalues) = zone_put z d.nvalues in
      some (record d { zones = set d.zones i slot; nvalues = nvalues })
  free_slot d i (some none) = none
  free_slot d i none = none

  pub zone_free : StatsDomain Data Hw → ℕ → Option (StatsDomain Data Hw)
  unfolding free_slot
  zone_free d i = free_slot d i (get_elem? d.zones i)

  pub enable_slot :
      Bool
      → StatsDomain Data Hw
      → ℕ
      → Option (Option (StatsZone Data Hw))
      → Option (StatsDomain Data Hw)
  enable_slot enabled d i (some (some z)) =
      some (record d { zones = set d.zones i (some (record z { enabled = enabled })) })
  enable_slot enabled d i (some none) = none
  enable_slot enabled d i none = none

  pub zone_set_enabled : Bool → StatsDomain Data Hw → ℕ → Option (StatsDomain Data Hw)
  unfolding enable_slot
  zone_set_enabled enabled d i = enable_slot enabled d i (get_elem? d.zones i)

  module _ {Arg : Type 0} (clock : Hw → (ℕ × ℕ) × Hw) where
    -- The loop over the blocks of a zone.
    pub update_blocks :
        Text
        → Text
        → Option (ClearFilter Arg)
        → List (StatsBlock Data Hw)
        → Arg
        → Hw
        → Option (List (StatsBlock Data Hw) × Arg × Hw)
    update_blocks domain zone filter [] arg hw = some ([], arg, hw)
    update_blocks domain zone filter (blk ∷ blks) arg hw =
        and_then (block_update_metrics domain zone filter clock blk arg hw) λ (blk', arg1, hw1).
          and_then (update_blocks domain zone filter blks arg1 hw1)
            λ (blks', arg2, hw2). some (blk' ∷ blks', arg2, hw2)

    pub update_zone :
        Text
        → Option (ClearFilter Arg)
        → StatsZone Data Hw
        → Arg
        → Hw
        → Option (StatsZone Data Hw × Arg × Hw)
    unfolding update_blocks
    update_zone domain filter z arg hw =
        and_then (update_blocks domain z.name filter z.blocks arg hw)
          λ (blks, arg', hw'). some (record z { blocks = blks }, arg', hw')

    -- A zone that is not enabled is left as it is.
    pub zone_update_metrics :
        Text → StatsZone Data Hw → Arg → Hw → Option (StatsZone Data Hw × Arg × Hw)
    unfolding update_zone
    zone_update_metrics domain z arg hw =
        if z.enabled then update_zone domain none z arg hw else some (z, arg, hw)

    pub zone_clear_metrics :
        Option (ClearFilter Arg)
        → Text
        → StatsZone Data Hw
        → Arg
        → Hw
        → Option (StatsZone Data Hw × Arg × Hw)
    unfolding update_zone or_clear_all
    zone_clear_metrics filter domain z arg hw =
        update_zone domain (some (or_clear_all filter)) z arg hw

  -- stats_zone_get_values: as many as there is room for.
  pub zone_get_values : List (StatsBlock Data Hw) → ℕ → List Value
  zone_get_values [] room = []
  zone_get_values (blk ∷ blks) room =
      let values = block_get_values blk room in
      values ++ zone_get_values blks (room - length values)

  -- What stats_zone_for_each_metric hands to a callback that returns 0.
  unfoldable pub zone_views : Text → Text → List (StatsBlock Data Hw) → List MetricSpec
  zone_views domain zone [] = []
  zone_views domain zone (blk ∷ blks) = block_views domain zone blk ++ zone_views domain zone blks

  -- The walk of stats_domain_get_next_zone: a reference on each zone while `body` runs on it. The
  -- reference on the next zone is taken before this one is given back, which concerns another zone.
  pub walk_zones :
      {W : Type 0}
      → (StatsZone Data Hw → W → Option (StatsZone Data Hw × W))
      → List (Option (StatsZone Data Hw))
      → ℕ
      → W
      → Option (List (Option (StatsZone Data Hw)) × ℕ × W)
  unfolding zone_get zone_put
  walk_zones body [] nvalues w = some ([], nvalues, w)
  walk_zones body (none ∷ slots) nvalues w =
      and_then (walk_zones body slots nvalues w)
        λ (slots', nvalues', w'). some (none ∷ slots', nvalues', w')
  walk_zones body (some z ∷ slots) nvalues w = and_then (body (zone_get z) w) λ (z', w1).
      (let (slot, nvalues1) = zone_put z' nvalues in
        and_then (walk_zones body slots nvalues1 w1)
          λ (slots', nvalues2, w2). some (slot ∷ slots', nvalues2, w2))

  pub walk_domain :
      {W : Type 0}
      → (StatsZone Data Hw → W → Option (StatsZone Data Hw × W))
      → StatsDomain Data Hw
      → W
      → Option (StatsDomain Data Hw × W)
  unfolding walk_zones
  walk_domain body d w =
      and_then (walk_zones body d.zones d.nvalues w)
        λ (zones, nvalues, w'). some (record d { zones = zones; nvalues = nvalues }, w')

  module _ (clock : Hw → (ℕ × ℕ) × Hw) where
    pub domain_update_metrics : StatsDomain Data Hw → Hw → Option (StatsDomain Data Hw × Hw)
    unfolding walk_domain zone_update_metrics
    domain_update_metrics d hw =
        walk_domain
          (λ z w. and_then (zone_update_metrics clock d.name z tt w) λ (z', u, w'). some (z', w')) d
          hw

    pub domain_clear_metrics :
        {Arg : Type 0}
        → Option (ClearFilter Arg)
        → StatsDomain Data Hw
        → Arg
        → Hw
        → Option (StatsDomain Data Hw × Arg × Hw)
    unfolding walk_domain zone_clear_metrics
    domain_clear_metrics {Arg = Arg} filter d arg hw =
        and_then
          (walk_domain
            (λ z (w : Arg × Hw).
              and_then (zone_clear_metrics clock filter d.name z w.0 w.1)
                λ (z', arg', hw'). some (z', (arg', hw')))
            d (arg, hw))
          λ (d', w). some (d', w.0, w.1)

  -- What stats_domain_for_each_metric hands to a callback that returns 0.
  unfoldable pub domain_views : Text → List (Option (StatsZone Data Hw)) → List MetricSpec
  unfolding zone_views
  domain_views domain [] = []
  domain_views domain (none ∷ slots) = domain_views domain slots
  domain_views domain (some z ∷ slots) =
      zone_views domain z.name z.blocks ++ domain_views domain slots

  -- stats_domain_get_values: the walk ends with the zone that fills the room.
  pub domain_get_values : List (Option (StatsZone Data Hw)) → ℕ → List Value
  unfolding zone_get_values
  domain_get_values [] room = []
  domain_get_values (none ∷ slots) room = domain_get_values slots room
  domain_get_values (some z ∷ slots) room =
      let values = zone_get_values z.blocks room in
      let rest = domain_get_values slots (room - length values) in
      if leb room (length values) then values else values ++ rest

  -- stats_domain_start and stats_domain_stop, as to the flag that they set
  pub domain_start : StatsDomain Data Hw → StatsDomain Data Hw
  domain_start d = record d { running = true }

  pub domain_stop : StatsDomain Data Hw → StatsDomain Data Hw
  domain_stop d = record d { running = false }

  pub domain_alloc : Text → StatsDomain Data Hw
  domain_alloc name = record { name = name; zones = []; nvalues = 0; running = false }

  -- The loop of stats_domain_free over the zones: each is put once in the loop's body and once where
  -- the walk goes on. `none` is a second put of a zone that the first one freed.
  pub free_zones :
      List (Option (StatsZone Data Hw)) → ℕ → Option (List (Option (StatsZone Data Hw)) × ℕ)
  unfolding zone_get zone_put
  free_zones [] nvalues = some ([], nvalues)
  free_zones (none ∷ slots) nvalues =
      and_then (free_zones slots nvalues) λ (slots', nvalues'). some (none ∷ slots', nvalues')
  free_zones (some z ∷ slots) nvalues =
      let (slot, nvalues1) = zone_put (zone_get z) nvalues in
      and_then slot λ z'.
        (let (slot', nvalues2) = zone_put z' nvalues1 in
          and_then (free_zones slots nvalues2)
            λ (slots', nvalues3). some (slot' ∷ slots', nvalues3))
