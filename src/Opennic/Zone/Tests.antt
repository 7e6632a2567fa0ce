-- ===== src/Opennic/Zone/Tests.antt =====
-- A domain with one zone of one block of two metrics.
use esnet_smartnic_fw.Base.{
  ℕ, ◌+◌, ◌≡◌, refl, false, List, [], ◌∷◌, Option, none, some, take, Each, arith,
}
use esnet_smartnic_fw.Text.{text}
use esnet_smartnic_fw.Metrics.{SpecType}
use esnet_smartnic_fw.Opennic.Metric.{StatsMetricSpec}
use esnet_smartnic_fw.Opennic.Block.{BlockDriver, block_alloc, block_attach}
use esnet_smartnic_fw.Opennic.Zone.{
  StatsDomain, BlockSpec, zone_alloc, zone_free, zone_set_enabled, domain_clear_metrics,
  domain_get_values,
}
use esnet_smartnic_fw.Opennic.Zone.Walks.{Slots, ZoneRel}
use esnet_smartnic_fw.Opennic.Zone.Clearing.{
  IsWalkable, BlocksReset, domain_clear_metrics-BlocksReset,
}
use esnet_smartnic_fw.Opennic.Zone.Values.{domain_values, domain_get_values-take}
use esnet_smartnic_fw.Opennic.Zone.References.{HasRefs}
use esnet_smartnic_fw.Opennic.Zone.Leaks.{Uses, zone_free-keeps}
use esnet_smartnic_fw.Opennic.Zone.Leaks

-- Registers that show the state of the hardware.
abbrev driver : BlockDriver (Unit {0}) ℕ
driver = record {
  latch_metrics = λ hw. (tt, hw);
  read_metric = none;
  bus_read = λ size offset hw. (hw + offset, hw + 1);
  convert_metric = λ spec u64 data_. u64;
  release_metrics = λ data_ hw. hw;
}

abbrev clock : ℕ → (ℕ × ℕ) × ℕ
clock hw = ((hw, 0), hw)

abbrev spec : SpecType → ℕ → ℕ → StatsMetricSpec
spec type flags offset = record {
  name = text "m";
  nelements = 2;
  labels = [];
  type = type;
  flags = flags;
  init_value = 0;
  io = record { offset = offset; size = 8; width = 0; shift = 0; invert = false };
}

abbrev blocks : List (BlockSpec (Unit {0}) ℕ)
blocks =
    record {
      name = text "b";
      driver = driver;
      metrics = spec SpecType.counter 4 0 ∷ spec SpecType.gauge 0 64 ∷ [];
    }
    ∷ []

abbrev empty : StatsDomain (Unit {0}) ℕ
empty = record { name = text "d"; zones = []; nvalues = 0; running = false }

abbrev from_some : {A : Type 0} → A → Option A → A
from_some a none = a
from_some a (some b) = b

abbrev allocated : StatsDomain (Unit {0}) ℕ
allocated = from_some empty (zone_alloc empty (text "z") blocks)

alloc_done : zone_alloc empty (text "z") blocks ≡ some allocated
unfolding zone_alloc block_alloc block_attach
alloc_done = refl

abbrev disabled : StatsDomain (Unit {0}) ℕ
disabled = from_some empty (zone_set_enabled false allocated 0)

zone_free-keeps_example :
    (d : StatsDomain (Unit {0}) ℕ) × (zone_free allocated 0 ≡ some d)
    × HasRefs d.zones 0 0
    × (d.nvalues ≡ allocated.nvalues)
zone_free-keeps_example =
    zone_free-keeps clock empty allocated allocated (text "z") blocks alloc_done Leaks.unused

domain_get_values-take_example :
    domain_get_values allocated.zones 2 ≡ take 2 (domain_values allocated.zones)
domain_get_values-take_example = domain_get_values-take allocated.zones 2

walkable : IsWalkable allocated
unfolding zone_alloc block_alloc block_attach
walkable = ((omega arith, ((refl, (refl, tt)), tt)), tt)

domain_clear_metrics-BlocksReset_example :
    (d' : StatsDomain (Unit {0}) ℕ) × (arg' : Unit {0}) × (hw' : ℕ) × (domain_clear_metrics clock
        none allocated tt 5
      ≡ some (d', arg', hw'))
    × Each (Slots (ZoneRel BlocksReset)) allocated.zones d'.zones
    × (d'.nvalues ≡ allocated.nvalues)
domain_clear_metrics-BlocksReset_example =
    domain_clear_metrics-BlocksReset clock allocated tt 5 walkable
