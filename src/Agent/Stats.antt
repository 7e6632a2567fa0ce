-- ===== src/Agent/Stats.antt =====
-- The statistics handlers: get_or_clear_stats of sn-p4/src/agent/stats.cpp over the domains of each
-- chosen device, and get_or_clear_pipeline_stats of sn-p4/src/agent/pipeline.cpp over the counters
-- of each chosen pipeline. The statistics library
-- (libopennic/include/stats.h) is an interface.
pub mod Laws
pub mod Pipelines
pub mod Library
use esnet_smartnic_fw.Base.{ℕ, Bool, true, false, List, [], ◌∷◌, ◌++◌, Option, none, some}
use esnet_smartnic_fw.Base.Int.{ℤ}
use esnet_smartnic_fw.MatchString.{RegexLibrary}
use esnet_smartnic_fw.BitArray.{BitArray}
use esnet_smartnic_fw.Filter.{Filter, StatsFilters}
use esnet_smartnic_fw.Metrics.{MetricSpec, Metric, get_metrics, clear_setup}
use esnet_smartnic_fw.Agent.Errors.{ErrorCode}
use esnet_smartnic_fw.Agent.Effect.{M, ◌>>=◌, ◌>>◌, pure, write, through}
use esnet_smartnic_fw.Agent.Device.{Device, DevicePipeline, State}
use esnet_smartnic_fw.Agent.Messages.{Response, respond, BatchOperation, BatchResponse, batched}
use esnet_smartnic_fw.Agent.Ids.{for_selected, for_pipelines}

-- What a call that clears gives the library: for each metric the bits of the values to be cleared,
-- as its callbacks compute them, or NULL for all values.
abbrev pub ClearFilter : Type 0
ClearFilter = Option (MetricSpec → Option BitArray)

-- The library: the metrics in the order in which it calls back for them, their values read from the
-- hardware; and clearing, which ends if the callbacks do.
pub record StatsLibrary (Zone Domain Hw : Type 0) : Type 0 where
  pub domain_metrics : Domain → Hw → List MetricSpec × Hw
  pub zone_metrics : Zone → Hw → List MetricSpec × Hw
  pub domain_clear : Domain → ClearFilter → Hw → Option Hw
  pub zone_clear : Zone → ClearFilter → Hw → Option Hw

pub record StatsRequest : Type 0 where
  pub dev_id : ℤ
  pub filters : StatsFilters

pub record PipelineStatsRequest : Type 0 where
  pub dev_id : ℤ
  pub pipeline_id : ℤ
  pub filters : StatsFilters

-- `stats` is set where the request gets metrics.
pub record StatsResponse : Type 0 where
  pub error_code : ErrorCode
  pub dev_id : ℕ
  pub stats : Option (List Metric)

abbrev pub stats_response : ErrorCode → ℕ → Option (List Metric) → StatsResponse
stats_response err d stats = record { error_code = err; dev_id = d; stats = stats }

abbrev pub with_hw : {Hw : Type 0} → State Hw → Hw → State Hw
with_hw s hw = record { flags = s.flags; hw = hw }

-- The end of a walk over metrics, and of a clearing.
pub collected :
    {Hw R : Type 0}
    → State Hw
    → Hw
    → Option (List Metric)
    → Option (State Hw × List R × List Metric)
collected s hw none = none
collected s hw (some stats) = some (with_hw s hw, [], stats)

pub cleared : {Hw R : Type 0} → State Hw → Option Hw → Option (State Hw × List R × Unit {0})
cleared s none = none
cleared s (some hw) = some (with_hw s hw, [], tt)

module _ {Handle Zone Domain Hw : Type 0} (re : RegexLibrary) (fuel : ℕ)
    (lib : StatsLibrary Zone Domain Hw) (devices : List (Device Handle Zone Domain)) where
  -- The filter of clear_stats_domain and clear_stats_zone.
  pub clear_filter : Option Filter → ClearFilter
  clear_filter none = none
  clear_filter (some f) = some (clear_setup re fuel f)

  pub clear_stats_domain : Domain → StatsFilters → {R : Type 0} → M (State Hw) R (Unit {0})
  unfolding clear_filter cleared
  clear_stats_domain domain filters s =
      cleared s (lib.domain_clear domain (clear_filter filters.metric_filter) s.hw)

  pub clear_stats_zone : Zone → StatsFilters → {R : Type 0} → M (State Hw) R (Unit {0})
  unfolding clear_filter cleared
  clear_stats_zone zone filters s =
      cleared s (lib.zone_clear zone (clear_filter filters.metric_filter) s.hw)

  -- `stats_domain_for_each_metric` and `stats_zone_for_each_metric` with get_stats_for_each_metric,
  -- which appends to `stats`.
  pub get_stats_domain :
      Domain → StatsFilters → List Metric → {R : Type 0} → M (State Hw) R (List Metric)
  unfolding collected
  get_stats_domain domain filters stats s =
      let (ms, hw) = lib.domain_metrics domain s.hw in
      collected s hw (get_metrics re fuel filters ms stats)

  pub get_stats_zone :
      Zone → StatsFilters → List Metric → {R : Type 0} → M (State Hw) R (List Metric)
  unfolding collected
  get_stats_zone zone filters stats s =
      let (ms, hw) = lib.zone_metrics zone s.hw in
      collected s hw (get_metrics re fuel filters ms stats)

  -- The loop over the domains of a device.
  pub get_domains :
      List Domain → StatsFilters → List Metric → {R : Type 0} → M (State Hw) R (List Metric)
  unfolding get_stats_domain
  get_domains [] filters stats = pure stats
  get_domains (domain ∷ domains) filters stats =
      get_stats_domain domain filters stats >>= λ stats'. get_domains domains filters stats'

  pub clear_domains : List Domain → StatsFilters → {R : Type 0} → M (State Hw) R (Unit {0})
  unfolding clear_stats_domain
  clear_domains [] filters = pure tt
  clear_domains (domain ∷ domains) filters =
      clear_stats_domain domain filters >> clear_domains domains filters

  pub device_stats :
      StatsFilters → Bool → ℕ → Device Handle Zone Domain → M (State Hw) StatsResponse (Unit {0})
  unfolding get_domains clear_domains
  device_stats filters true d dev = do
    clear_domains dev.domains filters
    write (stats_response ErrorCode.ok d none)
  device_stats filters false d dev = do
    stats ← get_domains dev.domains filters []
    write (stats_response ErrorCode.ok d (some stats))

  pub get_or_clear_stats : StatsRequest → Bool → M (State Hw) StatsResponse (Unit {0})
  unfolding for_selected device_stats
  get_or_clear_stats req do_clear =
      for_selected devices req.dev_id (stats_response ErrorCode.invalid_device_id 0 none)
        (device_stats req.filters do_clear)

  -- The stats of a pipeline, which may have no counters.
  pub zone_stats :
      StatsFilters → Bool → Option Zone → {R : Type 0} → M (State Hw) R (Option (List Metric))
  unfolding get_stats_zone clear_stats_zone
  zone_stats filters do_clear none = pure none
  zone_stats filters true (some zone) = clear_stats_zone zone filters >>= λ _. pure none
  zone_stats filters false (some zone) =
      get_stats_zone zone filters [] >>= λ stats. pure (some stats)

  pub pipeline_stats :
      StatsFilters
      → Bool
      → ℕ
      → ℕ
      → DevicePipeline Handle Zone
      → M (State Hw) (Response (Option (List Metric))) (Unit {0})
  unfolding zone_stats
  pipeline_stats filters do_clear d p pipeline = do
    stats ← zone_stats filters do_clear pipeline.counters
    write (respond stats ErrorCode.ok d p)

  pub get_or_clear_pipeline_stats :
      PipelineStatsRequest → Bool → M (State Hw) (Response (Option (List Metric))) (Unit {0})
  unfolding for_pipelines pipeline_stats
  get_or_clear_pipeline_stats req do_clear =
      for_pipelines devices req.dev_id req.pipeline_id (λ err d. respond none err d 0)
        (pipeline_stats req.filters do_clear)

  -- The forms in a batch.
  unfoldable pub batch_stats :
      StatsRequest → Bool → M (State Hw) (BatchResponse StatsResponse) (Unit {0})
  unfolding get_or_clear_stats
  batch_stats req false = through (batched BatchOperation.get) (get_or_clear_stats req false)
  batch_stats req true = through (batched BatchOperation.clear) (get_or_clear_stats req true)

  unfoldable pub batch_pipeline_stats :
      PipelineStatsRequest
      → Bool
      → M (State Hw) (BatchResponse (Response (Option (List Metric)))) (Unit {0})
  unfolding get_or_clear_pipeline_stats
  batch_pipeline_stats req false =
      through (batched BatchOperation.get) (get_or_clear_pipeline_stats req false)
  batch_pipeline_stats req true =
      through (batched BatchOperation.clear) (get_or_clear_pipeline_stats req true)
