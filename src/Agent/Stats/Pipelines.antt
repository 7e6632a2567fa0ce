-- ===== src/Agent/Stats/Pipelines.antt =====
-- What a request for the statistics of pipelines answers.
use esnet_smartnic_fw.Base.{
  ℕ, ◌≡◌, ◌<◌, refl, ap, ◌∙◌, false, List, [], ◌∷◌, Option, none, some, length, get_elem?, All,
}
use esnet_smartnic_fw.Base.Int.{pos}
use esnet_smartnic_fw.MatchString.{RegexLibrary}
use esnet_smartnic_fw.Filter.{StatsFilters}
use esnet_smartnic_fw.Metrics.{Metric}
use esnet_smartnic_fw.Metrics.Laws.{reports, Safe, get_metrics-reports}
use esnet_smartnic_fw.Agent.Errors.{ErrorCode}
use esnet_smartnic_fw.Agent.Effect.{M, continue, pure, write}
use esnet_smartnic_fw.Agent.Device.{Device, DevicePipeline, State}
use esnet_smartnic_fw.Agent.Messages.{respond}
use esnet_smartnic_fw.Agent.Ids.{for_pipelines}
use esnet_smartnic_fw.Agent.Ids.Laws.{for_selected-pos}
use esnet_smartnic_fw.Agent.Stats.{
  StatsLibrary, with_hw, collected, get_stats_zone, zone_stats, pipeline_stats,
  get_or_clear_pipeline_stats,
}

module _ {Handle Zone Domain Hw : Type 0} (re : RegexLibrary) (fuel : ℕ)
    (lib : StatsLibrary Zone Domain Hw) (devices : List (Device Handle Zone Domain))
    (filters : StatsFilters) where
  -- The reports of a pipeline's counters, when it has any.
  unfoldable pub zone_reports : Option Zone → Hw → Option (List Metric) × Hw
  zone_reports none hw = (none, hw)
  zone_reports (some zone) hw =
      let (ms, hw') = lib.zone_metrics zone hw in (some (reports re filters ms), hw')

  -- On every metric that the counters show, the slices of the filters stay within their integers, and
  -- the values are fewer than the rounds of a loop.
  abbrev pub AllSafe : Option Zone → Hw → Type 0
  AllSafe none hw = Unit
  AllSafe (some zone) hw =
      All (λ m. (length m.spec.values < fuel) × Safe filters m) (lib.zone_metrics zone hw).0

  zone_stats-run :
      {R : Type 0} (o : Option Zone) (s : State Hw)
      → AllSafe o s.hw
      → zone_stats re fuel lib devices filters false o {R = R} s
        ≡ some (with_hw s (zone_reports o s.hw).1, [], (zone_reports o s.hw).0)
  unfolding zone_stats get_stats_zone collected zone_reports
  zone_stats-run none s safe = refl
  zone_stats-run {R = R} (some zone) s safe =
      let (ms, hw) = lib.zone_metrics zone s.hw in
      let last : List Metric → M (State Hw) R (Option (List Metric)) = λ stats. pure (some stats) in
      ap (λ o. continue (collected s hw o) last) (get_metrics-reports re fuel filters ms [] safe)

  pipeline_stats-run :
      (d p : ℕ) (pipeline : DevicePipeline Handle Zone) (s : State Hw)
      → AllSafe pipeline.counters s.hw
      → pipeline_stats re fuel lib devices filters false d p pipeline s
        ≡ some (
          with_hw s (zone_reports pipeline.counters s.hw).1,
          respond (zone_reports pipeline.counters s.hw).0 ErrorCode.ok d p ∷ [],
          tt,
        )
  unfolding pipeline_stats
  pipeline_stats-run d p pipeline s safe =
      ap (λ o. continue o (λ stats. write (respond stats ErrorCode.ok d p)))
        (zone_stats-run pipeline.counters s safe)

  -- If on every metric that the counters of the pipeline show the slices of the filters stay within
  -- their integers and the values are fewer than the fuel, then a request for the statistics of one pipeline that exists
  -- answers, in one response, what the filters select of each metric of its counters, or no metrics
  -- where it has no counters.
  pub get_pipeline_stats-one :
      (d p : ℕ) (dev : Device Handle Zone Domain) (pipeline : DevicePipeline Handle Zone)
      (s : State Hw)
      → AllSafe pipeline.counters s.hw
      → get_elem? devices d ≡ some dev
      → get_elem? dev.pipelines p ≡ some pipeline
      → get_or_clear_pipeline_stats re fuel lib devices
          (record { dev_id = pos d; pipeline_id = pos p; filters = filters })
          false
          s
        ≡ some (
          with_hw s (zone_reports pipeline.counters s.hw).1,
          respond (zone_reports pipeline.counters s.hw).0 ErrorCode.ok d p ∷ [],
          tt,
        )
  unfolding get_or_clear_pipeline_stats for_pipelines
  get_pipeline_stats-one d p dev pipeline s safe e1 e2 =
      for_selected-pos devices d _ _ dev s e1
      ∙ ap (λ r. continue r (λ u. pure tt))
          (for_selected-pos dev.pipelines p _ (pipeline_stats re fuel lib devices filters false d)
              pipeline s e2
            ∙ ap (λ r. continue r (λ u. pure tt)) (pipeline_stats-run d p pipeline s safe))
