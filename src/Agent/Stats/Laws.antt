-- ===== src/Agent/Stats/Laws.antt =====
-- What a request for statistics answers: for each device the reports of all its domains.
use mathlib.Core.List.{append-nil, append_assoc}
use esnet_smartnic_fw.Base.{
  ℕ, ◌≡◌, ◌<◌, sym, ap, ◌∙◌, false, List, [], ◌∷◌, ◌++◌, some, length, get_elem?, All,
}
use esnet_smartnic_fw.Base.Int.{pos}
use esnet_smartnic_fw.MatchString.{RegexLibrary}
use esnet_smartnic_fw.Filter.{StatsFilters}
use esnet_smartnic_fw.Metrics.{Metric}
use esnet_smartnic_fw.Metrics.Laws.{reports, Safe, get_metrics-reports}
use esnet_smartnic_fw.Agent.Errors.{ErrorCode}
use esnet_smartnic_fw.Agent.Effect.{M, continue, prepend, pure, write}
use esnet_smartnic_fw.Agent.Device.{Device, State}
use esnet_smartnic_fw.Agent.Ids.Laws.{for_selected-pos}
use esnet_smartnic_fw.Agent.Stats.{
  StatsLibrary, stats_response, with_hw, collected, get_stats_domain, get_domains, device_stats,
  get_or_clear_stats,
}

module _ {Handle Zone Domain Hw : Type 0} (re : RegexLibrary) (fuel : ℕ)
    (lib : StatsLibrary Zone Domain Hw) (devices : List (Device Handle Zone Domain))
    (filters : StatsFilters) where
  -- The reports of several domains, each read from the hardware as the one before left it.
  unfoldable pub domain_reports : List Domain → Hw → List Metric × Hw
  domain_reports [] hw = ([], hw)
  domain_reports (domain ∷ domains) hw =
      let (ms, hw') = lib.domain_metrics domain hw in
      let (rest, hw'') = domain_reports domains hw' in (reports re filters ms ++ rest, hw'')

  -- On every metric that the domains show, one after the other, the slices of the filters stay within
  -- their integers, and the values are fewer than the rounds of a loop.
  abbrev pub AllSafe : List Domain → Hw → Type 0
  AllSafe [] hw = Unit
  AllSafe (domain ∷ domains) hw =
      let (ms, hw') = lib.domain_metrics domain hw in
      All (λ m. (length m.spec.values < fuel) × Safe filters m) ms × AllSafe domains hw'

  get_domains-reports :
      {R : Type 0} (domains : List Domain) (stats : List Metric) (s : State Hw)
      → AllSafe domains s.hw
      → get_domains re fuel lib devices domains filters stats {R = R} s
        ≡ some (
          with_hw s (domain_reports domains s.hw).1,
          [],
          stats ++ (domain_reports domains s.hw).0,
        )
  unfolding get_domains get_stats_domain collected domain_reports
  get_domains-reports [] stats s safe = ap (λ l. some (s, [], l)) (sym (append-nil stats))
  get_domains-reports {R = R} (domain ∷ domains) stats s (safe, others) =
      let (ms, hw) = lib.domain_metrics domain s.hw in
      let next : List Metric → M (State Hw) R (List Metric) =
        λ stats'. get_domains re fuel lib devices domains filters stats' {R = R} in
      ap (λ o. continue (collected s hw o) next) (get_metrics-reports re fuel filters ms stats safe)
      ∙ ap (prepend [])
          (get_domains-reports domains (stats ++ reports re filters ms) (with_hw s hw) others)
      ∙ ap (λ l. some (with_hw s (domain_reports domains hw).1, [], l))
          (append_assoc stats (reports re filters ms) (domain_reports domains hw).0)

  device_stats-run :
      (d : ℕ) (dev : Device Handle Zone Domain) (s : State Hw)
      → AllSafe dev.domains s.hw
      → device_stats re fuel lib devices filters false d dev s
        ≡ some (
          with_hw s (domain_reports dev.domains s.hw).1,
          stats_response ErrorCode.ok d (some (domain_reports dev.domains s.hw).0) ∷ [],
          tt,
        )
  unfolding device_stats
  device_stats-run d dev s safe =
      ap (λ o. continue o (λ stats. write (stats_response ErrorCode.ok d (some stats))))
        (get_domains-reports dev.domains [] s safe)

  -- If on every metric that the domains of the device show the slices of the filters stay within
  -- their integers and the values are fewer than the fuel, then a request for the statistics of one
  -- device that exists answers, in one response, what the filters select of each metric of each
  -- domain in the library's order, and changes no debug flag.
  pub get_stats-one :
      (d : ℕ) (dev : Device Handle Zone Domain) (s : State Hw)
      → AllSafe dev.domains s.hw
      → get_elem? devices d ≡ some dev
      → get_or_clear_stats re fuel lib devices
          (record { dev_id = pos d; filters = filters })
          false
          s
        ≡ some (
          with_hw s (domain_reports dev.domains s.hw).1,
          stats_response ErrorCode.ok d (some (domain_reports dev.domains s.hw).0) ∷ [],
          tt,
        )
  unfolding get_or_clear_stats
  get_stats-one d dev s safe e =
      for_selected-pos devices d _ (device_stats re fuel lib devices filters false) dev s e
      ∙ ap (λ o. continue o (λ u. pure tt)) (device_stats-run d dev s safe)
