-- ===== src/Agent/Stats/Library.antt =====
-- The statistics handlers on the statistics library itself (libopennic/src/stats.c): the clear filter
-- of sn-p4/src/agent/stats.cpp with its context, and the library as the handlers use it.
mod Tests
use mathlib.Core.Path.{subst}
use esnet_smartnic_fw.Base.{
  ℕ, length-map, ◌+◌, ◌-◌, ◌%◌, ◌<◌, length, ltb, ◌==◌, if◌then◌else◌, ◌≡◌, refl, ap, ◌∙◌, Bool,
  true, false, not, ◌&&◌, List, [], map, Option, none, some, get_elem?, set, and_then, arith,
}
use esnet_smartnic_fw.Text.{Text}
use esnet_smartnic_fw.BitArray.{BitArray}
use esnet_smartnic_fw.MatchString.{RegexLibrary}
use esnet_smartnic_fw.Filter.{Filter}
use esnet_smartnic_fw.Filter.Meaning.{SafeFilter, selects}
use esnet_smartnic_fw.Metrics.{SpecType, MetricSpec, clear_type, clear_setup, clear_match}
use esnet_smartnic_fw.Metrics.Laws.{clear_setup-selects}
use esnet_smartnic_fw.Opennic.Metric.{
  u64_mod, flag_test, StatsMetricSpec, StatsMetric, Element, is_clear_on_read, is_never_clear,
  update_by_type, update_value, update_element,
}
use esnet_smartnic_fw.Opennic.Block.{
  StatsBlock, ClearFilter, metric_view, setup_filter, teardown_filter, wants_clear, read_values,
  update_elements, update_metric,
}
use esnet_smartnic_fw.Opennic.Block.Clearing.{update_elements-each, update_elements_arg}
use esnet_smartnic_fw.Opennic.Zone.{
  StatsZone, StatsDomain, zone_views, zone_clear_metrics, domain_clear_metrics, domain_views,
}
use esnet_smartnic_fw.Agent.Stats as Handlers
use esnet_smartnic_fw.Agent.Stats.{StatsLibrary}

-- `ctx->valid`, NULL outside of a metric; a test without it is none that the code can come to.
abbrev pub Context : Type 0
Context = Option BitArray

pub context_match : Context → ℕ → Bool
context_match none n = false
context_match (some valid) n = clear_match valid n

-- The three callbacks, where `bits_of` is what the setup computes.
pub context_filter : (MetricSpec → Option BitArray) → ClearFilter Context
unfolding context_match
context_filter bits_of = record {
  setup = some (λ view ctx. and_then (bits_of view) λ valid. some (some valid));
  match = some (λ view n ctx. (context_match ctx n, ctx));
  teardown = some (λ view ctx. none);
}

-- The filter and the context of a request, by whether it has a metric filter.
pub request_filter : Handlers.ClearFilter → Option (ClearFilter Context)
unfolding context_filter
request_filter none = none
request_filter (some bits_of) = some (context_filter bits_of)

-- What a metric shows after a reading that does not clear it: a counter the sum, with the difference
-- to the last reading where reading does not clear the register, a flag whether there was anything,
-- and any other the reading.
abbrev pub next_shown : SpecType → Bool → ℕ → ℕ → ℕ → ℕ
next_shown SpecType.counter true value u64 last = (u64 + value) % u64_mod
next_shown SpecType.counter false value u64 last =
    (u64 + (value + u64_mod - last) % u64_mod) % u64_mod
next_shown SpecType.flag reads value u64 last = if value == 0 then 0 else 1
next_shown SpecType.gauge reads value u64 last = value
next_shown (SpecType.other n) reads value u64 last = value

-- The reading that is kept for the next difference.
abbrev pub next_last : SpecType → Bool → ℕ → ℕ → ℕ
next_last SpecType.counter false value last = value
next_last t reads value last = last

-- An element after the reading `value`: its initial value where it is cleared, and else the next.
abbrev pub after : StatsMetricSpec → (ℕ → ℕ) → Bool → ℕ → Element → Element
after spec convert cleared value e =
    let reads = flag_test spec.flags 0 in
    let u64 =
      if cleared then spec.init_value else next_shown spec.type reads value e.value.u64 e.last in
    record {
      value = record { u64 = u64; f64 = convert u64; labels = e.value.labels };
      last = next_last spec.type reads value e.last;
    }

update_by_type-next :
    (t : SpecType) (reads : Bool) (init : ℕ) (cleared : Bool) (value u64 last : ℕ)
    → update_by_type t reads init cleared value u64 last
      ≡ (if cleared then init else next_shown t reads value u64 last, next_last t reads value last)
unfolding update_by_type
update_by_type-next SpecType.counter true init cleared value u64 last = refl
update_by_type-next SpecType.counter false init cleared value u64 last = refl
update_by_type-next SpecType.flag reads init cleared value u64 last = refl
update_by_type-next SpecType.gauge reads init cleared value u64 last = refl
update_by_type-next (SpecType.other n) reads init cleared value u64 last = refl

update_element-after :
    (spec : StatsMetricSpec) (convert : ℕ → ℕ) (cleared : Bool) (value : ℕ) (e : Element)
    → update_element spec convert cleared value e ≡ after spec convert cleared value e
unfolding update_element update_value is_clear_on_read
update_element-after spec convert cleared value e =
    ap
      (λ (q : ℕ × ℕ). record {
        value = record { u64 = q.0; f64 = convert q.0; labels = e.value.labels };
        last = q.1;
      })
      (update_by_type-next spec.type (flag_test spec.flags 0) spec.init_value cleared value
        e.value.u64 e.last)

-- The domains, named by their places, and the hardware.
pub record World (Data Hw : Type 0) : Type 0 where
  pub domains : List (StatsDomain Data Hw)
  pub hw : Hw

-- A zone by the places of its domain and of itself in it
pub record ZonePlace : Type 0 where
  pub domain : ℕ
  pub zone : ℕ

module _ {Data Hw : Type 0} where
  pub views_at : Option (StatsDomain Data Hw) → List MetricSpec
  views_at none = []
  views_at (some d) = domain_views d.name d.zones

  pub slot_views : Text → Option (Option (StatsZone Data Hw)) → List MetricSpec
  slot_views domain (some (some z)) = zone_views domain z.name z.blocks
  slot_views domain (some none) = []
  slot_views domain none = []

  pub zone_views_at : Option (StatsDomain Data Hw) → ℕ → List MetricSpec
  unfolding slot_views
  zone_views_at none i = []
  zone_views_at (some d) i = slot_views d.name (get_elem? d.zones i)

  module _ (clock : Hw → (ℕ × ℕ) × Hw) where
    pub clear_at :
        Handlers.ClearFilter
        → World Data Hw
        → ℕ
        → Option (StatsDomain Data Hw)
        → Option (World Data Hw)
    unfolding request_filter
    clear_at filter w i none = some w
    clear_at filter w i (some d) =
        and_then (domain_clear_metrics clock (request_filter filter) d none w.hw)
          λ (d', ctx, hw). some (record { domains = set w.domains i d'; hw = hw })

    pub clear_zone_slot :
        Handlers.ClearFilter
        → World Data Hw
        → ZonePlace
        → StatsDomain Data Hw
        → Option (Option (StatsZone Data Hw))
        → Option (World Data Hw)
    unfolding request_filter
    clear_zone_slot filter w place d (some (some z)) =
        and_then (zone_clear_metrics clock (request_filter filter) d.name z none w.hw)
          λ (z', ctx, hw).
            (let d' = record d { zones = set d.zones place.zone (some z') } in
              some (record { domains = set w.domains place.domain d'; hw = hw }))
    clear_zone_slot filter w place d (some none) = some w
    clear_zone_slot filter w place d none = some w

    pub clear_zone_at :
        Handlers.ClearFilter
        → World Data Hw
        → ZonePlace
        → Option (StatsDomain Data Hw)
        → Option (World Data Hw)
    unfolding clear_zone_slot
    clear_zone_at filter w place none = some w
    clear_zone_at filter w place (some d) =
        clear_zone_slot filter w place d (get_elem? d.zones place.zone)

    -- The interface of the handlers, filled by the library.
    pub library : StatsLibrary ZonePlace ℕ (World Data Hw)
    unfolding views_at zone_views_at clear_at clear_zone_at
    library = record {
      domain_metrics = λ i w. (views_at (get_elem? w.domains i), w);
      zone_metrics = λ place w. (zone_views_at (get_elem? w.domains place.domain) place.zone, w);
      domain_clear = λ i filter w. clear_at filter w i (get_elem? w.domains i);
      zone_clear =
          λ place filter w. clear_zone_at filter w place (get_elem? w.domains place.domain);
    }

  module _ (re : RegexLibrary) (fuel : ℕ) (f : Filter) (domain zone : Text)
      (blk : StatsBlock Data Hw) (m : StatsMetric) where
    abbrev pub view_of : MetricSpec
    view_of = metric_view domain zone blk.name 0 0 m.spec (map (λ e. e.value) m.elements)

    abbrev bits_of : MetricSpec → Option BitArray
    bits_of = clear_setup re fuel f

    -- The positions that the filter of the request selects, where the metric may be cleared.
    abbrev pub clears : ℕ → Bool
    clears i =
        not (is_never_clear m.spec)
        && (ltb i (length m.elements) && selects re view_of.spec (clear_type view_of.type) f i)

    view-length : length view_of.spec.values ≡ length m.elements
    unfolding metric_view
    view-length = length-map (λ e. e.value) m.elements

    view-selects :
        length m.elements < fuel
        → 0 < length m.elements
        → SafeFilter (length m.elements) f
        → (valid : BitArray) × (clear_setup re fuel f view_of ≡ some valid)
          × ((n : ℕ)
              → clear_match valid n ≡ (
                  ltb n (length m.elements)
                  && selects re view_of.spec (clear_type view_of.type) f n))
    view-selects =
        subst
          (λ size.
            size < fuel
            → 0 < size
            → SafeFilter size f
            → (valid : BitArray) × (clear_setup re fuel f view_of ≡ some valid)
              × ((n : ℕ)
                  → clear_match valid n
                    ≡ (ltb n size && selects re view_of.spec (clear_type view_of.type) f n)))
          view-length
          (clear_setup-selects re fuel
            (record { metric_filter = some f; non_zero = false; with_labels = false }) f view_of)

    some-after :
        (o : Option Element) (convert : ℕ → ℕ) (c : Bool) (value : ℕ)
        → (and_then o λ e. some (update_element m.spec convert c value e))
          ≡ (and_then o λ e. some (after m.spec convert c value e))
    some-after none convert c value = refl
    some-after (some e) convert c value = ap some (update_element-after m.spec convert c value e)

    wants_clear-context :
        (never : Bool) (view : MetricSpec) (valid : BitArray) (n : ℕ)
        → wants_clear never (some (context_filter bits_of)) view n (some valid)
          ≡ (not never && clear_match valid n, some valid)
    unfolding wants_clear context_filter context_match
    wants_clear-context true view valid n = refl
    wants_clear-context false view valid n = refl

    -- A clearing with the filter of a request, on a metric with at least one value, where the values
    -- can be read and are fewer than the fuel and the slices of the filter stay within their integers:
    -- it ends; every element of the metric that the filter selects shows the initial value, unless the
    -- metric is never cleared; every other element shows what its own reading makes of it, by the type
    -- of the metric; and no bits are left behind for the next metric.
    pub update_metric-selects :
        (data_ : Data) (ctx : Context) (hw : Hw) (values : ℕ → ℕ) (data' : Data) (hw' : Hw)
        → read_values blk.driver m data_ hw ≡ some (values, data', hw')
        → length m.elements < fuel
        → 0 < length m.elements
        → SafeFilter (length m.elements) f
        → (es : List Element) × (update_metric domain zone
              (request_filter (some bits_of))
              blk
              m
              data_
              ctx
              hw
            ≡ some (record m { elements = es }, data', none, hw'))
          × ((i : ℕ)
              → get_elem? es i
                ≡ and_then (get_elem? m.elements i) λ e. some (
                    after m.spec
                      (λ u64. blk.driver.convert_metric m.spec u64 data')
                      (clears i)
                      (values i)
                      e))
    unfolding update_metric setup_filter teardown_filter context_filter request_filter
    update_metric-selects data_ ctx hw values data' hw' read enough some_value safe =
        let (valid, bits, matches) = view-selects enough some_value safe in
        let convert : ℕ → ℕ = λ u64. blk.driver.convert_metric m.spec u64 data' in
        let chosen : ℕ → Bool = λ n. not (is_never_clear m.spec) && clear_match valid n in
        let updated =
          update_elements m.spec (some (context_filter bits_of)) view_of convert values 0 m.elements
            (some valid) in
        (
          updated.0,
          rw (read, bits) refl,
          λ i.
              update_elements-each m.spec (some (context_filter bits_of)) view_of convert values
                (some valid) chosen
                (λ n. wants_clear-context (is_never_clear m.spec) view_of valid n) m.elements 0 i
              ∙ ap
                  (λ (t : ℕ).
                    and_then (get_elem? m.elements i)
                      λ e. some (update_element m.spec convert (chosen t) (values t) e))
                  {x = 0 + i} {y = i} (omega arith)
              ∙ ap
                  (λ (c : Bool). and_then (get_elem? m.elements i) λ e.
                    some (
                      update_element m.spec convert (not (is_never_clear m.spec) && c) (values i)
                        e))
                  (matches i)
              ∙ some-after (get_elem? m.elements i) convert (clears i) (values i),
        )
