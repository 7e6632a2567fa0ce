-- ===== src/Opennic/Block/Clearing.antt =====
-- Which elements of a metric an update clears.
use esnet_smartnic_fw.Base.{
  ℕ, zero, suc, ◌+◌, ◌≡◌, refl, ap, ◌∙◌, Bool, true, false, List, [], ◌∷◌, Option, some, get_elem?,
  and_then, arith, All, map,
}
use esnet_smartnic_fw.Text.{Text}
use esnet_smartnic_fw.Metrics.{SpecType, MetricSpec}
use esnet_smartnic_fw.Opennic.Metric.{
  StatsMetricSpec, StatsMetric, Element, is_clear_on_read, is_never_clear, update_by_type,
  update_value, update_element,
}
use esnet_smartnic_fw.Opennic.Block.{
  StatsBlock, ClearFilter, clear_all, metric_view, setup_filter, teardown_filter, wants_clear,
  update_elements, update_metric,
}
use esnet_smartnic_fw.Opennic.Block.Updates.{Readable, read_values-Readable}

module _ {Arg : Type 0} (spec : StatsMetricSpec) (filter : Option (ClearFilter Arg))
    (view : MetricSpec) (convert values : ℕ → ℕ) (arg : Arg) (selected : ℕ → Bool)
    (pure_match : (n : ℕ)
      → wants_clear (is_never_clear spec) filter view n arg ≡ (selected n, arg)) where
  -- Every element is updated with its own value, and cleared where it is selected.
  pub update_elements-each :
      (es : List Element) (n i : ℕ)
      → get_elem? (update_elements spec filter view convert values n es arg).0 i
        ≡ and_then
            (get_elem? es i)
            λ e. some (update_element spec convert (selected (n + i)) (values (n + i)) e)
  unfolding update_elements
  update_elements-each [] n i = refl
  update_elements-each (e ∷ es) n zero = rw (pure_match n) (
      ap (λ (t : ℕ). some (update_element spec convert (selected t) (values t) e)) {x = n}
        {y = n + 0} (omega arith))
  update_elements-each (e ∷ es) n (suc i) = rw (pure_match n) (
      update_elements-each es (n + 1) i
      ∙ ap
          (λ (t : ℕ).
            and_then (get_elem? es i)
              λ e'. some (update_element spec convert (selected t) (values t) e'))
          {x = n + 1 + i} {y = n + suc i} (omega arith))

  pub update_elements_arg :
      (es : List Element) (n : ℕ)
      → (update_elements spec filter view convert values n es arg).1 ≡ arg
  unfolding update_elements
  update_elements_arg [] n = refl
  update_elements_arg (e ∷ es) n = rw (pure_match n) (update_elements_arg es (n + 1))

-- The elements of a metric that may be cleared all show the initial value.
abbrev pub IsCleared : StatsMetric → Type 0
IsCleared m = is_never_clear m.spec ≡ false → All (λ e. e.value.u64 ≡ m.spec.init_value) m.elements

update_by_type-clear :
    (t : SpecType) (read : Bool) (init value u64 last : ℕ)
    → (update_by_type t read init true value u64 last).0 ≡ init
unfolding update_by_type
update_by_type-clear SpecType.counter read init value u64 last = refl
update_by_type-clear SpecType.flag read init value u64 last = refl
update_by_type-clear SpecType.gauge read init value u64 last = refl
update_by_type-clear (SpecType.other n) read init value u64 last = refl

pub update_value-clear :
    (spec : StatsMetricSpec) (value u64 last : ℕ)
    → (update_value spec true value u64 last).0 ≡ spec.init_value
unfolding update_value
update_value-clear spec value u64 last =
    update_by_type-clear spec.type (is_clear_on_read spec) spec.init_value value u64 last

module _ {Arg : Type 0} (spec : StatsMetricSpec) (view : MetricSpec) (convert values : ℕ → ℕ)
    (arg : Arg) where
  update_elements-clear_all :
      (es : List Element) (n : ℕ)
      → is_never_clear spec ≡ false
      → All
          (λ e. e.value.u64 ≡ spec.init_value)
          (update_elements spec (some clear_all) view convert values n es arg).0
  unfolding update_elements wants_clear update_element
  update_elements-clear_all [] n h = tt
  update_elements-clear_all (e ∷ es) n h = rw h (
    update_value-clear spec (values n) e.value.u64 e.last,
    update_elements-clear_all es (n + 1) h,
  )

module _ {Data Hw Arg : Type 0} (domain zone : Text) where
  -- Clearing all is done to each metric that can be read.
  pub update_metric-clear_all :
      (blk : StatsBlock Data Hw) (m : StatsMetric) (data_ : Data) (arg : Arg) (hw : Hw)
      → Readable blk.driver m
      → (m' : StatsMetric) × (data' : Data) × (arg' : Arg) × (hw' : Hw) × (update_metric domain zone
            (some clear_all)
            blk
            m
            data_
            arg
            hw
          ≡ some (m', data', arg', hw'))
        × ((m'.spec ≡ m.spec) × IsCleared m')
  unfolding update_metric setup_filter teardown_filter
  update_metric-clear_all blk m data_ arg hw h =
      let (values, data', hw', e) = read_values-Readable blk.driver m data_ hw h in
      let view = metric_view domain zone blk.name 0 0 m.spec (map (λ x. x.value) m.elements) in
      let convert : ℕ → ℕ = λ u64. blk.driver.convert_metric m.spec u64 data' in
      let updated = update_elements m.spec (some clear_all) view convert values 0 m.elements arg in
      (
        record m { elements = updated.0 },
        data',
        updated.1,
        hw',
        rw e refl,
        (
          refl,
          λ clears. update_elements-clear_all m.spec view convert values arg m.elements 0 clears,
        ),
      )
