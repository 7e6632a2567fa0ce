-- ===== src/Opennic/Metric.antt =====
-- Metrics of libopennic/src/stats.c: allocation, labels, reading of registers, and what an update
-- makes of a value. A `uint64_t` is a number below 2 ^ 64.
pub mod Counters
mod Tests
use Prim.Native.Nat.{bit_and}
use esnet_smartnic_fw.Base.{
  ℕ, zero, suc, ◌+◌, ◌-◌, ◌*◌, ◌/◌, ◌%◌, ◌^◌, Bool, true, false, not, ◌&&◌, ◌||◌, List, [], ◌∷◌,
  ◌++◌, map, Option, none, some, length, get_or, take, replicate, ltb, ◌==◌, if◌then◌else◌,
  and_then,
}
use esnet_smartnic_fw.Text.{Text, text}
use esnet_smartnic_fw.Filter.{Label, Value}
use esnet_smartnic_fw.Metrics.{SpecType}

abbrev pub u64_mod : ℕ
u64_mod = 2 ^ 64

-- stats_label_format_spec: the names that its pointers lead to, and the index
pub record LabelFormatSpec : Type 0 where
  pub domain : Text
  pub zone : Text
  pub block : Text
  pub metric : Text
  pub idx : ℕ

-- stats_label_spec, without what only Prometheus reads
pub record LabelSpec : Type 0 where
  pub key : Text
  pub value : Option Text
  pub value_alloc : Option (LabelFormatSpec → Text)

pub record MetricIo : Type 0 where
  pub offset : ℕ
  pub size : ℕ
  pub width : ℕ
  pub shift : ℕ
  pub invert : Bool

-- stats_metric_spec
pub record StatsMetricSpec : Type 0 where
  pub name : Text
  pub nelements : ℕ
  pub labels : List LabelSpec
  pub type : SpecType
  pub flags : ℕ
  pub init_value : ℕ
  pub io : MetricIo

-- STATS_METRIC_FLAG_TEST
abbrev pub flag_test : ℕ → ℕ → Bool
flag_test flags n = not (bit_and flags (2 ^ n) == 0)

unfoldable pub is_clear_on_read : StatsMetricSpec → Bool
is_clear_on_read spec = flag_test spec.flags 0

unfoldable pub is_never_clear : StatsMetricSpec → Bool
is_never_clear spec = flag_test spec.flags 1

unfoldable pub is_array : StatsMetricSpec → Bool
is_array spec = flag_test spec.flags 2

pub record Element : Type 0 where
  pub value : Value
  pub last : ℕ

pub record StatsMetric : Type 0 where
  pub spec : StatsMetricSpec
  pub elements : List Element
  pub mask : ℕ

-- `"%u"`
unfoldable pub decimal_digits : ℕ → ℕ → Text → Text
decimal_digits zero n acc = acc
decimal_digits (suc fuel) n acc =
    let acc' = (48 + n % 10) ∷ acc in
    let rest = decimal_digits fuel (n / 10) acc' in if n / 10 == 0 then acc' else rest

-- A number has fewer digits than its successor.
unfoldable pub label_value_index : LabelFormatSpec → Text
unfolding decimal_digits
label_value_index fspec = decimal_digits (suc fspec.idx) fspec.idx []

abbrev allocated : Text → (LabelFormatSpec → Text) → LabelSpec
allocated key value_alloc = record { key = key; value = none; value_alloc = some value_alloc }

unfoldable pub default_labels : List LabelSpec
default_labels =
    allocated (text "domain") (λ fspec. fspec.domain)
    ∷ allocated (text "zone") (λ fspec. fspec.zone)
    ∷ allocated (text "block") (λ fspec. fspec.block)
    ∷ []

unfoldable pub array_labels : List LabelSpec
unfolding label_value_index
array_labels = allocated (text "index") label_value_index ∷ []

-- The label table that the allocation puts together.
unfoldable pub all_labels : StatsMetricSpec → List LabelSpec
unfolding default_labels array_labels is_array
all_labels spec = default_labels ++ ((if is_array spec then array_labels else []) ++ spec.labels)

unfoldable pub label_text : LabelSpec → LabelFormatSpec → Text
label_text lspec fspec = elim lspec.value_alloc [
  | some value_alloc ↦ value_alloc fspec
  | none ↦ elim lspec.value [ some value ↦ value | none ↦ [] ]
]

-- `(1 << width) - 1` is an `int`: from 31 bits on the language does not define it.
unfoldable pub metric_mask : ℕ → Option ℕ
metric_mask width =
    if ltb 0 width then (if ltb width 31 then some (2 ^ width - 1) else none) else some 0

unfoldable pub element_alloc : StatsMetricSpec → Element
element_alloc spec = record {
  value = record { u64 = spec.init_value; f64 = 0; labels = [] };
  last = spec.init_value;
}

-- stats_metric_alloc; `none` where the process exits or the shift is not defined.
unfoldable pub metric_alloc : StatsMetricSpec → Option StatsMetric
unfolding is_array all_labels metric_mask element_alloc
metric_alloc spec =
    let nelements = if is_array spec then spec.nelements else 1 in
    if is_array spec && nelements == 0
    then none
    else and_then (metric_mask spec.io.width) λ mask. some (record {
      spec = record spec { labels = all_labels spec };
      elements = replicate nelements (element_alloc spec);
      mask = mask;
    })

-- The labels that attaching gives to element `n` and those after it.
unfoldable pub attach_elements :
    StatsMetricSpec → Text → Text → Text → ℕ → List Element → List Element
unfolding label_text
attach_elements spec domain zone block n [] = []
attach_elements spec domain zone block n (e ∷ es) =
    let fspec : LabelFormatSpec = record {
      domain = domain;
      zone = zone;
      block = block;
      metric = spec.name;
      idx = n;
    } in
    let labels = map (λ l. record { key = l.key; value = label_text l fspec }) spec.labels in
    record e { value = record { u64 = e.value.u64; f64 = e.value.f64; labels = labels } }
    ∷ attach_elements spec domain zone block (n + 1) es

unfoldable pub metric_attach : Text → Text → Text → StatsMetric → StatsMetric
unfolding attach_elements
metric_attach domain zone block m = record m {
  elements = attach_elements m.spec domain zone block 0 m.elements;
}

-- What a register of `io.size` bytes gives for a metric.
pub register_value : MetricIo → ℕ → ℕ → ℕ
register_value io mask raw =
    let value = if io.invert then u64_mod - 1 - raw else raw in
    if ltb 0 io.width then bit_and (value / 2 ^ io.shift) mask else value

abbrev pub is_register_size : ℕ → Bool
is_register_size size = size == 1 || size == 2 || size == 4 || size == 8

module _ {Hw : Type 0} (bus_read : ℕ → ℕ → Hw → ℕ × Hw) where
  -- The registers of `n` elements from an offset on.
  pub read_registers : MetricIo → ℕ → ℕ → ℕ → Hw → List ℕ × Hw
  unfolding register_value
  read_registers io mask zero offset hw = ([], hw)
  read_registers io mask (suc n) offset hw =
      let (raw, hw') = bus_read io.size offset hw in
      let (values, hw'') = read_registers io mask n (offset + io.size) hw' in
      (register_value io mask raw ∷ values, hw'')

  -- stats_metric_read; `none` where the process exits.
  unfoldable pub metric_read : StatsMetric → Hw → Option ((ℕ → ℕ) × Hw)
  unfolding read_registers
  metric_read m hw =
      if is_register_size m.spec.io.size
      then (let (values, hw') =
            read_registers m.spec.io m.mask (length m.elements) m.spec.io.offset hw in
          some ((λ n. get_or values n 0), hw'))
      else none

-- The switch of an update: what one element shows next, and its last reading.
unfoldable pub update_by_type : SpecType → Bool → ℕ → Bool → ℕ → ℕ → ℕ → ℕ × ℕ
update_by_type SpecType.counter clear_on_read init do_clear value u64 last =
    let diff = if clear_on_read then value else (value + u64_mod - last) % u64_mod in
    let last' = if clear_on_read then last else value in
    (if do_clear then init else (u64 + diff) % u64_mod, last')
update_by_type SpecType.flag clear_on_read init do_clear value u64 last =
    (if do_clear then init else if value == 0 then 0 else 1, last)
update_by_type SpecType.gauge clear_on_read init do_clear value u64 last =
    (if do_clear then init else value, last)
update_by_type (SpecType.other n) clear_on_read init do_clear value u64 last =
    (if do_clear then init else value, last)

unfoldable pub update_value : StatsMetricSpec → Bool → ℕ → ℕ → ℕ → ℕ × ℕ
unfolding is_clear_on_read update_by_type
update_value spec do_clear value u64 last =
    update_by_type spec.type (is_clear_on_read spec) spec.init_value do_clear value u64 last

unfoldable pub update_element : StatsMetricSpec → (ℕ → ℕ) → Bool → ℕ → Element → Element
unfolding update_value
update_element spec convert do_clear value e =
    let (u64, last) = update_value spec do_clear value e.value.u64 e.last in
    record { value = record { u64 = u64; f64 = convert u64; labels = e.value.labels }; last = last }

-- stats_metric_get_values: as many as there is room for.
unfoldable pub metric_get_values : StatsMetric → ℕ → List Value
metric_get_values m nvalues = map (λ e. e.value) (take nvalues m.elements)
