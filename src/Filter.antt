-- ===== src/Filter.antt =====
-- The statistics filters of sn-p4/src/agent/stats.cpp (and sn-cfg's copy): which values of a metric
-- a request selects. The functions apply_metric_filter* and apply_filters, over the messages
-- StatsMetricFilter and StatsFilters.
pub mod Slices
mod Tests
pub mod Meaning
pub mod Laws
pub mod Requests
use esnet_smartnic_fw.Base.{
  ℕ, zero, suc, ◌+◌, ◌-◌, ◌%◌, ◌^◌, Bool, true, false, not, ◌&&◌, ◌||◌, List, [], ◌∷◌, Option, none,
  some, length, any, leb, ltb, ◌==◌, if◌then◌else◌,
}
use esnet_smartnic_fw.Base.Int.{ℤ, pos, negsuc}
use esnet_smartnic_fw.Text.{Text}
use esnet_smartnic_fw.MatchString.{RegexLibrary, MatchString, match_string}
use esnet_smartnic_fw.BitArray.{
  BitArray, bit_array, is_all_set, is_all_cleared, set_bit, assign_bit, set_all, clear_all,
  negate_all, assign_all, and_assign, or_assign,
}

-- StatsMetricType; `other` is a number that the enumeration does not name.
pub data MetricType : Type 0 where
  unknown counter gauge flag : MetricType
  other : ℕ → MetricType

pub metric_type_number : MetricType → ℕ
metric_type_number MetricType.unknown = 0
metric_type_number MetricType.counter = 1
metric_type_number MetricType.gauge = 2
metric_type_number MetricType.flag = 3
metric_type_number (MetricType.other n) = n

-- `int32` bounds and the range of `uint32`
abbrev pub int_min_bits : ℕ
int_min_bits = 2 ^ 31

abbrev pub uint_mod : ℕ
uint_mod = 2 ^ 32

pub record Label : Type 0 where
  pub key : Text
  pub value : Text

-- stats_metric_value; `f64` is the bit pattern of the double, which is only copied.
pub record Value : Type 0 where
  pub u64 : ℕ
  pub f64 : ℕ
  pub labels : List Label

-- stats_for_each_spec, with the names that its pointers lead to. `nvalues` is the length of
-- `values`, and `is_array` the flag STATS_METRIC_FLAG ARRAY.
pub record ForEachSpec : Type 0 where
  pub domain : Text
  pub zone : Text
  pub block : Text
  pub name : Text
  pub is_array : Bool
  pub nelements : ℕ
  pub values : List Value
  pub seconds : ℕ
  pub nanos : ℕ

pub record Slice : Type 0 where
  pub start : ℤ
  pub end : ℤ
  pub step : ℕ

pub record MatchLabel : Type 0 where
  pub key : Option MatchString
  pub value : Option MatchString

pub data MetricMatch : Type 0 where
  type : MetricType → MetricMatch
  domain zone block name : MatchString → MetricMatch
  indices : List Slice → MetricMatch
  label : MatchLabel → MetricMatch
  attribute_not_set : MetricMatch

mutual
  pub data Filter : Type 0 where
    filter : (negated : Bool) → FilterTerm → Filter

  pub data FilterTerm : Type 0 where
    match : MetricMatch → FilterTerm
    any_set all_set : Filters → FilterTerm
    term_not_set : FilterTerm

  pub data Filters : Type 0 where
    nil : Filters
    cons : Filter → Filters → Filters

pub members_size : Filters → ℕ
members_size nil = 0
members_size (cons m ms) = suc (members_size ms)

-- `start`, once the negative values have been counted from the end
pub slice_start : ℕ → ℤ → ℕ
slice_start size (pos n) = n
slice_start size (negsuc n) = if ltb n size then size - suc n else 0

-- `end`; `none` is the empty range.
pub slice_end : ℕ → ℤ → Option ℕ
slice_end size (pos n) = some n
slice_end size (negsuc n) = if ltb n size then some (size - suc n) else none

pub slice_step : ℕ → ℕ
slice_step step = if ltb step 1 then 1 else step

-- `n <= end` of two `int32`, for `n` by its bit pattern and an `end` that is not negative
pub int_le : ℕ → ℕ → Bool
int_le n last = leb int_min_bits n || leb n last

-- `for (auto n = start; n <= end; n += step) valid.set_bit(n);`, where `n` is an `int32` and `step`
-- a `uint32`: the sum wraps around. `none` means that the fuel ran out before the loop ended.
pub slice_loop : ℕ → ℕ → ℕ → ℕ → BitArray → Option BitArray
unfolding int_le
slice_loop zero n last step valid = none
slice_loop (suc fuel) n last step valid =
    let rest = slice_loop fuel ((n + step) % uint_mod) last step (set_bit valid n) in
    if int_le n last then rest else some valid

-- One round of the loop over the slices, once `start`, `end` and `step` are known; the early
-- returns are its `continue`s.
pub apply_range : ℕ → ℕ → ℕ → Option ℕ → ℕ → BitArray → Option BitArray
apply_range fuel size start end step valid = if leb size start then some valid else elim end [
  | none ↦ some valid
  | some e ↦
      let last = if leb size e then size - 1 else e in
      if ltb last start then some valid else slice_loop fuel start last step valid
]

pub apply_slice : ℕ → ℕ → Slice → BitArray → Option BitArray
unfolding slice_start slice_end slice_step apply_range
apply_slice fuel size s valid =
    apply_range fuel size (slice_start size s.start) (slice_end size s.end) (slice_step s.step)
      valid

pub slices_loop : ℕ → ℕ → List Slice → BitArray → Option BitArray
slices_loop fuel size [] valid = some valid
slices_loop fuel size (s ∷ slices) valid = elim (apply_slice fuel size s valid) [
  | none ↦ none
  | some valid' ↦ slices_loop fuel size slices valid'
]

pub apply_match_indices : ℕ → List Slice → ForEachSpec → BitArray → Option BitArray
unfolding slices_loop
apply_match_indices fuel slices spec valid =
    if not spec.is_array
    then some (assign_all valid (ltb (length slices) 1))
    else slices_loop fuel valid.nbits slices valid

-- Bits start out as the test `value != 0`, if the request asks for it.
pub non_zero_loop : Bool → List Value → ℕ → BitArray → BitArray
non_zero_loop non_zero [] n valid = valid
non_zero_loop non_zero (v ∷ values) n valid =
    non_zero_loop non_zero values (n + 1) (assign_bit valid n (not non_zero || not (v.u64 == 0)))

-- StatsFilters, without the deprecated field
pub record StatsFilters : Type 0 where
  pub non_zero : Bool
  pub metric_filter : Option Filter
  pub with_labels : Bool

module _ (re : RegexLibrary) where
  -- A missing match is a wildcard.
  pub wildcard : Option MatchString → Text → Bool
  wildcard none s = true
  wildcard (some m) s = match_string re m s

  pub label_matches : MatchLabel → Label → Bool
  unfolding wildcard
  label_matches l vl = wildcard l.key vl.key && wildcard l.value vl.value

  -- The loop over the values, from index `n` on; the loop over the labels ends at the first match.
  pub apply_match_label : MatchLabel → List Value → ℕ → BitArray → BitArray
  apply_match_label l [] n valid = valid
  apply_match_label l (v ∷ values) n valid =
      apply_match_label l values (n + 1)
        (if any (label_matches l) v.labels then assign_bit valid n true else valid)

  pub apply_match : ℕ → ForEachSpec → MetricMatch → MetricType → BitArray → Option BitArray
  apply_match fuel spec (type t) ty valid =
      some (assign_all valid (metric_type_number t == metric_type_number ty))
  apply_match fuel spec (domain m) ty valid =
      some (assign_all valid (match_string re m spec.domain))
  apply_match fuel spec (zone m) ty valid = some (assign_all valid (match_string re m spec.zone))
  apply_match fuel spec (block m) ty valid = some (assign_all valid (match_string re m spec.block))
  apply_match fuel spec (name m) ty valid = some (assign_all valid (match_string re m spec.name))
  apply_match fuel spec (indices slices) ty valid = apply_match_indices fuel slices spec valid
  apply_match fuel spec (label l) ty valid = some (apply_match_label l spec.values 0 valid)
  apply_match fuel spec attribute_not_set ty valid = some (assign_all valid true)

  mutual
    pub apply_filter : ℕ → ForEachSpec → Filter → MetricType → BitArray → Option BitArray
    apply_filter fuel spec (filter negated t) ty valid = elim (apply_term fuel spec t ty valid) [
      | none ↦ none
      | some valid' ↦ some (if negated then negate_all valid' else valid')
    ]

    pub apply_term : ℕ → ForEachSpec → FilterTerm → MetricType → BitArray → Option BitArray
    apply_term fuel spec (match m) ty valid = apply_match fuel spec m ty valid
    apply_term fuel spec (any_set ms) ty valid =
        let loop = any_loop fuel spec ms ty (bit_array valid.nbits) valid in
        if ltb (members_size ms) 1 then some (set_all valid) else loop
    apply_term fuel spec (all_set ms) ty valid =
        let loop = all_loop fuel spec ms ty (bit_array valid.nbits) (set_all valid) in
        if ltb (members_size ms) 1 then some (set_all valid) else loop
    apply_term fuel spec term_not_set ty valid = some (set_all valid)

    -- The loops over the members; `v` is their scratch array, cleared for each round.
    pub any_loop : ℕ → ForEachSpec → Filters → MetricType → BitArray → BitArray → Option BitArray
    any_loop fuel spec nil ty v valid = some valid
    any_loop fuel spec (cons m ms) ty v valid = elim (apply_filter fuel spec m ty v) [
      | none ↦ none
      | some v' ↦ elim (or_assign valid v') [
        | none ↦ none
        | some valid' ↦
            let rest = any_loop fuel spec ms ty (clear_all v') valid' in
            if is_all_set valid' then some valid' else rest
      ]
    ]

    pub all_loop : ℕ → ForEachSpec → Filters → MetricType → BitArray → BitArray → Option BitArray
    all_loop fuel spec nil ty v valid = some valid
    all_loop fuel spec (cons m ms) ty v valid = elim (apply_filter fuel spec m ty v) [
      | none ↦ none
      | some v' ↦ elim (and_assign valid v') [
        | none ↦ none
        | some valid' ↦
            let rest = all_loop fuel spec ms ty (clear_all v') valid' in
            if is_all_cleared valid' then some valid' else rest
      ]
    ]

  -- What is left once the test on zero has left some bit set.
  pub apply_metric_filter :
      ℕ → ForEachSpec → Option Filter → MetricType → BitArray → Option BitArray
  unfolding apply_filter
  apply_metric_filter fuel spec none ty valid = some valid
  apply_metric_filter fuel spec (some f) ty valid =
      elim (apply_filter fuel spec f ty (bit_array valid.nbits)) [
        | none ↦ none
        | some v ↦ and_assign valid v
      ]

  pub apply_filters : ℕ → ForEachSpec → StatsFilters → MetricType → BitArray → Option BitArray
  unfolding non_zero_loop apply_metric_filter
  apply_filters fuel spec filters ty valid =
      let valid' = non_zero_loop filters.non_zero spec.values 0 valid in
      if is_all_cleared valid'
      then some valid'
      else apply_metric_filter fuel spec filters.metric_filter ty valid'
