-- ===== src/Opennic/Metric/Counters.antt =====
-- What a counter shows after any number of updates and clearings.
use esnet_smartnic_fw.Base.{
  ℕ, ◌+◌, ◌-◌, ◌%◌, ◌≤◌, ◌<◌, ◌≡◌, refl, ap, ◌∙◌, Bool, true, false, List, [], ◌∷◌, if◌then◌else◌,
  arith, inl, inr, Bool-cases,
}
use esnet_smartnic_fw.Metrics.{SpecType}
use esnet_smartnic_fw.Opennic.Metric.{u64_mod, StatsMetricSpec, is_clear_on_read, update_value}

-- An update with a reading of the register, and whether it clears.
pub record Round : Type 0 where
  pub do_clear : Bool
  pub reading : ℕ

-- The number shown and the last reading, after rounds of updates.
pub run_rounds : StatsMetricSpec → List Round → ℕ → ℕ → ℕ × ℕ
run_rounds spec [] u64 last = (u64, last)
run_rounds spec (r ∷ rs) u64 last =
    let (u64', last') = update_value spec r.do_clear r.reading u64 last in
    run_rounds spec rs u64' last'

-- What the hardware has counted in all at each update, and whether the update clears.
pub record Moment : Type 0 where
  pub do_clear : Bool
  pub count : ℕ

-- The register shows the count in 64 bits.
pub readings : List Moment → List Round
readings [] = []
readings (m ∷ ms) = record { do_clear = m.do_clear; reading = m.count % u64_mod } ∷ readings ms

-- The counts do not fall, from `now` on.
abbrev pub Rising : ℕ → List Moment → Type 0
Rising now [] = Unit
Rising now (m ∷ ms) = (now ≤ m.count) × Rising m.count ms

-- What should be shown: `base`, and what was counted since the count `from`; a clearing starts anew
-- from its own count with the initial value.
abbrev pub shown : ℕ → ℕ → ℕ → ℕ → List Moment → ℕ
shown init base from now [] = base + (now - from)
shown init base from now (m ∷ ms) =
    if m.do_clear then shown init init m.count m.count ms else shown init base from m.count ms

abbrev pub last_count : ℕ → List Moment → ℕ
last_count now [] = now
last_count now (m ∷ ms) = last_count m.count ms

-- What should be shown of a register that reading clears: the readings since the clearing.
abbrev pub added : ℕ → ℕ → List Round → ℕ
added init base [] = base
added init base (r ∷ rs) =
    if r.do_clear then added init init rs else added init (base + r.reading) rs

module _ (spec : StatsMetricSpec) (counter : spec.type ≡ SpecType.counter) where
  update_counter :
      (do_clear : Bool) (value u64 last : ℕ)
      → is_clear_on_read spec ≡ false
      → update_value spec do_clear value u64 last ≡ (
        if do_clear then spec.init_value else (u64 + (value + u64_mod - last) % u64_mod) % u64_mod,
        value,
      )
  unfolding update_value
  update_counter do_clear value u64 last e = rw (counter, e) refl

  update_counter_read :
      (do_clear : Bool) (value u64 last : ℕ)
      → is_clear_on_read spec ≡ true
      → update_value spec do_clear value u64 last
        ≡ (if do_clear then spec.init_value else (u64 + value) % u64_mod, last)
  unfolding update_value
  update_counter_read do_clear value u64 last e = rw (counter, e) refl

  module _ (init_small : spec.init_value < u64_mod) where
    -- A counter whose register only counts, and does not fall in all, shows its base and what was
    -- counted since the last clearing, modulo 2 ^ 64, however often the register wraps between the
    -- updates; and it keeps the last reading.
    pub run_rounds-shown :
        is_clear_on_read spec ≡ false
        → (ms : List Moment) (base from now : ℕ) → from ≤ now
        → Rising now ms
        → run_rounds spec (readings ms) ((base + (now - from)) % u64_mod) (now % u64_mod)
          ≡ (shown spec.init_value base from now ms % u64_mod, last_count now ms % u64_mod)
    unfolding run_rounds readings
    run_rounds-shown keeps [] base from now le rising = refl
    run_rounds-shown keeps (m ∷ ms) base from now le (up, rising) =
        ap (λ (q : ℕ × ℕ). run_rounds spec (readings ms) q.0 q.1)
          (update_counter m.do_clear (m.count % u64_mod) ((base + (now - from)) % u64_mod)
            (now % u64_mod) keeps)
        ∙ elim (Bool-cases m.do_clear) [
          | inl clears ↦ rw clears (
              ap (λ (t : ℕ). run_rounds spec (readings ms) t (m.count % u64_mod))
                {x = spec.init_value} {y = (spec.init_value + (m.count - m.count)) % u64_mod}
                (omega arith)
              ∙ run_rounds-shown keeps ms spec.init_value m.count m.count (omega arith) rising)
          | inr goes_on ↦ rw goes_on (
              ap (λ (t : ℕ). run_rounds spec (readings ms) t (m.count % u64_mod)) (omega arith)
              ∙ run_rounds-shown keeps ms base from m.count (omega arith) rising)
        ]

    -- A counter whose register is cleared by reading shows its base and the sum of the readings since
    -- the last clearing, modulo 2 ^ 64.
    pub run_rounds-added :
        is_clear_on_read spec ≡ true
        → (rs : List Round) (base last : ℕ)
        → run_rounds spec rs (base % u64_mod) last ≡ (added spec.init_value base rs % u64_mod, last)
    unfolding run_rounds
    run_rounds-added reads [] base last = refl
    run_rounds-added reads (r ∷ rs) base last =
        ap (λ (q : ℕ × ℕ). run_rounds spec rs q.0 q.1)
          (update_counter_read r.do_clear r.reading (base % u64_mod) last reads)
        ∙ elim (Bool-cases r.do_clear) [
          | inl clears ↦ rw clears (
              ap (λ (t : ℕ). run_rounds spec rs t last) {x = spec.init_value}
                {y = spec.init_value % u64_mod} (omega arith)
              ∙ run_rounds-added reads rs spec.init_value last)
          | inr goes_on ↦ rw goes_on (
              ap (λ (t : ℕ). run_rounds spec rs t last) {x = (base % u64_mod + r.reading) % u64_mod}
                {y = (base + r.reading) % u64_mod} (omega arith)
              ∙ run_rounds-added reads rs (base + r.reading) last)
        ]
