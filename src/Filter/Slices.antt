-- ===== src/Filter/Slices.antt =====
-- The positions that a slice selects, and when the loop over a slice ends.
use native.Mathlib.Nat.{mod-eq_of_lt, mod-eq-sub-mod}
use esnet_smartnic_fw.Base.{
  ℕ, zero, suc, ◌+◌, ◌-◌, ◌%◌, ◌^◌, ◌≡◌, ◌≤◌, ◌<◌, refl, ap, Bool, false, ◌&&◌, ◌||◌, List, [], ◌∷◌,
  Option, none, some, any, All, leb, ltb, ◌==◌, if◌then◌else◌, arith, Bool-cases, inl, inr,
}
use esnet_smartnic_fw.Base.Int.{ℤ, pos, negsuc}
use esnet_smartnic_fw.BitArray.{BitArray, set_bit}
use esnet_smartnic_fw.BitArray.Laws.{Represents, Represents-ext, set_bit-Represents}
use esnet_smartnic_fw.Filter.{
  Slice, slice_start, slice_end, slice_step, slice_loop, apply_range, apply_slice, slices_loop,
}

-- `n` is one of `start, start + step, ...` up to `last`.
abbrev pub in_range : ℕ → ℕ → ℕ → ℕ → Bool
in_range start last step n = leb start n && leb n last && (n - start) % step == 0

step_selects :
    (n last step m : ℕ)
    → 0 < step
    → n ≤ last
    → ((n == m) || in_range (n + step) last step m) ≡ in_range n last step m
step_selects n last step m some_step le = elim (Bool-cases (leb n m)) [
  | inr before ↦ ground arith
  | inl after ↦ elim (Bool-cases (ltb (m - n) step)) [
    | inl near ↦ let e : (m - n) % step ≡ m - n = mod-eq_of_lt (ground arith) in ground arith
    | inr far ↦
        let e : (m - n) % step ≡ (m - n - step) % step = mod-eq-sub-mod (ground arith) in
        let f : (m - (n + step)) % step ≡ (m - n - step) % step =
          ap (λ (t : ℕ). t % step) (omega arith) in
        ground arith
  ]
]

slice_loop-Represents :
    (fuel n last step size : ℕ) (a : BitArray) (b : ℕ → Bool)
    → 0 < step
    → last + step < 2 ^ 31
    → n ≤ last + step
    → last + 1 - n < fuel
    → Represents a size b
    → (r : BitArray) × (slice_loop fuel n last step a ≡ some r)
      × Represents r size (λ m. b m || in_range n last step m)
unfolding slice_loop
slice_loop-Represents zero n last step size a b p w h e r = absurd (omega arith)
slice_loop-Represents (suc fuel) n last step size a b p w h e r = elim (Bool-cases (leb n last)) [
  | inl go ↦
      let (a', run, rep) =
        slice_loop-Represents fuel (n + step) last step size (set_bit a n) _ p w (ground arith)
          (ground arith) (set_bit-Represents a size b n r) in
      let wrap : (n + step) % 2 ^ 32 ≡ n + step = mod-eq_of_lt (ground arith) in
      (
        a',
        rw wrap (ground (arith, run)),
        Represents-ext a' size _ _ rep (λ m lt. ground (arith, step_selects n last step m)),
      )
  | inr stop ↦ (a, ground arith, Represents-ext a size b _ r (λ m lt. ground arith))
]

-- The positions of one round of the loop over the slices, once its variables are known.
slice_range : ℕ → ℕ → ℕ → Option ℕ → ℕ → Bool
slice_range size start step none n = false
slice_range size start step (some last) n = ltb n size && in_range start last step n

-- What a slice means. Its first position: a negative one, `-(k + 1)`, counts from the end, and is 0
-- where that is before the beginning.
pub first : ℕ → ℤ → ℕ
first size (pos k) = k
first size (negsuc k) = size - suc k

-- Whether a position is not after the end of the slice: `n ≤ size - (k + 1)` for a negative one.
pub is_within : ℕ → ℤ → ℕ → Bool
is_within size (pos k) n = leb n k
is_within size (negsuc k) n = ltb (n + k) size

-- The distance of two positions; a step of 0 means 1.
pub stride : ℕ → ℕ
stride zero = 1
stride (suc k) = suc k

-- The positions of an array of `size` values that a slice selects.
pub slice_selects : ℕ → Slice → ℕ → Bool
unfolding first is_within stride
slice_selects size s n =
    ltb n size
    && leb (first size s.start) n
    && is_within size s.end n
    && (n - first size s.start) % stride s.step == 0

slice_start-first : (size : ℕ) (start : ℤ) → slice_start size start ≡ first size start
unfolding slice_start first
slice_start-first size (pos k) = refl
slice_start-first size (negsuc k) = ground arith

slice_step-stride : (step : ℕ) → slice_step step ≡ stride step
unfolding slice_step stride
slice_step-stride zero = refl
slice_step-stride (suc k) = ground arith

range-selects :
    (size start step : ℕ) (end : ℤ) (n : ℕ)
    → slice_range size start step (slice_end size end) n
      ≡ (ltb n size && leb start n && is_within size end n && (n - start) % step == 0)
unfolding slice_range slice_end is_within
range-selects size start step (pos k) n = ground arith
range-selects size start step (negsuc k) n = elim (Bool-cases (ltb k size)) [
  | inl inside ↦ ground arith
  | inr outside ↦ ground arith
]

slice_range-selects :
    (size : ℕ) (s : Slice) (n : ℕ)
    → slice_range size (slice_start size s.start) (slice_step s.step) (slice_end size s.end) n
      ≡ slice_selects size s n
unfolding slice_selects
slice_range-selects size s n =
    rw (slice_start-first size s.start, slice_step-stride s.step)
      (range-selects size (first size s.start) (stride s.step) s.end n)

-- A step that keeps the loop variable within `int32`.
abbrev pub SafeStep : ℕ → Slice → Type 0
SafeStep size s = size + slice_step s.step ≤ 2 ^ 31

apply_range-Represents :
    (fuel size start step : ℕ) (end : Option ℕ) (a : BitArray) (b : ℕ → Bool)
    → size < fuel
    → 0 < step
    → size + step ≤ 2 ^ 31
    → Represents a size b
    → (r : BitArray) × (apply_range fuel size start end step a ≡ some r)
      × Represents r size (λ m. b m || slice_range size start step end m)
unfolding apply_range slice_range
apply_range-Represents fuel size start step none a b h p safe r =
    (a, ground arith, Represents-ext a size b _ r (λ m lt. ground arith))
apply_range-Represents fuel size start step (some end) a b h p safe r =
    elim (Bool-cases (leb size start || ltb last start)) [
      | inl empty ↦ (a, ground arith, Represents-ext a size b _ r (λ m lt. ground arith))
      | inr some_values ↦
          let (a', run, rep) =
            slice_loop-Represents fuel start last step size a b p (ground arith) (ground arith)
              (ground arith) r in
          (a', ground (arith, run), Represents-ext a' size _ _ rep (λ m lt. ground arith))
    ]
  where
    last : ℕ
    last = if leb size end then size - 1 else end

pub apply_slice-Represents :
    (fuel size : ℕ) (s : Slice) (a : BitArray) (b : ℕ → Bool)
    → size < fuel
    → SafeStep size s
    → Represents a size b
    → (r : BitArray) × (apply_slice fuel size s a ≡ some r)
      × Represents r size (λ m. b m || slice_selects size s m)
unfolding apply_slice slice_step
apply_slice-Represents fuel size s a b h safe r =
    let (a', run, rep) =
      apply_range-Represents fuel size (slice_start size s.start) (slice_step s.step)
        (slice_end size s.end) a b h (ground arith) safe r in
    (
      a',
      run,
      Represents-ext a' size _ _ rep (λ m lt. ap (λ c. b m || c) (slice_range-selects size s m)),
    )

-- If the fuel exceeds the size and no step takes the loop variable out of `int32`, then the loop over
-- the slices ends, and to the array of `b` it adds exactly the positions that some slice selects.
pub slices_loop-Represents :
    (fuel size : ℕ) (slices : List Slice) (a : BitArray) (b : ℕ → Bool)
    → size < fuel
    → All (SafeStep size) slices
    → Represents a size b
    → (r : BitArray) × (slices_loop fuel size slices a ≡ some r)
      × Represents r size (λ m. b m || any (λ s. slice_selects size s m) slices)
unfolding slices_loop
slices_loop-Represents fuel size [] a b h safe r =
    (a, refl, Represents-ext a size b _ r (λ m lt. ground arith))
slices_loop-Represents fuel size (s ∷ slices) a b h safe r =
    let (a', run, rep) = apply_slice-Represents fuel size s a b h safe.0 r in
    let (a'', runs, reps) = slices_loop-Represents fuel size slices a' _ h safe.1 rep in
    (a'', ground (arith, run, runs), Represents-ext a'' size _ _ reps (λ m lt. ground arith))

-- With a step of 2 ^ 31 and an end within `int32`, the loop variable of a slice goes back and forth
-- between its start and a negative number: whatever the fuel, the loop does not end.
pub slice_loop_hangs :
    (fuel n last : ℕ) (a : BitArray)
    → n ≤ last
    → last < 2 ^ 31
    → slice_loop fuel n last (2 ^ 31) a ≡ none
unfolding slice_loop
slice_loop_hangs zero n last a h k = refl
slice_loop_hangs (suc zero) n last a h k = ground arith
slice_loop_hangs (suc (suc fuel)) n last a h k =
    let up : (n + 2 ^ 31) % 2 ^ 32 ≡ n + 2 ^ 31 = omega arith in
    let down : (n + 2 ^ 31 + 2 ^ 31) % 2 ^ 32 ≡ n = omega arith in
    rw (up, down)
      (ground (arith, slice_loop_hangs fuel n last (set_bit (set_bit a n) (n + 2 ^ 31)) h k))
