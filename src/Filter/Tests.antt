-- ===== src/Filter/Tests.antt =====
-- The index slices at concrete arrays.
use esnet_smartnic_fw.Base.{◌≡◌, ◌^◌, false, ◌||◌, List, [], ◌∷◌, any, none, some, arith}
use esnet_smartnic_fw.Base.Int.{pos, negsuc}
use esnet_smartnic_fw.BitArray.{BitArray, bit_array}
use esnet_smartnic_fw.BitArray.Laws.{Represents, bit_array-Represents}
use esnet_smartnic_fw.Filter.{Slice, slice_loop, slices_loop, slice_step}
use esnet_smartnic_fw.Filter.Slices.{
  slice_selects, SafeStep, slices_loop-Represents, slice_loop_hangs,
}

-- [1:-2:2] and [-3:-1:0], the step 0 being 1
abbrev two_slices : List Slice
two_slices =
    record { start = pos 1; end = negsuc 1; step = 2 }
    ∷ record { start = negsuc 2; end = negsuc 0; step = 0 }
    ∷ []

two_slices-Safe :
    SafeStep 10 (record { start = pos 1; end = negsuc 1; step = 2 })
    × SafeStep 10 (record { start = negsuc 2; end = negsuc 0; step = 0 })
unfolding slice_step
two_slices-Safe = (omega arith, omega arith)

slices_loop-Represents_example :
    (r : BitArray) × (slices_loop 11 10 two_slices (bit_array 10) ≡ some r)
    × Represents r 10 (λ m. false || any (λ s. slice_selects 10 s m) two_slices)
slices_loop-Represents_example =
    slices_loop-Represents 11 10 two_slices (bit_array 10) (λ m. false) (omega arith)
      (two_slices-Safe.0, (two_slices-Safe.1, tt)) (bit_array-Represents 10 (omega arith))

slice_loop_hangs_example : slice_loop 1000 0 9 (2 ^ 31) (bit_array 10) ≡ none
slice_loop_hangs_example = slice_loop_hangs 1000 0 9 (bit_array 10) (omega arith) (omega arith)
