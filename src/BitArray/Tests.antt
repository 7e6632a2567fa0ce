-- ===== src/BitArray/Tests.antt =====
-- The arrays at concrete sizes: 70 bits are two words, the second of which is cut.
use esnet_smartnic_fw.Base.{true, false, not, arith}
use esnet_smartnic_fw.BitArray.{BitArray, bit_array, set_all, negate_all}
use esnet_smartnic_fw.BitArray.Laws.{
  Represents, bit_array-Represents, set_all-Represents, negate_all-Represents,
}

abbrev cleared : BitArray
cleared = bit_array 70

cleared-Represents : Represents cleared 70 (λ m. false)
cleared-Represents = bit_array-Represents 70 (omega arith)

abbrev all_ones : BitArray
all_ones = set_all cleared

all_ones-Represents : Represents all_ones 70 (λ m. true)
all_ones-Represents = set_all-Represents cleared 70 (λ m. false) cleared-Represents

negate_all-Represents_example : Represents (negate_all cleared) 70 (λ m. not false)
negate_all-Represents_example = negate_all-Represents cleared 70 (λ m. false) cleared-Represents
