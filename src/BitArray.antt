-- ===== src/BitArray.antt =====
-- The class BitArray of sn-p4/src/agent/stats.cpp (the same text stands in sn-cfg/src/agent/stats.cpp):
-- the validity of each value of a metric, one bit to a value, in 64-bit words.
pub mod Words
pub mod Whole
pub mod Laws
mod Tests
use Prim.Native.Nat.{bit_and, bit_or, bit_xor}
use esnet_smartnic_fw.Base.{
  ℕ, zero, suc, ◌+◌, ◌-◌, ◌/◌, ◌%◌, ◌^◌, Bool, true, false, not, ◌&&◌, List, [], ◌∷◌, Option, none,
  some, map, length, get_or, set, replicate, ltb, ◌==◌, if◌then◌else◌,
}

-- NBITS_PER_WORD
abbrev pub nbits_per_word : ℕ
nbits_per_word = 64

-- FULL_MASK, `~((Word)0)`
abbrev pub full_mask : ℕ
full_mask = 2 ^ 64 - 1

-- `(Word)1 << p`, for `p` below 64
abbrev pub bit_mask : ℕ → ℕ
bit_mask p = 2 ^ p

-- `~x` of a word
abbrev pub word_not : ℕ → ℕ
word_not x = 2 ^ 64 - 1 - x

-- `_nwords` is the length of `words`.
pub record BitArray : Type 0 where
  pub nbits : ℕ
  pub words : List ℕ
  pub upper_mask : ℕ

pub nwords_of : ℕ → ℕ
nwords_of nbits =
    if ltb nbits_per_word nbits then (nbits + nbits_per_word - 1) / nbits_per_word else 1

pub upper_mask_of : ℕ → ℕ
upper_mask_of nbits =
    if ltb 0 (nbits % nbits_per_word) then bit_mask (nbits % nbits_per_word) - 1 else full_mask

pub clear_all : BitArray → BitArray
clear_all a = record a { words = map (λ w. 0) a.words }

-- The constructor. The words of `new Word[_nwords]` have no value before `clear_all`.
pub bit_array : ℕ → BitArray
unfolding nwords_of upper_mask_of clear_all
bit_array nbits = clear_all (record {
  nbits = nbits;
  words = replicate (nwords_of nbits) 0;
  upper_mask = upper_mask_of nbits;
})

pub is_bit_set : BitArray → ℕ → Bool
is_bit_set a pos =
    if ltb pos a.nbits
    then not
        (bit_and (get_or a.words (pos / nbits_per_word) 0) (bit_mask (pos % nbits_per_word)) == 0)
    else false

pub is_bit_cleared : BitArray → ℕ → Bool
unfolding is_bit_set
is_bit_cleared a pos = not (is_bit_set a pos)

-- The loop of `count_all_set`, with `n` rounds to go from `pos` on.
pub count_loop : BitArray → ℕ → ℕ → ℕ → ℕ
count_loop a zero pos count = count
count_loop a (suc n) pos count =
    count_loop a n (pos + 1) (if is_bit_set a pos then count + 1 else count)

pub count_all_set : BitArray → ℕ
unfolding count_loop
count_all_set a = count_loop a a.nbits 0 0

pub count_all_cleared : BitArray → ℕ
unfolding count_all_set
count_all_cleared a = a.nbits - count_all_set a

pub is_all_set_words : ℕ → List ℕ → Bool
is_all_set_words upper [] = true
is_all_set_words upper (w ∷ []) = w == upper
is_all_set_words upper (w ∷ v ∷ ws) =
    let rest = is_all_set_words upper (v ∷ ws) in if w == full_mask then rest else false

pub is_all_set : BitArray → Bool
unfolding is_all_set_words
is_all_set a = is_all_set_words a.upper_mask a.words

pub is_all_cleared_words : List ℕ → Bool
is_all_cleared_words [] = true
is_all_cleared_words (w ∷ ws) = let rest = is_all_cleared_words ws in if w == 0 then rest else false

pub is_all_cleared : BitArray → Bool
unfolding is_all_cleared_words
is_all_cleared a = is_all_cleared_words a.words

-- `_words[pos / 64] = u(pos % 64, _words[pos / 64])`
pub update_word : (ℕ → ℕ → ℕ) → List ℕ → ℕ → List ℕ
update_word u ws pos =
    set ws (pos / nbits_per_word) (u (pos % nbits_per_word) (get_or ws (pos / nbits_per_word) 0))

pub update_bit : (ℕ → ℕ → ℕ) → BitArray → ℕ → BitArray
update_bit u a pos = if ltb pos a.nbits then record a { words = update_word u a.words pos } else a

pub set_bit : BitArray → ℕ → BitArray
unfolding update_bit update_word
set_bit a pos = update_bit (λ p w. bit_or w (bit_mask p)) a pos

pub clear_bit : BitArray → ℕ → BitArray
unfolding update_bit update_word
clear_bit a pos = update_bit (λ p w. bit_and w (word_not (bit_mask p))) a pos

pub negate_bit : BitArray → ℕ → BitArray
unfolding update_bit update_word
negate_bit a pos = update_bit (λ p w. bit_xor w (bit_mask p)) a pos

pub assign_bit : BitArray → ℕ → Bool → BitArray
unfolding set_bit clear_bit
assign_bit a pos value = if value then set_bit a pos else clear_bit a pos

pub set_all_words : ℕ → List ℕ → List ℕ
set_all_words upper [] = []
set_all_words upper (w ∷ []) = upper ∷ []
set_all_words upper (w ∷ v ∷ ws) = full_mask ∷ set_all_words upper (v ∷ ws)

pub set_all : BitArray → BitArray
unfolding set_all_words
set_all a = record a { words = set_all_words a.upper_mask a.words }

pub negate_all_words : ℕ → List ℕ → List ℕ
negate_all_words upper [] = []
negate_all_words upper (w ∷ []) = bit_xor w upper ∷ []
negate_all_words upper (w ∷ v ∷ ws) = bit_xor w full_mask ∷ negate_all_words upper (v ∷ ws)

pub negate_all : BitArray → BitArray
unfolding negate_all_words
negate_all a = record a { words = negate_all_words a.upper_mask a.words }

pub assign_all : BitArray → Bool → BitArray
unfolding set_all clear_all
assign_all a value = if value then set_all a else clear_all a

pub zip_words : (ℕ → ℕ → ℕ) → List ℕ → List ℕ → List ℕ
zip_words f [] vs = []
zip_words f (w ∷ ws) [] = w ∷ ws
zip_words f (w ∷ ws) (v ∷ vs) = f w v ∷ zip_words f ws vs

-- `operator&=`; `none` is the abort of its assertion.
pub and_assign : BitArray → BitArray → Option BitArray
unfolding zip_words
and_assign a rhs =
    if length a.words == length rhs.words
    then some (record a { words = zip_words bit_and a.words rhs.words })
    else none

-- `operator|=`
pub or_assign : BitArray → BitArray → Option BitArray
unfolding zip_words
or_assign a rhs =
    if length a.words == length rhs.words
    then some (record a { words = zip_words bit_or a.words rhs.words })
    else none
