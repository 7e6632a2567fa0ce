-- ===== src/Text.antt =====
-- `std::string` as its bytes, with the tests that the agents make on it.
pub mod Laws
use Prim.Native.Char.{code}
use Prim.Native.String.{String}
use Prim.Native.String
use esnet_smartnic_fw.Base.{
  ℕ, zero, suc, ◌-◌, Bool, true, false, ◌&&◌, List, [], ◌∷◌, length, take, drop, leb, ◌==◌,
  if◌then◌else◌,
}

abbrev pub Text : Type 0
Text = List ℕ

-- The bytes of a literal in the source.
abbrev pub text : String → Text
text String.[] = []
text (String.◌∷◌ c s) = code c ∷ text s

-- `a == b`
unfoldable pub text_eq : Text → Text → Bool
text_eq [] [] = true
text_eq [] (y ∷ ys) = false
text_eq (x ∷ xs) [] = false
text_eq (x ∷ xs) (y ∷ ys) = x == y && text_eq xs ys

-- `str.compare(pos, len, s) == 0`
unfoldable pub compare_at : Text → ℕ → ℕ → Text → Bool
unfolding text_eq
compare_at str pos len s = text_eq (take len (drop pos str)) s

-- `str.find(sub) != string::npos`
pub find : Text → Text → Bool
unfolding compare_at
find [] sub = compare_at [] 0 (length sub) sub
find (c ∷ str) sub =
    let rest = find str sub in if compare_at (c ∷ str) 0 (length sub) sub then true else rest
