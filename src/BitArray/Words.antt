-- ===== src/BitArray/Words.antt =====
-- The list of words as a sequence of bits.
use native.Mathlib.Nat.{le_trans, pow-le-pow_right}
use esnet_smartnic_fw.Base.{
  ℕ, suc, ◌-◌, ◌/◌, ◌%◌, ◌^◌, ◌≤◌, ◌<◌, ◌≡◌, refl, ap, inl, inr, Bool, false, List, [], ◌∷◌, length,
  get_or, ltb, ◌==◌, if◌then◌else◌, arith, Bool-cases,
}
use esnet_smartnic_fw.Word.{test_bit, test_bit_zero, test_bit_above, lt_of_bits}
use esnet_smartnic_fw.BitArray.{update_word, zip_words}

-- The bit at position `n` of the sequence.
unfoldable pub bit_at : List ℕ → ℕ → Bool
bit_at [] n = false
bit_at (w ∷ ws) n = if ltb n 64 then test_bit w n else bit_at ws (n - 64)

-- As many words as `n` bits need, and no bit at `n` or above. There is at least one bit.
abbrev pub Fits : List ℕ → ℕ → Type 0
Fits [] n = ⊥
Fits (w ∷ []) n = (0 < n) × (n ≤ 64) × (w < 2 ^ n)
Fits (w ∷ v ∷ ws) n = (64 < n) × (w < 2 ^ 64) × Fits (v ∷ ws) (n - 64)

pub bit_at-get_or : (ws : List ℕ) (n : ℕ) → test_bit (get_or ws (n / 64) 0) (n % 64) ≡ bit_at ws n
unfolding bit_at
bit_at-get_or [] n = test_bit_zero (n % 64)
bit_at-get_or (w ∷ ws) n = elim (Bool-cases (ltb n 64)) [
  | inl small ↦
      let i : n / 64 ≡ 0 = ground arith in let j : n % 64 ≡ n = ground arith in rw (small, i, j)
  | inr large ↦
      let i : n / 64 ≡ suc ((n - 64) / 64) = ground arith in
      let j : n % 64 ≡ (n - 64) % 64 = ground arith in rw (large, i, j) (bit_at-get_or ws (n - 64))
]

pub bit_at_above : (ws : List ℕ) (n m : ℕ) → Fits ws n → n ≤ m → bit_at ws m ≡ false
unfolding bit_at
bit_at_above [] n m f h = absurd f
bit_at_above (w ∷ []) n m f h = ground (arith, test_bit_above n w m f.2 h)
bit_at_above (w ∷ v ∷ ws) n m f h = ground (arith, bit_at_above (v ∷ ws) (n - 64) (m - 64) f.2)

word_lt : (n w : ℕ) → n ≤ 64 → w < 2 ^ n → w < 2 ^ 64
word_lt n w h lt = le_trans lt (pow-le-pow_right (omega arith) h)

pub Fits-cons :
    (w : ℕ) (ws : List ℕ) (n : ℕ) → 64 < n → w < 2 ^ 64 → Fits ws (n - 64) → Fits (w ∷ ws) n
Fits-cons w [] n lt h f = absurd f
Fits-cons w (v ∷ ws) n lt h f = (lt, h, f)

-- One word changed: `u q` gives bit `q` of a word the value that `h` makes of it, and leaves the
-- others.
module _ (u : ℕ → ℕ → ℕ) (h : Bool → Bool)
    (law : (q x p : ℕ)
      → q < 64
      → x < 2 ^ 64
      → test_bit (u q x) p ≡ (if q == p then h (test_bit x p) else test_bit x p)) where
  update_word-zero :
      (w : ℕ) (ws : List ℕ) (pos : ℕ) → pos < 64 → update_word u (w ∷ ws) pos ≡ u pos w ∷ ws
  unfolding update_word
  update_word-zero w ws pos lt =
      let i : pos / 64 ≡ 0 = omega arith in let j : pos % 64 ≡ pos = omega arith in rw (i, j)

  update_word-suc :
      (w : ℕ) (ws : List ℕ) (pos : ℕ)
      → 64 ≤ pos
      → update_word u (w ∷ ws) pos ≡ w ∷ update_word u ws (pos - 64)
  unfolding update_word
  update_word-suc w ws pos le =
      let i : pos / 64 ≡ suc ((pos - 64) / 64) = omega arith in
      let j : pos % 64 ≡ (pos - 64) % 64 = omega arith in rw (i, j)

  pub bit_at-update_word :
      (ws : List ℕ) (n pos m : ℕ)
      → Fits ws n
      → pos < n
      → bit_at (update_word u ws pos) m ≡ (if pos == m then h (bit_at ws m) else bit_at ws m)
  unfolding bit_at
  bit_at-update_word [] n pos m f lt = absurd f
  bit_at-update_word (w ∷ []) n pos m f lt =
      ground (arith, update_word-zero w [] pos, law pos w m, word_lt n w f.1 f.2)
  bit_at-update_word (w ∷ v ∷ ws) n pos m f lt = elim (Bool-cases (ltb pos 64)) [
    | inl small ↦ ground (arith, update_word-zero w (v ∷ ws) pos, law pos w m)
    | inr large ↦ ground (
      arith,
      update_word-suc w (v ∷ ws) pos,
      bit_at-update_word (v ∷ ws) (n - 64) (pos - 64) (m - 64) f.2,
    )
  ]

  update-lt : (k q x : ℕ) → k ≤ 64 → q < k → x < 2 ^ k → x < 2 ^ 64 → u q x < 2 ^ k
  update-lt k q x hk hq hx hw = lt_of_bits k (u q x) above
    where
      above : (p : ℕ) → k ≤ p → test_bit (u q x) p ≡ false
      above p le = ground (arith, law q x p, test_bit_above k x p hx le)

  pub update_word-Fits :
      (ws : List ℕ) (n pos : ℕ) → Fits ws n → pos < n → Fits (update_word u ws pos) n
  update_word-Fits [] n pos f lt = absurd f
  update_word-Fits (w ∷ []) n pos f lt =
      rw (update_word-zero w [] pos (omega arith))
        (f.0, f.1, update-lt n pos w f.1 lt f.2 (word_lt n w f.1 f.2))
  update_word-Fits (w ∷ v ∷ ws) n pos f lt = elim (Bool-cases (ltb pos 64)) [
    | inl small ↦
        rw (update_word-zero w (v ∷ ws) pos (ground arith))
          (f.0, update-lt 64 pos w (omega arith) (ground arith) f.1 f.1, f.2)
    | inr large ↦ rw (update_word-suc w (v ∷ ws) pos (ground arith)) (
        Fits-cons w (update_word u (v ∷ ws) (pos - 64)) n f.0 f.1
          (update_word-Fits (v ∷ ws) (n - 64) (pos - 64) f.2 (ground arith)))
  ]

-- Two arrays of the same size combined word by word.
module _ (f : ℕ → ℕ → ℕ) (g : Bool → Bool → Bool)
    (law : (x y p : ℕ) → test_bit (f x y) p ≡ g (test_bit x p) (test_bit y p))
    (none_set : g false false ≡ false) where
  combine-lt : (k x y : ℕ) → x < 2 ^ k → y < 2 ^ k → f x y < 2 ^ k
  combine-lt k x y hx hy = lt_of_bits k (f x y) above
    where
      above : (p : ℕ) → k ≤ p → test_bit (f x y) p ≡ false
      above p le = rw (law, test_bit_above k x p hx le, test_bit_above k y p hy le) none_set

  pub bit_at-zip_words :
      (ws vs : List ℕ) (n m : ℕ)
      → Fits ws n
      → Fits vs n
      → bit_at (zip_words f ws vs) m ≡ g (bit_at ws m) (bit_at vs m)
  unfolding bit_at zip_words
  bit_at-zip_words [] vs n m h k = absurd h
  bit_at-zip_words (w ∷ ws) [] n m h k = absurd k
  bit_at-zip_words (w ∷ []) (v ∷ []) n m h k = ground (arith, law w v m)
  bit_at-zip_words (w ∷ []) (v ∷ v' ∷ vs) n m h k = absurd (omega arith)
  bit_at-zip_words (w ∷ w' ∷ ws) (v ∷ []) n m h k = absurd (omega arith)
  bit_at-zip_words (w ∷ w' ∷ ws) (v ∷ v' ∷ vs) n m h k =
      ground (arith, law w v m, bit_at-zip_words (w' ∷ ws) (v' ∷ vs) (n - 64) (m - 64) h.2 k.2)

  pub zip_words-Fits : (ws vs : List ℕ) (n : ℕ) → Fits ws n → Fits vs n → Fits (zip_words f ws vs) n
  unfolding zip_words
  zip_words-Fits [] vs n h k = absurd h
  zip_words-Fits (w ∷ ws) [] n h k = absurd k
  zip_words-Fits (w ∷ []) (v ∷ []) n h k = (h.0, h.1, combine-lt n w v h.2 k.2)
  zip_words-Fits (w ∷ []) (v ∷ v' ∷ vs) n h k = absurd (omega arith)
  zip_words-Fits (w ∷ w' ∷ ws) (v ∷ []) n h k = absurd (omega arith)
  zip_words-Fits (w ∷ w' ∷ ws) (v ∷ v' ∷ vs) n h k =
      (h.0, combine-lt 64 w v h.1 k.1, zip_words-Fits (w' ∷ ws) (v' ∷ vs) (n - 64) h.2 k.2)

-- Arrays of one size have the same number of words.
pub length_of_Fits : (ws vs : List ℕ) (n : ℕ) → Fits ws n → Fits vs n → length ws ≡ length vs
length_of_Fits [] vs n h k = absurd h
length_of_Fits (w ∷ ws) [] n h k = absurd k
length_of_Fits (w ∷ []) (v ∷ []) n h k = refl
length_of_Fits (w ∷ []) (v ∷ v' ∷ vs) n h k = absurd (omega arith)
length_of_Fits (w ∷ w' ∷ ws) (v ∷ []) n h k = absurd (omega arith)
length_of_Fits (w ∷ w' ∷ ws) (v ∷ v' ∷ vs) n h k =
    ap suc (length_of_Fits (w' ∷ ws) (v' ∷ vs) (n - 64) h.2 k.2)
