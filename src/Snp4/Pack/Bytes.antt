-- ===== src/Snp4/Pack/Bytes.antt =====
-- Numbers exported to the end of a buffer of zeros.
use mathlib.Core.List.{append-nil}
use esnet_smartnic_fw.Base.{
  ℕ, zero, suc, ◌+◌, ◌-◌, ◌*◌, ◌/◌, ◌^◌, ◌≤◌, ◌<◌, ◌≡◌, refl, sym, ap, ◌∙◌, List, [], ◌∷◌, ◌++◌,
  some, length, replicate, length-append, length-replicate, All, All-append, arith, and_then,
}
use esnet_smartnic_fw.Base.Int.{pos}
use esnet_smartnic_fw.Snp4.Gmp.{Gmp, GmpLaws, IsByte, be_value}
use esnet_smartnic_fw.Snp4.Pack.{write_here, write_at, padded_bytes, pad_bytes, export_to}

-- A buffer that holds a number in so many bytes.
abbrev pub Holds : ℕ → ℕ → List ℕ → Type 0
Holds len n bytes = (length bytes ≡ len) × All IsByte bytes × (be_value bytes ≡ n)

zeros : ℕ → List ℕ
zeros n = replicate n 0

write_here-fits :
    (bs : List ℕ) (n : ℕ)
    → length bs ≤ n
    → write_here (zeros n) bs ≡ some (bs ++ zeros (n - length bs))
unfolding write_here zeros
write_here-fits [] n h = ap (λ (t : ℕ). some (zeros t)) {x = n} (omega arith)
write_here-fits (b ∷ bs) zero h = absurd (omega arith)
write_here-fits (b ∷ bs) (suc n) h =
    ap (λ r. and_then r λ rest. some (b ∷ rest)) (write_here-fits bs n (omega arith))
    ∙ ap (λ (t : ℕ). some (b ∷ (bs ++ zeros t))) (omega arith)

write_at-fits :
    (offset n : ℕ) (bs : List ℕ)
    → offset + length bs ≤ n
    → write_at (zeros n) offset bs ≡ some (zeros offset ++ (bs ++ zeros (n - (offset + length bs))))
unfolding write_at zeros
write_at-fits zero n bs h =
    write_here-fits bs n (omega arith) ∙ ap (λ (t : ℕ). some (bs ++ zeros t)) (omega arith)
write_at-fits (suc offset) zero bs h = absurd (omega arith)
write_at-fits (suc offset) (suc n) bs h =
    ap (λ r. and_then r λ rest. some (0 ∷ rest)) (write_at-fits offset n bs (omega arith))
    ∙ ap (λ (t : ℕ). some (0 ∷ (zeros offset ++ (bs ++ zeros t)))) (omega arith)

be_value-zeros : (z : ℕ) (bs : List ℕ) → be_value (zeros z ++ bs) ≡ be_value bs
unfolding zeros
be_value-zeros zero bs = refl
be_value-zeros (suc z) bs = be_value-zeros z bs

zeros-IsByte : (z : ℕ) → All IsByte (zeros z)
unfolding zeros
zeros-IsByte zero = tt
zeros-IsByte (suc z) = (omega arith, zeros-IsByte z)

length-zeros : (z : ℕ) → length (zeros z) ≡ z
unfolding zeros
length-zeros z = length-replicate z 0

-- No bytes at all leave the zeros.
write_at-nothing :
    (len offset : ℕ)
    → offset ≤ len
    → (bytes : List ℕ) × (write_at (zeros len) offset [] ≡ some bytes) × Holds len 0 bytes
write_at-nothing len offset le =
    let rest = zeros (len - (offset + 0)) in
    (
      zeros offset ++ rest,
      write_at-fits offset len [] (omega arith),
      (
        omega (
          arith,
          length-append (zeros offset) rest,
          length-zeros offset,
          length-zeros (len - (offset + 0)),
          le,
        ),
        All-append IsByte (zeros offset) rest (zeros-IsByte offset)
            (zeros-IsByte (len - (offset + 0))),
        be_value-zeros offset rest
            ∙ ap be_value (sym (append-nil rest))
            ∙ be_value-zeros (len - (offset + 0)) [],
      ),
    )

-- Bytes at the end of a buffer that they fit.
write_at-end :
    (bs : List ℕ) (len offset n : ℕ)
    → All IsByte bs
    → be_value bs ≡ n
    → offset + length bs ≡ len
    → (bytes : List ℕ) × (write_at (zeros len) offset bs ≡ some bytes) × Holds len n bytes
unfolding zeros
write_at-end bs len offset n small is_n whole = (
  zeros offset ++ bs,
  write_at-fits offset len bs (omega arith)
      ∙ ap (λ (t : ℕ). some (zeros offset ++ (bs ++ zeros t))) {y = 0} (omega arith)
      ∙ ap (λ t. some (zeros offset ++ t)) (append-nil bs),
  (
    omega (arith, length-append (zeros offset) bs, length-zeros offset, whole),
    All-append IsByte (zeros offset) bs (zeros-IsByte offset) small,
    be_value-zeros offset bs ∙ is_n,
  ),
)

-- A number of `size` bits needs this many bytes of a buffer, whose length is far from wrapping.
pad_bytes-enough :
    (len size : ℕ)
    → 0 < size
    → size ≤ 8 * len
    → len < 2 ^ 28
    → pad_bytes len size + (size + 7) / 8 ≡ len
unfolding pad_bytes
pad_bytes-enough len size h le lt = omega arith

pub padded_bytes-small : (bits : ℕ) → bits < 2 ^ 31 → padded_bytes bits ≡ (bits + 7) / 8
unfolding padded_bytes
padded_bytes-small bits h = omega arith

module _ {Mpz : Type 0} {gmp : Gmp Mpz} (laws : GmpLaws gmp) where
  -- A number is stored whole, at the end of the buffer, with zeros before it.
  pub export_to-Holds :
      (len : ℕ) (x : Mpz) (n : ℕ)
      → laws.value x ≡ pos n
      → gmp.sizeinbase_2 x ≤ 8 * len
      → len < 2 ^ 28
      → (bytes : List ℕ) × (export_to gmp len x ≡ some bytes) × Holds len n bytes
  unfolding export_to zeros
  export_to-Holds len x zero is_n le lt =
      let (bytes_small, is_value, count, empty) = laws.export_value x 0 is_n in
      let (positive, below, least, one) = laws.sizeinbase_value x 0 is_n in
      let pad = pad_bytes-enough len (gmp.sizeinbase_2 x) positive le lt in
      let (bytes, e, holds) =
        write_at-nothing len (pad_bytes len (gmp.sizeinbase_2 x)) (omega (arith, pad)) in
      (
        bytes,
        ap (write_at (zeros len) (pad_bytes len (gmp.sizeinbase_2 x))) (empty refl) ∙ e,
        holds,
      )
  export_to-Holds len x (suc n) is_n le lt =
      let (bytes_small, is_value, count, empty) = laws.export_value x (suc n) is_n in
      let (positive, below, least, one) = laws.sizeinbase_value x (suc n) is_n in
      let pad = pad_bytes-enough len (gmp.sizeinbase_2 x) positive le lt in
      write_at-end (gmp.export_bytes x) len (pad_bytes len (gmp.sizeinbase_2 x)) (suc n) bytes_small
        is_value (omega (arith, pad, count (omega arith)))
