-- ===== src/Opennic/Zone/Values.antt =====
-- Which values a caller gets who has room for so many.
use esnet_smartnic_fw.Base.{
  ℕ, zero, suc, ◌-◌, ◌≤◌, ◌≡◌, refl, sym, ap, ◌∙◌, inl, inr, Bool-cases, List, [], ◌∷◌, ◌++◌, map,
  Option, none, some, length, take, leb, arith,
}
use esnet_smartnic_fw.Filter.{Value}
use esnet_smartnic_fw.Opennic.Metric.{StatsMetric, metric_get_values}
use esnet_smartnic_fw.Opennic.Block.{StatsBlock, get_values_loop, block_get_values}
use esnet_smartnic_fw.Opennic.Zone.{StatsZone, zone_get_values, domain_get_values}

module _ {ℓ} {A : Type ℓ} where
  -- As many as there is room for, from two lists one after the other.
  take-append :
      (n : ℕ) (xs ys : List A) → take n (xs ++ ys) ≡ take n xs ++ take (n - length (take n xs)) ys
  take-append zero xs ys = refl
  take-append (suc n) [] ys = ap (λ (t : ℕ). take t ys) {x = suc n} {y = suc n - 0} (omega arith)
  take-append (suc n) (x ∷ xs) ys =
      ap (λ zs. x ∷ zs) (take-append n xs ys)
      ∙ ap (λ (t : ℕ). x ∷ (take n xs ++ take t ys)) (omega arith)

  take_all :
      (n : ℕ) (xs : List A) → n ≤ length (take n xs) → (ys : List A) → take n (xs ++ ys) ≡ take n xs
  take_all zero xs h ys = refl
  take_all (suc n) [] h ys = absurd (omega arith)
  take_all (suc n) (x ∷ xs) h ys = ap (λ zs. x ∷ zs) (take_all n xs (omega arith) ys)

  take-map {κ} :
      {B : Type κ} (f : A → B) (n : ℕ) (xs : List A) → map f (take n xs) ≡ take n (map f xs)
  take-map f zero xs = refl
  take-map f (suc n) [] = refl
  take-map f (suc n) (x ∷ xs) = ap (λ zs. f x ∷ zs) (take-map f n xs)

-- All values, metric by metric, block by block and zone by zone.
abbrev pub metric_values : List StatsMetric → List Value
metric_values [] = []
metric_values (m ∷ ms) = map (λ e. e.value) m.elements ++ metric_values ms

module _ {Data Hw : Type 0} where
  abbrev pub block_values : List (StatsBlock Data Hw) → List Value
  block_values [] = []
  block_values (blk ∷ blks) = metric_values blk.metrics ++ block_values blks

  abbrev pub domain_values : List (Option (StatsZone Data Hw)) → List Value
  domain_values [] = []
  domain_values (none ∷ slots) = domain_values slots
  domain_values (some z ∷ slots) = block_values z.blocks ++ domain_values slots

take_nil : (n : ℕ) → take {A = Value} n [] ≡ []
take_nil zero = refl
take_nil (suc n) = refl

metric_get_values-take :
    (m : StatsMetric) (room : ℕ)
    → metric_get_values m room ≡ take room (map (λ e. e.value) m.elements)
unfolding metric_get_values
metric_get_values-take m room = take-map (λ e. e.value) room m.elements

-- A part that fills what it can, and the rest what is left.
parts :
    (room : ℕ) (first all rest_all : List Value) (rest : ℕ → List Value)
    → first ≡ take room all
    → ((n : ℕ) → rest n ≡ take n rest_all)
    → first ++ rest (room - length first) ≡ take room (all ++ rest_all)
parts room first all rest_all rest e h =
    ap (λ xs. xs ++ rest (room - length xs)) e
    ∙ ap (λ ys. take room all ++ ys) (h (room - length (take room all)))
    ∙ sym (take-append room all rest_all)

get_values_loop-take :
    (ms : List StatsMetric) (room : ℕ) → get_values_loop ms room ≡ take room (metric_values ms)
unfolding get_values_loop
get_values_loop-take [] room = sym (take_nil room)
get_values_loop-take (m ∷ ms) room =
    parts room (metric_get_values m room) (map (λ e. e.value) m.elements) (metric_values ms)
      (get_values_loop ms) (metric_get_values-take m room) (get_values_loop-take ms)

module _ {Data Hw : Type 0} where
  zone_get_values-take :
      (blks : List (StatsBlock Data Hw)) (room : ℕ)
      → zone_get_values blks room ≡ take room (block_values blks)
  unfolding zone_get_values block_get_values
  zone_get_values-take [] room = sym (take_nil room)
  zone_get_values-take (blk ∷ blks) room =
      parts room (block_get_values blk room) (metric_values blk.metrics) (block_values blks)
        (zone_get_values blks) (get_values_loop-take blk.metrics room) (zone_get_values-take blks)

  -- A caller with room for so many values gets the first ones of all values of the domain, zone by
  -- zone, block by block, metric by metric and element by element, as many as fit or as there are.
  pub domain_get_values-take :
      (slots : List (Option (StatsZone Data Hw))) (room : ℕ)
      → domain_get_values slots room ≡ take room (domain_values slots)
  unfolding domain_get_values
  domain_get_values-take [] room = sym (take_nil room)
  domain_get_values-take (none ∷ slots) room = domain_get_values-take slots room
  domain_get_values-take (some z ∷ slots) room =
      let values = zone_get_values z.blocks room in
      let filled = zone_get_values-take z.blocks room in
      elim (Bool-cases (leb room (length values))) [
        | inl full ↦
            let le : room ≤ length (take room (block_values z.blocks)) =
              ground (arith, ap length filled) in
            rw full (filled ∙ sym (take_all room (block_values z.blocks) le (domain_values slots)))
        | inr more ↦ rw more (
            parts room values (block_values z.blocks) (domain_values slots)
              (domain_get_values slots) filled (domain_get_values-take slots))
      ]
