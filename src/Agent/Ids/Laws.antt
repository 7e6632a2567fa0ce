-- ===== src/Agent/Ids/Laws.antt =====
-- The choice of indices reaches each item that it should, in order, and no other.
use mathlib.Core.Path.{subst, subst₂}
use mathlib.Core.List.{append-nil}
use esnet_smartnic_fw.Base.{
  ℕ, zero, suc, ◌+◌, ◌≡◌, ◌≤◌, ◌<◌, refl, sym, ap, ◌∙◌, inl, inr, List, [], ◌∷◌, ◌++◌, map, Option,
  none, some, length, get_elem?, ltb, arith, Bool-cases, All,
}
use esnet_smartnic_fw.Base.Int.{ℤ, pos, negsuc}
use esnet_smartnic_fw.Agent.Effect.{M, pure, continue, Writes, Writes->>}
use esnet_smartnic_fw.Agent.Errors.{ErrorCode}
use esnet_smartnic_fw.Agent.Device.{Device, DevicePipeline}
use esnet_smartnic_fw.Agent.Ids.{
  ids_from, select_ids, for_ids, on_item, at, for_option, for_selected, for_pipelines,
}

-- The results of all the items, from index `n` on.
pub each_from : {D C : Type 0} → (ℕ → D → List C) → ℕ → List D → List C
each_from f n [] = []
each_from f n (d ∷ ds) = f n d ++ each_from f (n + 1) ds

pub one_or : {D C : Type 0} → C → Option D → (D → List C) → List C
one_or invalid none f = invalid ∷ []
one_or invalid (some d) f = f d

-- What a request asks for: the item at an index, all items for a negative number, or the refusal.
unfoldable pub each_selected : {D C : Type 0} → List D → ℤ → C → (ℕ → D → List C) → List C
unfolding each_from one_or
each_selected items (pos id) invalid f = one_or invalid (get_elem? items id) (f id)
each_selected items (negsuc id) invalid f = each_from f 0 items

get_elem?-in :
    {D : Type 0} (xs : List D) (i : ℕ) → i < length xs → (d : D) × (get_elem? xs i ≡ some d)
get_elem?-in [] i h = absurd (omega arith)
get_elem?-in (x ∷ xs) zero h = (x, refl)
get_elem?-in (x ∷ xs) (suc i) h = get_elem?-in xs i (omega arith)

get_elem?-out : {D : Type 0} (xs : List D) (i : ℕ) → length xs ≤ i → get_elem? xs i ≡ none
get_elem?-out [] i h = refl
get_elem?-out (x ∷ xs) zero h = absurd (omega arith)
get_elem?-out (x ∷ xs) (suc i) h = get_elem?-out xs i (omega arith)

get_elem?-below :
    {D : Type 0} (xs : List D) (i : ℕ) (x : D) → get_elem? xs i ≡ some x → i < length xs
get_elem?-below [] i x h = absurd cc
get_elem?-below (y ∷ xs) zero x h = omega arith
get_elem?-below (y ∷ xs) (suc i) x h = let lt = get_elem?-below xs i x h in omega arith

module _ {S R C D : Type 0} (f : R → C) (items : List D) (body : ℕ → D → M S R (Unit {0}))
    (l : ℕ → D → List C)
    (each : (i : ℕ) (d : D) → get_elem? items i ≡ some d → Writes f (body i d) (l i d)) where
  at-Writes : (i : ℕ) (d : D) → get_elem? items i ≡ some d → Writes f (at items i (body i)) (l i d)
  unfolding at
  at-Writes i d e = subst (λ o. Writes f (on_item o (body i)) (l i d)) (sym e) (each i d e)

  for_ids-Writes :
      (b : ℕ) (ds : List D)
      → ((j : ℕ) → get_elem? items (b + j) ≡ get_elem? ds j)
      → Writes f (for_ids (ids_from b (length ds)) (λ i. at items i (body i))) (each_from l b ds)
  unfolding for_ids ids_from each_from
  for_ids-Writes b [] same = λ s. (s, [], tt, refl, refl)
  for_ids-Writes b (d ∷ ds) same =
      Writes->> f (at items b (body b)) _ (l b d) _
        (at-Writes b d (ap (λ (j : ℕ). get_elem? items j) (omega arith) ∙ same 0))
        (for_ids-Writes (b + 1) ds
          (λ j. ap (λ (k : ℕ). get_elem? items k) (omega arith) ∙ same (suc j)))

  one_item :
      (i : ℕ) (d : D)
      → get_elem? items i ≡ some d
      → Writes f (for_ids (i ∷ []) (λ i. at items i (body i))) (l i d)
  unfolding for_ids
  one_item i d e s =
      let (s', rs, a, run, p) = at-Writes i d e s in
      (s', rs ++ [], a, ap (λ o. continue o (λ _. pure tt)) run, ap (map f) (append-nil rs) ∙ p)

  -- The loop ends, stays within the items, and writes what the request asks for.
  pub for_selected-Writes :
      (id : ℤ) (invalid : R)
      → Writes f (for_selected items id invalid body) (each_selected items id (f invalid) l)
  unfolding for_selected select_ids each_selected
  for_selected-Writes (negsuc id) invalid =
      for_ids-Writes 0 items (λ j. ap (λ (k : ℕ). get_elem? items k) (omega arith))
  for_selected-Writes (pos id) invalid = elim (Bool-cases (ltb id (length items))) [
    | inl inside ↦
        let (d, e) = get_elem?-in items id (ground arith) in
        let chosen : (some (id ∷ []) ≡ select_ids (length items) (pos id)) = ground arith in
        subst₂ Outcome chosen (sym e) (one_item id d e)
    | inr outside ↦
        let e : get_elem? items id ≡ none = get_elem?-out items id (ground arith) in
        let chosen : (none ≡ select_ids (length items) (pos id)) = ground arith in
        subst₂ Outcome chosen (sym e) (λ s. (s, invalid ∷ [], tt, refl, refl))
  ]
    where
      Outcome : Option (List ℕ) → Option D → Type 0
      Outcome o o' =
          Writes f (for_option o invalid (λ i. at items i (body i))) (one_or (f invalid) o' (l id))

pub All-get_elem? :
    {A : Type 0} (P : A → Type 0) (xs : List A) (i : ℕ) (x : A)
    → All P xs
    → get_elem? xs i ≡ some x
    → P x
All-get_elem? P [] i x h e = absurd cc
All-get_elem? P (y ∷ ys) zero x (h, hs) e = let same : y ≡ x = cc in subst P same h
All-get_elem? P (y ∷ ys) (suc i) x (h, hs) e = All-get_elem? P ys i x hs e

-- What a request on pipelines asks for: of each device asked for, each pipeline asked for.
abbrev pub each_pipeline :
    {H Z D C : Type 0}
    → List (Device H Z D)
    → ℤ
    → ℤ
    → (ErrorCode → ℕ → C)
    → (ℕ → ℕ → DevicePipeline H Z → List C)
    → List C
each_pipeline devices dev_id pipeline_id invalid l =
    each_selected devices dev_id (invalid ErrorCode.invalid_device_id 0) λ d dev.
      each_selected dev.pipelines pipeline_id (invalid ErrorCode.invalid_pipeline_id d) (l d)

pub for_pipelines-Writes :
    {S R C H Z D : Type 0} (f : R → C) (devices : List (Device H Z D)) (dev_id pipeline_id : ℤ)
    (invalid : ErrorCode → ℕ → R) (body : ℕ → ℕ → DevicePipeline H Z → M S R (Unit {0}))
    (l : ℕ → ℕ → DevicePipeline H Z → List C)
    → ((d p : ℕ) (dev : Device H Z D) (pipeline : DevicePipeline H Z)
        → get_elem? devices d ≡ some dev
        → get_elem? dev.pipelines p ≡ some pipeline
        → Writes f (body d p pipeline) (l d p pipeline))
    → Writes f
        (for_pipelines devices dev_id pipeline_id invalid body)
        (each_pipeline devices dev_id pipeline_id (λ err d. f (invalid err d)) l)
unfolding for_pipelines
for_pipelines-Writes f devices dev_id pipeline_id invalid body l each =
    for_selected-Writes f devices _ _
      (λ d dev e.
        for_selected-Writes f dev.pipelines (body d) (l d)
          (λ p pipeline e'. each d p dev pipeline e e') pipeline_id
          (invalid ErrorCode.invalid_pipeline_id d))
      dev_id (invalid ErrorCode.invalid_device_id 0)

-- An index of an item that exists chooses this item alone.
module _ {S R D : Type 0} (items : List D) (i : ℕ) (invalid : R) (body : ℕ → D → M S R (Unit {0}))
    (x : D) (s : S) where
  run_option : Option (List ℕ) → Option (S × List R × Unit {0})
  run_option o = for_option o invalid (λ j. at items j (body j)) s

  pub for_selected-pos :
      get_elem? items i ≡ some x
      → for_selected items (pos i) invalid body s ≡ continue (body i x s) (λ u. pure tt)
  unfolding for_selected select_ids for_option for_ids at on_item run_option
  for_selected-pos e =
      let chosen : select_ids (length items) (pos i) ≡ some (i ∷ []) =
        ground (arith, get_elem?-below items i x e) in
      ap run_option chosen ∙ ap (λ o. continue (on_item o (body i) s) (λ u. pure tt)) e
