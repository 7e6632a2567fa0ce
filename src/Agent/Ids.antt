-- ===== src/Agent/Ids.antt =====
-- The choice of devices and pipelines that every handler makes first (such as lines 26 to 62 of
-- sn-p4/src/agent/table.cpp): an index from 0, or a negative number for all of them.
pub mod Laws
use esnet_smartnic_fw.Base.{
  ℕ, zero, suc, ◌+◌, Bool, true, false, List, [], ◌∷◌, Option, none, some, length, get_elem?, ltb,
  if◌then◌else◌,
}
use esnet_smartnic_fw.Base.Int.{ℤ, pos, negsuc}
use esnet_smartnic_fw.Agent.Effect.{M, ◌>>=◌, ◌>>◌, pure, write, fault}
use esnet_smartnic_fw.Agent.Errors.{ErrorCode}
use esnet_smartnic_fw.Agent.Device.{Device, DevicePipeline}

-- The indices from `begin` on, `rounds` of them.
pub ids_from : ℕ → ℕ → List ℕ
ids_from begin zero = []
ids_from begin (suc rounds) = begin ∷ ids_from (begin + 1) rounds

-- The indices of the loop from `begin` to `end`, both inclusive, where `end` is `size - 1` or the
-- index asked for; `none` is the test `id > end`.
pub select_ids : ℕ → ℤ → Option (List ℕ)
unfolding ids_from
select_ids size (pos id) = if ltb id size then some (id ∷ []) else none
select_ids size (negsuc id) = some (ids_from 0 size)

module _ {S R : Type 0} where
  pub for_ids : List ℕ → (ℕ → M S R (Unit {0})) → M S R (Unit {0})
  for_ids [] body = pure tt
  for_ids (id ∷ ids) body = body id >> for_ids ids body

  -- `items[id]`, an access out of bounds being a fault
  pub on_item : {D : Type 0} → Option D → (D → M S R (Unit {0})) → M S R (Unit {0})
  on_item none body = fault
  on_item (some item) body = body item

  pub at : {D : Type 0} → List D → ℕ → (D → M S R (Unit {0})) → M S R (Unit {0})
  unfolding on_item
  at items id body = on_item (get_elem? items id) body

  -- The whole loop: a single response where the index is too large, else the body for each item.
  pub for_option : Option (List ℕ) → R → (ℕ → M S R (Unit {0})) → M S R (Unit {0})
  unfolding for_ids
  for_option none invalid body = write invalid
  for_option (some ids) invalid body = for_ids ids body

  unfoldable pub for_selected :
      {D : Type 0} → List D → ℤ → R → (ℕ → D → M S R (Unit {0})) → M S R (Unit {0})
  unfolding select_ids for_option at
  for_selected items id invalid body =
      for_option (select_ids (length items) id) invalid (λ i. at items i (body i))

-- The two nested loops of the handlers that work on pipelines; `invalid` is the response for an
-- index that is too large.
unfoldable pub for_pipelines :
    {S R H Z D : Type 0}
    → List (Device H Z D)
    → ℤ
    → ℤ
    → (ErrorCode → ℕ → R)
    → (ℕ → ℕ → DevicePipeline H Z → M S R (Unit {0}))
    → M S R (Unit {0})
unfolding for_selected
for_pipelines devices dev_id pipeline_id invalid body =
    for_selected devices dev_id (invalid ErrorCode.invalid_device_id 0) λ d dev.
      for_selected dev.pipelines pipeline_id (invalid ErrorCode.invalid_pipeline_id d) (body d)
