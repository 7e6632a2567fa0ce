-- ===== src/Opennic/Zone/Leaks.antt =====
-- Freeing a zone that was allocated and used.
use mathlib.Core.Path.{subst}
use esnet_smartnic_fw.Base.{
  ℕ, zero, suc, ◌-◌, ◌≡◌, refl, sym, ap, ◌∙◌, Bool, false, List, [], ◌∷◌, ◌++◌, Option, none, some,
  length, set, get_elem?, ◌==◌, and_then-some, arith,
}
use esnet_smartnic_fw.Text.{Text}
use esnet_smartnic_fw.Opennic.Block.{ClearFilter}
use esnet_smartnic_fw.Opennic.Zone.{
  StatsZone, StatsDomain, BlockSpec, zone_get, zone_put, alloc_blocks, zone_attach, zone_alloc,
  zone_free, free_slot, enable_slot, zone_set_enabled, domain_update_metrics, domain_clear_metrics,
}
use esnet_smartnic_fw.Opennic.Zone.References.{
  HasRefs, domain_update_metrics-HasRefs, domain_clear_metrics-HasRefs,
}

module _ {Data Hw : Type 0} where
  HasRefs-append :
      (slots more : List (Option (StatsZone Data Hw))) (i n : ℕ)
      → HasRefs slots i n
      → HasRefs (slots ++ more) i n
  HasRefs-append [] more i n (z, e, r) = absurd cc
  HasRefs-append (s ∷ slots) more zero n h = h
  HasRefs-append (s ∷ slots) more (suc i) n h = HasRefs-append slots more i n h

  HasRefs-last :
      (slots : List (Option (StatsZone Data Hw))) (z : StatsZone Data Hw) (n : ℕ)
      → z.ref_count ≡ n
      → HasRefs (slots ++ (some z ∷ [])) (length slots) n
  HasRefs-last [] z n e = (z, refl, e)
  HasRefs-last (s ∷ slots) z n e = HasRefs-last slots z n e

  -- A zone replaced by one with as many references.
  HasRefs-set :
      (slots : List (Option (StatsZone Data Hw))) (i j : ℕ) (z z' : StatsZone Data Hw)
      → get_elem? slots j ≡ some (some z)
      → z'.ref_count ≡ z.ref_count
      → HasRefs slots i 1
      → HasRefs (set slots j (some z')) i 1
  HasRefs-set [] i j z z' found same h = absurd cc
  HasRefs-set (s ∷ slots) zero zero z z' found same (z0, e, one) =
      (z', refl, same ∙ ap slot_ref (sym found ∙ e) ∙ one)
    where
      slot_ref : Option (Option (StatsZone Data Hw)) → ℕ
      slot_ref (some (some x)) = x.ref_count
      slot_ref _ = 0
  HasRefs-set (s ∷ slots) zero (suc j) z z' found same h = h
  HasRefs-set (s ∷ slots) (suc i) zero z z' found same h = h
  HasRefs-set (s ∷ slots) (suc i) (suc j) z z' found same h =
      HasRefs-set slots i j z z' found same h

  -- A zone set again is found there.
  set-HasRefs :
      (slots : List (Option (StatsZone Data Hw))) (i : ℕ) (z z' : StatsZone Data Hw)
      → get_elem? slots i ≡ some (some z)
      → HasRefs (set slots i (some z')) i z'.ref_count
  set-HasRefs [] i z z' found = absurd cc
  set-HasRefs (s ∷ slots) zero z z' found = (z', refl, refl)
  set-HasRefs (s ∷ slots) (suc i) z z' found = set-HasRefs slots i z z' found

  domain_zones : Option (StatsDomain Data Hw) → List (Option (StatsZone Data Hw))
  domain_zones (some d) = d.zones
  domain_zones none = []

  set_enabled-HasRefs :
      (enabled : Bool) (d d' : StatsDomain Data Hw) (i j : ℕ)
      → zone_set_enabled enabled d j ≡ some d'
      → HasRefs d.zones i 1
      → HasRefs d'.zones i 1
  unfolding zone_set_enabled enable_slot domain_zones
  set_enabled-HasRefs enabled d d' i j e h = by_slot (get_elem? d.zones j) refl e
    where
      by_slot :
          (o : Option (Option (StatsZone Data Hw)))
          → get_elem? d.zones j ≡ o
          → enable_slot enabled d j o ≡ some d'
          → HasRefs d'.zones i 1
      by_slot (some (some z)) found e' =
          subst (λ ss. HasRefs ss i 1) (ap domain_zones e')
            (HasRefs-set d.zones i j z (record z { enabled = enabled }) found refl h)
      by_slot (some none) found e' = absurd cc
      by_slot none found e' = absurd cc

  alloc-HasRefs :
      (d d' : StatsDomain Data Hw) (name : Text) (specs : List (BlockSpec Data Hw)) (i : ℕ)
      → zone_alloc d name specs ≡ some d'
      → HasRefs d.zones i 1
      → HasRefs d'.zones i 1
  unfolding zone_alloc domain_zones
  alloc-HasRefs d d' name specs i e h =
      let (blks, e1, e2) = and_then-some (alloc_blocks specs) _ _ e in
      subst (λ ss. HasRefs ss i 1) (ap domain_zones e2) (HasRefs-append d.zones _ i 1 h)

module _ {Data Hw : Type 0} where
  zone_alloc-HasRefs :
      (d d' : StatsDomain Data Hw) (name : Text) (specs : List (BlockSpec Data Hw))
      → zone_alloc d name specs ≡ some d'
      → HasRefs d'.zones (length d.zones) 1
  unfolding zone_alloc domain_zones zone_get zone_attach
  zone_alloc-HasRefs d d' name specs e =
      let (blks, e1, e2) = and_then-some (alloc_blocks specs) _ _ e in
      subst (λ ss. HasRefs ss (length d.zones) 1) (ap domain_zones e2)
        (HasRefs-last d.zones _ 1 refl)

  free_slot_one :
      (d : StatsDomain Data Hw) (i : ℕ) (z : StatsZone Data Hw)
      → get_elem? d.zones i ≡ some (some z)
      → z.ref_count ≡ 1
      → (d' : StatsDomain Data Hw) × (free_slot d i (some (some z)) ≡ some d')
        × HasRefs d'.zones i 0
        × (d'.nvalues ≡ d.nvalues)
  unfolding free_slot zone_put
  free_slot_one d i z found one =
      let z' = record z { ref_count = z.ref_count - 1 } in
      let held : (z.ref_count == 0) ≡ false = ground (arith, one) in
      let none_left : z.ref_count - 1 ≡ 0 = omega (arith, one) in
      (
        record d { zones = set d.zones i (some z') },
        rw held refl,
        subst (λ (n : ℕ). HasRefs (set d.zones i (some z')) i n) none_left
            (set-HasRefs d.zones i z z' found),
        refl,
      )

module _ {Data Hw : Type 0} (clock : Hw → (ℕ × ℕ) × Hw) where
  -- What is done with a domain while a zone is in use.
  pub data Use : StatsDomain Data Hw → StatsDomain Data Hw → Type 1 where
    update :
        {d d' : StatsDomain Data Hw} (hw hw' : Hw)
        → domain_update_metrics clock d hw ≡ some (d', hw')
        → Use d d'
    clear :
        {d d' : StatsDomain Data Hw} {Arg : Type 0} (filter : Option (ClearFilter Arg))
        (arg arg' : Arg) (hw hw' : Hw)
        → domain_clear_metrics clock filter d arg hw ≡ some (d', arg', hw')
        → Use d d'
    set_enabled :
        {d d' : StatsDomain Data Hw} (enabled : Bool) (j : ℕ)
        → zone_set_enabled enabled d j ≡ some d'
        → Use d d'
    alloc :
        {d d' : StatsDomain Data Hw} (name : Text) (specs : List (BlockSpec Data Hw))
        → zone_alloc d name specs ≡ some d'
        → Use d d'

  pub data Uses (d : StatsDomain Data Hw) : StatsDomain Data Hw → Type 1 where
    unused : Uses d d
    used : {d1 d2 : StatsDomain Data Hw} → Uses d d1 → Use d1 d2 → Uses d d2

  Use-HasRefs :
      {d d' : StatsDomain Data Hw} (i : ℕ) → Use d d' → HasRefs d.zones i 1 → HasRefs d'.zones i 1
  Use-HasRefs {d} {d'} i (update hw hw' e) h = domain_update_metrics-HasRefs clock d hw d' hw' i e h
  Use-HasRefs {d} {d'} i (clear filter arg arg' hw hw' e) h =
      domain_clear_metrics-HasRefs clock filter d arg hw d' arg' hw' i e h
  Use-HasRefs {d} {d'} i (set_enabled enabled j e) h = set_enabled-HasRefs enabled d d' i j e h
  Use-HasRefs {d} {d'} i (alloc name specs e) h = alloc-HasRefs d d' name specs i e h

  Uses-HasRefs :
      {d d' : StatsDomain Data Hw} (i : ℕ) → Uses d d' → HasRefs d.zones i 1 → HasRefs d'.zones i 1
  Uses-HasRefs i unused h = h
  Uses-HasRefs i (used us u) h = Use-HasRefs i u (Uses-HasRefs i us h)

  -- A zone that stats_zone_alloc attached to a domain, and that no one else has freed, is not detached
  -- by stats_zone_free, whatever updates, clearings, enablings and further allocations come between:
  -- it stays in the domain, without a reference, and its values stay among the domain's.
  pub zone_free-keeps :
      (d d1 d2 : StatsDomain Data Hw) (name : Text) (specs : List (BlockSpec Data Hw))
      → zone_alloc d name specs ≡ some d1
      → Uses d1 d2
      → (d3 : StatsDomain Data Hw) × (zone_free d2 (length d.zones) ≡ some d3)
        × HasRefs d3.zones (length d.zones) 0
        × (d3.nvalues ≡ d2.nvalues)
  unfolding zone_free
  zone_free-keeps d d1 d2 name specs e us =
      let (z, found, one) =
        Uses-HasRefs (length d.zones) us (zone_alloc-HasRefs d d1 name specs e) in
      let (d3, e3, refs, values) = free_slot_one d2 (length d.zones) z found one in
      (d3, ap (free_slot d2 (length d.zones)) found ∙ e3, refs, values)
