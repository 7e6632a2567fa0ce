-- ===== src/Opennic/Zone/References.antt =====
-- What becomes of a zone that is allocated, used and freed.
use mathlib.Core.Path.{subst}
use esnet_smartnic_fw.Base.{
  ℕ, zero, suc, ◌+◌, ◌-◌, ◌%◌, ◌^◌, ◌≡◌, refl, sym, ap, ◌∙◌, false, List, [], ◌∷◌, Option, none,
  some, get_elem?, ◌==◌, if◌then◌else◌, and_then, and_then-some, arith, inl, inr, Bool-cases,
}
use esnet_smartnic_fw.Text.{Text}
use esnet_smartnic_fw.Opennic.Block.{ClearFilter}
use esnet_smartnic_fw.Opennic.Zone.{
  StatsZone, StatsDomain, zone_get, zone_put, update_blocks, update_zone, zone_update_metrics,
  zone_clear_metrics, or_clear_all, walk_zones, walk_domain, domain_update_metrics,
  domain_clear_metrics,
}

module _ {Data Hw : Type 0} where
  -- The zone at a place is there, with so many references.
  abbrev pub HasRefs : List (Option (StatsZone Data Hw)) → ℕ → ℕ → Type 0
  HasRefs slots i n =
      (z : StatsZone Data Hw) × (get_elem? slots i ≡ some (some z)) × (z.ref_count ≡ n)

  ref_of : Option (Option (StatsZone Data Hw)) → ℕ
  ref_of (some (some z)) = z.ref_count
  ref_of _ = 0

  get_ref : (z : StatsZone Data Hw) → (zone_get z).ref_count ≡ (z.ref_count + 1) % 2 ^ 32
  unfolding zone_get
  get_ref z = refl

  put_two :
      (z : StatsZone Data Hw) (nvalues : ℕ)
      → z.ref_count ≡ 2
      → (zone_put z nvalues).0 ≡ some (record z { ref_count = z.ref_count - 1 })
  unfolding zone_put
  put_two z nvalues e = let held : (z.ref_count == 0) ≡ false = ground (arith, e) in rw held refl

  module _ {W : Type 0} (body : StatsZone Data Hw → W → Option (StatsZone Data Hw × W))
      (keeps : (z : StatsZone Data Hw) (w : W) (z' : StatsZone Data Hw) (w' : W)
        → body z w ≡ some (z', w')
        → z'.ref_count ≡ z.ref_count) where
    walk_zones-HasRefs :
        (slots : List (Option (StatsZone Data Hw))) (nvalues : ℕ) (w : W) (i : ℕ)
        (slots' : List (Option (StatsZone Data Hw))) (nvalues' : ℕ) (w' : W)
        → walk_zones body slots nvalues w ≡ some (slots', nvalues', w')
        → HasRefs slots i 1
        → HasRefs slots' i 1
    unfolding walk_zones ref_of
    walk_zones-HasRefs [] nvalues w i slots' nvalues' w' e (z, found, one) = absurd cc
    walk_zones-HasRefs (none ∷ slots) nvalues w zero slots' nvalues' w' e (z, found, one) =
        absurd cc
    walk_zones-HasRefs (none ∷ slots) nvalues w (suc i) slots' nvalues' w' e h =
        let ((rest, n1, w1), e1, e2) = and_then-some (walk_zones body slots nvalues w) _ _ e in
        let more = walk_zones-HasRefs slots nvalues w i rest n1 w1 e1 h in
        let same : none ∷ rest ≡ slots' = cc in subst (λ ss. HasRefs ss (suc i) 1) same more
    walk_zones-HasRefs (some z ∷ slots) nvalues w zero slots' nvalues' w' e (z0, found, one) =
        let ((z1, w1), e1, e2) = and_then-some (body (zone_get z) w) _ _ e in
        let is_one : z.ref_count ≡ 1 = ap ref_of found ∙ one in
        let two : z1.ref_count ≡ 2 =
          keeps (zone_get z) w z1 w1 e1 ∙ get_ref z ∙ ap (λ (t : ℕ). (t + 1) % 2 ^ 32) is_one in
        let kept = put_two z1 nvalues two in
        let ((rest, n2, w2), e3, e4) =
          and_then-some (walk_zones body slots (zone_put z1 nvalues).1 w1) _ _ e2 in
        let same : (zone_put z1 nvalues).0 ∷ rest ≡ slots' = cc in
        subst (λ ss. HasRefs ss 0 1) same
          (record z1 { ref_count = z1.ref_count - 1 }, ap some kept, omega (arith, two))
    walk_zones-HasRefs (some z ∷ slots) nvalues w (suc i) slots' nvalues' w' e h =
        let ((z1, w1), e1, e2) = and_then-some (body (zone_get z) w) _ _ e in
        let ((rest, n2, w2), e3, e4) =
          and_then-some (walk_zones body slots (zone_put z1 nvalues).1 w1) _ _ e2 in
        let more = walk_zones-HasRefs slots (zone_put z1 nvalues).1 w1 i rest n2 w2 e3 h in
        let same : (zone_put z1 nvalues).0 ∷ rest ≡ slots' = cc in
        subst (λ ss. HasRefs ss (suc i) 1) same more

  result_ref : {A B : Type 0} → Option (StatsZone Data Hw × A × B) → ℕ
  result_ref (some (z, a, b)) = z.ref_count
  result_ref none = 0

  module _ {Arg : Type 0} (clock : Hw → (ℕ × ℕ) × Hw) where
    update_zone_ref :
        (domain : Text) (filter : Option (ClearFilter Arg)) (z : StatsZone Data Hw) (arg : Arg)
        (hw : Hw) (z' : StatsZone Data Hw) (arg' : Arg) (hw' : Hw)
        → update_zone clock domain filter z arg hw ≡ some (z', arg', hw')
        → z'.ref_count ≡ z.ref_count
    unfolding update_zone result_ref
    update_zone_ref domain filter z arg hw z' arg' hw' e =
        let (r, e1, e2) =
          and_then-some (update_blocks clock domain z.name filter z.blocks arg hw) _ _ e in
        sym (ap result_ref e2)

    zone_update_metrics_ref :
        (domain : Text) (z : StatsZone Data Hw) (arg : Arg) (hw : Hw) (z' : StatsZone Data Hw)
        (arg' : Arg) (hw' : Hw)
        → zone_update_metrics clock domain z arg hw ≡ some (z', arg', hw')
        → z'.ref_count ≡ z.ref_count
    unfolding zone_update_metrics result_ref
    zone_update_metrics_ref domain z arg hw z' arg' hw' e = elim (Bool-cases z.enabled) [
      | inl on ↦ update_zone_ref domain none z arg hw z' arg' hw' (
          ap (λ b. if b then update_zone clock domain none z arg hw else some (z, arg, hw)) (sym on)
          ∙ e)
      | inr off ↦ sym (
          ap result_ref (
            ap (λ b. if b then update_zone clock domain none z arg hw else some (z, arg, hw))
              (sym off)
            ∙ e))
    ]

  pair_ref : {A : Type 0} → Option (StatsZone Data Hw × A) → ℕ
  pair_ref (some (z, a)) = z.ref_count
  pair_ref none = 0

  triple_zones :
      {A B : Type 0} → Option (StatsDomain Data Hw × A × B) → List (Option (StatsZone Data Hw))
  triple_zones (some (d, a, b)) = d.zones
  triple_zones none = []

  zones_of : {A : Type 0} → Option (StatsDomain Data Hw × A) → List (Option (StatsZone Data Hw))
  zones_of (some (d, a)) = d.zones
  zones_of none = []

  walk_domain-HasRefs :
      {W : Type 0} (body : StatsZone Data Hw → W → Option (StatsZone Data Hw × W))
      (keeps : (z : StatsZone Data Hw) (w : W) (z' : StatsZone Data Hw) (w' : W)
        → body z w ≡ some (z', w')
        → z'.ref_count ≡ z.ref_count)
      (d : StatsDomain Data Hw) (w : W) (d' : StatsDomain Data Hw) (w' : W) (i : ℕ)
      → walk_domain body d w ≡ some (d', w')
      → HasRefs d.zones i 1
      → HasRefs d'.zones i 1
  unfolding walk_domain zones_of
  walk_domain-HasRefs body keeps d w d' w' i e h =
      let ((zones, nvalues, w1), e1, e2) =
        and_then-some (walk_zones body d.zones d.nvalues w) _ _ e in
      subst (λ ss. HasRefs ss i 1) (ap zones_of e2)
        (walk_zones-HasRefs body keeps d.zones d.nvalues w i zones nvalues w1 e1 h)

  module _ (clock : Hw → (ℕ × ℕ) × Hw) where
    pub domain_update_metrics-HasRefs :
        (d : StatsDomain Data Hw) (hw : Hw) (d' : StatsDomain Data Hw) (hw' : Hw) (i : ℕ)
        → domain_update_metrics clock d hw ≡ some (d', hw')
        → HasRefs d.zones i 1
        → HasRefs d'.zones i 1
    unfolding domain_update_metrics pair_ref
    domain_update_metrics-HasRefs d hw d' hw' i e h =
        walk_domain-HasRefs
          (λ z w. and_then (zone_update_metrics clock d.name z tt w) λ (z', u, w'). some (z', w'))
          (λ z w z' w' e'.
            let ((z1, u, w1), e1, e2) =
              and_then-some (zone_update_metrics clock d.name z tt w) _ _ e' in
            sym (ap pair_ref e2) ∙ zone_update_metrics_ref clock d.name z tt w z1 u w1 e1)
          d hw d' hw' i e h

    pub domain_clear_metrics-HasRefs :
        {Arg : Type 0} (filter : Option (ClearFilter Arg)) (d : StatsDomain Data Hw) (arg : Arg)
        (hw : Hw) (d' : StatsDomain Data Hw) (arg' : Arg) (hw' : Hw) (i : ℕ)
        → domain_clear_metrics clock filter d arg hw ≡ some (d', arg', hw')
        → HasRefs d.zones i 1
        → HasRefs d'.zones i 1
    unfolding domain_clear_metrics zone_clear_metrics pair_ref triple_zones
    domain_clear_metrics-HasRefs {Arg} filter d arg hw d' arg' hw' i e h =
        let ((d1, w1), e1, e2) =
          and_then-some
            (walk_domain
              (λ z (w : Arg × Hw).
                and_then (zone_clear_metrics clock filter d.name z w.0 w.1)
                  λ (z', a, b). some (z', (a, b)))
              d (arg, hw))
            _ _ e in
        subst (λ ss. HasRefs ss i 1) (ap triple_zones e2)
          (walk_domain-HasRefs
            (λ z (w : Arg × Hw).
              and_then (zone_clear_metrics clock filter d.name z w.0 w.1)
                λ (z', a, b). some (z', (a, b)))
            (λ z w z' w' e'.
              let ((z1, a1, b1), e3, e4) =
                and_then-some (zone_clear_metrics clock filter d.name z w.0 w.1) _ _ e' in
              sym (ap pair_ref e4)
              ∙ update_zone_ref clock d.name (some (or_clear_all filter)) z w.0 w.1 z1 a1 b1 e3)
            d (arg, hw) d1 w1 i e1 h)
