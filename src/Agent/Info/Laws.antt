-- ===== src/Agent/Info/Laws.antt =====
-- A lookup by name finds the first entry of that name, and fails only if there is none.
use esnet_smartnic_fw.Base.{
  ℕ, zero, suc, ◌≡◌, ◌≢◌, ◌<◌, sym, ap, ◌∙◌, inl, inr, List, [], ◌∷◌, none, some, All, get_elem?,
  arith, Bool-cases,
}
use esnet_smartnic_fw.Text.{Text, text_eq}
use esnet_smartnic_fw.Text.Laws.{text_eq_iff, ne_of_text_eq}
use esnet_smartnic_fw.Agent.Info.{
  ActionInfo, TableInfo, PipelineInfo, find_by_name, get_table_info, get_table_action_info,
}

module _ {A : Type 0} (name_of : A → Text) where
  -- Position `k` holds the entry, which has the name, and no earlier one has.
  abbrev pub FirstNamed : List A → Text → A → Type 0
  FirstNamed xs name x =
      (k : ℕ) × (get_elem? xs k ≡ some x)
      × (name_of x ≡ name)
      × ((j : ℕ) (y : A) → j < k → get_elem? xs j ≡ some y → name_of y ≢ name)

  earlier :
      (y : A) (ys : List A) (name : Text) (k : ℕ)
      → name_of y ≢ name
      → ((j : ℕ) (z : A) → j < k → get_elem? ys j ≡ some z → name_of z ≢ name)
      → (j : ℕ) (z : A) → j < suc k
      → get_elem? (y ∷ ys) j ≡ some z
      → name_of z ≢ name
  earlier y ys name k ne first zero z lt e = λ h. let same : y ≡ z = cc in ne (ap name_of same ∙ h)
  earlier y ys name k ne first (suc j) z lt e = first j z (omega arith) e

  pub find-FirstNamed :
      (xs : List A) (name : Text) (x : A)
      → find_by_name name_of xs name ≡ some x
      → FirstNamed xs name x
  unfolding find_by_name
  find-FirstNamed [] name x h = cc
  find-FirstNamed (y ∷ ys) name x h = elim (Bool-cases (text_eq (name_of y) name)) [
    | inl here ↦
        let same : y ≡ x = ground arith in
        (
          0,
          ap some same,
          ap name_of (sym same) ∙ (text_eq_iff _ _).0 here,
          λ j z lt e. absurd (omega arith),
        )
    | inr later ↦
        let (k, e, named, first) = find-FirstNamed ys name x (ground arith) in
        (suc k, e, named, earlier y ys name k (ne_of_text_eq _ _ later) first)
  ]

  pub find-none :
      (xs : List A) (name : Text)
      → find_by_name name_of xs name ≡ none
      → All (λ x. name_of x ≢ name) xs
  unfolding find_by_name
  find-none [] name h = tt
  find-none (y ∷ ys) name h = elim (Bool-cases (text_eq (name_of y) name)) [
    | inl here ↦ cc
    | inr later ↦ (ne_of_text_eq _ _ later, find-none ys name (ground arith))
  ]

pub get_table_info-name :
    (pi : PipelineInfo) (name : Text) (ti : TableInfo)
    → get_table_info pi name ≡ some ti
    → ti.name ≡ name
unfolding get_table_info
get_table_info-name pi name ti e =
    let (k, found, named, first) = find-FirstNamed (λ t. t.name) pi.tables name ti e in named

pub get_table_action_info-name :
    (ti : TableInfo) (name : Text) (ai : ActionInfo)
    → get_table_action_info ti name ≡ some ai
    → ai.name ≡ name
unfolding get_table_action_info
get_table_action_info-name ti name ai e =
    let (k, found, named, first) = find-FirstNamed (λ a. a.name) ti.actions name ai e in named
