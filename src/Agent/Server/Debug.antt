-- ===== src/Agent/Server/Debug.antt =====
-- The debug flags of the command line (debug_flag_label and init_server_debug of
-- sn-p4/src/agent/server.cpp).
use mathlib.Core.Path.{subst₂}
use esnet_smartnic_fw.Base.{
  ℕ, zero, suc, ◌+◌, ◌≡◌, refl, sym, ap, ◌∙◌, ◌⊎◌, ◌↔◌, inl, inr, Bool, true, false, ◌&&◌, ◌||◌,
  List, [], ◌∷◌, Option, none, some, map, leb, ◌==◌, if◌then◌else◌, arith, Bool-cases,
}
use esnet_smartnic_fw.Text.{Text, text, text_eq}
use esnet_smartnic_fw.Text.Laws.{text_eq_iff}
use esnet_smartnic_fw.Agent.Server.{is_valid, flag_max, set_flag}

pub debug_flag_label : ℕ → Text
debug_flag_label flag =
    if flag == 1
    then text "TABLE_CLEAR"
    else if flag == 2
    then text "TABLE_RULE_INSERT"
    else if flag == 3
    then text "TABLE_RULE_DELETE"
    else if flag == 10
    then text "PIPELINE_INFO"
    else if flag == 11
    then text "PIPELINE_DRIVER"
    else if flag == 20
    then text "STATS"
    else text "UNKNOWN"

-- tolower, and `_` as `-`
pub dashed : ℕ → ℕ
dashed c = if leb 65 c && leb c 90 then c + 32 else if c == 95 then 45 else c

-- The two comparisons of a flag with the name of `id`.
pub is_named : Text → ℕ → Bool
unfolding debug_flag_label dashed text_eq
is_named flag id =
    text_eq flag (debug_flag_label id) || text_eq flag (map dashed (debug_flag_label id))

-- The loop over the flags, from `id` on: the first that has the name.
pub find_flag : ℕ → ℕ → Text → Option ℕ
unfolding is_named is_valid
find_flag zero id flag = none
find_flag (suc rounds) id flag =
    let rest = find_flag rounds (id + 1) flag in
    if is_valid id && is_named flag id then some id else rest

-- The loop for the name "all".
pub set_all_flags : ℕ → ℕ → (ℕ → Bool) → ℕ → Bool
unfolding is_valid set_flag
set_all_flags zero id flags = flags
set_all_flags (suc rounds) id flags =
    set_all_flags rounds (id + 1) (if is_valid id then set_flag flags id true else flags)

-- An unknown name is logged and changes nothing.
pub set_found : Option ℕ → (ℕ → Bool) → ℕ → Bool
unfolding set_flag
set_found none flags = flags
set_found (some id) flags = set_flag flags id true

-- "all" ends the loop over the names.
pub init_server_debug : List Text → (ℕ → Bool) → ℕ → Bool
unfolding find_flag set_all_flags set_found text_eq
init_server_debug [] flags = flags
init_server_debug (flag ∷ names) flags =
    let rest = init_server_debug names (set_found (find_flag flag_max 1 flag) flags) in
    if text_eq flag (text "all") then set_all_flags flag_max 1 flags else rest

-- The flags with the two names of each: the label of the protocol, and the form of a command line.
abbrev pub flag_names : List (ℕ × Text × Text)
flag_names =
    (1, text "TABLE_CLEAR", text "table-clear")
    ∷ (2, text "TABLE_RULE_INSERT", text "table-rule-insert")
    ∷ (3, text "TABLE_RULE_DELETE", text "table-rule-delete")
    ∷ (10, text "PIPELINE_INFO", text "pipeline-info")
    ∷ (11, text "PIPELINE_DRIVER", text "pipeline-driver")
    ∷ (20, text "STATS", text "stats")
    ∷ []

-- The name is one of the two of a flag in the list.
abbrev pub Named : List (ℕ × Text × Text) → Text → ℕ → Type 0
Named [] name flag = ⊥
Named ((k, label, option) ∷ rest) name flag =
    ((flag ≡ k) × ((name ≡ label) ⊎ (name ≡ option))) ⊎ Named rest name flag

-- The first flag of a list with the name.
first_named : List (ℕ × Text × Text) → Text → Option ℕ
first_named [] name = none
first_named ((k, label, option) ∷ rest) name =
    let later = first_named rest name in
    if text_eq name label || text_eq name option then some k else later

find_flag-first_named : (name : Text) → find_flag flag_max 1 name ≡ first_named flag_names name
unfolding find_flag is_named first_named
find_flag-first_named name = refl

first_named-Named :
    (entries : List (ℕ × Text × Text)) (name : Text) (flag : ℕ)
    → first_named entries name ≡ some flag
    → Named entries name flag
unfolding first_named
first_named-Named [] name flag e = absurd cc
first_named-Named ((k, label, option) ∷ rest) name flag e = elim (Bool-cases (text_eq name label)) [
  | inl same ↦ inl (ground arith, inl ((text_eq_iff name label).0 same))
  | inr other ↦ elim (Bool-cases (text_eq name option)) [
    | inl same ↦ inl (ground arith, inr ((text_eq_iff name option).0 same))
    | inr neither ↦ inr (first_named-Named rest name flag (ground arith))
  ]
]

abbrev Finds : ℕ → Text → Type 0
Finds flag name = find_flag flag_max 1 name ≡ some flag

either_name :
    (k : ℕ) (label option : Text)
    → Finds k label
    → Finds k option
    → (name : Text) (flag : ℕ) → (flag ≡ k) × ((name ≡ label) ⊎ (name ≡ option))
    → Finds flag name
either_name k label option h h' name flag (e, inl e') = subst₂ Finds (sym e) (sym e') h
either_name k label option h h' name flag (e, inr e') = subst₂ Finds (sym e) (sym e') h'

-- A name is found, with a flag, exactly if it is one of the names that the list has for the flag: its
-- label, or the label in lower case with dashes. No other name is found.
pub find_flag_iff :
    (name : Text) (flag : ℕ) → (find_flag flag_max 1 name ≡ some flag) ↔ Named flag_names name flag
unfolding find_flag
find_flag_iff name flag = (
  λ e. first_named-Named flag_names name flag (sym (find_flag-first_named name) ∙ e),
  λ h0. elim h0 [
    | inl h ↦ either_name 1 (text "TABLE_CLEAR") (text "table-clear") refl refl name flag h
    | inr (inl h) ↦
        either_name 2 (text "TABLE_RULE_INSERT") (text "table-rule-insert") refl refl name flag h
    | inr (inr (inl h)) ↦
        either_name 3 (text "TABLE_RULE_DELETE") (text "table-rule-delete") refl refl name flag h
    | inr (inr (inr (inl h))) ↦
        either_name 10 (text "PIPELINE_INFO") (text "pipeline-info") refl refl name flag h
    | inr (inr (inr (inr (inl h)))) ↦
        either_name 11 (text "PIPELINE_DRIVER") (text "pipeline-driver") refl refl name flag h
    | inr (inr (inr (inr (inr (inl h))))) ↦
        either_name 20 (text "STATS") (text "stats") refl refl name flag h
    | inr (inr (inr (inr (inr (inr h))))) ↦ absurd h
  ],
)

set_all_flags-keeps :
    (rounds id : ℕ) (flags : ℕ → Bool) (n : ℕ)
    → flags n ≡ true
    → set_all_flags rounds id flags n ≡ true
unfolding set_all_flags set_flag
set_all_flags-keeps zero id flags n h = h
set_all_flags-keeps (suc rounds) id flags n h =
    set_all_flags-keeps rounds (id + 1) _ n (kept (is_valid id))
  where
    kept : (v : Bool) → (if v then set_flag flags id true else flags) n ≡ true
    kept true = ground arith
    kept false = h

set_found-keeps :
    (o : Option ℕ) (flags : ℕ → Bool) (n : ℕ) → flags n ≡ true → set_found o flags n ≡ true
unfolding set_found
set_found-keeps none flags n h = h
set_found-keeps (some id) flags n h = ground arith

-- The names of the command line turn no flag off.
pub init_server_debug-keeps :
    (names : List Text) (flags : ℕ → Bool) (n : ℕ)
    → flags n ≡ true
    → init_server_debug names flags n ≡ true
unfolding init_server_debug
init_server_debug-keeps [] flags n h = h
init_server_debug-keeps (flag ∷ names) flags n h = elim (Bool-cases (text_eq flag (text "all"))) [
  | inl all ↦
      ap
        (λ b.
          (if b
              then set_all_flags flag_max 1 flags
              else init_server_debug names (set_found (find_flag flag_max 1 flag) flags))
            n)
        all
      ∙ set_all_flags-keeps flag_max 1 flags n h
  | inr one ↦
      ap
        (λ b.
          (if b
              then set_all_flags flag_max 1 flags
              else init_server_debug names (set_found (find_flag flag_max 1 flag) flags))
            n)
        one
      ∙ init_server_debug-keeps names _ n (set_found-keeps (find_flag flag_max 1 flag) flags n h)
]
