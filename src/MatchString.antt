-- ===== src/MatchString.antt =====
-- The string matches of a statistics filter: the functions apply_metric_filter_match_string* of
-- sn-p4/src/agent/stats.cpp (and sn-cfg's copy), over the messages StringRegexp and
-- StatsMetricMatchString.
pub mod Laws
mod Tests
use esnet_smartnic_fw.Base.{
  ℕ, zero, suc, ◌+◌, ◌-◌, Bool, true, false, not, ◌&&◌, ◌||◌, List, [], ◌∷◌, length, leb, ltb, ◌==◌,
  if◌then◌else◌,
}
use esnet_smartnic_fw.Text.{Text, text_eq, compare_at, find}

-- `other` is a number that the enumeration does not name: its fields are open.
pub data StringRegexpGrammar : Type 0 where
  unknown ecma_script basic_posix extended_posix awk grep egrep : StringRegexpGrammar
  other : ℕ → StringRegexpGrammar

-- regex_constants::syntax_option_type
pub data Syntax : Type 0 where
  ecma basic extended awk grep egrep : Syntax

-- std::regex, for patterns that it accepts: whether a pattern matches a whole string, and the parts
-- of a string between the matches of a pattern.
pub record RegexLibrary : Type 0 where
  pub regex_match : Syntax → Text → Text → Bool
  pub regex_split : Text → Text → List Text

mutual
  pub data MatchString : Type 0 where
    exact prefix suffix substring : Text → MatchString
    regexp : StringRegexpGrammar → Text → MatchString
    split : (pattern : Text) (any : Bool) → Part → MatchString
    method_not_set : MatchString

  pub data Part : Type 0 where
    part : (negated : Bool) → PartTerm → Part

  pub data PartTerm : Type 0 where
    match : PartMatch → PartTerm
    any_set all_set : Parts → PartTerm
    term_not_set : PartTerm

  pub data PartMatch : Type 0 where
    value : MatchString → PartMatch
    index : ℕ → PartMatch
    attribute_not_set : PartMatch

  pub data Parts : Type 0 where
    nil : Parts
    cons : Part → Parts → Parts

pub members_size : Parts → ℕ
members_size nil = 0
members_size (cons m ms) = suc (members_size ms)

pub syntax_of : StringRegexpGrammar → Syntax
syntax_of StringRegexpGrammar.basic_posix = Syntax.basic
syntax_of StringRegexpGrammar.extended_posix = Syntax.extended
syntax_of StringRegexpGrammar.awk = Syntax.awk
syntax_of StringRegexpGrammar.grep = Syntax.grep
syntax_of StringRegexpGrammar.egrep = Syntax.egrep
syntax_of grammar = Syntax.ecma

pub match_exact : Text → Text → Bool
match_exact e str = text_eq e str

pub match_prefix : Text → Text → Bool
match_prefix p str = leb (length p) (length str) && compare_at str 0 (length p) p

pub match_suffix : Text → Text → Bool
match_suffix p str =
    leb (length p) (length str) && compare_at str (length str - length p) (length p) p

pub match_substring : Text → Text → Bool
match_substring sub str = leb (length sub) (length str) && find str sub

-- The loop over the parts of a split; `hit` is the match of one part at its index.
pub split_loop : (Text → ℕ → Bool) → Bool → List Text → ℕ → Bool
split_loop hit any [] i = not any && ltb 0 i
split_loop hit any (str ∷ parts) i =
    let rest = split_loop hit any parts (i + 1) in
    if any && hit str i then true else if not any && not (hit str i) then false else rest

module _ (re : RegexLibrary) where
  pub match_regexp : StringRegexpGrammar → Text → Text → Bool
  unfolding syntax_of
  match_regexp grammar pattern str = re.regex_match (syntax_of grammar) pattern str

  mutual
    pub match_string : MatchString → Text → Bool
    match_string (exact s) str = match_exact s str
    match_string (prefix s) str = match_prefix s str
    match_string (suffix s) str = match_suffix s str
    match_string (substring s) str = match_substring s str
    match_string (regexp grammar pattern) str = match_regexp grammar pattern str
    match_string (split pattern any p) str =
        split_loop (match_part p) any (re.regex_split pattern str) 0
    match_string method_not_set str = true

    pub match_part : Part → Text → ℕ → Bool
    match_part (part negated t) str i =
        let ok = match_part_term t str i in if negated then not ok else ok

    pub match_part_term : PartTerm → Text → ℕ → Bool
    match_part_term (match m) str i = match_part_attr m str i
    match_part_term (any_set ms) str i = match_any ms str i (ltb (members_size ms) 1)
    match_part_term (all_set ms) str i = match_all ms str i true
    match_part_term term_not_set str i = true

    pub match_part_attr : PartMatch → Text → ℕ → Bool
    match_part_attr (value m) str i = match_string m str
    match_part_attr (index n) str i = n == i
    match_part_attr attribute_not_set str i = true

    -- The loop over `any_set`, left as soon as `ok` is true.
    pub match_any : Parts → Text → ℕ → Bool → Bool
    match_any nil str i ok = ok
    match_any (cons m ms) str i ok =
        let ok' = ok || match_part m str i in
        let rest = match_any ms str i ok' in if ok' then ok' else rest

    -- The loop over `all_set`, left as soon as `ok` is false.
    pub match_all : Parts → Text → ℕ → Bool → Bool
    match_all nil str i ok = ok
    match_all (cons m ms) str i ok =
        let ok' = ok && match_part m str i in
        let rest = match_all ms str i ok' in if ok' then rest else ok'
