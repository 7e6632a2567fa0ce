-- ===== src/MatchString/Tests.antt =====
-- The string matches at concrete strings.
use esnet_smartnic_fw.Base.{◌≡◌, true, false, ◌↔◌, List, [], ◌∷◌}
use esnet_smartnic_fw.Text.{Text, text, text_eq}
use esnet_smartnic_fw.MatchString.{
  RegexLibrary, MatchString, Part, PartTerm, PartMatch, match_string,
}
use esnet_smartnic_fw.MatchString.Laws.{Matches, match_string-Matches}

-- A library with literal patterns only, which splits a string at each character.
abbrev chars : Text → List Text
chars [] = []
chars (c ∷ cs) = (c ∷ []) ∷ chars cs

abbrev literal_regex : RegexLibrary
literal_regex = record {
  regex_match = λ syntax pattern s. text_eq pattern s;
  regex_split = λ pattern s. chars s;
}

abbrev split_match : MatchString
split_match =
    MatchString.split (text "_") true
      (Part.part false (PartTerm.match (PartMatch.value (MatchString.exact (text "b")))))

match_string-Matches_example :
    (match_string literal_regex split_match (text "abc") ≡ true)
    ↔ Matches literal_regex split_match (text "abc")
match_string-Matches_example = match_string-Matches literal_regex split_match (text "abc")
