-- ===== src/Agent/Rule/Tests.antt =====
-- Rules at a small pipeline.
use esnet_smartnic_fw.Base.{ℕ, ◌≡◌, refl, ◌↔◌, inr, true, false, List, [], ◌∷◌, ◌++◌, none, some}
use esnet_smartnic_fw.Text.{text, text_eq}
use esnet_smartnic_fw.Agent.Errors.{ErrorCode}
use esnet_smartnic_fw.Agent.Driver.{Status, SnMatch, SnRule, SnParam}
use esnet_smartnic_fw.Agent.Info.{get_table_info, get_table_action_info, find_by_name}
use esnet_smartnic_fw.Agent.Rule.{
  Match, TableRule, pack_error, next_rule, parse_match, build_rule, process_rule, process_rules,
}
use esnet_smartnic_fw.Agent.Rule.Parsing.{Denotes, parse_match_iff, pack_error_iff}
use esnet_smartnic_fw.Agent.Rule.Build.{InsertsInto, DeletesFrom, build_rule-DeletesFrom}
use esnet_smartnic_fw.Agent.Rule.Built.{build_rule-insert_iff}
use esnet_smartnic_fw.Agent.Rule.Loop.{
  Accepted, FailsAt, process_rules-ok_iff, process_rules-++, process_rules-FailsAt,
}
use esnet_smartnic_fw.Agent.Rule.Driven.{with_action, process_rule-with_action}
use esnet_smartnic_fw.Agent.Example.{example_driver, pipeline_info, rule_to}

pack_error_iff_example :
    (pack_error Status.malloc_fail ≡ ErrorCode.ok) ↔ (Status.malloc_fail ≡ Status.ok)
pack_error_iff_example = pack_error_iff Status.malloc_fail

parse_match_iff_example :
    (parse_match example_driver (Match.key_prefix (text "3") 65535) ≡ inr (SnMatch.prefix 3 65535))
    ↔ Denotes example_driver (Match.key_prefix (text "3") 65535) (SnMatch.prefix 3 65535)
parse_match_iff_example =
    parse_match_iff example_driver (Match.key_prefix (text "3") 65535) (SnMatch.prefix 3 65535)

-- What the rule to port 5 is built to.
abbrev built : SnRule ℕ
built = record {
  table_name = text "routes";
  matches = SnMatch.key_mask 3 9 ∷ [];
  action_name = some (text "fwd");
  params = SnParam.mpz 5 ∷ [];
  priority = 1;
}

abbrev built_delete : SnRule ℕ
built_delete = record {
  table_name = text "routes";
  matches = SnMatch.key_mask 3 9 ∷ [];
  action_name = none;
  params = [];
  priority = 1;
}

insert_built :
    build_rule example_driver true pipeline_info (rule_to (text "5"))
    ≡ inr (built, record { key = 1 ∷ []; mask = 255 ∷ []; params = 5 ∷ [] })
unfolding build_rule get_table_info get_table_action_info find_by_name text_eq
insert_built = refl

delete_built :
    build_rule example_driver false pipeline_info (rule_to (text "5"))
    ≡ inr (built_delete, record { key = 1 ∷ []; mask = 255 ∷ []; params = [] })
unfolding build_rule get_table_info get_table_action_info find_by_name text_eq
delete_built = refl

build_rule-insert_iff_example :
    (build_rule example_driver true pipeline_info (rule_to (text "5"))
      ≡ inr (built, record { key = 1 ∷ []; mask = 255 ∷ []; params = 5 ∷ [] }))
    ↔ InsertsInto example_driver pipeline_info
        (rule_to (text "5"))
        built
        (record { key = 1 ∷ []; mask = 255 ∷ []; params = 5 ∷ [] })
build_rule-insert_iff_example =
    build_rule-insert_iff example_driver pipeline_info (rule_to (text "5")) built
      (record { key = 1 ∷ []; mask = 255 ∷ []; params = 5 ∷ [] })

build_rule-DeletesFrom_example :
    DeletesFrom example_driver pipeline_info
      (rule_to (text "5"))
      built_delete
      (record { key = 1 ∷ []; mask = 255 ∷ []; params = [] })
build_rule-DeletesFrom_example =
    build_rule-DeletesFrom example_driver pipeline_info (rule_to (text "5")) built_delete
      (record { key = 1 ∷ []; mask = 255 ∷ []; params = [] }) delete_built

process_rules-ok_iff_example :
    (process_rules example_driver true pipeline_info 7 (rule_to (text "5") ∷ []) []
      ≡ some (ErrorCode.ok, text "routes" ∷ []))
    ↔ Accepted example_driver true pipeline_info 7 (rule_to (text "5") ∷ []) [] (text "routes" ∷ [])
process_rules-ok_iff_example =
    process_rules-ok_iff example_driver true pipeline_info 7 (rule_to (text "5") ∷ []) []
      (text "routes" ∷ [])

process_rules-++_example :
    process_rules example_driver true pipeline_info 7
      ((rule_to (text "5") ∷ []) ++ rule_to (text "x") ∷ [])
      []
    ≡ next_rule
        (process_rules example_driver true pipeline_info 7 (rule_to (text "5") ∷ []) [])
        (process_rules example_driver true pipeline_info 7 (rule_to (text "x") ∷ []))
process_rules-++_example =
    process_rules-++ example_driver true pipeline_info 7 (rule_to (text "5") ∷ [])
      (rule_to (text "x") ∷ []) []

-- The second of three rules has a parameter that is no number.
abbrev three_rules : List TableRule
three_rules = rule_to (text "5") ∷ rule_to (text "x") ∷ rule_to (text "6") ∷ []

second_fails :
    process_rules example_driver true pipeline_info 7 three_rules []
    ≡ some (ErrorCode.invalid_action_parameter_format, text "routes" ∷ [])
unfolding process_rules get_table_info get_table_action_info find_by_name text_eq
second_fails = refl

process_rules-FailsAt_example :
    FailsAt example_driver true pipeline_info 7 three_rules []
      ErrorCode.invalid_action_parameter_format
      (text "routes" ∷ [])
process_rules-FailsAt_example =
    process_rules-FailsAt example_driver true pipeline_info 7 three_rules []
      ErrorCode.invalid_action_parameter_format (text "routes" ∷ []) (λ e. absurd cc) second_fails

process_rule-with_action_example :
    process_rule example_driver false pipeline_info 7 (rule_to (text "x")) []
    ≡ process_rule example_driver false pipeline_info 7
        (with_action example_driver pipeline_info 7 4 true
          (record { name = text "none"; parameters = [] })
          (rule_to (text "x")))
        []
process_rule-with_action_example =
    process_rule-with_action example_driver pipeline_info 7 (rule_to (text "x")) 4 true
      (record { name = text "none"; parameters = [] }) []
