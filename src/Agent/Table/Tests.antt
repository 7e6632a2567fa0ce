-- ===== src/Agent/Table/Tests.antt =====
-- The table handlers at the small agent.
use esnet_smartnic_fw.Base.{◌≡◌, refl, true, List, [], ◌∷◌}
use esnet_smartnic_fw.Base.Int.{pos, negsuc}
use esnet_smartnic_fw.Text.{text}
use esnet_smartnic_fw.Agent.Effect.{Writes}
use esnet_smartnic_fw.Agent.Rule.{TableRule, process_rules}
use esnet_smartnic_fw.Agent.Table.{TableRequest, clear_table, insert_or_delete_table_rule}
use esnet_smartnic_fw.Agent.Table.Laws.{
  address, addresses, logged, clear_table-addresses, insert_or_delete_table_rule-one,
}
use esnet_smartnic_fw.Agent.Example.{example_driver, devices, device, pipeline, rule_to, initial}

-- All devices, and a pipeline that none has.
abbrev clear_request : TableRequest
clear_request = record { dev_id = negsuc 0; pipeline_id = pos 3; table_name = text "routes" }

abbrev two_rules : List TableRule
two_rules = rule_to (text "5") ∷ rule_to (text "x") ∷ []

clear_table-addresses_example :
    Writes address
      (clear_table example_driver devices clear_request)
      (addresses devices (negsuc 0) (pos 3))
clear_table-addresses_example = clear_table-addresses example_driver devices clear_request

insert_or_delete_table_rule-one_example :
    insert_or_delete_table_rule example_driver devices
      (record { dev_id = pos 0; pipeline_id = pos 0; rules = two_rules })
      true
      initial
    ≡ logged example_driver devices 0 0 pipeline initial
        (process_rules example_driver true pipeline.info pipeline.handle two_rules [])
insert_or_delete_table_rule-one_example =
    insert_or_delete_table_rule-one example_driver devices 0 0 two_rules true device pipeline
      initial refl refl
