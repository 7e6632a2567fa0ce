-- ===== src/Agent/Rule/Packing/Tests.antt =====
-- Insertions into a table with one field of eight bits, by the size of its key.
use esnet_smartnic_fw.Base.{List, ℕ, ◌≡◌, refl, true, false, [], ◌∷◌, none, some, inr, arith}
use esnet_smartnic_fw.Text.{text, text_eq}
use esnet_smartnic_fw.Agent.Info.{
  ActionInfo, MatchInfoType, MatchInfo, TableEndian, TableMode, TableInfo, PipelineInfo,
  get_table_info, get_table_action_info, find_by_name,
}
use esnet_smartnic_fw.Agent.Driver.{SnMatch, SnParam, Driver, c_str}
use esnet_smartnic_fw.Agent.Rule.{
  Match, TableRule, parse_match, parse_action_parameter, build_rule, process_rules,
}
use esnet_smartnic_fw.Agent.Rule.Build.{Matches, Params}
use esnet_smartnic_fw.Agent.Rule.Packing.{
  with_packing, to_pack, sent, build_rule-Carries, process_rules-double_free,
}
use esnet_smartnic_fw.Snp4.Gmp.Natural.{natural, natural_laws}
use esnet_smartnic_fw.Snp4.Pack.{Pack}
use esnet_smartnic_fw.Snp4.Pack.Keys.{AllFit, none_left, one_more, Carries}
use esnet_smartnic_fw.Snp4.Pack.Params.{ParamsFit, CarriesParams}
use esnet_smartnic_fw.Snp4.Pack.Params
use esnet_smartnic_fw.Snp4.Pack.Whole.{Conforms}
use esnet_smartnic_fw.Base.Int.{pos, negsuc}
use esnet_smartnic_fw.Agent.Device.{Device}
use esnet_smartnic_fw.Agent.Effect.{Writes}
use esnet_smartnic_fw.Agent.Table.{insert_or_delete_table_rule}
use esnet_smartnic_fw.Agent.Table.Laws.{address, addresses, insert_or_delete_table_rule-addresses}
use esnet_smartnic_fw.Agent.Rule.Codes.{Packs}
use esnet_smartnic_fw.Agent.Example.{Log, example_driver}

abbrev port : MatchInfo
port = record { type = MatchInfoType.constant; bits = 8 }

abbrev send : ActionInfo
send = record {
  name = text "send";
  param_bits = 9;
  params = record { name = text "out"; bits = 9 } ∷ [];
}

abbrev ports : ℕ → TableInfo
ports key_bits = record {
  name = text "ports";
  num_entries = 16;
  endian = TableEndian.big;
  mode = TableMode.bcam;
  num_masks = 0;
  key_bits = key_bits;
  matches = port ∷ [];
  response_bits = 18;
  actionid_bits = 1;
  actions = send ∷ [];
  priority_required = false;
  priority_bits = 0;
}

abbrev info : ℕ → PipelineInfo
info key_bits = record { name = text "main"; tables = ports key_bits ∷ []; counter_blocks = [] }

abbrev rule : TableRule
rule = record {
  table_name = text "ports";
  priority = 0;
  replace = false;
  matches = Match.key_only (text "5") ∷ [];
  action = record { name = text "send"; parameters = text "3" ∷ [] };
}

abbrev driver : Driver ℕ ℕ Log
driver = with_packing natural example_driver

found : (key_bits : ℕ) → get_table_info (info key_bits) (text "ports") ≡ some (ports key_bits)
unfolding get_table_info find_by_name text_eq
found key_bits = refl

named : (key_bits : ℕ) → get_table_action_info (ports key_bits) (text "send") ≡ some send
unfolding get_table_action_info find_by_name text_eq
named key_bits = refl

matches : (key_bits : ℕ) → Matches driver (ports key_bits) rule (SnMatch.key_only 5 ∷ [])
unfolding parse_match c_str
matches key_bits = (refl, (refl, tt))

params : Params driver send rule.action (SnParam.mpz 3 ∷ [])
unfolding parse_action_parameter c_str
params = (refl, (refl, tt))

all_fit : AllFit natural_laws (port ∷ []) (SnMatch.key_only 5 ∷ []) (5 ∷ []) (0xff ∷ [])
all_fit = one_more (refl, refl) (omega arith, omega arith, omega arith, refl) none_left

params_fit : ParamsFit natural_laws send.params (SnParam.mpz 3 ∷ []) (3 ∷ [])
params_fit = Params.one_more refl (omega arith) (omega arith) Params.none_left

conforms : Conforms (ports 8) send
conforms = record {
  fields_fit = omega arith;
  key_positive = omega arith;
  key_bound = omega arith;
  params_fit = omega arith;
  response = omega arith;
  response_bound = omega arith;
}

build_rule-Carries_example :
    (p : Pack) × (build_rule driver true (info 8) rule
      ≡ inr (
        to_pack natural_laws example_driver
            (info 8)
            (ports 8)
            send
            rule
            (SnMatch.key_only 5 ∷ [])
            (SnParam.mpz 3 ∷ [])
            (found 8)
            (named 8)
            (matches 8)
            params,
        sent p,
      ))
    × Carries p.key p.key_len 8 (8 ∷ []) (5 ∷ [])
    × Carries p.mask p.mask_len 8 (8 ∷ []) (0xff ∷ [])
    × CarriesParams natural_laws 9 17 p (9 ∷ []) (3 ∷ [])
build_rule-Carries_example =
    build_rule-Carries natural_laws example_driver (info 8) (ports 8) send rule
      (SnMatch.key_only 5 ∷ []) (SnParam.mpz 3 ∷ []) (found 8) (named 8) (matches 8) params (5 ∷ [])
      (0xff ∷ []) (3 ∷ []) all_fit params_fit conforms

-- A key of two bits for the field of eight.
short_key_crashes : process_rules driver true (info 2) 7 (rule ∷ []) [] ≡ none
short_key_crashes =
    process_rules-double_free natural_laws example_driver (info 2) (ports 2) send rule
      (SnMatch.key_only 5 ∷ []) (SnParam.mpz 3 ∷ []) (found 2) (named 2) (matches 2) params (5 ∷ [])
      (0xff ∷ []) 7 [] [] all_fit refl (omega arith)

-- The same table in the pipeline of a card, and two rules for it, the second for a table that the
-- pipeline does not have.
abbrev cards : List (Device ℕ ℕ ℕ)
cards =
    record {
      bus_id = text "d8:00.0";
      pipelines = record { id = 0; handle = 7; info = info 8; counters = none } ∷ [];
      domains = [];
    }
    ∷ []

abbrev elsewhere : TableRule
elsewhere = record rule { table_name = text "none" }

rule-Packs : Packs driver true (info 8) rule
rule-Packs e =
    let (p, built, keys, masks, parameters) =
      build_rule-Carries natural_laws example_driver (info 8) (ports 8) send rule
        (SnMatch.key_only 5 ∷ []) (SnParam.mpz 3 ∷ []) (found 8) (named 8) (matches 8) params
        (5 ∷ []) (0xff ∷ []) (3 ∷ []) all_fit params_fit conforms in
    absurd cc

elsewhere-Packs : Packs driver true (info 8) elsewhere
unfolding build_rule get_table_info find_by_name text_eq
elsewhere-Packs e = absurd cc

insert_or_delete_table_rule-addresses_example :
    Writes address
      (insert_or_delete_table_rule driver cards
        (record { dev_id = pos 0; pipeline_id = negsuc 0; rules = rule ∷ elsewhere ∷ [] })
        true)
      (addresses cards (pos 0) (negsuc 0))
insert_or_delete_table_rule-addresses_example =
    insert_or_delete_table_rule-addresses driver cards
      (record { dev_id = pos 0; pipeline_id = negsuc 0; rules = rule ∷ elsewhere ∷ [] }) true
      (((rule-Packs, (elsewhere-Packs, tt)), tt), tt)
