-- ===== src/Agent/Example.antt =====
-- A small agent to try the handlers on: one device, one pipeline with one table, and libraries that
-- keep the names of the tables they changed as the state of the hardware.
use esnet_smartnic_fw.Base.{
  ℕ, ◌-◌, true, false, ◌&&◌, List, [], ◌∷◌, map, length, Option, none, some, leb, if◌then◌else◌,
}
use esnet_smartnic_fw.Text.{Text, text, text_eq}
use esnet_smartnic_fw.MatchString.{RegexLibrary}
use esnet_smartnic_fw.Filter.{StatsFilters}
use esnet_smartnic_fw.Agent.Info.{
  CounterType, ActionInfo, MatchInfoType, TableEndian, TableMode, TableInfo, PipelineInfo,
}
use esnet_smartnic_fw.Agent.Driver.{Status, SnParam, SnPack, Driver}
use esnet_smartnic_fw.Agent.Device.{Device, DevicePipeline, State}
use esnet_smartnic_fw.Agent.Rule.{Match, TableRule}
use esnet_smartnic_fw.Agent.Stats.{StatsLibrary}

-- A number of one decimal digit.
abbrev pub digit : Text → Option ℕ
digit [] = none
digit (c ∷ []) = if leb 48 c && leb c 57 then some (c - 48) else none
digit (c ∷ d ∷ cs) = none

abbrev param_value : SnParam ℕ → ℕ
param_value (SnParam.ui n) = n
param_value (SnParam.mpz n) = n
param_value SnParam.unset = 0

abbrev pub Log : Type 0
Log = List Text

abbrev pub pack_of : List ℕ → ℕ → Option (Status × SnPack)
pack_of params n = some (Status.ok, record { key = n ∷ []; mask = 255 ∷ []; params = params })

abbrev pub example_driver : Driver ℕ ℕ Log
example_driver = record {
  log_enable = λ handle enable hw. hw;
  reset_all_tables = λ handle hw. (true, []);
  reset_one_table = λ handle name hw. (true, name ∷ hw);
  rule_pack = λ pi rule. pack_of (map param_value rule.params) (length rule.matches);
  rule_pack_matches = λ infos bits ms. pack_of [] (length ms);
  table_insert_kma = λ handle name pack action priority replace hw. (true, name ∷ hw);
  table_delete_k = λ handle name key mask hw. (false, hw);
  init_set_str = digit;
}

abbrev pub forward : ActionInfo
forward = record {
  name = text "fwd";
  param_bits = 8;
  params = record { name = text "port"; bits = 8 } ∷ [];
}

abbrev pub routes : TableInfo
routes = record {
  name = text "routes";
  num_entries = 16;
  endian = TableEndian.big;
  mode = TableMode.stcam;
  num_masks = 4;
  key_bits = 8;
  matches = record { type = MatchInfoType.ternary; bits = 8 } ∷ [];
  response_bits = 9;
  actionid_bits = 1;
  actions = forward ∷ [];
  priority_required = true;
  priority_bits = 4;
}

abbrev pub pipeline_info : PipelineInfo
pipeline_info = record {
  name = text "main";
  tables = routes ∷ [];
  counter_blocks =
      record {
        name = text "drops";
        type = CounterType.packets_and_bytes;
        width = 64;
        num_counters = 2;
        aliases = some (some (text "full") ∷ none ∷ []);
      }
      ∷ [];
}

abbrev pub pipeline : DevicePipeline ℕ ℕ
pipeline = record { id = 0; handle = 7; info = pipeline_info; counters = some 0 }

abbrev pub device : Device ℕ ℕ ℕ
device = record { bus_id = text "d8:00.0"; pipelines = pipeline ∷ []; domains = 0 ∷ [] }

abbrev pub devices : List (Device ℕ ℕ ℕ)
devices = device ∷ []

abbrev pub rule_to : Text → TableRule
rule_to port = record {
  table_name = text "routes";
  priority = 1;
  replace = false;
  matches = Match.key_mask (text "3") (text "9") ∷ [];
  action = record { name = text "fwd"; parameters = port ∷ [] };
}

abbrev pub initial : State Log
initial = record { flags = λ n. false; hw = [] }

abbrev pub example_library : StatsLibrary ℕ ℕ Log
example_library = record {
  domain_metrics = λ domain hw. ([], text "read" ∷ hw);
  zone_metrics = λ zone hw. ([], hw);
  domain_clear = λ domain filter hw. some hw;
  zone_clear = λ zone filter hw. some hw;
}

abbrev pub example_regex : RegexLibrary
example_regex = record {
  regex_match = λ syntax pattern s. text_eq pattern s;
  regex_split = λ pattern s. s ∷ [];
}

abbrev pub all_filters : StatsFilters
all_filters = record { metric_filter = none; non_zero = false; with_labels = false }
