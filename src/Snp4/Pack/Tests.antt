-- ===== src/Snp4/Pack/Tests.antt =====
-- The packing at a small table: an 8-bit exact field and a 12-bit prefix field.
use esnet_smartnic_fw.Base.{ℕ, ◌≡◌, refl, ◌↔◌, false, [], ◌∷◌, none, some, arith}
use esnet_smartnic_fw.Text.{text, text_eq}
use esnet_smartnic_fw.Word.{test_bit}
use esnet_smartnic_fw.Agent.Info.{
  ActionInfo, MatchInfoType, MatchInfo, TableEndian, TableMode, TableInfo, PipelineInfo,
  find_by_name,
}
use esnet_smartnic_fw.Agent.Driver.{Status, SnMatch, SnParam, SnRule}
use esnet_smartnic_fw.Snp4.Gmp.Natural.{natural, natural_laws, bytes_of, size_in_base_2, first_bit}
use esnet_smartnic_fw.Snp4.Pack.{
  Buffer, Pack, pack_init, padded_bytes, write_at, pad_bytes, get_table_by_name, get_action_by_name,
  rule_pack_matches, rule_pack,
}
use esnet_smartnic_fw.Snp4.Pack.Fields.{PacksTo, Fits}
use esnet_smartnic_fw.Snp4.Pack.Accepts.{pack_partial_key_mask_iff}
use esnet_smartnic_fw.Snp4.Pack.Keys.{AllFit, none_left, one_more, Carries}
use esnet_smartnic_fw.Snp4.Pack.Params.{ParamsFit, param_widths, CarriesParams}
use esnet_smartnic_fw.Snp4.Pack.Params
use esnet_smartnic_fw.Snp4.Pack.Whole.{Conforms, rule_pack-Carries, rule_pack-double_free}

abbrev port : MatchInfo
port = record { type = MatchInfoType.constant; bits = 8 }

abbrev network : MatchInfo
network = record { type = MatchInfoType.prefix; bits = 12 }

pack_partial_key_mask_iff_example :
    PacksTo natural_laws network (SnMatch.prefix 0xab0 8) 0xab0 0xff0 ↔ Fits network 0xab0 0xff0
pack_partial_key_mask_iff_example =
    pack_partial_key_mask_iff natural_laws network (SnMatch.prefix 0xab0 8) 0xab0 0xff0
      (refl, omega arith, refl)

abbrev send : ActionInfo
send = record {
  name = text "send";
  param_bits = 9;
  params = record { name = text "out"; bits = 9 } ∷ [];
}

abbrev routes : ℕ → TableInfo
routes key_bits = record {
  name = text "routes";
  num_entries = 16;
  endian = TableEndian.big;
  mode = TableMode.tcam;
  num_masks = 0;
  key_bits = key_bits;
  matches = port ∷ network ∷ [];
  response_bits = 18;
  actionid_bits = 1;
  actions = send ∷ [];
  priority_required = false;
  priority_bits = 0;
}

abbrev info : ℕ → PipelineInfo
info key_bits = record { name = text "main"; tables = routes key_bits ∷ []; counter_blocks = [] }

abbrev rule : SnRule ℕ
rule = record {
  table_name = text "routes";
  matches = SnMatch.key_only 0xc5 ∷ SnMatch.prefix 0xab0 8 ∷ [];
  action_name = some (text "send");
  params = SnParam.mpz 0x123 ∷ [];
  priority = 0;
}

found : (key_bits : ℕ) → get_table_by_name (info key_bits) (text "routes") ≡ some (routes key_bits)
unfolding get_table_by_name find_by_name text_eq
found key_bits = refl

action : (key_bits : ℕ) → get_action_by_name (routes key_bits) (some (text "send")) ≡ some send
unfolding get_action_by_name find_by_name text_eq
action key_bits = refl

-- Two fields of two bits in one byte.
abbrev two_bits : MatchInfo
two_bits = record { type = MatchInfoType.prefix; bits = 2 }

packed :
    rule_pack_matches natural
      (two_bits ∷ two_bits ∷ [])
      4
      (SnMatch.key_only 1 ∷ SnMatch.prefix 2 1 ∷ [])
      pack_init
    ≡ some (
      Status.ok,
      record {
        key = Buffer.live (0b0110 ∷ []);
        key_len = 1;
        mask = Buffer.live (0b1110 ∷ []);
        mask_len = 1;
        params = Buffer.null;
        params_len = 0;
      },
    )
unfolding rule_pack_matches test_bit bytes_of size_in_base_2 first_bit pack_init padded_bytes
    write_at pad_bytes
packed = refl

all_fit :
    AllFit natural_laws (port ∷ network ∷ []) rule.matches (0xc5 ∷ 0xab0 ∷ []) (0xff ∷ 0xff0 ∷ [])
all_fit =
    one_more (refl, refl) (omega arith, omega arith, omega arith, refl)
      (one_more (refl, omega arith, refl)
        (omega arith, omega arith, omega arith, (8, omega arith, refl)) none_left)

params_fit : ParamsFit natural_laws send.params rule.params (0x123 ∷ [])
params_fit = Params.one_more refl (omega arith) (omega arith) Params.none_left

conforms : Conforms (routes 20) send
conforms = record {
  fields_fit = omega arith;
  key_positive = omega arith;
  key_bound = omega arith;
  params_fit = omega arith;
  response = omega arith;
  response_bound = omega arith;
}

rule_pack-Carries_example :
    (p : Pack) × (rule_pack natural (info 20) rule ≡ some (Status.ok, p))
    × Carries p.key p.key_len 20 (8 ∷ 12 ∷ []) (0xc5 ∷ 0xab0 ∷ [])
    × Carries p.mask p.mask_len 20 (8 ∷ 12 ∷ []) (0xff ∷ 0xff0 ∷ [])
    × CarriesParams natural_laws 9 17 p (9 ∷ []) (0x123 ∷ [])
rule_pack-Carries_example =
    rule_pack-Carries natural_laws (info 20) rule (routes 20) send (found 20) (action 20)
      (0xc5 ∷ 0xab0 ∷ []) (0xff ∷ 0xff0 ∷ []) (0x123 ∷ []) all_fit params_fit conforms

-- The same fields in a table that claims a key of 16 bits.
rule_pack-double_free_example : rule_pack natural (info 16) rule ≡ none
rule_pack-double_free_example =
    rule_pack-double_free natural_laws (info 16) rule (routes 16) send (found 16) (action 16)
      (0xc5 ∷ 0xab0 ∷ []) (0xff ∷ 0xff0 ∷ []) all_fit refl (omega arith)
