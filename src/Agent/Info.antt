-- ===== src/Agent/Info.antt =====
-- The description of a pipeline that the driver library gives (libsnp4/include/snp4.h), and the
-- lookups in it of sn-p4/src/agent/pipeline.cpp.
pub mod Laws
use esnet_smartnic_fw.Base.{
  ℕ, Bool, true, false, List, [], ◌∷◌, Option, none, some, length, if◌then◌else◌,
}
use esnet_smartnic_fw.Text.{Text, text_eq}

pub record ParamInfo : Type 0 where
  pub name : Text
  pub bits : ℕ

pub record ActionInfo : Type 0 where
  pub name : Text
  pub param_bits : ℕ
  pub params : List ParamInfo

-- snp4_info_match_type; here and below `other` is a value that the enumeration does not name.
pub data MatchInfoType : Type 0 where
  invalid bitfield constant prefix range ternary unused : MatchInfoType
  other : ℕ → MatchInfoType

pub record MatchInfo : Type 0 where
  pub type : MatchInfoType
  pub bits : ℕ

pub data TableEndian : Type 0 where
  little big : TableEndian
  other : ℕ → TableEndian

pub data TableMode : Type 0 where
  bcam stcam tcam dcam tiny_bcam tiny_tcam : TableMode
  other : ℕ → TableMode

-- `num_matches` and `num_actions` are the lengths of the lists.
pub record TableInfo : Type 0 where
  pub name : Text
  pub num_entries : ℕ
  pub endian : TableEndian
  pub mode : TableMode
  pub num_masks : ℕ
  pub key_bits : ℕ
  pub matches : List MatchInfo
  pub response_bits : ℕ
  pub actionid_bits : ℕ
  pub actions : List ActionInfo
  pub priority_required : Bool
  pub priority_bits : ℕ

pub data CounterType : Type 0 where
  packets bytes packets_and_bytes flag : CounterType
  other : ℕ → CounterType

pub record CounterBlockInfo : Type 0 where
  pub name : Text
  pub type : CounterType
  pub width : ℕ
  pub num_counters : ℕ
  pub aliases : Option (List (Option Text))

pub record PipelineInfo : Type 0 where
  pub name : Text
  pub tables : List TableInfo
  pub counter_blocks : List CounterBlockInfo

-- The three lookups are one loop: the first entry of a name.
unfoldable pub find_by_name : {A : Type 0} → (A → Text) → List A → Text → Option A
find_by_name name_of [] name = none
find_by_name name_of (x ∷ xs) name =
    let rest = find_by_name name_of xs name in if text_eq (name_of x) name then some x else rest

unfoldable pub get_table_info : PipelineInfo → Text → Option TableInfo
unfolding find_by_name
get_table_info pi name = find_by_name (λ t. t.name) pi.tables name

unfoldable pub get_table_action_info : TableInfo → Text → Option ActionInfo
unfolding find_by_name
get_table_action_info ti name = find_by_name (λ a. a.name) ti.actions name

pub get_counter_block_info : PipelineInfo → Text → Option CounterBlockInfo
unfolding find_by_name
get_counter_block_info pi name = find_by_name (λ b. b.name) pi.counter_blocks name

-- `!= NULL`
abbrev pub is_found : {A : Type 0} → Option A → Bool
is_found none = false
is_found (some a) = true

unfoldable pub has_table : PipelineInfo → Text → Bool
unfolding get_table_info
has_table pi name = is_found (get_table_info pi name)

pub has_table_action : TableInfo → Text → Bool
unfolding get_table_action_info
has_table_action ti name = is_found (get_table_action_info ti name)

pub has_counter_block : PipelineInfo → Text → Bool
unfolding get_counter_block_info
has_counter_block pi name = is_found (get_counter_block_info pi name)
