-- ===== src/Agent/Pipeline.antt =====
-- The handler get_pipeline_info of sn-p4/src/agent/pipeline.cpp: the driver's description of each
-- chosen pipeline as a message.
pub mod Laws
mod Tests
use esnet_smartnic_fw.Base.{ℕ, Bool, List, [], ◌∷◌, map, Option, none, some}
use esnet_smartnic_fw.Base.Int.{ℤ}
use esnet_smartnic_fw.Text.{Text}
use esnet_smartnic_fw.Agent.Errors.{ErrorCode}
use esnet_smartnic_fw.Agent.Effect.{M, write, through}
use esnet_smartnic_fw.Agent.Info.{
  ParamInfo, ActionInfo, MatchInfoType, MatchInfo, TableEndian, TableMode, TableInfo, CounterType,
  CounterBlockInfo, PipelineInfo,
}
use esnet_smartnic_fw.Agent.Device.{Device, DevicePipeline, State}
use esnet_smartnic_fw.Agent.Messages.{Response, respond, BatchOperation, BatchResponse, batched}
use esnet_smartnic_fw.Agent.Ids.{for_pipelines}

pub record PipelineInfoRequest : Type 0 where
  pub dev_id : ℤ
  pub pipeline_id : ℤ

-- The messages of sn_p4_v2.proto that describe a pipeline, their enumerations by number
pub record MatchMessage : Type 0 where
  pub type : ℕ
  pub width : ℕ

pub record ParamMessage : Type 0 where
  pub name : Text
  pub width : ℕ

pub record ActionMessage : Type 0 where
  pub name : Text
  pub width : ℕ
  pub parameters : List ParamMessage

pub record TableMessage : Type 0 where
  pub name : Text
  pub num_entries : ℕ
  pub endian : ℕ
  pub mode : ℕ
  pub num_masks : ℕ
  pub priority_required : Bool
  pub key_width : ℕ
  pub response_width : ℕ
  pub priority_width : ℕ
  pub action_id_width : ℕ
  pub matches : List MatchMessage
  pub actions : List ActionMessage

pub record CounterBlockMessage : Type 0 where
  pub name : Text
  pub type : ℕ
  pub width : ℕ
  pub num_counters : ℕ

pub record PipelineMessage : Type 0 where
  pub name : Text
  pub tables : List TableMessage
  pub counter_blocks : List CounterBlockMessage

-- The switches on the enumerations of the driver; 0 is the value UNKNOWN.
pub endian_number : TableEndian → ℕ
endian_number TableEndian.little = 1
endian_number TableEndian.big = 2
endian_number (TableEndian.other n) = 0

pub mode_number : TableMode → ℕ
mode_number TableMode.bcam = 1
mode_number TableMode.stcam = 2
mode_number TableMode.tcam = 3
mode_number TableMode.dcam = 4
mode_number TableMode.tiny_bcam = 5
mode_number TableMode.tiny_tcam = 6
mode_number (TableMode.other n) = 0

-- `set_num_masks` is called in the case of STCAM only.
pub masks_number : TableMode → ℕ → ℕ
masks_number TableMode.stcam n = n
masks_number _ n = 0

pub match_number : MatchInfoType → ℕ
match_number MatchInfoType.invalid = 0
match_number MatchInfoType.bitfield = 1
match_number MatchInfoType.constant = 2
match_number MatchInfoType.prefix = 3
match_number MatchInfoType.range = 4
match_number MatchInfoType.ternary = 5
match_number MatchInfoType.unused = 6
match_number (MatchInfoType.other n) = 0

pub counter_number : CounterType → ℕ
counter_number CounterType.packets = 1
counter_number CounterType.bytes = 2
counter_number CounterType.packets_and_bytes = 3
counter_number CounterType.flag = 4
counter_number (CounterType.other n) = 0

pub match_message : MatchInfo → MatchMessage
unfolding match_number
match_message mi = record { type = match_number mi.type; width = mi.bits }

pub param_message : ParamInfo → ParamMessage
param_message pi = record { name = pi.name; width = pi.bits }

pub action_message : ActionInfo → ActionMessage
unfolding param_message
action_message ai = record {
  name = ai.name;
  width = ai.param_bits;
  parameters = map param_message ai.params;
}

pub table_message : TableInfo → TableMessage
unfolding endian_number mode_number masks_number match_message action_message
table_message ti = record {
  name = ti.name;
  num_entries = ti.num_entries;
  endian = endian_number ti.endian;
  mode = mode_number ti.mode;
  num_masks = masks_number ti.mode ti.num_masks;
  priority_required = ti.priority_required;
  key_width = ti.key_bits;
  response_width = ti.response_bits;
  priority_width = ti.priority_bits;
  action_id_width = ti.actionid_bits;
  matches = map match_message ti.matches;
  actions = map action_message ti.actions;
}

pub counter_block_message : CounterBlockInfo → CounterBlockMessage
unfolding counter_number
counter_block_message bi = record {
  name = bi.name;
  type = counter_number bi.type;
  width = bi.width;
  num_counters = bi.num_counters;
}

pub pipeline_message : PipelineInfo → PipelineMessage
unfolding table_message counter_block_message
pipeline_message pi = record {
  name = pi.name;
  tables = map table_message pi.tables;
  counter_blocks = map counter_block_message pi.counter_blocks;
}

module _ {Handle Zone Domain Hw : Type 0} (devices : List (Device Handle Zone Domain)) where
  pub get_pipeline_info :
      PipelineInfoRequest → M (State Hw) (Response (Option PipelineMessage)) (Unit {0})
  unfolding for_pipelines pipeline_message
  get_pipeline_info req =
      for_pipelines devices req.dev_id req.pipeline_id (λ err d. respond none err d 0)
        λ d p pipeline. write (respond (some (pipeline_message pipeline.info)) ErrorCode.ok d p)

  unfoldable pub batch_get_pipeline_info :
      PipelineInfoRequest
      → M (State Hw) (BatchResponse (Response (Option PipelineMessage))) (Unit {0})
  unfolding get_pipeline_info
  batch_get_pipeline_info req = through (batched BatchOperation.get) (get_pipeline_info req)
