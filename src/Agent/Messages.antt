-- ===== src/Agent/Messages.antt =====
-- Messages that several handlers share (protobuf/sn-p4-proto/sn_p4_v2.proto): what each answers, and
-- the operations of a batch.
use esnet_smartnic_fw.Base.{ℕ}
use esnet_smartnic_fw.Agent.Errors.{ErrorCode}

-- TableResponse, TableRuleResponse, PipelineInfoResponse and PipelineStatsResponse: a code, the
-- address, and what the response carries.
pub record Response (A : Type 0) : Type 0 where
  pub error_code : ErrorCode
  pub dev_id : ℕ
  pub pipeline_id : ℕ
  pub body : A

abbrev pub respond : {A : Type 0} → A → ErrorCode → ℕ → ℕ → Response A
respond a err d p = record { error_code = err; dev_id = d; pipeline_id = p; body = a }

pub data BatchOperation : Type 0 where
  unknown get set clear insert delete : BatchOperation
  other : ℕ → BatchOperation

-- BatchResponse, with the response of the operation in its `item`
pub record BatchResponse (A : Type 0) : Type 0 where
  pub error_code : ErrorCode
  pub op : BatchOperation
  pub item : A

abbrev pub batched : {A : Type 0} → BatchOperation → A → BatchResponse A
batched op a = record { error_code = ErrorCode.ok; op = op; item = a }
