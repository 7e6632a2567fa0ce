-- ===== src/Agent/Batch.antt =====
-- The method Batch (sn-p4/src/agent/batch.cpp): a stream of requests, each of which goes to the
-- handler for its item and its operation.
pub mod Laws
mod Tests
use esnet_smartnic_fw.Base.{ℕ, Bool, true, false, List, [], ◌∷◌, Option, none, some}
use esnet_smartnic_fw.MatchString.{RegexLibrary}
use esnet_smartnic_fw.Metrics.{Metric}
use esnet_smartnic_fw.Agent.Errors.{ErrorCode}
use esnet_smartnic_fw.Agent.Effect.{M, ◌>>=◌, ◌>>◌, pure, write, through}
use esnet_smartnic_fw.Agent.Driver.{Driver}
use esnet_smartnic_fw.Agent.Device.{Device, State}
use esnet_smartnic_fw.Agent.Messages.{Response, BatchOperation, BatchResponse, batched}
use esnet_smartnic_fw.Agent.Table.{
  TableRequest, TableRuleRequest, TableResponse, batch_clear_table, batch_insert_table_rule,
  batch_delete_table_rule,
}
use esnet_smartnic_fw.Agent.Stats.{
  StatsLibrary, StatsRequest, StatsResponse, PipelineStatsRequest, batch_stats,
  batch_pipeline_stats,
}
use esnet_smartnic_fw.Agent.Pipeline.{PipelineInfoRequest, PipelineMessage, batch_get_pipeline_info}
use esnet_smartnic_fw.Agent.Server.{
  ServerConfigRequest, ServerConfigResponse, ServerStatusResponse, Timespec,
  batch_get_server_config, batch_set_server_config, batch_get_server_status,
}

-- The item of a BatchRequest, and that of a BatchResponse. The request and the response about a
-- device are types of the caller, since what fills them is not code of the repository.
pub data RequestItem (D : Type 0) : Type 0 where
  device_info : D → RequestItem D
  pipeline_info : PipelineInfoRequest → RequestItem D
  pipeline_stats : PipelineStatsRequest → RequestItem D
  table : TableRequest → RequestItem D
  table_rule : TableRuleRequest → RequestItem D
  stats : StatsRequest → RequestItem D
  server_status : RequestItem D
  server_config : ServerConfigRequest → RequestItem D
  not_set : RequestItem D

pub data ResponseItem (D : Type 0) : Type 0 where
  device_info : D → ResponseItem D
  pipeline_info : Response (Option PipelineMessage) → ResponseItem D
  pipeline_stats : Response (Option (List Metric)) → ResponseItem D
  table : TableResponse → ResponseItem D
  table_rule : TableResponse → ResponseItem D
  stats : StatsResponse → ResponseItem D
  server_status : ServerStatusResponse → ResponseItem D
  server_config : ServerConfigResponse → ResponseItem D
  not_set : ResponseItem D

pub record BatchRequest (D : Type 0) : Type 0 where
  pub op : BatchOperation
  pub item : RequestItem D

-- A response with its item set.
abbrev pub with_item :
    {A D : Type 0} → (A → ResponseItem D) → BatchResponse A → BatchResponse (ResponseItem D)
with_item f r = record { error_code = r.error_code; op = r.op; item = f r.item }

-- error_resp
pub error_resp :
    {S D : Type 0} → ErrorCode → BatchOperation → M S (BatchResponse (ResponseItem D)) (Unit {0})
error_resp err op = write (record { error_code = err; op = op; item = ResponseItem.not_set })

-- What the server works with: the libraries, the devices, the handler for device information, and
-- the times.
pub record Context (Handle Mpz Zone Domain Hw D E : Type 0) : Type 0 where
  pub driver : Driver Handle Mpz Hw
  pub library : StatsLibrary Zone Domain Hw
  pub regex : RegexLibrary
  pub fuel : ℕ
  pub devices : List (Device Handle Zone Domain)
  pub get_device_info : D → M (State Hw) E (Unit {0})
  pub start_wall : Timespec
  pub start_mono : Timespec
  pub now : Option Timespec

module _ {Handle Mpz Zone Domain Hw D E : Type 0} (c : Context Handle Mpz Zone Domain Hw D E) where
  pub batch_get_device_info : D → M (State Hw) (BatchResponse E) (Unit {0})
  batch_get_device_info req = through (batched BatchOperation.get) (c.get_device_info req)

  -- The two switches of the loop body.
  pub dispatch :
      RequestItem D → BatchOperation → M (State Hw) (BatchResponse (ResponseItem E)) (Unit {0})
  unfolding error_resp batch_get_device_info
  dispatch (RequestItem.device_info req) BatchOperation.get =
      through (with_item ResponseItem.device_info) (batch_get_device_info req)
  dispatch (RequestItem.pipeline_info req) BatchOperation.get =
      through (with_item ResponseItem.pipeline_info) (batch_get_pipeline_info c.devices req)
  dispatch (RequestItem.pipeline_stats req) BatchOperation.get =
      through (with_item ResponseItem.pipeline_stats)
        (batch_pipeline_stats c.regex c.fuel c.library c.devices req false)
  dispatch (RequestItem.pipeline_stats req) BatchOperation.clear =
      through (with_item ResponseItem.pipeline_stats)
        (batch_pipeline_stats c.regex c.fuel c.library c.devices req true)
  dispatch (RequestItem.table req) BatchOperation.clear =
      through (with_item ResponseItem.table) (batch_clear_table c.driver c.devices req)
  dispatch (RequestItem.table_rule req) BatchOperation.insert =
      through (with_item ResponseItem.table_rule) (batch_insert_table_rule c.driver c.devices req)
  dispatch (RequestItem.table_rule req) BatchOperation.delete =
      through (with_item ResponseItem.table_rule) (batch_delete_table_rule c.driver c.devices req)
  dispatch (RequestItem.stats req) BatchOperation.get =
      through (with_item ResponseItem.stats)
        (batch_stats c.regex c.fuel c.library c.devices req false)
  dispatch (RequestItem.stats req) BatchOperation.clear =
      through (with_item ResponseItem.stats)
        (batch_stats c.regex c.fuel c.library c.devices req true)
  dispatch RequestItem.server_status BatchOperation.get =
      through (with_item ResponseItem.server_status)
        (batch_get_server_status c.start_wall c.start_mono c.now)
  dispatch (RequestItem.server_config req) BatchOperation.get =
      through (with_item ResponseItem.server_config) (batch_get_server_config req)
  dispatch (RequestItem.server_config req) BatchOperation.set =
      through (with_item ResponseItem.server_config) (batch_set_server_config req)
  dispatch RequestItem.not_set op = error_resp ErrorCode.unknown_batch_request op
  dispatch item op = error_resp ErrorCode.unknown_batch_op op

  -- The loop, until the stream of requests ends.
  pub batch : List (BatchRequest D) → M (State Hw) (BatchResponse (ResponseItem E)) (Unit {0})
  unfolding dispatch
  batch [] = pure tt
  batch (req ∷ reqs) = dispatch req.item req.op >> batch reqs
