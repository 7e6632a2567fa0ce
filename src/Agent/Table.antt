-- ===== src/Agent/Table.antt =====
-- The table handlers of sn-p4/src/agent/table.cpp: clear_table, and insert_or_delete_table_rule on
-- all the rules of a request, for each chosen pipeline.
pub mod Laws
mod Tests
use esnet_smartnic_fw.Base.{ℕ, Bool, true, false, List, [], ◌∷◌, Option, none, some}
use esnet_smartnic_fw.Base.Int.{ℤ}
use esnet_smartnic_fw.Text.{Text}
use esnet_smartnic_fw.Agent.Errors.{ErrorCode}
use esnet_smartnic_fw.Agent.Effect.{M, ◌>>=◌, ◌>>◌, call, change, read, write, through}
use esnet_smartnic_fw.Agent.Info.{PipelineInfo, has_table}
use esnet_smartnic_fw.Agent.Driver.{Driver, c_str}
use esnet_smartnic_fw.Agent.Device.{Device, DevicePipeline, State, pipeline_driver_flag}
use esnet_smartnic_fw.Agent.Messages.{Response, respond, BatchOperation, BatchResponse, batched}
use esnet_smartnic_fw.Agent.Ids.{for_pipelines}
use esnet_smartnic_fw.Agent.Rule.{TableRule, finish, process_rules}

pub record TableRequest : Type 0 where
  pub dev_id : ℤ
  pub pipeline_id : ℤ
  pub table_name : Text

pub record TableRuleRequest : Type 0 where
  pub dev_id : ℤ
  pub pipeline_id : ℤ
  pub rules : List TableRule

abbrev pub TableResponse : Type 0
TableResponse = Response (Unit {0})

abbrev pub table_response : ErrorCode → ℕ → ℕ → TableResponse
table_response = respond tt

-- An operation on the hardware, which may not return, and a call of the driver.
pub driven : {Hw R A : Type 0} → (ℕ → Bool) → Option (A × Hw) → Option (State Hw × List R × A)
driven flags none = none
driven flags (some (a, hw)) = some (record { flags = flags; hw = hw }, [], a)

pub driver : {Hw R A : Type 0} → (Hw → Option (A × Hw)) → M (State Hw) R A
unfolding driven
driver f s = driven s.flags (f s.hw)

pub drive : {Hw R : Type 0} → (Hw → Hw) → M (State Hw) R (Unit {0})
drive f s = some (record { flags = s.flags; hw = f s.hw }, [], tt)

module _ {Handle Mpz Hw Zone Domain : Type 0} (drv : Driver Handle Mpz Hw)
    (devices : List (Device Handle Zone Domain)) where
  -- Clearing the named table, by whether the pipeline has it.
  pub clear_named : Handle → Text → Bool → Hw → ErrorCode × Hw
  unfolding finish c_str
  clear_named handle name false hw = (ErrorCode.invalid_table_name, hw)
  clear_named handle name true hw =
      finish ErrorCode.failed_clear_table (drv.reset_one_table handle (c_str name) hw)

  -- The empty name stands for all the tables of the pipeline.
  pub clear_tables : DevicePipeline Handle Zone → Text → Hw → ErrorCode × Hw
  unfolding finish clear_named has_table
  clear_tables pipeline [] hw =
      finish ErrorCode.failed_clear_all_tables (drv.reset_all_tables pipeline.handle hw)
  clear_tables pipeline (c ∷ cs) hw =
      clear_named pipeline.handle (c ∷ cs) (has_table pipeline.info (c ∷ cs)) hw

  -- What both handlers do on a pipeline: the driver's log is on, as the flag says, until after the
  -- response.
  pub on_pipeline :
      (DevicePipeline Handle Zone → Hw → Option (ErrorCode × Hw))
      → Bool
      → ℕ
      → ℕ
      → DevicePipeline Handle Zone
      → M (State Hw) TableResponse (Unit {0})
  unfolding driver drive
  on_pipeline operation log d p pipeline = do
    drive (drv.log_enable pipeline.handle log)
    err ← driver (operation pipeline)
    write (table_response err d p)
    drive (drv.log_enable pipeline.handle false)

  -- What the two handlers share: the log flag, and the loops over devices and pipelines.
  pub on_pipelines :
      (DevicePipeline Handle Zone → Hw → Option (ErrorCode × Hw))
      → ℤ
      → ℤ
      → M (State Hw) TableResponse (Unit {0})
  unfolding for_pipelines on_pipeline
  on_pipelines operation dev_id pipeline_id = do
    log ← read (λ s. s.flags pipeline_driver_flag)
    for_pipelines devices dev_id pipeline_id (λ err d. table_response err d 0)
        (on_pipeline operation log)

  pub clear_table : TableRequest → M (State Hw) TableResponse (Unit {0})
  unfolding on_pipelines clear_tables
  clear_table req =
      on_pipelines (λ pipeline hw. some (clear_tables pipeline req.table_name hw)) req.dev_id
        req.pipeline_id

  pub insert_or_delete_table_rule : TableRuleRequest → Bool → M (State Hw) TableResponse (Unit {0})
  unfolding on_pipelines process_rules
  insert_or_delete_table_rule req do_insert =
      on_pipelines (λ pipeline. process_rules drv do_insert pipeline.info pipeline.handle req.rules)
        req.dev_id req.pipeline_id

  -- The methods of the service, and their forms in a batch.
  pub insert_table_rule : TableRuleRequest → M (State Hw) TableResponse (Unit {0})
  unfolding insert_or_delete_table_rule
  insert_table_rule req = insert_or_delete_table_rule req true

  pub delete_table_rule : TableRuleRequest → M (State Hw) TableResponse (Unit {0})
  unfolding insert_or_delete_table_rule
  delete_table_rule req = insert_or_delete_table_rule req false

  unfoldable pub batch_clear_table :
      TableRequest → M (State Hw) (BatchResponse TableResponse) (Unit {0})
  unfolding clear_table
  batch_clear_table req = through (batched BatchOperation.clear) (clear_table req)

  unfoldable pub batch_insert_table_rule :
      TableRuleRequest → M (State Hw) (BatchResponse TableResponse) (Unit {0})
  unfolding insert_or_delete_table_rule
  batch_insert_table_rule req =
      through (batched BatchOperation.insert) (insert_or_delete_table_rule req true)

  unfoldable pub batch_delete_table_rule :
      TableRuleRequest → M (State Hw) (BatchResponse TableResponse) (Unit {0})
  unfolding insert_or_delete_table_rule
  batch_delete_table_rule req =
      through (batched BatchOperation.delete) (insert_or_delete_table_rule req false)
