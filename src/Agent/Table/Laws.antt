-- ===== src/Agent/Table/Laws.antt =====
-- The responses of the table handlers, and what they do on one pipeline.
use esnet_smartnic_fw.Base.{
  All, Option, none, ℕ, ◌≡◌, refl, ap, ◌∙◌, Bool, true, false, List, [], ◌∷◌, get_elem?, some,
}
use esnet_smartnic_fw.Base.Int.{ℤ, pos}
use esnet_smartnic_fw.Text.{Text}
use esnet_smartnic_fw.Agent.Errors.{ErrorCode}
use esnet_smartnic_fw.Agent.Effect.{Writes, M, Writes-read, prepend, continue, pure, write, ◌>>◌}
use esnet_smartnic_fw.Agent.Driver.{Driver}
use esnet_smartnic_fw.Agent.Device.{Device, DevicePipeline, State, pipeline_driver_flag}
use esnet_smartnic_fw.Agent.Messages.{Response}
use esnet_smartnic_fw.Agent.Ids.{for_pipelines}
use esnet_smartnic_fw.Agent.Ids.Laws.{
  each_pipeline, for_pipelines-Writes, for_selected-pos, All-get_elem?,
}
use esnet_smartnic_fw.Agent.Rule.{TableRule, process_rules}
use esnet_smartnic_fw.Agent.Rule.Codes.{is_address_error, finish-code, Packs, process_rules-code}
use esnet_smartnic_fw.Agent.Table.{
  TableRequest, TableRuleRequest, table_response, driver, driven, drive, TableResponse, clear_named,
  clear_tables, on_pipeline, on_pipelines, clear_table, insert_or_delete_table_rule,
}

-- What a response is about.
pub data Address : Type 0 where
  no_device : Address
  no_pipeline : ℕ → Address
  at_pipeline : ℕ → ℕ → Address

abbrev pub address_of : ErrorCode → ℕ → ℕ → Address
address_of ErrorCode.invalid_device_id d p = no_device
address_of ErrorCode.invalid_pipeline_id d p = no_pipeline d
address_of _ d p = at_pipeline d p

abbrev pub address : {A : Type 0} → Response A → Address
address r = address_of r.error_code r.dev_id r.pipeline_id

address_of-fine :
    (err : ErrorCode) (d p : ℕ)
    → is_address_error err ≡ false
    → address_of err d p ≡ at_pipeline d p
address_of-fine ErrorCode.invalid_device_id d p h = absurd cc
address_of-fine ErrorCode.invalid_pipeline_id d p h = absurd cc
address_of-fine err d p h = refl

-- One response for each pipeline asked for, and one for each device or pipeline that does not exist.
abbrev pub addresses : {H Z D : Type 0} → List (Device H Z D) → ℤ → ℤ → List Address
addresses devices dev_id pipeline_id =
    each_pipeline devices dev_id pipeline_id (λ err d. address_of err d 0)
      (λ d p pipeline. at_pipeline d p ∷ [])

-- An operation that ends on all hardware, with a code that is not about the address.
abbrev EndsFine : {Hw : Type 0} → (Hw → Option (ErrorCode × Hw)) → Type 0
EndsFine {Hw} operation =
    (hw : Hw)
    → (err : ErrorCode) × (hw' : Hw) × (operation hw ≡ some (err, hw'))
      × (is_address_error err ≡ false)

module _ {Handle Mpz Hw Zone Domain : Type 0} (drv : Driver Handle Mpz Hw)
    (devices : List (Device Handle Zone Domain)) where
  on_pipeline-Writes :
      (operation : DevicePipeline Handle Zone → Hw → Option (ErrorCode × Hw)) (log : Bool) (d p : ℕ)
      (pipeline : DevicePipeline Handle Zone)
      → EndsFine (operation pipeline)
      → Writes address (on_pipeline drv devices operation log d p pipeline) (at_pipeline d p ∷ [])
  unfolding on_pipeline driver driven drive
  on_pipeline-Writes operation log d p pipeline h s =
      let hw = drv.log_enable pipeline.handle log s.hw in
      let (err, hw', e, fine) = h hw in
      let after : ErrorCode → M (State Hw) TableResponse (Unit {0}) =
        λ err'. write (table_response err' d p) >> drive (drv.log_enable pipeline.handle false) in
      (
        _,
        _,
        _,
        ap (λ o. prepend [] (continue (driven s.flags o) after)) e,
        ap (λ a. a ∷ []) (address_of-fine err d p fine),
      )

  clear_named-code :
      (handle : Handle) (name : Text) (b : Bool) (hw : Hw)
      → is_address_error (clear_named drv devices handle name b hw).0 ≡ false
  unfolding clear_named
  clear_named-code handle name false hw = refl
  clear_named-code handle name true hw =
      finish-code ErrorCode.failed_clear_table (drv.reset_one_table handle _ hw) refl

  clear_tables-code :
      (pipeline : DevicePipeline Handle Zone) (name : Text) (hw : Hw)
      → is_address_error (clear_tables drv devices pipeline name hw).0 ≡ false
  unfolding clear_tables
  clear_tables-code pipeline [] hw =
      finish-code ErrorCode.failed_clear_all_tables (drv.reset_all_tables pipeline.handle hw) refl
  clear_tables-code pipeline (c ∷ cs) hw = clear_named-code pipeline.handle (c ∷ cs) _ hw

  on_pipelines-Writes :
      (operation : DevicePipeline Handle Zone → Hw → Option (ErrorCode × Hw))
      (dev_id pipeline_id : ℤ)
      → ((d p : ℕ) (dev : Device Handle Zone Domain) (pipeline : DevicePipeline Handle Zone)
          → get_elem? devices d ≡ some dev
          → get_elem? dev.pipelines p ≡ some pipeline
          → EndsFine (operation pipeline))
      → Writes address
          (on_pipelines drv devices operation dev_id pipeline_id)
          (addresses devices dev_id pipeline_id)
  unfolding on_pipelines
  on_pipelines-Writes operation dev_id pipeline_id h =
      Writes-read address (λ s. s.flags pipeline_driver_flag) _
        (addresses devices dev_id pipeline_id)
        λ log.
          for_pipelines-Writes address devices dev_id pipeline_id (λ err d. table_response err d 0)
            (on_pipeline drv devices operation log) (λ d p pipeline. at_pipeline d p ∷ [])
            λ d p dev pipeline e e'.
              on_pipeline-Writes operation log d p pipeline (h d p dev pipeline e e')

  -- From every state, clear_table ends, and writes one response for each pipeline that the request
  -- asks for, in order, and one that says so where the device or the pipeline does not exist: a bad
  -- device index ends the request, a bad pipeline index only the work on that device.
  pub clear_table-addresses :
      (req : TableRequest)
      → Writes address (clear_table drv devices req) (addresses devices req.dev_id req.pipeline_id)
  unfolding clear_table
  clear_table-addresses req =
      on_pipelines-Writes
        (λ pipeline hw. some (clear_tables drv devices pipeline req.table_name hw)) req.dev_id
        req.pipeline_id
        λ d p dev pipeline e e' hw. (_, _, refl, clear_tables-code pipeline req.table_name hw)

  -- On every pipeline of every device, the packing of each rule returns, where it comes to it.
  abbrev pub AllPack : Bool → List TableRule → Type 0
  AllPack do_insert rules =
      All
        (λ (dev : Device Handle Zone Domain).
          All (λ pipeline. All (Packs drv do_insert pipeline.info) rules) dev.pipelines)
        devices

  -- If on every pipeline the packing of each rule returns, with whatever status, then
  -- insert_or_delete_table_rule ends from every state, and writes one response for each pipeline
  -- that the request asks for, in order, and one that says so where the device or the pipeline does
  -- not exist, whatever the driver answers.
  pub insert_or_delete_table_rule-addresses :
      (req : TableRuleRequest) (do_insert : Bool)
      → AllPack do_insert req.rules
      → Writes address
          (insert_or_delete_table_rule drv devices req do_insert)
          (addresses devices req.dev_id req.pipeline_id)
  unfolding insert_or_delete_table_rule
  insert_or_delete_table_rule-addresses req do_insert packs =
      on_pipelines-Writes
        (λ pipeline. process_rules drv do_insert pipeline.info pipeline.handle req.rules) req.dev_id
        req.pipeline_id
        λ d p dev pipeline e e' hw.
          process_rules-code drv do_insert pipeline.info pipeline.handle req.rules hw
            (All-get_elem? _ dev.pipelines p pipeline (All-get_elem? _ devices d dev packs e) e')

  -- The state after the log was turned on, an operation ran on a pipeline, and the log was turned
  -- off, with the response.
  abbrev pub logged :
      ℕ
      → ℕ
      → DevicePipeline Handle Zone
      → State Hw
      → Option (ErrorCode × Hw)
      → Option (State Hw × List TableResponse × Unit {0})
  logged d p pipeline s none = none
  logged d p pipeline s (some (err, hw)) = some (
    record { flags = s.flags; hw = drv.log_enable pipeline.handle false hw },
    table_response err d p ∷ [],
    tt,
  )

  -- The run of the handler around an operation that answered `o`.
  abbrev around :
      ℕ
      → ℕ
      → DevicePipeline Handle Zone
      → State Hw
      → Option (ErrorCode × Hw)
      → Option (State Hw × List TableResponse × Unit {0})
  around d p pipeline s o = prepend [] (
      continue
        (continue
          (prepend [] (
            continue (driven s.flags o) (λ err.
              write (table_response err d p) >> drive (drv.log_enable pipeline.handle false))))
          (λ u. pure tt))
        (λ u. pure tt))

  logged-run :
      (d p : ℕ) (pipeline : DevicePipeline Handle Zone) (s : State Hw) (o : Option (ErrorCode × Hw))
      → around d p pipeline s o ≡ logged d p pipeline s o
  unfolding driven drive
  logged-run d p pipeline s none = refl
  logged-run d p pipeline s (some (err, hw)) = refl

  -- A request to insert or delete rules on one pipeline that exists runs the loop over the rules
  -- once, on the hardware as it was, answers its code in one response with the address, and leaves
  -- the hardware as the loop did, but for the driver's log. It does not return only where the loop
  -- does not.
  pub insert_or_delete_table_rule-one :
      (d p : ℕ) (rules : List TableRule) (do_insert : Bool) (dev : Device Handle Zone Domain)
      (pipeline : DevicePipeline Handle Zone) (s : State Hw)
      → get_elem? devices d ≡ some dev
      → get_elem? dev.pipelines p ≡ some pipeline
      → insert_or_delete_table_rule drv devices
          (record { dev_id = pos d; pipeline_id = pos p; rules = rules })
          do_insert
          s
        ≡ logged d p pipeline s (
            process_rules drv do_insert pipeline.info pipeline.handle rules
              (drv.log_enable pipeline.handle (s.flags pipeline_driver_flag) s.hw))
  unfolding insert_or_delete_table_rule on_pipelines on_pipeline driver driven drive for_pipelines
  insert_or_delete_table_rule-one d p rules do_insert dev pipeline s e1 e2 =
      ap (prepend []) (
        for_selected-pos devices d _ _ dev s e1
        ∙ ap (λ r. continue r (λ u. pure tt)) (for_selected-pos dev.pipelines p _ _ pipeline s e2))
      ∙ logged-run d p pipeline s _
