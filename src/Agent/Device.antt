-- ===== src/Agent/Device.antt =====
-- The state of the agent (struct Device and struct DevicePipeline of sn-p4/src/agent/device.hpp,
-- and the fields `devices` and `debug` of class SmartnicP4Impl). The devices do not change after
-- initialization; the debug flags and the hardware do.
use esnet_smartnic_fw.Base.{ℕ, Bool, List, Option}
use esnet_smartnic_fw.Text.{Text}
use esnet_smartnic_fw.Agent.Info.{PipelineInfo}

-- `counters` is the zone of the pipeline's counters, when it has any.
pub record DevicePipeline (Handle Zone : Type 0) : Type 0 where
  pub id : ℕ
  pub handle : Handle
  pub info : PipelineInfo
  pub counters : Option Zone

-- `domains` are the statistics domains of the device, in the order of enum DeviceStatsDomain.
pub record Device (Handle Zone Domain : Type 0) : Type 0 where
  pub bus_id : Text
  pub pipelines : List (DevicePipeline Handle Zone)
  pub domains : List Domain

-- `flags n` is `debug.flags.test(n)`.
pub record State (Hw : Type 0) : Type 0 where
  pub flags : ℕ → Bool
  pub hw : Hw

-- DEBUG_FLAG_PIPELINE_DRIVER
abbrev pub pipeline_driver_flag : ℕ
pipeline_driver_flag = 11
