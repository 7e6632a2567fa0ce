-- ===== src/Agent.antt =====
-- The agent sn-p4 (sn-p4/src/agent): its gRPC handlers over the devices, the P4 driver library and
-- the statistics library.
pub mod Effect
pub mod Errors
pub mod Info
pub mod Ids
pub mod Driver
pub mod Device
pub mod Messages
pub mod Rule
pub mod Table
pub mod Server
pub mod Stats
pub mod Counters
pub mod Pipeline
pub mod Batch
pub mod Example
