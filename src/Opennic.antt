-- ===== src/Opennic.antt =====
-- The statistics library (libopennic/src/stats.c): metrics in blocks, blocks in zones and zones in
-- domains, read from registers, accumulated, cleared and handed to callbacks.
pub mod Metric
pub mod Block
pub mod Zone
