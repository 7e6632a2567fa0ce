-- ===== src/Snp4.antt =====
-- The driver library's packing of table rules into the bytes of a key, a mask and parameters
-- (libsnp4/src/snp4_table.c and libsnp4/src/snp4_info_util.c).
pub mod Gmp
pub mod Pack
