-- ===== src/Lib.antt =====
-- Verification of the P4 agent of esnet-smartnic-fw.
--
-- The program. The server sn-p4 (sn-p4/src/agent) answers gRPC requests about the P4 pipelines of
-- SmartNIC devices. A request names a device and, mostly, a pipeline, each by an index from 0 or by
-- a negative number for all; the handler chooses them, works on each through the driver library
-- (libsnp4) or the statistics library (libopennic), and writes one response for each. Rules are
-- parsed and packed before they go to the driver; requests for statistics carry filters, which
-- decide value by value what of a metric is reported or cleared. The method Batch takes a stream of
-- such requests. The server sn-cfg has the same statistics filters, as a copy of the file.
--
-- The library, and what it models:
-- - Base (Tests, Lists, Int): names of the libraries, Boolean tests and lists over the native
--   numbers, the integers of request fields. Word: single bits of machine words.
-- - BitArray (Words, Whole, Laws): the class BitArray of sn-p4/src/agent/stats.cpp. A BitArray is
--   its list of 64-bit words with its size and the mask of its last word; the methods keep their
--   names, and the operators &= and |= are and_assign and or_assign, `none` being their assertion.
--   Represents says which positions an array stands for.
-- - Text: std::string as its bytes. MatchString: apply_metric_filter_match_string* of the same
--   file; match_string is apply_metric_filter_match_string with its split in one, match_part,
--   match_part_term and match_part_attr are the ..._split_part functions. std::regex is the record
--   RegexLibrary.
-- - Filter (Slices, Meaning, Laws, Requests): apply_metric_filter* and apply_filters. apply_filter
--   is apply_metric_filter, apply_metric_filter is its use in apply_filters. Meaning gives what a
--   filter selects, position by position, with no arrays.
-- - Metrics: the callbacks get_stats_for_each_metric and clear_stats_filter_*.
-- - Agent.Effect: a handler changes a state, writes responses in order and returns a value; it may
--   fail to end, which is `none`. Agent.Messages, Agent.Errors: what responses carry.
--   Agent.Device: devices, pipelines, debug flags and the state of the hardware. Agent.Ids: the
--   choice of devices and pipelines that starts each handler.
-- - Agent.Info: the description of a pipeline (libsnp4/include/snp4.h) and the lookups
--   pipeline_get_* of sn-p4/src/agent/pipeline.cpp. Agent.Pipeline: get_pipeline_info.
-- - Agent.Driver: the calls of libsnp4 and GMP, as the record Driver. `none` of its
--   packing is a call that does not return. Agent.Rule (Parsing, Build, Built, Loop, Driven, Codes):
--   one rule of a request and the loop over them, from insert_or_delete_table_rule of
--   sn-p4/src/agent/table.cpp; Packing puts the model of snp4_rule_pack into the Driver.
--   Agent.Table: the handlers of that file.
-- - Agent.Stats (Pipelines): get_or_clear_stats and get_or_clear_pipeline_stats, over the record
--   StatsLibrary. Agent.Stats.Library fills that record with the domains of Opennic, and is the
--   clear filter of sn-p4/src/agent/stats.cpp as the library calls it.
-- - Agent.Counters (Latch, Counting, Zones): sn-p4/src/agent/counters.cpp, the counters of a
--   pipeline as a zone of Opennic; an array of the C code is a function of its index.
-- - Agent.Server (Times, Debug): the configuration, the status, the times and the debug flags of
--   the command line, from sn-p4/src/agent/server.cpp.
-- - Agent.Batch: sn-p4/src/agent/batch.cpp.
-- - Snp4.Gmp: the functions of GMP that packing uses, and what GMP documents of them on numbers that
--   are not negative; Natural fills both with ℕ. Snp4.Pack (Fields, Accepts, Bytes, Concat, Keys,
--   Params, Whole): snp4_rule_pack of libsnp4/src/snp4_table.c with its static functions, and the
--   lookups of snp4_info_util.c. An Outcome is done, a status, or a fault; `none` of rule_pack is a
--   memory fault, a buffer written past its end or freed twice.
-- - Opennic: libopennic/src/stats.c. Metric (Counters): stats_metric_*, with the update of one
--   element; Block (Clearing, Updates): stats_block_*, with the functions of a block's driver as the
--   record BlockDriver; Zone (Walks, Values, References, Leaks, Clearing): stats_zone_* and
--   stats_domain_*, a domain being the list of its zones with `none` for one that was freed.
--   Word.Shift: single bits of shifted words.
-- - Agent.Example and the modules Tests: a small agent, and the theorems applied to it.
--
-- Numbers. Sizes and indices are natural numbers; the words of a BitArray are below 2 ^ 64; the
-- variable of a slice loop is an int32 by its bit pattern, with its wrap-around; a difference of
-- times is taken in 64 bits. slice_loop runs on fuel, one unit for each value of its variable: more
-- fuel than the metric has values is enough wherever no step leaves int32. The decimal digits of n
-- are printed on n + 1 units, and a number has at most as many digits.
--
-- Packed keys are numbers of any size; statistics are u64 with their wrap-around.
--
-- Not modelled: log output and the debug dump of tables; initialization and release of pipelines;
-- the server's own statistics; device information, which comes from sysfs,
-- the environment and registers, and is a parameter of Batch; the exception of std::regex for an
-- invalid pattern; table-ecc.cpp; the other files of sn-cfg; the clients. Of
-- libsnp4, the calls of the generated driver; of libopennic, the Prometheus export, the attach and
-- detach functions of a driver, the locks and the sampling thread (an operation is one step), and
-- the registers of the card. Allocation of memory is taken to succeed.
pub mod Base
pub mod Word
pub mod BitArray
pub mod Text
pub mod MatchString
pub mod Filter
pub mod Metrics
pub mod Snp4
pub mod Opennic
pub mod Agent
