-- ===== src/Agent/Errors.antt =====
-- The enumeration ErrorCode of protobuf/sn-p4-proto/sn_p4_v2.proto, without the prefix EC_.

pub data ErrorCode : Type 0 where
  unknown ok : ErrorCode
  unknown_batch_request unknown_batch_op : ErrorCode
  invalid_device_id invalid_pipeline_id : ErrorCode
  invalid_table_name failed_clear_all_tables failed_clear_table : ErrorCode
  invalid_action_name : ErrorCode
  too_few_matches too_many_matches : ErrorCode
  too_few_action_parameters too_many_action_parameters : ErrorCode
  invalid_action_parameter_format : ErrorCode
  match_invalid_key_format match_invalid_mask_format match_invalid_prefix_length : ErrorCode
  match_range_lower_too_big match_range_upper_too_big : ErrorCode
  unknown_table_rule_match_type : ErrorCode
  failed_insert_table_rule failed_delete_table_rule : ErrorCode
  field_spec_overflow field_spec_format_invalid field_spec_unknown_type : ErrorCode
  field_spec_size_mismatch : ErrorCode
  pack_key_too_big pack_mask_too_big pack_params_too_big : ErrorCode
  match_invalid_format match_mask_too_wide match_invalid_bitfield_mask : ErrorCode
  match_invalid_constant_mask match_invalid_prefix_mask match_invalid_range_mask : ErrorCode
  match_invalid_unused_mask match_key_too_big match_mask_too_big : ErrorCode
  rule_invalid_table_name invalid_table_config invalid_action_for_table : ErrorCode
  param_invalid_format param_spec_overflow param_spec_size_mismatch param_too_big : ErrorCode
  server_failed_get_time server_invalid_debug_flag : ErrorCode
