-- ===== src/Agent/Driver.antt =====
-- What the table handlers use of the driver library (libsnp4/include/snp4.h) and of GMP, as an
-- interface: `Hw` is the state of the hardware behind the driver, `Mpz` an integer of GMP.
use esnet_smartnic_fw.Base.{ℕ, Bool, List, [], ◌∷◌, Option, if◌then◌else◌, ◌==◌}
use esnet_smartnic_fw.Text.{Text}
use esnet_smartnic_fw.Agent.Info.{MatchInfo, PipelineInfo}

-- enum snp4_status; the codes of the rows before `field_spec_overflow` and after `param_too_big`
-- are those that rule packing never turns into an error of its own.
pub data Status : Type 0 where
  ok null_pipeline null_entry null_pack malloc_fail null_rule : Status
  field_spec_overflow field_spec_format_invalid field_spec_unknown_type : Status
  field_spec_size_mismatch : Status
  pack_key_too_big pack_mask_too_big pack_params_too_big : Status
  match_invalid_format match_mask_too_wide match_invalid_bitfield_mask : Status
  match_invalid_constant_mask match_invalid_prefix_mask match_invalid_range_mask : Status
  match_invalid_unused_mask match_key_too_big match_mask_too_big : Status
  invalid_table_name invalid_table_config invalid_action_for_table : Status
  param_invalid_format param_spec_overflow param_spec_size_mismatch param_too_big : Status
  info_too_many_tables info_too_many_matches info_too_many_actions info_too_many_params : Status
  info_invalid_endian info_invalid_mode info_too_many_counter_blocks : Status
  info_invalid_counter_type : Status

-- struct sn_match, its tag and its union in one; `unset` is SN_MATCH_FORMAT_UNSET.
pub data SnMatch (Mpz : Type 0) : Type 0 where
  key_mask : Mpz → Mpz → SnMatch Mpz
  key_only : Mpz → SnMatch Mpz
  prefix : Mpz → ℕ → SnMatch Mpz
  range : ℕ → ℕ → SnMatch Mpz
  unused : SnMatch Mpz
  unset : SnMatch Mpz

-- struct sn_param, likewise
pub data SnParam (Mpz : Type 0) : Type 0 where
  ui : ℕ → SnParam Mpz
  mpz : Mpz → SnParam Mpz
  unset : SnParam Mpz

-- struct sn_rule; a deletion leaves the action without a name and without parameters.
pub record SnRule (Mpz : Type 0) : Type 0 where
  pub table_name : Text
  pub matches : List (SnMatch Mpz)
  pub action_name : Option Text
  pub params : List (SnParam Mpz)
  pub priority : ℕ

-- struct sn_pack: the bytes, their number being the length of the list
pub record SnPack : Type 0 where
  pub key : List ℕ
  pub mask : List ℕ
  pub params : List ℕ

-- `c_str()`: the callee reads up to the first zero byte.
unfoldable pub c_str : Text → Text
c_str [] = []
c_str (c ∷ cs) = let rest = c_str cs in if c == 0 then [] else c ∷ rest

pub record Driver (Handle Mpz Hw : Type 0) : Type 0 where
  pub log_enable : Handle → Bool → Hw → Hw
  pub reset_all_tables : Handle → Hw → Bool × Hw
  pub reset_one_table : Handle → Text → Hw → Bool × Hw
  -- `none` where the packing does not return: it frees memory twice or writes out of bounds.
  pub rule_pack : PipelineInfo → SnRule Mpz → Option (Status × SnPack)
  pub rule_pack_matches : List MatchInfo → ℕ → List (SnMatch Mpz) → Option (Status × SnPack)
  -- handle, table, key and mask, action, parameters, priority, replace
  pub table_insert_kma : Handle → Text → SnPack → Option Text → ℕ → Bool → Hw → Bool × Hw
  -- handle, table, key, mask
  pub table_delete_k : Handle → Text → List ℕ → List ℕ → Hw → Bool × Hw
  -- mpz_init_set_str in base 0; `none` is its result -1
  pub init_set_str : Text → Option Mpz
