-- ===== src/Agent/Rule.antt =====
-- One rule of an insertion or a deletion (sn-p4/src/agent/table.cpp): its matches and action
-- parameters are parsed, the rule is packed, and the packed rule goes to the driver.
pub mod Parsing
mod Tests
pub mod Build
pub mod Built
pub mod Loop
pub mod Driven
pub mod Codes
pub mod Packing
use esnet_smartnic_fw.Base.{
  ℕ, Bool, true, false, List, [], ◌∷◌, ◌⊎◌, inl, inr, Option, none, some, length, ltb,
  if◌then◌else◌,
}
use esnet_smartnic_fw.Text.{Text}
use esnet_smartnic_fw.Agent.Errors.{ErrorCode}
use esnet_smartnic_fw.Agent.Info.{
  ActionInfo, MatchInfo, TableInfo, PipelineInfo, get_table_info, get_table_action_info,
}
use esnet_smartnic_fw.Agent.Driver.{Status, SnMatch, SnRule, SnParam, SnPack, Driver, c_str}

-- The messages Match, Action and TableRule
pub data Match : Type 0 where
  key_mask : Text → Text → Match
  key_only : Text → Match
  key_prefix : Text → ℕ → Match
  range : ℕ → ℕ → Match
  unused : Bool → Match
  not_set : Match

pub record Action : Type 0 where
  pub name : Text
  pub parameters : List Text

pub record TableRule : Type 0 where
  pub table_name : Text
  pub priority : ℕ
  pub replace : Bool
  pub matches : List Match
  pub action : Action

-- Why a rule goes no further: an error code other than EC_OK, with the jump to `clear_rule`, or a
-- packing that does not return.
pub data Stop : Type 0 where
  refused : ErrorCode → Stop
  fault : Stop

abbrev pub Result : Type 0 → Type 0
Result A = Stop ⊎ A

infixl 5 ◌>>=◌
pub ◌>>=◌ : {A B : Type 0} → Result A → (A → Result B) → Result B
inl err >>= f = inl err
inr a >>= f = f a

infixl 5 ◌>>◌
abbrev pub ◌>>◌ : {B : Type 0} → Result (Unit {0}) → Result B → Result B
r >> k = r >>= λ _. k

-- `!= 0` of mpz_init_set_str, and `== NULL` of a lookup
pub or_error : {A : Type 0} → ErrorCode → Option A → Result A
or_error err none = inl (Stop.refused err)
or_error err (some a) = inr a

-- The guards `nmatches < ti->num_matches` and `nmatches > ti->num_matches`, and those on parameters.
pub check_count : ErrorCode → ErrorCode → ℕ → ℕ → Result (Unit {0})
check_count too_few too_many n expected =
    if ltb n expected
    then inl (Stop.refused too_few)
    else if ltb expected n
    then inl (Stop.refused too_many)
    else inr tt

-- The switch of table_rule_pack.
pub pack_error : Status → ErrorCode
pack_error Status.ok = ErrorCode.ok
pack_error Status.field_spec_overflow = ErrorCode.field_spec_overflow
pack_error Status.field_spec_format_invalid = ErrorCode.field_spec_format_invalid
pack_error Status.field_spec_unknown_type = ErrorCode.field_spec_unknown_type
pack_error Status.field_spec_size_mismatch = ErrorCode.field_spec_size_mismatch
pack_error Status.pack_key_too_big = ErrorCode.pack_key_too_big
pack_error Status.pack_mask_too_big = ErrorCode.pack_mask_too_big
pack_error Status.pack_params_too_big = ErrorCode.pack_params_too_big
pack_error Status.match_invalid_format = ErrorCode.match_invalid_format
pack_error Status.match_mask_too_wide = ErrorCode.match_mask_too_wide
pack_error Status.match_invalid_bitfield_mask = ErrorCode.match_invalid_bitfield_mask
pack_error Status.match_invalid_constant_mask = ErrorCode.match_invalid_constant_mask
pack_error Status.match_invalid_prefix_mask = ErrorCode.match_invalid_prefix_mask
pack_error Status.match_invalid_range_mask = ErrorCode.match_invalid_range_mask
pack_error Status.match_invalid_unused_mask = ErrorCode.match_invalid_unused_mask
pack_error Status.match_key_too_big = ErrorCode.match_key_too_big
pack_error Status.match_mask_too_big = ErrorCode.match_mask_too_big
pack_error Status.invalid_table_name = ErrorCode.rule_invalid_table_name
pack_error Status.invalid_table_config = ErrorCode.invalid_table_config
pack_error Status.invalid_action_for_table = ErrorCode.invalid_action_for_table
pack_error Status.param_invalid_format = ErrorCode.param_invalid_format
pack_error Status.param_spec_overflow = ErrorCode.param_spec_overflow
pack_error Status.param_spec_size_mismatch = ErrorCode.param_spec_size_mismatch
pack_error Status.param_too_big = ErrorCode.param_too_big
pack_error _ = ErrorCode.unknown

-- The test `err != EC_OK` on the packing, and the pack itself.
pub packed : ErrorCode → SnPack → Result SnPack
packed ErrorCode.ok pack = inr pack
packed err pack = inl (Stop.refused err)

pub pack_result : Option (Status × SnPack) → Result SnPack
unfolding packed pack_error
pack_result none = inl Stop.fault
pack_result (some (status, pack)) = packed (pack_error status) pack

unfoldable pub finish : {Hw : Type 0} → ErrorCode → Bool × Hw → ErrorCode × Hw
finish failed (true, hw) = (ErrorCode.ok, hw)
finish failed (false, hw) = (failed, hw)

-- `if (err != EC_OK) break;`
pub next_rule :
    {Hw : Type 0}
    → Option (ErrorCode × Hw)
    → (Hw → Option (ErrorCode × Hw))
    → Option (ErrorCode × Hw)
next_rule none rest = none
next_rule (some (ErrorCode.ok, hw)) rest = rest hw
next_rule (some (err, hw)) rest = some (err, hw)

-- The two loops that load matches and parameters: the first error ends them.
pub parse_all : {A B : Type 0} → (A → Result B) → List A → Result (List B)
unfolding ◌>>=◌
parse_all parse [] = inr []
parse_all parse (x ∷ xs) = do y ← parse x; ys ← parse_all parse xs; inr (y ∷ ys)

module _ {Handle Mpz Hw : Type 0} (drv : Driver Handle Mpz Hw) where
  -- `mpz_init_set_str(.., text.c_str(), 0)`
  pub parse_mpz : ErrorCode → Text → Result Mpz
  unfolding or_error c_str
  parse_mpz err t = or_error err (drv.init_set_str (c_str t))

  pub parse_match : Match → Result (SnMatch Mpz)
  unfolding parse_mpz ◌>>=◌
  parse_match (Match.key_mask key mask) = do
    k ← parse_mpz ErrorCode.match_invalid_key_format key
    m ← parse_mpz ErrorCode.match_invalid_mask_format mask
    inr (SnMatch.key_mask k m)
  parse_match (Match.key_only key) = do
    k ← parse_mpz ErrorCode.match_invalid_key_format key
    inr (SnMatch.key_only k)
  parse_match (Match.key_prefix key len) =
      if ltb 65535 len
      then inl (Stop.refused ErrorCode.match_invalid_prefix_length)
      else (parse_mpz ErrorCode.match_invalid_key_format key >>= λ k. inr (SnMatch.prefix k len))
  parse_match (Match.range lower upper) =
      if ltb 65535 lower
      then inl (Stop.refused ErrorCode.match_range_lower_too_big)
      else if ltb 65535 upper
      then inl (Stop.refused ErrorCode.match_range_upper_too_big)
      else inr (SnMatch.range lower upper)
  parse_match (Match.unused b) = inr SnMatch.unused
  parse_match Match.not_set = inl (Stop.refused ErrorCode.unknown_table_rule_match_type)

  pub parse_action_parameter : Text → Result (SnParam Mpz)
  unfolding parse_mpz ◌>>=◌
  parse_action_parameter value = do
    n ← parse_mpz ErrorCode.invalid_action_parameter_format value
    inr (SnParam.mpz n)

  -- What both operations load, and what an insertion adds.
  pub load_matches : TableInfo → TableRule → Result (List (SnMatch Mpz))
  unfolding ◌>>=◌ check_count parse_all parse_match
  load_matches ti rule = do
    check_count ErrorCode.too_few_matches ErrorCode.too_many_matches (length rule.matches)
        (length ti.matches)
    parse_all parse_match rule.matches

  pub load_params : ActionInfo → Action → Result (List (SnParam Mpz))
  unfolding ◌>>=◌ check_count parse_all parse_action_parameter
  load_params ai action = do
    check_count ErrorCode.too_few_action_parameters ErrorCode.too_many_action_parameters
        (length action.parameters) (length ai.params)
    parse_all parse_action_parameter action.parameters

  pub load_action : TableInfo → Action → Result (ActionInfo × List (SnParam Mpz))
  unfolding ◌>>=◌ or_error load_params get_table_action_info
  load_action ti action = do
    ai ← or_error ErrorCode.invalid_action_name (get_table_action_info ti action.name)
    params ← load_params ai action
    inr (ai, params)

  -- The call of snp4_rule_pack where no table is given, as for an insertion, and else of
  -- snp4_rule_pack_matches.
  pub table_rule_pack : PipelineInfo → Option TableInfo → SnRule Mpz → Result SnPack
  unfolding pack_result
  table_rule_pack pi none rule = pack_result (drv.rule_pack pi rule)
  table_rule_pack pi (some ti) rule =
      pack_result (drv.rule_pack_matches ti.matches ti.key_bits rule.matches)

  -- The struct that an insertion fills, and that of a deletion.
  pub insert_rule :
      TableInfo → TableRule → List (SnMatch Mpz) → ActionInfo × List (SnParam Mpz) → SnRule Mpz
  insert_rule ti rule ms (ai, ps) = record {
    table_name = ti.name;
    matches = ms;
    action_name = some ai.name;
    params = ps;
    priority = rule.priority;
  }

  pub delete_rule : TableInfo → TableRule → List (SnMatch Mpz) → SnRule Mpz
  delete_rule ti rule ms = record {
    table_name = ti.name;
    matches = ms;
    action_name = none;
    params = [];
    priority = rule.priority;
  }

  -- The rule and its pack, by the flag `do_insert`.
  pub build_insert : PipelineInfo → TableInfo → TableRule → Result (SnRule Mpz × SnPack)
  unfolding ◌>>=◌ load_matches load_action table_rule_pack insert_rule
  build_insert pi ti rule = do
    ms ← load_matches ti rule
    action ← load_action ti rule.action
    pack ← table_rule_pack pi none (insert_rule ti rule ms action)
    inr (insert_rule ti rule ms action, pack)

  pub build_delete : PipelineInfo → TableInfo → TableRule → Result (SnRule Mpz × SnPack)
  unfolding ◌>>=◌ load_matches table_rule_pack delete_rule
  build_delete pi ti rule = do
    ms ← load_matches ti rule
    pack ← table_rule_pack pi (some ti) (delete_rule ti rule ms)
    inr (delete_rule ti rule ms, pack)

  pub build : Bool → PipelineInfo → TableInfo → TableRule → Result (SnRule Mpz × SnPack)
  unfolding build_insert build_delete
  build true pi ti rule = build_insert pi ti rule
  build false pi ti rule = build_delete pi ti rule

  -- The driver call, for a rule that was built.
  pub apply_rule :
      Bool → Handle → Bool → Result (SnRule Mpz × SnPack) → Hw → Option (ErrorCode × Hw)
  unfolding finish
  apply_rule do_insert handle replace (inl (Stop.refused err)) hw = some (err, hw)
  apply_rule do_insert handle replace (inl Stop.fault) hw = none
  apply_rule true handle replace (inr (sr, pack)) hw = some (
      finish ErrorCode.failed_insert_table_rule
        (drv.table_insert_kma handle sr.table_name pack sr.action_name sr.priority replace hw))
  apply_rule false handle replace (inr (sr, pack)) hw = some (
      finish ErrorCode.failed_delete_table_rule
        (drv.table_delete_k handle sr.table_name pack.key pack.mask hw))

  -- The body of the loop over the rules, up to the label `clear_rule`.
  pub build_in : Bool → PipelineInfo → Option TableInfo → TableRule → Result (SnRule Mpz × SnPack)
  unfolding build
  build_in do_insert pi none rule = inl (Stop.refused ErrorCode.invalid_table_name)
  build_in do_insert pi (some ti) rule = build do_insert pi ti rule

  unfoldable pub build_rule : Bool → PipelineInfo → TableRule → Result (SnRule Mpz × SnPack)
  unfolding build_in get_table_info
  build_rule do_insert pi rule = build_in do_insert pi (get_table_info pi rule.table_name) rule

  pub process_rule : Bool → PipelineInfo → Handle → TableRule → Hw → Option (ErrorCode × Hw)
  unfolding apply_rule build_rule
  process_rule do_insert pi handle rule hw =
      apply_rule do_insert handle rule.replace (build_rule do_insert pi rule) hw

  -- The loop: an error ends it, and is the code of the response.
  unfoldable pub process_rules :
      Bool → PipelineInfo → Handle → List TableRule → Hw → Option (ErrorCode × Hw)
  unfolding process_rule next_rule
  process_rules do_insert pi handle [] hw = some (ErrorCode.ok, hw)
  process_rules do_insert pi handle (rule ∷ rules) hw =
      next_rule (process_rule do_insert pi handle rule hw) (process_rules do_insert pi handle rules)
