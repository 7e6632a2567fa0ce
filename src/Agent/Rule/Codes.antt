-- ===== src/Agent/Rule/Codes.antt =====
-- Which codes the processing of rules can answer: never those that say that a device or a pipeline
-- does not exist.
use mathlib.Core.Path.{subst}
use esnet_smartnic_fw.Base.{
  All, ℕ, ◌≢◌, ◌≡◌, refl, inl, inr, Bool, true, false, List, [], ◌∷◌, Option, none, some, length,
  ltb, if◌then◌else◌,
}
use esnet_smartnic_fw.Text.{Text}
use esnet_smartnic_fw.Agent.Errors.{ErrorCode}
use esnet_smartnic_fw.Agent.Info.{
  ActionInfo, TableInfo, PipelineInfo, get_table_info, get_table_action_info,
}
use esnet_smartnic_fw.Agent.Driver.{Status, SnPack, SnRule, Driver}
use esnet_smartnic_fw.Agent.Rule.{
  Match, Action, TableRule, Result, ◌>>=◌, or_error, check_count, pack_error, packed, pack_result,
  Stop, finish, next_rule, parse_mpz, parse_match, parse_action_parameter, parse_all, load_matches,
  load_params, load_action, table_rule_pack, insert_rule, delete_rule, build_insert, build_delete,
  build, build_in, build_rule, apply_rule, process_rule, process_rules,
}

-- The codes of an address that does not exist.
abbrev pub is_address_error : ErrorCode → Bool
is_address_error ErrorCode.invalid_device_id = true
is_address_error ErrorCode.invalid_pipeline_id = true
is_address_error _ = false

abbrev Fine : {A : Type 0} → Result A → Type 0
Fine (inl (Stop.refused err)) = is_address_error err ≡ false
Fine (inl Stop.fault) = Unit {0}
Fine (inr a) = Unit {0}

>>=-Fine :
    {A B : Type 0} (r : Result A) (f : A → Result B)
    → Fine r
    → ((a : A) → Fine (f a))
    → Fine (r >>= f)
unfolding ◌>>=◌
>>=-Fine (inl (Stop.refused err)) f h k = h
>>=-Fine (inl Stop.fault) f h k = h
>>=-Fine (inr a) f h k = k a

or_error-Fine :
    {A : Type 0} (err : ErrorCode) (o : Option A)
    → is_address_error err ≡ false
    → Fine (or_error err o)
unfolding or_error
or_error-Fine err none h = h
or_error-Fine err (some a) h = tt

if-Fine : {A : Type 0} (b : Bool) (x y : Result A) → Fine x → Fine y → Fine (if b then x else y)
if-Fine true x y h k = h
if-Fine false x y h k = k

check_count-Fine :
    (few many : ErrorCode) (n expected : ℕ)
    → is_address_error few ≡ false
    → is_address_error many ≡ false
    → Fine (check_count few many n expected)
unfolding check_count
check_count-Fine few many n expected h k =
    if-Fine (ltb n expected) _ _ h
      (if-Fine (ltb expected n) (inl (Stop.refused many)) (inr tt) k tt)

pack_error-fine : (status : Status) → is_address_error (pack_error status) ≡ false
unfolding pack_error
pack_error-fine Status.ok = refl
pack_error-fine status = refl

packed-Fine :
    (err : ErrorCode) (pack : SnPack) → is_address_error err ≡ false → Fine (packed err pack)
unfolding packed
packed-Fine ErrorCode.ok pack h = tt
packed-Fine err pack h = h

pub finish-code :
    {Hw : Type 0} (failed : ErrorCode) (r : Bool × Hw)
    → is_address_error failed ≡ false
    → is_address_error (finish failed r).0 ≡ false
unfolding finish
finish-code failed (true, hw) h = refl
finish-code failed (false, hw) h = h

pack_result-Fine : (r : Option (Status × SnPack)) → Fine (pack_result r)
unfolding pack_result
pack_result-Fine none = tt
pack_result-Fine (some (status, pack)) =
    packed-Fine (pack_error status) pack (pack_error-fine status)

-- A run that ends does so with a code that is not about the address.
abbrev pub FineRun : {Hw : Type 0} → Option (ErrorCode × Hw) → Type 0
FineRun none = Unit {0}
FineRun (some q) = is_address_error q.0 ≡ false

next_rule-FineRun :
    {Hw : Type 0} (r : Option (ErrorCode × Hw)) (f : Hw → Option (ErrorCode × Hw))
    → FineRun r
    → ((hw : Hw) → FineRun (f hw))
    → FineRun (next_rule r f)
unfolding next_rule
next_rule-FineRun none f h k = tt
next_rule-FineRun (some (ErrorCode.ok, hw)) f h k = k hw
next_rule-FineRun (some (err, hw)) f h k = h

-- A run that ends.
abbrev pub Ends : {A : Type 0} → Option A → Type 0
Ends {A} r = (a : A) × (r ≡ some a)

next_rule-Ends :
    {Hw : Type 0} (r : Option (ErrorCode × Hw)) (f : Hw → Option (ErrorCode × Hw))
    → Ends r
    → ((hw : Hw) → Ends (f hw))
    → Ends (next_rule r f)
unfolding next_rule
next_rule-Ends none f (q, e) k = absurd cc
next_rule-Ends (some (ErrorCode.ok, hw)) f h k = k hw
next_rule-Ends (some (err, hw)) f h k = ((err, hw), refl)

parse_all-Fine :
    {A B : Type 0} (parse : A → Result B) (xs : List A)
    → ((x : A) → Fine (parse x))
    → Fine (parse_all parse xs)
unfolding parse_all
parse_all-Fine parse [] h = tt
parse_all-Fine parse (x ∷ xs) h =
    >>=-Fine (parse x) _ (h x)
      λ y. >>=-Fine (parse_all parse xs) _ (parse_all-Fine parse xs h) λ ys. tt

module _ {Handle Mpz Hw : Type 0} (drv : Driver Handle Mpz Hw) where
  parse_mpz-Fine :
      (err : ErrorCode) (t : Text) → is_address_error err ≡ false → Fine (parse_mpz drv err t)
  unfolding parse_mpz
  parse_mpz-Fine err t h = or_error-Fine err _ h

  parse_match-Fine : (m : Match) → Fine (parse_match drv m)
  unfolding parse_match
  parse_match-Fine (Match.key_mask key mask) =
      >>=-Fine (parse_mpz drv _ key) _ (parse_mpz-Fine ErrorCode.match_invalid_key_format key refl)
        λ k.
          >>=-Fine (parse_mpz drv _ mask) _
            (parse_mpz-Fine ErrorCode.match_invalid_mask_format mask refl) λ n. tt
  parse_match-Fine (Match.key_only key) =
      >>=-Fine (parse_mpz drv _ key) _ (parse_mpz-Fine ErrorCode.match_invalid_key_format key refl)
        λ k. tt
  parse_match-Fine (Match.key_prefix key len) =
      if-Fine (ltb 65535 len) (inl (Stop.refused ErrorCode.match_invalid_prefix_length)) _ refl (
        >>=-Fine (parse_mpz drv _ key) _
          (parse_mpz-Fine ErrorCode.match_invalid_key_format key refl) λ k. tt)
  parse_match-Fine (Match.range lower upper) =
      if-Fine (ltb 65535 lower) (inl (Stop.refused ErrorCode.match_range_lower_too_big)) _ refl (
        if-Fine (ltb 65535 upper) (inl (Stop.refused ErrorCode.match_range_upper_too_big)) (inr _)
          refl tt)
  parse_match-Fine (Match.unused b) = tt
  parse_match-Fine Match.not_set = refl

  load_matches-Fine : (ti : TableInfo) (rule : TableRule) → Fine (load_matches drv ti rule)
  unfolding load_matches
  load_matches-Fine ti rule =
      >>=-Fine (check_count _ _ (length rule.matches) (length ti.matches)) _
        (check_count-Fine ErrorCode.too_few_matches ErrorCode.too_many_matches (length rule.matches)
          (length ti.matches) refl refl)
        λ u. parse_all-Fine (parse_match drv) rule.matches parse_match-Fine

  load_params-Fine : (ai : ActionInfo) (action : Action) → Fine (load_params drv ai action)
  unfolding load_params parse_action_parameter
  load_params-Fine ai action =
      >>=-Fine (check_count _ _ (length action.parameters) (length ai.params)) _
        (check_count-Fine ErrorCode.too_few_action_parameters ErrorCode.too_many_action_parameters
          (length action.parameters) (length ai.params) refl refl)
        λ u. parse_all-Fine (parse_action_parameter drv) action.parameters λ t.
          >>=-Fine (parse_mpz drv _ t) _
            (parse_mpz-Fine ErrorCode.invalid_action_parameter_format t refl) λ n. tt

  load_action-Fine : (ti : TableInfo) (action : Action) → Fine (load_action drv ti action)
  unfolding load_action
  load_action-Fine ti action =
      >>=-Fine (or_error _ (get_table_action_info ti action.name)) _
        (or_error-Fine ErrorCode.invalid_action_name _ refl)
        λ ai. >>=-Fine (load_params drv ai action) _ (load_params-Fine ai action) λ ps. tt

  table_rule_pack-Fine :
      (pi : PipelineInfo) (o : Option TableInfo) (sr : SnRule Mpz)
      → Fine (table_rule_pack drv pi o sr)
  unfolding table_rule_pack
  table_rule_pack-Fine pi none sr = pack_result-Fine (drv.rule_pack pi sr)
  table_rule_pack-Fine pi (some ti) sr =
      pack_result-Fine (drv.rule_pack_matches ti.matches ti.key_bits sr.matches)

  build-Fine :
      (do_insert : Bool) (pi : PipelineInfo) (ti : TableInfo) (rule : TableRule)
      → Fine (build drv do_insert pi ti rule)
  unfolding build build_insert build_delete
  build-Fine true pi ti rule =
      >>=-Fine (load_matches drv ti rule) _ (load_matches-Fine ti rule) λ ms.
        >>=-Fine (load_action drv ti rule.action) _ (load_action-Fine ti rule.action) λ q.
          >>=-Fine (table_rule_pack drv pi none (insert_rule drv ti rule ms q)) _
            (table_rule_pack-Fine pi none (insert_rule drv ti rule ms q)) λ p. tt
  build-Fine false pi ti rule =
      >>=-Fine (load_matches drv ti rule) _ (load_matches-Fine ti rule) λ ms.
        >>=-Fine (table_rule_pack drv pi (some ti) (delete_rule drv ti rule ms)) _
          (table_rule_pack-Fine pi (some ti) (delete_rule drv ti rule ms)) λ p. tt

  build_in-Fine :
      (do_insert : Bool) (pi : PipelineInfo) (o : Option TableInfo) (rule : TableRule)
      → Fine (build_in drv do_insert pi o rule)
  unfolding build_in
  build_in-Fine do_insert pi none rule = refl
  build_in-Fine do_insert pi (some ti) rule = build-Fine do_insert pi ti rule

  apply_rule-FineRun :
      (do_insert : Bool) (handle : Handle) (replace : Bool) (r : Result (SnRule Mpz × SnPack))
      (hw : Hw)
      → Fine r
      → FineRun (apply_rule drv do_insert handle replace r hw)
  unfolding apply_rule
  apply_rule-FineRun do_insert handle replace (inl (Stop.refused err)) hw h = h
  apply_rule-FineRun do_insert handle replace (inl Stop.fault) hw h = tt
  apply_rule-FineRun true handle replace (inr (sr, pack)) hw h =
      finish-code ErrorCode.failed_insert_table_rule
        (drv.table_insert_kma handle sr.table_name pack sr.action_name sr.priority replace hw) refl
  apply_rule-FineRun false handle replace (inr (sr, pack)) hw h =
      finish-code ErrorCode.failed_delete_table_rule
        (drv.table_delete_k handle sr.table_name pack.key pack.mask hw) refl

  -- The packing of a rule returns, whatever it answers, where the processing comes to it.
  abbrev pub Packs : Bool → PipelineInfo → TableRule → Type 0
  Packs do_insert pi rule = build_rule drv do_insert pi rule ≢ inl Stop.fault

  apply_rule-Ends :
      (do_insert : Bool) (handle : Handle) (replace : Bool) (r : Result (SnRule Mpz × SnPack))
      (hw : Hw)
      → r ≢ inl Stop.fault
      → Ends (apply_rule drv do_insert handle replace r hw)
  unfolding apply_rule
  apply_rule-Ends do_insert handle replace (inl (Stop.refused err)) hw h = (_, refl)
  apply_rule-Ends do_insert handle replace (inl Stop.fault) hw h = absurd (h refl)
  apply_rule-Ends true handle replace (inr (sr, pack)) hw h = (_, refl)
  apply_rule-Ends false handle replace (inr (sr, pack)) hw h = (_, refl)

  module _ (do_insert : Bool) (pi : PipelineInfo) (handle : Handle) where
    process_rules-FineRun :
        (rules : List TableRule) (hw : Hw)
        → FineRun (process_rules drv do_insert pi handle rules hw)
    unfolding process_rules process_rule build_rule
    process_rules-FineRun [] hw = refl
    process_rules-FineRun (rule ∷ rules) hw =
        next_rule-FineRun (process_rule drv do_insert pi handle rule hw) _
          (apply_rule-FineRun do_insert handle rule.replace (build_rule drv do_insert pi rule) hw
            (build_in-Fine do_insert pi (get_table_info pi rule.table_name) rule))
          (process_rules-FineRun rules)

    process_rules-Ends :
        (rules : List TableRule) (hw : Hw)
        → All (Packs do_insert pi) rules
        → Ends (process_rules drv do_insert pi handle rules hw)
    unfolding process_rules process_rule
    process_rules-Ends [] hw h = (_, refl)
    process_rules-Ends (rule ∷ rules) hw (h, hs) =
        next_rule-Ends (process_rule drv do_insert pi handle rule hw) _
          (apply_rule-Ends do_insert handle rule.replace (build_rule drv do_insert pi rule) hw h)
          λ hw'. process_rules-Ends rules hw' hs

    pub process_rules-code :
        (rules : List TableRule) (hw : Hw)
        → All (Packs do_insert pi) rules
        → (err : ErrorCode) × (hw' : Hw) × (process_rules drv do_insert pi handle rules hw
            ≡ some (err, hw'))
          × (is_address_error err ≡ false)
    process_rules-code rules hw h =
        let ((err, hw'), e) = process_rules-Ends rules hw h in
        (err, hw', e, subst FineRun e (process_rules-FineRun rules hw))
