-- ===== src/Snp4/Pack.antt =====
-- The operations of libsnp4/src/snp4_table.c and the lookups of libsnp4/src/snp4_info_util.c. A
-- buffer of a pack is a pointer: `freed` is one that was freed and not set to NULL. `none` is no
-- result of the code: it frees memory twice, or writes or reads outside of an array.
pub mod Fields
pub mod Accepts
pub mod Bytes
pub mod Concat
pub mod Keys
pub mod Params
pub mod Whole
mod Tests
use Prim.Native.Nat.{Ordering}
use esnet_smartnic_fw.Base.{
  ℕ, zero, suc, ◌+◌, ◌-◌, ◌*◌, ◌/◌, ◌%◌, ◌^◌, ◌≡◌, Bool, true, false, not, ◌||◌, List, [], ◌∷◌,
  Option, none, some, length, replicate, ltb, ◌==◌, if◌then◌else◌, and_then,
}
use esnet_smartnic_fw.Text.{Text, text_eq}
use esnet_smartnic_fw.Agent.Info.{
  ParamInfo, ActionInfo, MatchInfoType, MatchInfo, TableInfo, PipelineInfo, find_by_name,
}
use esnet_smartnic_fw.Agent.Driver.{Status, SnMatch, SnParam, SnRule}
use esnet_smartnic_fw.Snp4.Gmp.{Gmp}

-- A status other than SNP4_STATUS_OK, or what the function computes; `fault` as said above.
pub data Outcome (A : Type 0) : Type 0 where
  done : A → Outcome A
  fail : Status → Outcome A
  fault : Outcome A

infixl 5 ◌>>=◌ ◌>>◌
abbrev pub ◌>>=◌ : {A B : Type 0} → Outcome A → (A → Outcome B) → Outcome B
done a >>= f = f a
fail s >>= f = fail s
fault >>= f = fault

abbrev pub ◌>>◌ : {B : Type 0} → Outcome (Unit {0}) → Outcome B → Outcome B
m >> k = m >>= λ _. k

-- `if (!test) { rc = status; goto out_error; }`
abbrev pub require : Bool → Status → Outcome (Unit {0})
require true status = done tt
require false status = fail status

abbrev pub is_eq : Ordering → Bool
is_eq Ordering.eq = true
is_eq _ = false

abbrev pub is_lt : Ordering → Bool
is_lt Ordering.lt = true
is_lt _ = false

pub data Buffer : Type 0 where
  null freed : Buffer
  live : List ℕ → Buffer

-- struct sn_pack with its pointers
pub record Pack : Type 0 where
  pub key : Buffer
  pub key_len : ℕ
  pub mask : Buffer
  pub mask_len : ℕ
  pub params : Buffer
  pub params_len : ℕ

unfoldable pub pack_init : Pack
pack_init = record {
  key = Buffer.null;
  key_len = 0;
  mask = Buffer.null;
  mask_len = 0;
  params = Buffer.null;
  params_len = 0;
}

-- `if (p) { free(p); p = NULL; }`
unfoldable pub clear_buffer : Buffer → Option Buffer
clear_buffer Buffer.null = some Buffer.null
clear_buffer (Buffer.live bytes) = some Buffer.null
clear_buffer Buffer.freed = none

unfoldable pub pack_clear : Pack → Option Pack
unfolding clear_buffer
pack_clear pack = and_then (clear_buffer pack.key) λ key. and_then (clear_buffer pack.mask) λ mask.
    and_then (clear_buffer pack.params)
      λ params. some (record pack { key = key; mask = mask; params = params })

-- Bytes written at an offset.
pub write_here : List ℕ → List ℕ → Option (List ℕ)
write_here xs [] = some xs
write_here [] (b ∷ bs) = none
write_here (x ∷ xs) (b ∷ bs) = and_then (write_here xs bs) λ rest. some (b ∷ rest)

unfoldable pub write_at : List ℕ → ℕ → List ℕ → Option (List ℕ)
unfolding write_here
write_at xs zero bs = write_here xs bs
write_at [] (suc offset) bs = none
write_at (x ∷ xs) (suc offset) bs = and_then (write_at xs offset bs) λ rest. some (x ∷ rest)

-- `(bits + 7) / 8` in unsigned arithmetic
unfoldable pub padded_bytes : ℕ → ℕ
padded_bytes bits = (bits + 7) % 2 ^ 32 / 8

-- `unsigned int pad = len - ((bits + 7) / 8)`, where `len` is a size_t
unfoldable pub pad_bytes : ℕ → ℕ → ℕ
unfolding padded_bytes
pad_bytes len bits = (len + 2 ^ 64 - padded_bytes bits) % 2 ^ 64 % 2 ^ 32

unfoldable pub get_table_by_name : PipelineInfo → Text → Option TableInfo
unfolding find_by_name
get_table_by_name pi name = find_by_name (λ t. t.name) pi.tables name

unfoldable pub get_action_by_name : TableInfo → Option Text → Option ActionInfo
unfolding find_by_name
get_action_by_name ti none = none
get_action_by_name ti (some name) = find_by_name (λ a. a.name) ti.actions name

module _ {Mpz : Type 0} (gmp : Gmp Mpz) where
  pub zero_mask : Mpz
  zero_mask = gmp.set_ui 0

  pub ones_mask : ℕ → Mpz
  ones_mask bits = gmp.sub_ui (gmp.mul_2exp (gmp.set_ui 1) bits) 1

  -- `(((1 << prefix_len) - 1) << (bits - prefix_len))`
  pub prefix_mask : ℕ → ℕ → Mpz
  prefix_mask prefix_len bits =
      gmp.mul_2exp (gmp.sub_ui (gmp.mul_2exp (gmp.set_ui 1) prefix_len) 1) (bits - prefix_len)

  -- The first switch: the key, and the mask where the format has one.
  pub key_and_mask : SnMatch Mpz → ℕ → Outcome (Mpz × Option Mpz)
  unfolding zero_mask prefix_mask
  key_and_mask (SnMatch.key_mask key mask) bits = done (key, some mask)
  key_and_mask (SnMatch.key_only key) bits = done (key, none)
  key_and_mask (SnMatch.prefix key prefix_len) bits =
      if ltb bits prefix_len
      then fail Status.match_mask_too_wide
      else done (key, some (prefix_mask prefix_len bits))
  key_and_mask (SnMatch.range lower upper) bits = done (gmp.set_ui lower, some (gmp.set_ui upper))
  key_and_mask SnMatch.unused bits = done (gmp.set_ui 0, some zero_mask)
  key_and_mask SnMatch.unset bits = fail Status.match_invalid_format

  -- The second switch.
  pub mask_default : MatchInfoType → ℕ → Mpz → Outcome Mpz
  unfolding zero_mask ones_mask
  mask_default MatchInfoType.bitfield bits key = done (ones_mask bits)
  mask_default MatchInfoType.constant bits key = done (ones_mask bits)
  mask_default MatchInfoType.prefix bits key = done (ones_mask bits)
  mask_default MatchInfoType.range bits key = done key
  mask_default MatchInfoType.ternary bits key = done (ones_mask bits)
  mask_default MatchInfoType.unused bits key = done zero_mask
  mask_default MatchInfoType.invalid bits key = fail Status.field_spec_unknown_type
  mask_default (MatchInfoType.other n) bits key = fail Status.field_spec_unknown_type

  pub mask_or : Option Mpz → Mpz → Mpz
  mask_or none default = default
  mask_or (some mask) default = mask

  abbrev pub is_prefix_form : ℕ → Mpz → Bool
  is_prefix_form bits mask = not (ltb (gmp.scan0 mask (gmp.scan1 mask 0)) bits)

  -- The third switch.
  pub check_mask : MatchInfoType → ℕ → Mpz → Mpz → Outcome (Unit {0})
  unfolding zero_mask ones_mask
  check_mask MatchInfoType.bitfield bits key mask =
      require (is_eq (gmp.cmp mask zero_mask) || is_eq (gmp.cmp mask (ones_mask bits)))
        Status.match_invalid_bitfield_mask
  check_mask MatchInfoType.constant bits key mask =
      require (is_eq (gmp.cmp mask (ones_mask bits))) Status.match_invalid_constant_mask
  check_mask MatchInfoType.prefix bits key mask =
      require (is_eq (gmp.cmp mask zero_mask) || is_prefix_form bits mask)
        Status.match_invalid_prefix_mask
  check_mask MatchInfoType.range bits key mask =
      require (not (is_lt (gmp.cmp mask key))) Status.match_invalid_range_mask
  check_mask MatchInfoType.ternary bits key mask = done tt
  check_mask MatchInfoType.unused bits key mask =
      require (is_eq (gmp.cmp mask zero_mask)) Status.match_invalid_unused_mask
  check_mask MatchInfoType.invalid bits key mask = fail Status.field_spec_unknown_type
  check_mask (MatchInfoType.other n) bits key mask = fail Status.field_spec_unknown_type

  pub pack_partial_key_mask : MatchInfo → SnMatch Mpz → Outcome (Mpz × Mpz)
  unfolding key_and_mask mask_default mask_or check_mask
  pack_partial_key_mask info m = do
    (key, given) ← key_and_mask m info.bits
    default ← mask_default info.type info.bits key
    let mask = mask_or given default
    check_mask info.type info.bits key mask
    require (not (ltb info.bits (gmp.sizeinbase_2 key))) Status.match_key_too_big
    require (not (ltb info.bits (gmp.sizeinbase_2 mask))) Status.match_mask_too_big
    done (key, mask)

  -- Earlier fields shifted to the left, and the new one below them.
  pub extend : ℕ → Mpz → Mpz → Mpz
  extend bits acc part = gmp.ior (gmp.mul_2exp acc bits) part

  pub extend_all : List MatchInfo → List (SnMatch Mpz) → Mpz → Mpz → Outcome (Mpz × Mpz)
  unfolding pack_partial_key_mask extend
  extend_all infos [] key mask = done (key, mask)
  extend_all [] (m ∷ ms) key mask = fault
  extend_all (info ∷ infos) (m ∷ ms) key mask = do
    (key_part, mask_part) ← pack_partial_key_mask info m
    extend_all infos ms (extend info.bits key key_part) (extend info.bits mask mask_part)

  -- mpz_export to a buffer of zeros, behind the padding
  pub export_to : ℕ → Mpz → Option (List ℕ)
  unfolding write_at pad_bytes
  export_to len x =
      write_at (replicate len 0) (pad_bytes len (gmp.sizeinbase_2 x)) (gmp.export_bytes x)

  -- Both buffers are freed, and their pointers kept.
  abbrev pub freed_keys : Pack → Pack
  freed_keys pack = record pack { key = Buffer.freed; mask = Buffer.freed }

  pub store_keys : ℕ → Pack → Mpz → Mpz → Option (Status × Pack)
  unfolding padded_bytes export_to
  store_keys key_bits old key mask =
      let len = padded_bytes key_bits in
      let pack : Pack = record old {
        key = Buffer.live (replicate len 0);
        key_len = len;
        mask = Buffer.live (replicate len 0);
        mask_len = len;
      } in
      if ltb key_bits (gmp.sizeinbase_2 key)
      then some (Status.pack_key_too_big, freed_keys pack)
      else and_then (export_to len key) λ key_bytes.
        if ltb key_bits (gmp.sizeinbase_2 mask)
        then some (Status.pack_mask_too_big, freed_keys pack)
        else and_then (export_to len mask) λ mask_bytes.
          some
            (Status.ok, record pack { key = Buffer.live key_bytes; mask = Buffer.live mask_bytes })

  pub store_keys_of : ℕ → Pack → Outcome (Mpz × Mpz) → Option (Status × Pack)
  unfolding store_keys
  store_keys_of key_bits pack (done (key, mask)) = store_keys key_bits pack key mask
  store_keys_of key_bits pack (fail status) = some (status, pack)
  store_keys_of key_bits pack fault = none

  pub rule_pack_matches : List MatchInfo → ℕ → List (SnMatch Mpz) → Pack → Option (Status × Pack)
  unfolding store_keys_of extend_all
  rule_pack_matches infos key_bits ms pack =
      store_keys_of key_bits pack (extend_all infos ms gmp.init gmp.init)

  pub param_value : SnParam Mpz → Outcome Mpz
  param_value (SnParam.ui n) = done (gmp.set_ui n)
  param_value (SnParam.mpz x) = done x
  param_value SnParam.unset = fail Status.param_invalid_format

  pub pack_partial_param : ParamInfo → SnParam Mpz → Outcome Mpz
  unfolding param_value
  pack_partial_param info p = do
    x ← param_value p
    require (not (ltb info.bits (gmp.sizeinbase_2 x))) Status.param_too_big
    done x

  pub extend_params : List ParamInfo → List (SnParam Mpz) → Mpz → Outcome Mpz
  unfolding pack_partial_param extend
  extend_params infos [] acc = done acc
  extend_params [] (p ∷ ps) acc = fault
  extend_params (info ∷ infos) (p ∷ ps) acc = do
    part ← pack_partial_param info p
    extend_params infos ps (extend info.bits acc part)

  pub store_params : ℕ → ℕ → Pack → Outcome Mpz → Option (Status × Pack)
  unfolding padded_bytes export_to
  store_params table_bits action_bits pack (done x) =
      let len = padded_bytes table_bits in
      if ltb action_bits (gmp.sizeinbase_2 x)
      then some
          (Status.pack_params_too_big, record pack { params = Buffer.freed; params_len = len })
      else and_then (export_to len x)
          λ bytes. some (Status.ok, record pack { params = Buffer.live bytes; params_len = len })
  store_params table_bits action_bits pack (fail status) = some (status, pack)
  store_params table_bits action_bits pack fault = none

  pub rule_pack_params : List ParamInfo → ℕ → ℕ → List (SnParam Mpz) → Pack → Option (Status × Pack)
  unfolding store_params extend_params
  rule_pack_params infos table_bits action_bits ps pack =
      if action_bits == 0
      then some (Status.ok, record pack { params = Buffer.live (0 ∷ []); params_len = 0 })
      else store_params table_bits action_bits pack (extend_params infos ps gmp.init)

  -- `if (rc != SNP4_STATUS_OK) goto out_error;`, with what `out_error` does
  pub or_clear : Status × Pack → (Pack → Option (Status × Pack)) → Option (Status × Pack)
  unfolding pack_clear
  or_clear (Status.ok, pack) rest = rest pack
  or_clear (status, pack) rest = and_then (pack_clear pack) λ cleared. some (status, cleared)

  -- `response_bits - actionid_bits`, as an unsigned int
  pub table_param_bits : TableInfo → ℕ
  table_param_bits ti = (ti.response_bits + 2 ^ 32 - ti.actionid_bits) % 2 ^ 32

  pub pack_found : TableInfo → ActionInfo → SnRule Mpz → Option (Status × Pack)
  unfolding rule_pack_matches rule_pack_params or_clear pack_init table_param_bits
  pack_found ti ai rule =
      if not (length rule.matches == length ti.matches)
      then some (Status.field_spec_size_mismatch, pack_init)
      else if not (length rule.params == length ai.params)
      then some (Status.param_spec_size_mismatch, pack_init)
      else and_then (rule_pack_matches ti.matches ti.key_bits rule.matches pack_init) λ matched.
        or_clear matched λ pack.
          and_then (rule_pack_params ai.params (table_param_bits ti) ai.param_bits rule.params pack)
            λ packed. or_clear packed λ pack'. some (Status.ok, pack')

  pub pack_action : TableInfo → Option ActionInfo → SnRule Mpz → Option (Status × Pack)
  unfolding pack_found pack_init
  pack_action ti none rule = some (Status.invalid_action_for_table, pack_init)
  pack_action ti (some ai) rule = pack_found ti ai rule

  pub pack_table : Option TableInfo → SnRule Mpz → Option (Status × Pack)
  unfolding pack_action get_action_by_name pack_init
  pack_table none rule = some (Status.invalid_table_name, pack_init)
  pack_table (some ti) rule = pack_action ti (get_action_by_name ti rule.action_name) rule

  pub rule_pack : PipelineInfo → SnRule Mpz → Option (Status × Pack)
  unfolding pack_table get_table_by_name
  rule_pack pi rule = pack_table (get_table_by_name pi rule.table_name) rule
