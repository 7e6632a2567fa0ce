-- ===== src/Agent/Pipeline/Laws.antt =====
-- What a request for pipeline information answers, and that a table can be told from its message.
use mathlib.Core.Path.{ap₂}
use esnet_smartnic_fw.Base.{
  ℕ, Option, and_then, ◌≡◌, refl, ap, List, [], ◌∷◌, map, none, some, All, ◌==◌, if◌then◌else◌,
}
use esnet_smartnic_fw.Agent.Errors.{ErrorCode}
use esnet_smartnic_fw.Agent.Effect.{Writes, write}
use esnet_smartnic_fw.Agent.Info.{
  CounterType, CounterBlockInfo, PipelineInfo, ParamInfo, ActionInfo, MatchInfoType, MatchInfo,
  TableEndian, TableMode, TableInfo,
}
use esnet_smartnic_fw.Agent.Device.{Device, State}
use esnet_smartnic_fw.Agent.Messages.{Response, respond}
use esnet_smartnic_fw.Agent.Ids.Laws.{each_pipeline, for_pipelines-Writes, All-get_elem?}
use esnet_smartnic_fw.Agent.Pipeline.{
  CounterBlockMessage, PipelineMessage, counter_number, counter_block_message, PipelineInfoRequest,
  MatchMessage, ParamMessage, ActionMessage, TableMessage, endian_number, mode_number, masks_number,
  match_number, match_message, param_message, action_message, table_message, pipeline_message,
  get_pipeline_info,
}

-- The description that a client reads back from a message.
endian_of : ℕ → TableEndian
endian_of n =
    if n == 1 then TableEndian.little else if n == 2 then TableEndian.big else TableEndian.other n

mode_of : ℕ → TableMode
mode_of n =
    if n == 1
    then TableMode.bcam
    else if n == 2
    then TableMode.stcam
    else if n == 3
    then TableMode.tcam
    else if n == 4
    then TableMode.dcam
    else if n == 5
    then TableMode.tiny_bcam
    else if n == 6
    then TableMode.tiny_tcam
    else TableMode.other n

type_of : ℕ → MatchInfoType
type_of n =
    if n == 0
    then MatchInfoType.invalid
    else if n == 1
    then MatchInfoType.bitfield
    else if n == 2
    then MatchInfoType.constant
    else if n == 3
    then MatchInfoType.prefix
    else if n == 4
    then MatchInfoType.range
    else if n == 5
    then MatchInfoType.ternary
    else if n == 6
    then MatchInfoType.unused
    else MatchInfoType.other n

pub match_of : MatchMessage → MatchInfo
unfolding type_of
match_of m = record { type = type_of m.type; bits = m.width }

pub param_of : ParamMessage → ParamInfo
param_of m = record { name = m.name; bits = m.width }

pub action_of : ActionMessage → ActionInfo
unfolding param_of
action_of m = record { name = m.name; param_bits = m.width; params = map param_of m.parameters }

pub table_of : TableMessage → TableInfo
unfolding endian_of mode_of match_of action_of
table_of m = record {
  name = m.name;
  num_entries = m.num_entries;
  endian = endian_of m.endian;
  mode = mode_of m.mode;
  num_masks = m.num_masks;
  key_bits = m.key_width;
  matches = map match_of m.matches;
  response_bits = m.response_width;
  actionid_bits = m.action_id_width;
  actions = map action_of m.actions;
  priority_required = m.priority_required;
  priority_bits = m.priority_width;
}

-- The values that the driver's enumerations name.
abbrev pub KnownEndian : TableEndian → Type 0
KnownEndian (TableEndian.other n) = ⊥
KnownEndian e = Unit {0}

abbrev pub KnownMode : TableMode → Type 0
KnownMode (TableMode.other n) = ⊥
KnownMode m = Unit {0}

abbrev pub KnownType : MatchInfoType → Type 0
KnownType (MatchInfoType.other n) = ⊥
KnownType t = Unit {0}

-- A table whose enumerations are named and which counts masks only if it is an STCAM.
abbrev pub IsKnown : TableInfo → Type 0
IsKnown ti =
    KnownEndian ti.endian
    × KnownMode ti.mode
    × (masks_number ti.mode ti.num_masks ≡ ti.num_masks)
    × All (λ mi. KnownType mi.type) ti.matches

endian_of-number : (e : TableEndian) → KnownEndian e → endian_of (endian_number e) ≡ e
unfolding endian_of endian_number
endian_of-number (TableEndian.other n) h = absurd h
endian_of-number e h = refl

mode_of-number : (m : TableMode) → KnownMode m → mode_of (mode_number m) ≡ m
unfolding mode_of mode_number
mode_of-number (TableMode.other n) h = absurd h
mode_of-number m h = refl

type_of-number : (t : MatchInfoType) → KnownType t → type_of (match_number t) ≡ t
unfolding type_of match_number
type_of-number (MatchInfoType.other n) h = absurd h
type_of-number t h = refl

map-id :
    {A B : Type 0} (f : A → B) (g : B → A) (P : A → Type 0) (xs : List A)
    → ((x : A) → P x → g (f x) ≡ x)
    → All P xs
    → map g (map f xs) ≡ xs
map-id f g P [] h k = refl
map-id f g P (x ∷ xs) h (k, ks) = ap₂ (λ y ys. y ∷ ys) (h x k) (map-id f g P xs h ks)

All-unit : {A : Type 0} (xs : List A) → All (λ x. Unit {0}) xs
All-unit [] = tt
All-unit (x ∷ xs) = (tt, All-unit xs)

match_of-message : (mi : MatchInfo) → KnownType mi.type → match_of (match_message mi) ≡ mi
unfolding match_of match_message
match_of-message mi h = ap (λ t. record { type = t; bits = mi.bits }) (type_of-number mi.type h)

action_of-message : (ai : ActionInfo) → action_of (action_message ai) ≡ ai
unfolding action_of action_message param_of param_message
action_of-message ai =
    ap (λ ps. record { name = ai.name; param_bits = ai.param_bits; params = ps })
      (map-id param_message param_of (λ p. Unit {0}) ai.params (λ p u. refl) (All-unit ai.params))

-- A client can tell a table from its message: reading the message back gives the table, with its
-- matches and its actions and their parameters in order, if its enumerations are ones that the
-- driver names and masks are counted for an STCAM only.
pub table_of-message : (ti : TableInfo) → IsKnown ti → table_of (table_message ti) ≡ ti
unfolding table_of table_message
table_of-message ti (endian, mode, masks, matches) =
    let e1 = endian_of-number ti.endian endian in
    let e2 = mode_of-number ti.mode mode in
    let e3 =
      map-id match_message match_of (λ mi. KnownType mi.type) ti.matches match_of-message matches in
    let e4 =
      map-id action_message action_of (λ a. Unit {0}) ti.actions (λ a u. action_of-message a)
        (All-unit ti.actions) in
    rw (e1, e2, e3, e4, masks)

counter_type_of : ℕ → CounterType
counter_type_of n =
    if n == 1
    then CounterType.packets
    else if n == 2
    then CounterType.bytes
    else if n == 3
    then CounterType.packets_and_bytes
    else if n == 4
    then CounterType.flag
    else CounterType.other n

pub counter_block_of : CounterBlockMessage → CounterBlockInfo
unfolding counter_type_of
counter_block_of m = record {
  name = m.name;
  type = counter_type_of m.type;
  width = m.width;
  num_counters = m.num_counters;
  aliases = none;
}

pub pipeline_of : PipelineMessage → PipelineInfo
unfolding table_of counter_block_of
pipeline_of m = record {
  name = m.name;
  tables = map table_of m.tables;
  counter_blocks = map counter_block_of m.counter_blocks;
}

abbrev pub KnownCounter : CounterType → Type 0
KnownCounter (CounterType.other n) = ⊥
KnownCounter t = Unit {0}

-- A pipeline as a message can describe it.
abbrev pub IsDescribable : PipelineInfo → Type 0
IsDescribable pi = All IsKnown pi.tables × All (λ bi. KnownCounter bi.type) pi.counter_blocks

-- The aliases of counters are not part of a message.
abbrev pub without_aliases : PipelineInfo → PipelineInfo
without_aliases pi = record {
  name = pi.name;
  tables = pi.tables;
  counter_blocks = map (λ (bi : CounterBlockInfo). record bi { aliases = none }) pi.counter_blocks;
}

counter_type_of-number : (t : CounterType) → KnownCounter t → counter_type_of (counter_number t) ≡ t
unfolding counter_type_of counter_number
counter_type_of-number (CounterType.other n) h = absurd h
counter_type_of-number t h = refl

counter_block_of-message :
    (bi : CounterBlockInfo)
    → KnownCounter bi.type
    → counter_block_of (counter_block_message bi) ≡ record bi { aliases = none }
unfolding counter_block_of counter_block_message
counter_block_of-message bi known =
    ap
      (λ t. record {
        name = bi.name;
        type = t;
        width = bi.width;
        num_counters = bi.num_counters;
        aliases = none;
      })
      (counter_type_of-number bi.type known)

counter_blocks_of-message :
    (bis : List CounterBlockInfo)
    → All (λ bi. KnownCounter bi.type) bis
    → map counter_block_of (map counter_block_message bis)
      ≡ map (λ (bi : CounterBlockInfo). record bi { aliases = none }) bis
counter_blocks_of-message [] h = refl
counter_blocks_of-message (bi ∷ bis) (h, hs) =
    ap₂ (λ y ys. y ∷ ys) (counter_block_of-message bi h) (counter_blocks_of-message bis hs)

pub pipeline_of-message :
    (pi : PipelineInfo) → IsDescribable pi → pipeline_of (pipeline_message pi) ≡ without_aliases pi
unfolding pipeline_of pipeline_message
pipeline_of-message pi (tables, counters) =
    ap₂ (λ ts bs. record { name = pi.name; tables = ts; counter_blocks = bs })
      (map-id table_message table_of IsKnown pi.tables table_of-message tables)
      (counter_blocks_of-message pi.counter_blocks counters)

-- What a client makes of a response: the code, the address, and the pipeline read back.
abbrev pub read_back : Response (Option PipelineMessage) → ErrorCode × ℕ × ℕ × Option PipelineInfo
read_back r = (r.error_code, r.dev_id, r.pipeline_id, and_then r.body λ m. some (pipeline_of m))

-- If the pipelines of all devices are ones that messages can describe, with the enumerations that the
-- driver names and masks for an STCAM only, then a request for pipeline information ends from every
-- state, and what a client reads back from its responses is, in order, each pipeline asked for, with
-- EC_OK, its address, its tables and its counter blocks but for their aliases, or the code for a
-- device or a pipeline that does not exist.
pub get_pipeline_info-describes :
    {Handle Zone Domain Hw : Type 0} (devices : List (Device Handle Zone Domain))
    (req : PipelineInfoRequest)
    → All
        (λ (dev : Device Handle Zone Domain). All (λ pl. IsDescribable pl.info) dev.pipelines)
        devices
    → Writes {S = State Hw} read_back (get_pipeline_info devices req) (
        each_pipeline devices req.dev_id req.pipeline_id
          (λ err d. (err, d, 0, none))
          λ d p pipeline. (ErrorCode.ok, d, p, some (without_aliases pipeline.info)) ∷ [])
unfolding get_pipeline_info
get_pipeline_info-describes devices req known =
    for_pipelines-Writes read_back devices req.dev_id req.pipeline_id
      (λ err d. respond none err d 0)
      (λ d p pipeline. write (respond (some (pipeline_message pipeline.info)) ErrorCode.ok d p))
      (λ d p pipeline. (ErrorCode.ok, d, p, some (without_aliases pipeline.info)) ∷ [])
      λ d p dev pipeline e e' s. (
        s,
        _,
        tt,
        refl,
        ap (λ pi. (ErrorCode.ok, d, p, some pi) ∷ [])
            (pipeline_of-message pipeline.info (
              All-get_elem? (λ pl. IsDescribable pl.info) dev.pipelines p pipeline
                (All-get_elem? _ devices d dev known e) e')),
      )
