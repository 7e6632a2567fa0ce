-- ===== src/Agent/Server.antt =====
-- The server's own handlers (sn-p4/src/agent/server.cpp): its debug flags are read and changed by
-- requests, and its status gives the times since it started.
pub mod Laws
mod Tests
pub mod Times
pub mod Debug
use esnet_smartnic_fw.Base.{
  ℕ, zero, suc, ◌+◌, ◌-◌, ◌%◌, ◌^◌, Bool, true, false, not, ◌||◌, List, [], ◌∷◌, Option, none, some,
  ltb, ◌==◌, if◌then◌else◌,
}
use esnet_smartnic_fw.Base.Int.{ℤ, pos, negsuc}
use esnet_smartnic_fw.Agent.Errors.{ErrorCode}
use esnet_smartnic_fw.Agent.Effect.{M, ◌>>=◌, ◌>>◌, call, read, write, through}
use esnet_smartnic_fw.Agent.Device.{State}
use esnet_smartnic_fw.Agent.Messages.{BatchOperation, BatchResponse, batched}

-- ServerDebugFlag_IsValid: the values of the enumeration, the largest of which is 20.
pub is_valid : ℕ → Bool
is_valid f = f == 0 || f == 1 || f == 2 || f == 3 || f == 10 || f == 11 || f == 20

abbrev pub flag_max : ℕ
flag_max = 20

-- An enumeration value on the wire is any integer.
pub record ServerDebug : Type 0 where
  pub enables : List ℤ
  pub disables : List ℤ

-- ServerConfigRequest and ServerConfigResponse; `debug` is `config().debug()` when it is set.
pub record ServerConfigRequest : Type 0 where
  pub debug : Option ServerDebug

pub record ServerConfigResponse : Type 0 where
  pub error_code : ErrorCode
  pub debug : Option ServerDebug

abbrev pub enable : ℤ → ServerDebug → ServerDebug
enable f d = record { enables = f ∷ d.enables; disables = d.disables }

abbrev pub disable : ℤ → ServerDebug → ServerDebug
disable f d = record { enables = d.enables; disables = f ∷ d.disables }

-- The loop of get_server_config, over `rounds` flags from `flag` on.
pub debug_loop : (ℕ → Bool) → ℕ → ℕ → ServerDebug
unfolding is_valid
debug_loop flags zero flag = record { enables = []; disables = [] }
debug_loop flags (suc rounds) flag =
    let rest = debug_loop flags rounds (flag + 1) in
    if is_valid flag
    then if flags flag then enable (pos flag) rest else disable (pos flag) rest
    else rest

-- `debug.flags.set(flag)` and `debug.flags.reset(flag)`
pub set_flag : (ℕ → Bool) → ℕ → Bool → ℕ → Bool
set_flag flags flag value n = if n == flag then value else flags n

-- One of the two loops of set_server_config: false is the jump to `write_response`.
pub flags_loop : Bool → List ℤ → (ℕ → Bool) → Bool × (ℕ → Bool)
unfolding is_valid set_flag
flags_loop value [] flags = (true, flags)
flags_loop value (negsuc n ∷ fs) flags = (false, flags)
flags_loop value (pos f ∷ fs) flags =
    let rest = flags_loop value fs (set_flag flags f value) in
    if is_valid f then rest else (false, flags)

-- The second loop runs only after the first ended well.
pub disables_loop : List ℤ → Bool × (ℕ → Bool) → Bool × (ℕ → Bool)
unfolding flags_loop
disables_loop fs (true, flags) = flags_loop false fs flags
disables_loop fs (false, flags) = (false, flags)

pub config_error : Bool → ErrorCode
config_error true = ErrorCode.ok
config_error false = ErrorCode.server_invalid_debug_flag

pub set_flags : Option ServerDebug → (ℕ → Bool) → ErrorCode × (ℕ → Bool)
unfolding flags_loop disables_loop config_error
set_flags none flags = (ErrorCode.ok, flags)
set_flags (some dbg) flags =
    let (valid, flags') = disables_loop dbg.disables (flags_loop true dbg.enables flags) in
    (config_error valid, flags')

pub record Timespec : Type 0 where
  pub tv_sec : ℕ
  pub tv_nsec : ℕ

-- A difference of two `time_t`, in two's complement of 64 bits.
abbrev pub sub64 : ℕ → ℕ → ℕ
sub64 a b = (a + (2 ^ 64 - b)) % 2 ^ 64

-- get_server_times: the difference of the nanoseconds is negative where the clock's are fewer, and
-- then a second is borrowed. `now` is the answer of the monotonic clock, `none` being a failure.
pub up_time : Timespec → Timespec → Timespec
up_time start now =
    if ltb now.tv_nsec start.tv_nsec
    then record {
      tv_sec = sub64 (sub64 now.tv_sec start.tv_sec) 1;
      tv_nsec = now.tv_nsec + 1000000000 - start.tv_nsec;
    }
    else record { tv_sec = sub64 now.tv_sec start.tv_sec; tv_nsec = now.tv_nsec - start.tv_nsec }

pub record ServerStatus : Type 0 where
  pub start_time : Timespec
  pub up_time : Timespec

pub record ServerStatusResponse : Type 0 where
  pub error_code : ErrorCode
  pub status : Option ServerStatus

pub status_response : Timespec → Timespec → Option Timespec → ServerStatusResponse
unfolding up_time
status_response start_wall start_mono none = record {
  error_code = ErrorCode.server_failed_get_time;
  status = none;
}
status_response start_wall start_mono (some now) = record {
  error_code = ErrorCode.ok;
  status = some (record { start_time = start_wall; up_time = up_time start_mono now });
}

module _ {Hw : Type 0} where
  pub get_server_config : ServerConfigRequest → M (State Hw) ServerConfigResponse (Unit {0})
  unfolding debug_loop
  get_server_config req = do
    config ← read (λ s. debug_loop s.flags flag_max 1)
    write (record { error_code = ErrorCode.ok; debug = some config })

  pub set_server_config : ServerConfigRequest → M (State Hw) ServerConfigResponse (Unit {0})
  unfolding set_flags
  set_server_config req = do
    err ← call λ s.
        let (err, flags) = set_flags req.debug s.flags in (err, record { flags = flags; hw = s.hw })
    write (record { error_code = err; debug = none })

  pub get_server_status :
      Timespec → Timespec → Option Timespec → M (State Hw) ServerStatusResponse (Unit {0})
  unfolding status_response
  get_server_status start_wall start_mono now = write (status_response start_wall start_mono now)

  unfoldable pub batch_get_server_config :
      ServerConfigRequest → M (State Hw) (BatchResponse ServerConfigResponse) (Unit {0})
  unfolding get_server_config
  batch_get_server_config req = through (batched BatchOperation.get) (get_server_config req)

  unfoldable pub batch_set_server_config :
      ServerConfigRequest → M (State Hw) (BatchResponse ServerConfigResponse) (Unit {0})
  unfolding set_server_config
  batch_set_server_config req = through (batched BatchOperation.set) (set_server_config req)

  unfoldable pub batch_get_server_status :
      Timespec
      → Timespec
      → Option Timespec
      → M (State Hw) (BatchResponse ServerStatusResponse) (Unit {0})
  unfolding get_server_status
  batch_get_server_status start_wall start_mono now =
      through (batched BatchOperation.get) (get_server_status start_wall start_mono now)
