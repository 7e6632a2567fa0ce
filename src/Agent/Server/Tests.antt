-- ===== src/Agent/Server/Tests.antt =====
-- The server's handlers at concrete requests.
use esnet_smartnic_fw.Text.{text}
use esnet_smartnic_fw.Base.{
  ◌↔◌, ℕ, ◌+◌, ◌≡◌, ◌<◌, refl, Bool, true, false, not, ◌&&◌, [], ◌∷◌, ◌++◌, some, ◌==◌,
  if◌then◌else◌, arith,
}
use esnet_smartnic_fw.Base.Int.{pos, negsuc}
use esnet_smartnic_fw.Agent.Errors.{ErrorCode}
use esnet_smartnic_fw.Agent.Server.{
  is_valid, flag_max, ServerDebug, debug_loop, set_flags, Timespec, up_time,
}
use esnet_smartnic_fw.Agent.Server.Laws.{
  mem, is_listed, set_flags-after, set_flags-stops, get-lists, set_flags-get,
}
use esnet_smartnic_fw.Agent.Server.Debug.{find_flag, flag_names, Named, find_flag_iff}
use esnet_smartnic_fw.Agent.Server.Times.{nanos, up_time-nanos}

-- The driver's log and the statistics on, the rest off.
abbrev some_flags : ℕ → Bool
some_flags n = n == 11

abbrev stats_request : ServerDebug
stats_request = record { enables = pos 20 ∷ pos 11 ∷ []; disables = pos 11 ∷ [] }

stats_request-valid : (is_valid 20 ≡ true) × (is_valid 11 ≡ true)
unfolding is_valid
stats_request-valid = (refl, refl)

set_flags-after_example : set_flags (some stats_request) some_flags ≡ (
  ErrorCode.ok,
  λ n.
      if mem n (pos 11 ∷ [])
      then false
      else if mem n (pos 20 ∷ pos 11 ∷ [])
      then true
      else some_flags n,
)
set_flags-after_example =
    set_flags-after stats_request some_flags (stats_request-valid.0, (stats_request-valid.1, tt))
      (stats_request-valid.1, tt)

set_flags-stops_example :
    set_flags
      (some (record { enables = (pos 20 ∷ []) ++ negsuc 0 ∷ []; disables = pos 11 ∷ [] }))
      some_flags
    ≡ (ErrorCode.server_invalid_debug_flag, λ n. if mem n (pos 20 ∷ []) then true else some_flags n)
set_flags-stops_example =
    set_flags-stops (pos 20 ∷ []) [] (pos 11 ∷ []) (negsuc 0) some_flags (stats_request-valid.0, tt)
      (λ h. h)

get-lists_example :
    (mem 11 (debug_loop some_flags flag_max 1).enables ≡ (is_listed some_flags 11 && some_flags 11))
    × (mem 11 (debug_loop some_flags flag_max 1).disables
        ≡ (is_listed some_flags 11 && not (some_flags 11)))
get-lists_example = get-lists some_flags 11

set_flags-get_example :
    set_flags (some (debug_loop some_flags flag_max 1)) (λ n. true)
    ≡ (ErrorCode.ok, λ n. if is_listed some_flags n then some_flags n else true)
set_flags-get_example = set_flags-get some_flags (λ n. true)

abbrev started : Timespec
started = record { tv_sec = 100; tv_nsec = 900000000 }

abbrev later : Timespec
later = record { tv_sec = 102; tv_nsec = 100000000 }

up_time-nanos_example :
    (nanos (up_time started later) + nanos started ≡ nanos later)
    × ((up_time started later).tv_nsec < 1000000000)
up_time-nanos_example =
    up_time-nanos started later (omega arith, omega arith) (omega arith, omega arith) (omega arith)

listed_11 : is_valid 11 ≡ true
unfolding is_valid
listed_11 = refl

find_flag_iff_example :
    (find_flag flag_max 1 (text "pipeline-driver") ≡ some 11)
    ↔ Named flag_names (text "pipeline-driver") 11
find_flag_iff_example = find_flag_iff (text "pipeline-driver") 11
