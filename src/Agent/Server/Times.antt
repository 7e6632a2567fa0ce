-- ===== src/Agent/Server/Times.antt =====
-- The time since the server started.
use esnet_smartnic_fw.Base.{ℕ, ◌+◌, ◌*◌, ◌^◌, ◌≡◌, ◌≤◌, ◌<◌, inl, inr, ltb, arith, Bool-cases}
use esnet_smartnic_fw.Agent.Server.{Timespec, up_time}

-- All the nanoseconds of a time.
abbrev pub nanos : Timespec → ℕ
nanos t = t.tv_sec * 1000000000 + t.tv_nsec

-- A time as the clock gives it, before the year 2^63.
abbrev pub IsNormal : Timespec → Type 0
IsNormal t = (t.tv_sec < 2 ^ 63) × (t.tv_nsec < 1000000000)

-- If both times are as a clock gives them and the second is not before the first, then the time
-- between them is exact, with less than a second of nanoseconds.
pub up_time-nanos :
    (start now : Timespec)
    → IsNormal start
    → IsNormal now
    → nanos start ≤ nanos now
    → (nanos (up_time start now) + nanos start ≡ nanos now)
      × ((up_time start now).tv_nsec < 1000000000)
unfolding up_time
up_time-nanos start now (h1, h2) (h3, h4) le = elim (Bool-cases (ltb now.tv_nsec start.tv_nsec)) [
  | inl less ↦ ground arith
  | inr enough ↦ ground arith
]
