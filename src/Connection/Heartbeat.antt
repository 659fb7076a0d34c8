-- ===== src/Connection/Heartbeat.antt =====
-- internal/actor/connection/heartbeat.go: the cadence and the timers of the application's heartbeat.
use blabby.Prelude.{
  zero, suc, Option, none, some, Bool, true, false, leb, if◌then◌else◌, ℤ, pos, negsuc, Result, ok,
  err,
}

pub record Cadence : Type 0 where
  pub ping_interval : ℤ
  pub pong_timeout : ℤ

pub data CadenceError : Type 0 where
  ping_not_positive pong_too_short : CadenceError

abbrev pub is_positive : ℤ → Bool
is_positive (pos zero) = false
is_positive (pos (suc n)) = true
is_positive (negsuc n) = false

-- a ≤ b
abbrev pub le_int : ℤ → ℤ → Bool
le_int (pos a) (pos b) = leb a b
le_int (pos a) (negsuc b) = false
le_int (negsuc a) (pos b) = true
le_int (negsuc a) (negsuc b) = leb b a

unfoldable pub new_cadence : ℤ → ℤ → Result CadenceError Cadence
new_cadence ping pong =
    if is_positive ping
    then (if le_int pong ping
        then err pong_too_short
        else ok (record { ping_interval = ping; pong_timeout = pong }))
    else err ping_not_positive

-- `cadence` is none where the heartbeat is disabled; the flags say whether a timer is held.
pub record Timers : Type 0 where
  pub cadence : Option Cadence
  pub pinging : Bool
  pub watchdog : Bool

abbrev pub new_timers : Option Cadence → Timers
new_timers cadence = record { cadence = cadence; pinging = false; watchdog = false }

abbrev pub is_enabled : Timers → Bool
is_enabled t = elim t.cadence [ none ↦ false | some c ↦ true ]

unfoldable pub start : Timers → Timers
start t = if is_enabled t then record t { pinging = true } else t

unfoldable pub cancel_watchdog : Timers → Timers
cancel_watchdog t = record t { watchdog = false }

unfoldable pub reset_watchdog : Timers → Timers
reset_watchdog t = if is_enabled t then record t { watchdog = true } else t

unfoldable pub ensure_watchdog : Timers → Timers
unfolding reset_watchdog
ensure_watchdog t = if t.watchdog then t else reset_watchdog t

unfoldable pub stop : Timers → Timers
stop t = record t { watchdog = false; pinging = false }
