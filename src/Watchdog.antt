-- ===== src/Watchdog.antt =====
-- execution/ws_watchdog.py: `WsWatchdog`, which tells the state bus when no price has come for long.
-- Times are whole ticks, and `age < limit` is written `now < last_ping + limit`. The age that is shown
-- on the bus is left out.
pub mod Told
mod Tests
use quantluna.Prelude.{ℕ, ◌+◌, Bool, true, false, Option, none, some, ltb, if◌then◌else◌}

pub data FeedState : Type 0 where
  live stale critical : FeedState

pub record Config : Type 0 where
  pub stale_warn : ℕ
  pub stale_critical : ℕ

-- `ws_stale` and `ws_stale_alert` of the bus.
pub record Flags : Type 0 where
  pub ws_stale : Bool
  pub ws_stale_alert : Bool

-- `bus` is `none` without a dashboard.
pub record Watchdog : Type 0 where
  pub last_ping : ℕ
  pub status : FeedState
  pub bus : Option Flags

-- `__init__`
abbrev pub new : ℕ → Option Flags → Watchdog
new now bus = record { last_ping = now; status = live; bus = bus }

abbrev tell : Bool → Bool → Option Flags → Option Flags
tell late alert none = none
tell late alert (some _) = some record { ws_stale = late; ws_stale_alert = alert }

-- Leaving a state for another, with what the bus is told; nothing if the state is the same.
abbrev become : FeedState → Watchdog → Watchdog
become live w = elim w.status [
  | live ↦ w
  | stale ↦ record w { status = live; bus = tell false false w.bus }
  | critical ↦ record w { status = live; bus = tell false false w.bus }
]
become stale w = elim w.status [
  | stale ↦ w
  | live ↦ record w { status = stale; bus = tell true false w.bus }
  | critical ↦ record w { status = stale; bus = tell true false w.bus }
]
become critical w = elim w.status [
  | critical ↦ w
  | live ↦ record w { status = critical; bus = tell true true w.bus }
  | stale ↦ record w { status = critical; bus = tell true true w.bus }
]

unfoldable pub ping : ℕ → Watchdog → Watchdog
ping now w = become live (record w { last_ping = now })

-- `_check`
unfoldable pub check : Config → ℕ → Watchdog → Watchdog
check cfg now w =
    if ltb now (w.last_ping + cfg.stale_warn)
    then become live w
    else if ltb now (w.last_ping + cfg.stale_critical)
    then become stale w
    else become critical w

-- `is_live`
abbrev pub is_live : Watchdog → Bool
is_live w = elim w.status [ live ↦ true | stale ↦ false | critical ↦ false ]
