-- ===== src/Watchdog/Told.antt =====
-- execution/ws_watchdog.py: what the state and the bus say after any pings and checks.
use quantluna.Prelude.{
  ℕ, ◌+◌, ◌≤◌, ◌<◌, ◌≡◌, ◌↔◌, refl, true, false, some, List, [], ◌∷◌, arith, ap, ◌∙◌,
}
use quantluna.Watchdog.{FeedState, live, stale, critical, Config, Flags, Watchdog, new, ping, check}

pub data Event : Type 0 where
  pinged : ℕ → Event
  checked : ℕ → Event

unfoldable pub events : Config → List Event → Watchdog → Watchdog
events cfg [] w = w
events cfg (pinged now ∷ es) w = events cfg es (ping now w)
events cfg (checked now ∷ es) w = events cfg es (check cfg now w)

-- The time of the last ping.
abbrev pub latest : ℕ → List Event → ℕ
latest t [] = t
latest t (pinged now ∷ es) = latest now es
latest t (checked now ∷ es) = latest t es

-- What the bus should say in a state.
abbrev pub flags_of : FeedState → Flags
flags_of live = record { ws_stale = false; ws_stale_alert = false }
flags_of stale = record { ws_stale = true; ws_stale_alert = false }
flags_of critical = record { ws_stale = true; ws_stale_alert = true }

abbrev IsTold : Watchdog → Type 0
IsTold w = w.bus ≡ some (flags_of w.status)

ping-IsTold :
    (now : ℕ) (w : Watchdog) → IsTold w → IsTold (ping now w) × ((ping now w).last_ping ≡ now)
unfolding ping
ping-IsTold now w h = ground arith

check-IsTold :
    (cfg : Config) (now : ℕ) (w : Watchdog)
    → IsTold w
    → IsTold (check cfg now w) × ((check cfg now w).last_ping ≡ w.last_ping)
unfolding check
check-IsTold cfg now w h = ground arith

events-IsTold :
    (cfg : Config) (es : List Event) (w : Watchdog)
    → IsTold w
    → IsTold (events cfg es w) × ((events cfg es w).last_ping ≡ latest w.last_ping es)
unfolding events
events-IsTold cfg [] w h = (h, refl)
events-IsTold cfg (pinged now ∷ es) w h =
    let step = ping-IsTold now w h in
    let after = events-IsTold cfg es (ping now w) step.0 in
    (after.0, after.1 ∙ ap (λ t. latest t es) step.1)
events-IsTold cfg (checked now ∷ es) w h =
    let step = check-IsTold cfg now w h in
    let after = events-IsTold cfg es (check cfg now w) step.0 in
    (after.0, after.1 ∙ ap (λ t. latest t es) step.1)

-- What a check makes of a watchdog, by the age of its last ping.
check_lem :
    (cfg : Config) (now : ℕ) (w : Watchdog)
    → (((check cfg now w).status ≡ live) ↔ (now < w.last_ping + cfg.stale_warn))
      × (((check cfg now w).status ≡ critical)
          ↔ ((w.last_ping + cfg.stale_warn ≤ now) × (w.last_ping + cfg.stale_critical ≤ now)))
unfolding check
check_lem cfg now w = ground arith

-- After any pings and checks from the start, a check leaves the watchdog live exactly if the last
-- ping is younger than the warning limit, and critical exactly if it is at least as old as both
-- limits; and the two flags on the bus say what the state is.
pub check_tells :
    (cfg : Config) (start now : ℕ) (es : List Event)
    → let w = check cfg now (events cfg es (new start (some (flags_of live)))) in
      (((w.status ≡ live) ↔ (now < latest start es + cfg.stale_warn))
        × ((w.status ≡ critical) ↔ (
            (latest start es + cfg.stale_warn ≤ now)
            × (latest start es + cfg.stale_critical ≤ now))))
      × (w.bus ≡ some (flags_of w.status))
check_tells cfg start now es =
    let begun = new start (some (flags_of live)) in
    let before = events-IsTold cfg es begun refl in
    (
      rw⁻¹ before.1 (check_lem cfg now (events cfg es begun)),
      (check-IsTold cfg now (events cfg es begun) before.0).0,
    )
