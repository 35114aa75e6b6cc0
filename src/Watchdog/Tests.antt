-- ===== src/Watchdog/Tests.antt =====
-- execution/ws_watchdog.py: the theorem at an input.
use quantluna.Prelude.{◌≡◌, ◌↔◌, ◌<◌, ◌≤◌, ◌+◌, some, List, [], ◌∷◌}
use quantluna.Watchdog.{Config, live, critical, new, check}
use quantluna.Watchdog.Told.{Event, pinged, checked, events, flags_of, check_tells}

abbrev cfg : Config
cfg = record { stale_warn = 10; stale_critical = 30 }

abbrev quiet : List Event
quiet = pinged 5 ∷ checked 20 ∷ pinged 21 ∷ checked 40 ∷ []

check_tells_example :
    let w = check cfg 51 (events cfg quiet (new 0 (some (flags_of live)))) in
    (((w.status ≡ live) ↔ (51 < 21 + 10))
      × ((w.status ≡ critical) ↔ ((21 + 10 ≤ 51) × (21 + 30 ≤ 51))))
    × (w.bus ≡ some (flags_of w.status))
check_tells_example = check_tells cfg 0 51 quiet
