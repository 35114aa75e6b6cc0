-- ===== src/Emergency/Tests.antt =====
-- execution/emergency_stop.py: a stop and the processes after it.
use quantluna.Prelude.{◌≡◌, refl, true, false, none, some, [], ◌∷◌}
use quantluna.Emergency.{reason, written, not_opened, start, trigger, clear, status}
use quantluna.Emergency.Restarts.{triggered, clear_fails, restarted, happen_all, stop_lasts}

stop_lasts_example :
    let (stopped, alerts) = trigger true 7 written (start none) in
    let (final, more) =
      happen_all
        (restarted ∷ (triggered true 8 written ∷ (clear_fails ∷ (restarted ∷ []))))
        stopped in
    (status true final ≡ (true, some (reason 7))) × (more ≡ [])
stop_lasts_example =
    stop_lasts true 7 written
      (restarted ∷ (triggered true 8 written ∷ (clear_fails ∷ (restarted ∷ [])))) refl

-- A trigger that cannot open the file stops the process, but not the next one.
unwritten :
    let (stopped, alerts) = trigger true 7 not_opened (start none) in
    (status true stopped ≡ (true, none)) × ((start stopped.file).active ≡ false)
unfolding trigger start status
unwritten = (refl, refl)

-- A clear lets the same process trade again.
cleared : (clear true (trigger true 7 written (start none)).0).0.active ≡ false
unfolding trigger start clear
cleared = refl
