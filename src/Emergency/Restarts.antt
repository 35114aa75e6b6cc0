-- ===== src/Emergency/Restarts.antt =====
-- execution/emergency_stop.py: what a stop survives.
use quantluna.Prelude.{ℕ, ◌≡◌, refl, Bool, true, false, none, some, List, [], ◌∷◌, ◌++◌, arith}
use quantluna.Emergency.{
  Stop, Content, reason, Write, written, not_opened, broken, cut_short, Alert, exists, start, write,
  trigger, clear, status,
}

-- What may happen while nobody removes the file: a trigger, a clear whose `unlink` raises, the death
-- of the process and the start of a new one.
pub data Event : Type 0 where
  triggered : Bool → ℕ → Write → Event
  clear_fails restarted : Event

unfoldable pub happen : Event → Stop → Stop × List Alert
happen (triggered has_bus why w) s = trigger has_bus why w s
happen clear_fails s = ((clear false s).0, [])
happen restarted s = (start s.file, [])

unfoldable pub happen_all : List Event → Stop → Stop × List Alert
happen_all [] s = (s, [])
happen_all (e ∷ es) s =
    let (s', alerts) = happen e s in let (final, more) = happen_all es s' in (final, alerts ++ more)

-- The stop is in force, and the file has this text.
abbrev IsLasting : Content → Stop → Type 0
IsLasting text s = (s.active ≡ true) × (s.file ≡ some text)

happen-IsLasting :
    (text : Content) (e : Event) (s : Stop)
    → IsLasting text s
    → ((happen e s).0.active ≡ true) × ((happen e s).0.file ≡ some text) × ((happen e s).1 ≡ [])
unfolding happen trigger clear start
happen-IsLasting text (triggered has_bus why w) s v = grind (arith, v.0, v.1)
happen-IsLasting text clear_fails s v = grind (arith, v.0, v.1)
happen-IsLasting text restarted s v = grind (arith, v.0, v.1)

happen_all-IsLasting :
    (text : Content) (es : List Event) (s : Stop)
    → IsLasting text s
    → ((happen_all es s).0.active ≡ true)
      × ((happen_all es s).0.file ≡ some text)
      × ((happen_all es s).1 ≡ [])
unfolding happen_all
happen_all-IsLasting text [] s v = (v.0, v.1, refl)
happen_all-IsLasting text (e ∷ es) s v =
    let (first, sound, quiet) = happen-IsLasting text e s v in
    let (rest, still, silent) = happen_all-IsLasting text es (happen e s).0 (first, sound) in
    (rest, still, rw (quiet, silent) refl)

lasting_status :
    (text : Content) (es : List Event) (s : Stop)
    → IsLasting text s
    → (status true (happen_all es s).0 ≡ (true, some text)) × ((happen_all es s).1 ≡ [])
unfolding status
lasting_status text es s v =
    let (still, kept, silent) = happen_all-IsLasting text es s v in (rw (still, kept) refl, silent)

-- After a trigger of a new process whose write succeeds or is cut short, whatever triggers, failing
-- clears and restarts follow: the stop is in force, `status` shows what that trigger wrote, and no
-- further alert goes out.
pub stop_lasts :
    (has_bus : Bool) (why : ℕ) (w : Write) (es : List Event)
    → exists (write why w none) ≡ true
    → let (stopped, alerts) = trigger has_bus why w (start none) in
      let (final, more) = happen_all es stopped in
      (status true final ≡ (true, write why w none)) × (more ≡ [])
unfolding trigger start status
stop_lasts has_bus why not_opened es h = absurd cc
stop_lasts has_bus why written es h = lasting_status (reason why) es _ (refl, refl)
stop_lasts has_bus why broken es h = lasting_status cut_short es _ (refl, refl)
