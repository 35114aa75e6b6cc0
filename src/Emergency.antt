-- ===== src/Emergency.antt =====
-- execution/emergency_stop.py: `EmergencyStop`, with its sentinel file, which outlives the process. A
-- reason is the number of its text.
pub mod Restarts
mod Tests
use quantluna.Prelude.{ℕ, Bool, true, false, Option, none, some, List, [], ◌∷◌, if◌then◌else◌}

-- What the file has: the reason, or less than that if the write was cut short.
pub data Content : Type 0 where
  reason : ℕ → Content
  cut_short : Content

-- How a write to the file ends: in full, with an OSError before the file is opened, or after.
pub data Write : Type 0 where
  written not_opened broken : Write

-- `_active` of the process, and the file.
pub record Stop : Type 0 where
  pub active : Bool
  pub file : Option Content

-- `send_critical_alert`, with the reason.
pub data Alert : Type 0 where
  critical : ℕ → Alert

abbrev pub exists : Option Content → Bool
exists (some text) = true
exists none = false

-- `__init__`: a new process finds the file or not.
unfoldable pub start : Option Content → Stop
start file = record { active = exists file; file = file }

-- `write_text`
abbrev pub write : ℕ → Write → Option Content → Option Content
write why written file = some (reason why)
write why not_opened file = file
write why broken file = some cut_short

-- `trigger`, with the alert that it sends if there is a bus.
unfoldable pub trigger : Bool → ℕ → Write → Stop → Stop × List Alert
trigger has_bus why w s = if s.active then (s, []) else (
  record { active = true; file = write why w s.file },
  if has_bus then critical why ∷ [] else [],
)

-- `clear`, and whether it returns: `unlink` of a file that exists may raise.
unfoldable pub clear : Bool → Stop → Stop × Bool
clear unlinks s =
    if exists s.file
    then if unlinks then (record { active = false; file = none }, true) else (s, false)
    else (record s { active = false }, true)

-- The reason that `status` shows; a read may raise.
abbrev pub read : Bool → Option Content → Option Content
read readable file = if readable then file else none

-- `status`
unfoldable pub status : Bool → Stop → Bool × Option Content
status readable s = (s.active, read readable s.file)
