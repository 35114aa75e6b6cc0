-- ===== src/Withdrawal/Steps.antt =====
-- execution/withdrawal_guard.py: the coroutines of a guard as they interleave. A step runs one
-- coroutine from one await to the next; the database thread may have read any total, and the
-- exchange may give any answer.
pub mod Growth
pub mod Audit
use quantluna.Prelude.{ℕ, ◌≡◌, true, Option, none, some, List, [], ◌∷◌, get_elem?, set}
use quantluna.Prelude.Int.{ℤ}
use quantluna.Withdrawal.{
  Config, Guard, Proposal, add_to_whitelist, may_propose, propose_with, confirm_check, withdraw,
  settle, confirm_end, reject, expire, start,
}

-- A coroutine: in `propose_withdrawal` after its first test, in `confirm` before the call of the
-- exchange, after it, and after the answer is written.
pub data Task : Type 0 where
  checked : ℕ → ℕ → Task
  executing : ℕ → Proposal → Task
  settling : ℕ → Task
  closing : ℕ → Task
  finished : Task

pub record World : Type 0 where
  pub guard : Guard
  pub tasks : List Task

pub data Step (cfg : Config) (w : World) : World → Type 0 where
  lists :
      (address chain : ℕ)
      → Step cfg w (record w { guard = add_to_whitelist cfg address chain w.guard })
  checks :
      (address chain : ℕ)
      → may_propose cfg address chain w.guard ≡ true
      → Step cfg w (record w { tasks = checked address chain ∷ w.tasks })
  proposes :
      (i address chain : ℕ) (total amount : ℤ) (id day : ℕ)
      → get_elem? w.tasks i ≡ some (checked address chain)
      → Step cfg w (record {
        guard = (propose_with cfg total id amount address chain day w.guard).0;
        tasks = set w.tasks i finished;
      })
  confirms :
      (id : ℕ) (p : Proposal)
      → confirm_check id w.guard ≡ some p
      → Step cfg w (record w { tasks = executing id p ∷ w.tasks })
  sends :
      (i id : ℕ) (p : Proposal)
      → get_elem? w.tasks i ≡ some (executing id p)
      → Step cfg w (record { guard = withdraw id p w.guard; tasks = set w.tasks i (settling id) })
  settles :
      (i id : ℕ) (answer : Option ℕ) (by : ℕ)
      → get_elem? w.tasks i ≡ some (settling id)
      → Step cfg w
          (record { guard = settle id answer by w.guard; tasks = set w.tasks i (closing id) })
  closes :
      (i id : ℕ)
      → get_elem? w.tasks i ≡ some (closing id)
      → Step cfg w (record { guard = confirm_end id w.guard; tasks = set w.tasks i finished })
  rejects : (id : ℕ) → Step cfg w (record w { guard = reject id w.guard })
  expires : (id : ℕ) → Step cfg w (record w { guard = expire id w.guard })

pub data Reach (cfg : Config) : World → Type 0 where
  here : Reach cfg (record { guard = start; tasks = [] })
  next : {w u : World} → Reach cfg w → Step cfg w u → Reach cfg u
