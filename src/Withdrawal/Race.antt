-- ===== src/Withdrawal/Race.antt =====
-- execution/withdrawal_guard.py: confirming a proposal more than once, and after its end.
use quantluna.Prelude.{ℕ, ◌≡◌, false, Option, none, some, arith}
use quantluna.Prelude.Dict.{lookup-insert, lookup-erase}
use quantluna.Withdrawal.{
  Guard, Proposal, completed, failed, confirm_check, withdraw, settle, update_status, confirm,
  confirm_end, reject, expire,
}

-- Two operators can send one withdrawal twice: from the check of a `confirm` until the answer of
-- the exchange is written, every other `confirm` of the proposal passes the same check, also after
-- the exchange was called. Once the answer is written none does.
pub confirm_race :
    (id by : ℕ) (answer : Option ℕ) (p : Proposal) (g : Guard)
    → confirm_check id g ≡ some p
    → (confirm_check id (withdraw id p g) ≡ some p)
      × (confirm_check id (settle id answer by (withdraw id p g)) ≡ none)
unfolding confirm_check withdraw settle update_status
confirm_race id by none p g e = ground (
  arith,
  lookup-insert id id (record p { status = failed; tx_id = none; confirmed_by = none }) g.proposals,
)
confirm_race id by (some tx) p g e = ground (
  arith,
  lookup-insert id id (record p { status = completed; tx_id = some tx; confirmed_by = some by })
      g.proposals,
)

-- With nothing else running, a proposal is sent at most once: a second `confirm` sends nothing,
-- changes nothing and returns `False`, whatever the exchange answered to the first.
pub confirm_twice :
    (id by again : ℕ) (answer other : Option ℕ) (g : Guard)
    → let g' = (confirm id answer by g).0 in confirm id other again g' ≡ (g', false)
unfolding confirm confirm_check confirm_end settle update_status withdraw
confirm_twice id by again answer other g = ground (arith, lookup-erase id id g.waiting)

-- A proposal that was rejected, or whose time ran out, is not sent by a later `confirm`.
confirm_after_end :
    (id by : ℕ) (answer : Option ℕ) (g : Guard)
    → (confirm id answer by (reject id g) ≡ (reject id g, false))
      × (confirm id answer by (expire id g) ≡ (expire id g, false))
unfolding confirm confirm_check reject expire update_status
confirm_after_end id by answer g = ground (arith, lookup-erase id id g.waiting)
