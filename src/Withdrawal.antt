-- ===== src/Withdrawal.antt =====
-- execution/withdrawal_guard.py: `WithdrawalGuard`, external withdrawals that an operator confirms.
-- An amount is a whole number of the smallest parts of a USDT, with its sign; the names of proposals,
-- addresses, chains and operators, and the days and times of the clock, are numbers. The two SQLite
-- tables are dictionaries by their UNIQUE columns. A coroutine is cut where it awaits the database
-- thread, the exchange or the alert, and other coroutines may run there.
pub mod Total
pub mod Rounds
pub mod Overrun
pub mod Race
pub mod Steps
mod Tests
use quantluna.Prelude.{
  ℕ, Bool, true, false, not, Option, none, some, List, [], ◌∷◌, ◌&&◌, if◌then◌else◌, ◌==◌,
}
use quantluna.Prelude.Int.{ℤ, pos, ◌+ℤ◌, ltb_ℤ}
use quantluna.Prelude.Dict.{Dict, lookup, insert, erase, contains}

pub data Status : Type 0 where
  pending completed rejected expired failed : Status

-- A row of `withdrawal_proposals`; `day` is the date of `requested_at`.
pub record Proposal : Type 0 where
  pub amount : ℤ
  pub address : ℕ
  pub chain : ℕ
  pub day : ℕ
  pub status : Status
  pub tx_id : Option ℕ
  pub confirmed_by : Option ℕ

-- A call of the exchange's `withdraw`.
pub record Sent : Type 0 where
  pub proposal_id : ℕ
  pub amount : ℤ
  pub address : ℕ
  pub chain : ℕ

pub record Config : Type 0 where
  pub daily_limit : ℤ
  pub whitelist_only : Bool
  -- `str.lower` and `str.upper`
  pub lower : ℕ → ℕ
  pub upper : ℕ → ℕ

-- `waiting` is `_pending`, and `sent` what the exchange was asked for, the latest first.
pub record Guard : Type 0 where
  pub whitelist : Dict ℕ
  pub proposals : Dict Proposal
  pub waiting : Dict (Unit {0})
  pub sent : List Sent

abbrev pub start : Guard
start = record { whitelist = []; proposals = []; waiting = []; sent = [] }

-- `INSERT OR REPLACE`, by the UNIQUE address
unfoldable pub add_to_whitelist : Config → ℕ → ℕ → Guard → Guard
add_to_whitelist cfg address chain g = record g {
  whitelist = insert (cfg.lower address) (cfg.upper chain) g.whitelist;
}

unfoldable pub is_whitelisted : Config → ℕ → ℕ → Guard → Bool
is_whitelisted cfg address chain g = elim (lookup (cfg.lower address) g.whitelist) [
  | none ↦ false
  | some c ↦ c == cfg.upper chain
]

abbrev pub is_pending : Status → Bool
is_pending pending = true
is_pending _ = false

abbrev pub is_completed : Status → Bool
is_completed completed = true
is_completed _ = false

-- What a proposal adds to the total of a day.
unfoldable pub share : ℕ → Proposal → ℤ
share day p = if p.day == day && is_completed p.status then p.amount else pos 0

-- `SUM(amount_usdt)` over the completed proposals of a day
unfoldable pub today_withdrawn : ℕ → Dict Proposal → ℤ
today_withdrawn day [] = pos 0
today_withdrawn day ((id, p) ∷ ps) = share day p +ℤ today_withdrawn day ps

-- The first test of `propose_withdrawal`.
unfoldable pub may_propose : Config → ℕ → ℕ → Guard → Bool
may_propose cfg address chain g =
    not (cfg.whitelist_only && not (is_whitelisted cfg address chain g))

abbrev pub proposal : ℤ → ℕ → ℕ → ℕ → Proposal
proposal amount address chain day = record {
  amount = amount;
  address = address;
  chain = chain;
  day = day;
  status = pending;
  tx_id = none;
  confirmed_by = none;
}

-- The rest of `propose_withdrawal`, with the total that the database thread read. The insertion of
-- an id that is taken raises.
unfoldable pub propose_with : Config → ℤ → ℕ → ℤ → ℕ → ℕ → ℕ → Guard → Guard × Option ℕ
propose_with cfg total id amount address chain day g =
    if ltb_ℤ cfg.daily_limit (total +ℤ amount)
    then (g, none)
    else if contains id g.proposals
    then (g, none)
    else (
      record g {
        proposals = insert id (proposal amount address chain day) g.proposals;
        waiting = insert id tt g.waiting;
      },
      some id,
    )

-- `propose_withdrawal` with nothing else running meanwhile
unfoldable pub propose_withdrawal : Config → ℕ → ℤ → ℕ → ℕ → ℕ → Guard → Guard × Option ℕ
propose_withdrawal cfg id amount address chain day g =
    if may_propose cfg address chain g
    then propose_with cfg (today_withdrawn day g.proposals) id amount address chain day g
    else (g, none)

-- `_update_proposal_status`, which writes every column, those that it is not given as NULL
unfoldable pub update_status : ℕ → Status → Option ℕ → Option ℕ → Guard → Guard
update_status id status tx by g = elim (lookup id g.proposals) [
  | none ↦ g
  | some p ↦ record g {
    proposals = insert id (record p { status = status; tx_id = tx; confirmed_by = by }) g.proposals;
  }
]

-- The tests of `confirm`: the proposal to execute, if it may be.
unfoldable pub confirm_check : ℕ → Guard → Option Proposal
confirm_check id g =
    if contains id g.waiting
    then elim (lookup id g.proposals) [
      | none ↦ none
      | some p ↦ if is_pending p.status then some p else none
    ]
    else none

-- The call of `withdraw` in `_execute_withdrawal`.
unfoldable pub withdraw : ℕ → Proposal → Guard → Guard
withdraw id p g = record g {
  sent =
      record { proposal_id = id; amount = p.amount; address = p.address; chain = p.chain } ∷ g.sent;
}

-- What `_execute_withdrawal` writes: `some tx` if the exchange answered, `none` if it raised.
unfoldable pub settle : ℕ → Option ℕ → ℕ → Guard → Guard
settle id (some tx) by g = update_status id completed (some tx) (some by) g
settle id none by g = update_status id failed none none g

-- The end of `confirm`, after the alert.
unfoldable pub confirm_end : ℕ → Guard → Guard
confirm_end id g = record g { waiting = erase id g.waiting }

abbrev pub is_some {ℓ} : {A : Type ℓ} → Option A → Bool
is_some none = false
is_some (some a) = true

-- `confirm` with nothing else running meanwhile
unfoldable pub confirm : ℕ → Option ℕ → ℕ → Guard → Guard × Bool
confirm id answer by g = elim (confirm_check id g) [
  | none ↦ (g, false)
  | some p ↦ (confirm_end id (settle id answer by (withdraw id p g)), is_some answer)
]

unfoldable pub reject : ℕ → Guard → Guard
reject id g = update_status id rejected none none (record g { waiting = erase id g.waiting })

-- `_timeout_proposal` when the wait has timed out
unfoldable pub expire : ℕ → Guard → Guard
expire id g =
    if contains id g.waiting
    then update_status id expired none none (record g { waiting = erase id g.waiting })
    else g
