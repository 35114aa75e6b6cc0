-- ===== src/Withdrawal/Rounds.antt =====
-- execution/withdrawal_guard.py: the daily limit, when each proposal ends before the next is made.
use quantluna.Prelude.{
  ℕ, ◌≡◌, refl, Option, none, some, List, [], ◌∷◌, arith, if◌then◌else◌, ◌==◌, Option-cases, inl,
  inr, ◌⊎◌, ap, ◌∙◌,
}
use quantluna.Prelude.Int.{ℤ, pos, ◌+ℤ◌, ◌≤ℤ◌, int_laws}
use quantluna.Prelude.Dict.{lookup, insert, lookup-insert}
use quantluna.Withdrawal.{
  Config, Guard, today_withdrawn, share, proposal, propose_withdrawal, propose_with, confirm,
  confirm_check, confirm_end, settle, withdraw, update_status,
}
use quantluna.Withdrawal.Total.{today-insert_new, settle_total, settled_amount}

-- A proposal, and what comes of its confirmation: the id of the exchange, or none if it raised.
pub record Round : Type 0 where
  pub id : ℕ
  pub amount : ℤ
  pub address : ℕ
  pub chain : ℕ
  pub day : ℕ
  pub answer : Option ℕ
  pub by : ℕ

abbrev finish : Round → Guard × Option ℕ → Guard
finish r (g, none) = g
finish r (g, some id) = (confirm id r.answer r.by g).0

pub round : Config → Round → Guard → Guard
round cfg r g = finish r (propose_withdrawal cfg r.id r.amount r.address r.chain r.day g)

pub rounds : Config → List Round → Guard → Guard
rounds cfg [] g = g
rounds cfg (r ∷ rs) g = rounds cfg rs (round cfg r g)

module _ (cfg : Config) where
  -- The guard after a proposal that was accepted.
  abbrev accepted : Round → Guard → Guard
  accepted r g = record g {
    proposals = insert r.id (proposal r.amount r.address r.chain r.day) g.proposals;
    waiting = insert r.id tt g.waiting;
  }

  propose_result :
      (r : Round) (g : Guard)
      → let made = propose_withdrawal cfg r.id r.amount r.address r.chain r.day g in
        (made ≡ (g, none))
        ⊎ ((made ≡ (accepted r g, some r.id))
            × (lookup r.id g.proposals ≡ none)
            × (today_withdrawn r.day g.proposals +ℤ r.amount ≤ℤ cfg.daily_limit))
  unfolding propose_withdrawal propose_with
  propose_result r g = ground arith

  confirm-accepted :
      (r : Round) (g : Guard)
      → (confirm r.id r.answer r.by (accepted r g)).0.proposals
        ≡ (settle r.id r.answer r.by (accepted r g)).proposals
  unfolding confirm confirm_check confirm_end withdraw settle update_status
  confirm-accepted r g = ground (
    arith,
    lookup-insert r.id r.id (proposal r.amount r.address r.chain r.day) g.proposals,
    lookup-insert r.id r.id tt g.waiting,
  )

  accepted_total :
      (d : ℕ) (r : Round) (g : Guard)
      → lookup r.id g.proposals ≡ none
      → today_withdrawn d (settle r.id r.answer r.by (accepted r g)).proposals
        ≡ today_withdrawn d g.proposals
          +ℤ (if r.day == d then settled_amount r.answer r.amount else pos 0)
  unfolding share
  accepted_total d r g free =
      let p = proposal r.amount r.address r.chain r.day in
      grind (
        int_laws,
        settle_total r.id r.by d r.answer p (accepted r g)
            (rw (lookup-insert r.id r.id p g.proposals) (ground arith)) refl,
        today-insert_new d r.id p g.proposals free,
      )

  -- No day's total is above the limit.
  abbrev pub IsWithin : Guard → Type 0
  IsWithin g = (d : ℕ) → today_withdrawn d g.proposals ≤ℤ cfg.daily_limit

  round_refused :
      (r : Round) (g : Guard)
      → propose_withdrawal cfg r.id r.amount r.address r.chain r.day g ≡ (g, none)
      → round cfg r g ≡ g
  unfolding round
  round_refused r g e = ap (finish r) e

  round-accepted :
      (r : Round) (g : Guard)
      → propose_withdrawal cfg r.id r.amount r.address r.chain r.day g ≡ (accepted r g, some r.id)
      → (round cfg r g).proposals ≡ (settle r.id r.answer r.by (accepted r g)).proposals
  unfolding round
  round-accepted r g e =
      ap (λ (m : Guard × Option ℕ). (finish r m).proposals) e ∙ confirm-accepted r g

  share_within :
      (d : ℕ) (r : Round) (t : ℕ → ℤ)
      → t r.day +ℤ r.amount ≤ℤ cfg.daily_limit
      → t d ≤ℤ cfg.daily_limit
      → t d +ℤ (if r.day == d then settled_amount r.answer r.amount else pos 0) ≤ℤ cfg.daily_limit
  share_within d r t low w = elim (Option-cases r.answer) [
    | inl e ↦ rw e (grind int_laws)
    | inr (tx, e) ↦ rw e (grind int_laws)
  ]

  round-IsWithin : (r : Round) (g : Guard) → IsWithin g → IsWithin (round cfg r g)
  round-IsWithin r g w d = elim (propose_result r g) [
    | inl refused ↦ rw (round_refused r g refused) (w d)
    | inr (made, free, low) ↦
        rw (round-accepted r g made, accepted_total d r g free)
          (share_within d r (λ day. today_withdrawn day g.proposals) low (w d))
  ]

  -- If each proposal is confirmed, or fails, before the next one is made, then no total of a day
  -- ever passes the daily limit, from a guard where none does: neither by many withdrawals nor by
  -- the mix of days and of answers of the exchange.
  pub rounds-IsWithin : (rs : List Round) (g : Guard) → IsWithin g → IsWithin (rounds cfg rs g)
  unfolding rounds
  rounds-IsWithin [] g w = w
  rounds-IsWithin (r ∷ rs) g w = rounds-IsWithin rs (round cfg r g) (round-IsWithin r g w)
