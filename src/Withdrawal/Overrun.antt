-- ===== src/Withdrawal/Overrun.antt =====
-- execution/withdrawal_guard.py: the daily limit where proposals overlap or are rejected late.
use quantluna.Prelude.{ℕ, ◌≡◌, ◌≢◌, refl, true, Option, none, some, arith, ap, ◌∙◌}
use quantluna.Prelude.Int.{ℤ, ◌+ℤ◌, ◌-ℤ◌, ◌≤ℤ◌, int_laws}
use quantluna.Prelude.Dict.{lookup, insert, lookup-insert}
use quantluna.Withdrawal.{
  Config, Guard, Proposal, completed, rejected, today_withdrawn, share, proposal,
  propose_withdrawal, propose_with, may_propose, is_whitelisted, confirm, confirm_check,
  update_status, reject,
}
use quantluna.Withdrawal.Total.{
  today-insert, today-insert_new, settle_total, confirm_settles, confirm_check-confirm_ne,
}

-- Rejecting a proposal that was already withdrawn takes its amount off the total of its day, so that
-- the same day's limit can be spent again, though the money has left.
pub reject_refunds :
    (id : ℕ) (p : Proposal) (g : Guard)
    → lookup id g.proposals ≡ some p
    → p.status ≡ completed
    → let g' = reject id g in
      (today_withdrawn p.day g'.proposals ≡ today_withdrawn p.day g.proposals -ℤ p.amount)
      × (g'.sent ≡ g.sent)
unfolding reject update_status share
reject_refunds id p g e done =
    let p' : Proposal = record p { status = rejected; tx_id = none; confirmed_by = none } in
    grind (int_laws, today-insert p.day id p' p g.proposals e)

module _ (cfg : Config) where
  abbrev made : ℕ → ℤ → ℕ → ℕ → ℕ → Guard → Guard
  made id amount address chain day g = record g {
    proposals = insert id (proposal amount address chain day) g.proposals;
    waiting = insert id tt g.waiting;
  }

  propose_made :
      (id : ℕ) (amount : ℤ) (address chain day : ℕ) (g : Guard)
      → may_propose cfg address chain g ≡ true
      → lookup id g.proposals ≡ none
      → today_withdrawn day g.proposals +ℤ amount ≤ℤ cfg.daily_limit
      → propose_withdrawal cfg id amount address chain day g
        ≡ (made id amount address chain day g, some id)
  unfolding propose_withdrawal propose_with
  propose_made id amount address chain day g may free low = ground arith

  made_total :
      (id : ℕ) (amount : ℤ) (address chain day d : ℕ) (g : Guard)
      → lookup id g.proposals ≡ none
      → today_withdrawn d (made id amount address chain day g).proposals
        ≡ today_withdrawn d g.proposals
  unfolding share
  made_total id amount address chain day d g free =
      grind (int_laws, today-insert_new d id (proposal amount address chain day) g.proposals free)

  confirm_total :
      (id tx by day : ℕ) (p : Proposal) (g : Guard)
      → confirm_check id g ≡ some p
      → p.day ≡ day
      → today_withdrawn day (confirm id (some tx) by g).0.proposals
        ≡ today_withdrawn day g.proposals +ℤ p.amount
  confirm_total id tx by day p g e same =
      let (found, waiting, settled) = confirm_settles id by (some tx) p g e in
      rw (settled, settle_total id by day (some tx) p g found waiting) (ground arith)

  confirm_check-made :
      (id : ℕ) (amount : ℤ) (address chain day : ℕ) (g : Guard)
      → confirm_check id (made id amount address chain day g)
        ≡ some (proposal amount address chain day)
  unfolding confirm_check
  confirm_check-made id amount address chain day g = ground (
    arith,
    lookup-insert id id (proposal amount address chain day) g.proposals,
    lookup-insert id id tt g.waiting,
  )

  confirm_check-made_ne :
      (id other : ℕ) (amount : ℤ) (address chain day : ℕ) (g : Guard)
      → other ≢ id
      → confirm_check id (made other amount address chain day g) ≡ confirm_check id g
  unfolding confirm_check
  confirm_check-made_ne id other amount address chain day g ne = ground (
    arith,
    lookup-insert id other (proposal amount address chain day) g.proposals,
    lookup-insert id other tt g.waiting,
  )

  -- Two proposals of one day that each fit under the limit alone are both accepted, since only
  -- completed withdrawals count, and confirming both withdraws the sum, whatever the limit says of
  -- the sum.
  pub limit_overrun :
      (id other tx by day address chain address' chain' : ℕ) (amount amount' : ℤ) (g : Guard)
      → may_propose cfg address chain g ≡ true
      → may_propose cfg address' chain' g ≡ true
      → lookup id g.proposals ≡ none
      → lookup other g.proposals ≡ none
      → other ≢ id
      → today_withdrawn day g.proposals +ℤ amount ≤ℤ cfg.daily_limit
      → today_withdrawn day g.proposals +ℤ amount' ≤ℤ cfg.daily_limit
      → let g1 = (propose_withdrawal cfg id amount address chain day g).0 in
        let g2 = (propose_withdrawal cfg other amount' address' chain' day g1).0 in
        let g3 = (confirm id (some tx) by g2).0 in
        let g4 = (confirm other (some tx) by g3).0 in
        today_withdrawn day g4.proposals ≡ today_withdrawn day g.proposals +ℤ amount +ℤ amount'
  unfolding may_propose is_whitelisted
  limit_overrun id other tx by day address chain address' chain' amount amount' g may may' free
        free' ne low low' =
      let p = proposal amount address chain day in
      let p' = proposal amount' address' chain' day in
      let m1 = made id amount address chain day g in
      let m2 = made other amount' address' chain' day m1 in
      let still : lookup other m1.proposals ≡ none =
        ground (arith, lookup-insert other id p g.proposals) in
      let one = propose_made id amount address chain day g may free low in
      let same = made_total id amount address chain day day g free in
      let two = propose_made other amount' address' chain' day m1 may' still (rw same low') in
      let checked : confirm_check id m2 ≡ some p =
        confirm_check-made_ne id other amount' address' chain' day m1 ne
        ∙ confirm_check-made id amount address chain day g in
      let g3 = (confirm id (some tx) by m2).0 in
      let checked' : confirm_check other g3 ≡ some p' =
        confirm_check-confirm_ne id other by (some tx) m2 ne
        ∙ confirm_check-made other amount' address' chain' day m1 in
      let first = confirm_total id tx by day p m2 checked refl in
      let second = confirm_total other tx by day p' g3 checked' refl in
      let before = made_total other amount' address' chain' day day m1 still in
      rw (ap (λ (m : Guard × Option ℕ). m.0) one, ap (λ (m : Guard × Option ℕ). m.0) two)
        (rw (second, first, before, same))
