-- ===== src/Withdrawal/Total.antt =====
-- execution/withdrawal_guard.py: the total of a day when a proposal is added or changes its status.
use quantluna.Prelude.{
  Option-cases, inl, inr, ◌≢◌, Option, ℕ, ◌≡◌, none, some, [], ◌∷◌, arith, if◌then◌else◌, ◌==◌, inl,
  inr,
}
use quantluna.Prelude.Int.{ℤ, pos, ◌+ℤ◌, int_laws}
use quantluna.Prelude.Dict.{Dict, lookup, insert, lookup-insert, lookup-erase}
use quantluna.Withdrawal.{
  Guard, Status, pending, completed, failed, settle, update_status, confirm, confirm_check,
  confirm_end, withdraw, Proposal, share, today_withdrawn,
}

pub today-insert :
    (day id : ℕ) (p old : Proposal) (d : Dict Proposal)
    → lookup id d ≡ some old
    → today_withdrawn day (insert id p d) +ℤ share day old ≡ today_withdrawn day d +ℤ share day p
unfolding today_withdrawn
today-insert day id p old [] e = cc
today-insert day id p old ((j, q) ∷ d) e = grind (int_laws, today-insert day id p old d)

pub today-insert_new :
    (day id : ℕ) (p : Proposal) (d : Dict Proposal)
    → lookup id d ≡ none
    → today_withdrawn day (insert id p d) ≡ today_withdrawn day d +ℤ share day p
unfolding today_withdrawn
today-insert_new day id p [] e = omega int_laws
today-insert_new day id p ((j, q) ∷ d) e = grind (int_laws, today-insert_new day id p d)

-- What a settled proposal adds to the total of a day.
abbrev pub settled_amount : Option ℕ → ℤ → ℤ
settled_amount none amount = pos 0
settled_amount (some tx) amount = amount

pub settle_total :
    (id by day : ℕ) (answer : Option ℕ) (p : Proposal) (g : Guard)
    → lookup id g.proposals ≡ some p
    → p.status ≡ pending
    → today_withdrawn day (settle id answer by g).proposals
      ≡ today_withdrawn day g.proposals
        +ℤ (if p.day == day then settled_amount answer p.amount else pos 0)
unfolding settle update_status share
settle_total id by day none p g e h =
    let p' : Proposal = record p { status = failed; tx_id = none; confirmed_by = none } in
    grind (int_laws, today-insert day id p' p g.proposals e)
settle_total id by day (some tx) p g e h =
    let p' : Proposal = record p { status = completed; tx_id = some tx; confirmed_by = some by } in
    grind (int_laws, today-insert day id p' p g.proposals e)

-- A confirmation that passes its checks writes what `settle` writes.
pub confirm_settles :
    (id by : ℕ) (answer : Option ℕ) (p : Proposal) (g : Guard)
    → confirm_check id g ≡ some p
    → (lookup id g.proposals ≡ some p)
      × (p.status ≡ pending)
      × ((confirm id answer by g).0.proposals ≡ (settle id answer by g).proposals)
unfolding confirm confirm_check confirm_end withdraw settle update_status
confirm_settles id by none p g e = ground arith
confirm_settles id by (some tx) p g e = ground arith

update_status_ne :
    (id other : ℕ) (st : Status) (tx by : Option ℕ) (g : Guard)
    → other ≢ id
    → (lookup other (update_status id st tx by g).proposals ≡ lookup other g.proposals)
      × ((update_status id st tx by g).waiting ≡ g.waiting)
unfolding update_status
update_status_ne id other st tx by g ne = elim (Option-cases (lookup id g.proposals)) [
  | inl e ↦ ground arith
  | inr (p, e) ↦ ground (
    arith,
    lookup-insert other id (record p { status = st; tx_id = tx; confirmed_by = by }) g.proposals,
  )
]

settle_ne :
    (id other by : ℕ) (answer : Option ℕ) (p : Proposal) (g : Guard)
    → other ≢ id
    → let g' = settle id answer by (withdraw id p g) in
      (lookup other g'.proposals ≡ lookup other g.proposals) × (g'.waiting ≡ g.waiting)
unfolding settle withdraw
settle_ne id other by none p g ne = update_status_ne id other failed none none (withdraw id p g) ne
settle_ne id other by (some tx) p g ne =
    update_status_ne id other completed (some tx) (some by) (withdraw id p g) ne

-- The confirmation of one proposal does not touch the checks of another.
pub confirm_check-confirm_ne :
    (id other by : ℕ) (answer : Option ℕ) (g : Guard)
    → other ≢ id
    → confirm_check other (confirm id answer by g).0 ≡ confirm_check other g
unfolding confirm confirm_check confirm_end
confirm_check-confirm_ne id other by answer g ne = elim (Option-cases (lookup id g.proposals)) [
  | inl e ↦ ground arith
  | inr (p, e) ↦ ground (
    arith,
    settle_ne id other by answer p g ne,
    lookup-erase other id g.waiting,
    lookup-erase other id (settle id answer by (withdraw id p g)).waiting,
  )
]
