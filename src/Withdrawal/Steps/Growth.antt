-- ===== src/Withdrawal/Steps/Growth.antt =====
-- execution/withdrawal_guard.py: the proposals and the whitelist from one operation to the next.
use quantluna.Prelude.{ℕ, ◌≡◌, ◌≢◌, Option, none, some, arith, Option-cases, inl, inr}
use quantluna.Prelude.Int.{ℤ}
use quantluna.Prelude.Dict.{lookup, lookup-insert}
use quantluna.Withdrawal.{
  Config, Guard, Proposal, Status, add_to_whitelist, propose_with, update_status, proposal,
}

-- The table has the proposal, with these columns.
abbrev pub HasRow : ℕ → ℤ → ℕ → ℕ → Option Proposal → Type 0
HasRow id amount address chain none = ⊥
HasRow id amount address chain (some q) =
    (q.amount ≡ amount) × (q.address ≡ address) × (q.chain ≡ chain)

abbrev pub Known : Guard → ℕ → ℤ → ℕ → ℕ → Type 0
Known g id amount address chain = HasRow id amount address chain (lookup id g.proposals)

-- The address is in the whitelist, for some chain.
abbrev pub Listed : Config → Guard → ℕ → Type 0
Listed cfg g address = lookup (cfg.lower address) g.whitelist ≢ none

module _ (cfg : Config) where
  pub record Grows (g g' : Guard) : Type 0 where
    pub known :
        (id : ℕ) (amount : ℤ) (address chain : ℕ)
        → Known g id amount address chain
        → Known g' id amount address chain
    pub listed : (address : ℕ) → Listed cfg g address → Listed cfg g' address

  pub add_to_whitelist-Grows :
      (address chain : ℕ) (g : Guard) → Grows g (add_to_whitelist cfg address chain g)
  unfolding add_to_whitelist
  add_to_whitelist-Grows address chain g = record {
    known = λ id amount a c k. k;
    listed = λ a l.
        ground
          (arith, lookup-insert (cfg.lower a) (cfg.lower address) (cfg.upper chain) g.whitelist);
  }

  propose-Known :
      (total amount : ℤ) (new address chain day : ℕ) (g : Guard) (id : ℕ) (b : ℤ) (a c : ℕ)
      → Known g id b a c
      → Known (propose_with cfg total new amount address chain day g).0 id b a c
  unfolding propose_with
  propose-Known total amount new address chain day g id b a c k =
      ground (arith, lookup-insert id new (proposal amount address chain day) g.proposals)

  pub propose_with-Grows :
      (total amount : ℤ) (new address chain day : ℕ) (g : Guard)
      → Grows g (propose_with cfg total new amount address chain day g).0
  unfolding propose_with
  propose_with-Grows total amount new address chain day g = record {
    known = propose-Known total amount new address chain day g;
    listed = λ a l. ground arith;
  }

  update-Known :
      (name : ℕ) (st : Status) (tx by : Option ℕ) (g : Guard) (id : ℕ) (b : ℤ) (a c : ℕ)
      → Known g id b a c
      → Known (update_status name st tx by g) id b a c
  unfolding update_status
  update-Known name st tx by g id b a c k = elim (Option-cases (lookup name g.proposals)) [
    | inl e ↦ ground arith
    | inr (p, e) ↦ ground (
      arith,
      lookup-insert id name (record p { status = st; tx_id = tx; confirmed_by = by }) g.proposals,
    )
  ]

  pub update_status-Grows :
      (name : ℕ) (st : Status) (tx by : Option ℕ) (g : Guard)
      → Grows g (update_status name st tx by g)
  unfolding update_status
  update_status-Grows name st tx by g = record {
    known = update-Known name st tx by g;
    listed = λ a l. ground arith;
  }

  -- Operations that touch neither table.
  pub same-Grows :
      (g g' : Guard) → g'.proposals ≡ g.proposals → g'.whitelist ≡ g.whitelist → Grows g g'
  same-Grows g g' same kept = record {
    known = λ id amount a c k. rw same k;
    listed = λ a l. rw kept l;
  }

  pub trans-Grows : (f g h : Guard) → Grows f g → Grows g h → Grows f h
  trans-Grows f g h one two = record {
    known = λ id amount a c k. two.known id amount a c (one.known id amount a c k);
    listed = λ a l. two.listed a (one.listed a l);
  }

  -- Every row's address is in the whitelist.
  abbrev pub RowsListed : Guard → Type 0
  RowsListed g = (id : ℕ) (q : Proposal) → lookup id g.proposals ≡ some q → Listed cfg g q.address

  pub add_to_whitelist-RowsListed :
      (address chain : ℕ) (g : Guard)
      → RowsListed g
      → RowsListed (add_to_whitelist cfg address chain g)
  unfolding add_to_whitelist
  add_to_whitelist-RowsListed address chain g r id q e =
      (add_to_whitelist-Grows address chain g).listed q.address (r id q e)

  pub propose_with-RowsListed :
      (total amount : ℤ) (new address chain day : ℕ) (g : Guard)
      → Listed cfg g address
      → RowsListed g
      → RowsListed (propose_with cfg total new amount address chain day g).0
  unfolding propose_with
  propose_with-RowsListed total amount new address chain day g l r id q e =
      ground (arith, r id q, lookup-insert id new (proposal amount address chain day) g.proposals)

  pub update_status-RowsListed :
      (name : ℕ) (st : Status) (tx by : Option ℕ) (g : Guard)
      → RowsListed g
      → RowsListed (update_status name st tx by g)
  unfolding update_status
  update_status-RowsListed name st tx by g r id q e =
      elim (Option-cases (lookup name g.proposals)) [
        | inl none_found ↦ ground (arith, r id q)
        | inr (p, found) ↦ ground (
          arith,
          r id q,
          r name p,
          lookup-insert id name (record p { status = st; tx_id = tx; confirmed_by = by })
              g.proposals,
        )
      ]
