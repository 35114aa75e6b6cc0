-- ===== src/Withdrawal/Steps/Audit.antt =====
-- execution/withdrawal_guard.py: what is true of every withdrawal that reaches the exchange, however
-- the coroutines interleave.
use quantluna.Prelude.{
  ℕ, ◌≡◌, refl, true, Option, none, some, List, arith, Option-cases, inl, inr, ◌∙◌, Bool-cases, set,
  All, All-map, All-set, All-get, none≢some,
}
use quantluna.Prelude.Int.{ℤ}
use quantluna.Prelude.Dict.{lookup, erase, contains}
use quantluna.Withdrawal.{
  Config, Guard, Proposal, Sent, Status, completed, failed, rejected, expired, add_to_whitelist,
  may_propose, is_whitelisted, propose_with, confirm_check, withdraw, update_status, settle,
  confirm_end, reject, expire,
}
use quantluna.Withdrawal.Steps.{
  Task, checked, executing, settling, closing, finished, World, Step, lists, checks, proposes,
  confirms, sends, settles, closes, rejects, expires, Reach, here, next,
}
use quantluna.Withdrawal.Steps.Growth.{
  Known, Listed, Grows, RowsListed, add_to_whitelist-Grows, propose_with-Grows, update_status-Grows,
  same-Grows, trans-Grows, add_to_whitelist-RowsListed, propose_with-RowsListed,
  update_status-RowsListed,
}

module _ (cfg : Config) (only : cfg.whitelist_only ≡ true) where
  abbrev IsSound : Guard → Task → Type 0
  IsSound g (checked address chain) = Listed cfg g address
  IsSound g (executing id p) = Known g id p.amount p.address p.chain
  IsSound g _ = Unit

  abbrev IsRecorded : Guard → Sent → Type 0
  IsRecorded g s = Known g s.proposal_id s.amount s.address s.chain

  IsSound-Grows : (g g' : Guard) (t : Task) → Grows cfg g g' → IsSound g t → IsSound g' t
  IsSound-Grows g g' (checked a c) grows s = grows.listed a s
  IsSound-Grows g g' (executing id p) grows s = grows.known id p.amount p.address p.chain s
  IsSound-Grows g g' (settling id) grows s = tt
  IsSound-Grows g g' (closing id) grows s = tt
  IsSound-Grows g g' finished grows s = tt

  record IsAudited (w : World) : Type 0 where
    rows : RowsListed cfg w.guard
    tasks : All (IsSound w.guard) w.tasks
    sent : All (IsRecorded w.guard) w.guard.sent

  -- A step that grows the tables and sends nothing.
  grow :
      (w : World) (g' : Guard) (ts : List Task)
      → IsAudited w
      → Grows cfg w.guard g'
      → RowsListed cfg g'
      → g'.sent ≡ w.guard.sent
      → All (IsSound w.guard) ts
      → IsAudited (record { guard = g'; tasks = ts })
  grow w g' ts a grows rows same sound = record {
    rows = rows;
    tasks = All-map (IsSound w.guard) (IsSound g') ts (λ t. IsSound-Grows w.guard g' t grows) sound;
    sent = rw same (
        All-map (IsRecorded w.guard) (IsRecorded g') w.guard.sent
          (λ s. grows.known s.proposal_id s.amount s.address s.chain) a.sent);
  }

  may_propose-Listed :
      (address chain : ℕ) (g : Guard)
      → may_propose cfg address chain g ≡ true
      → Listed cfg g address
  unfolding may_propose is_whitelisted
  may_propose-Listed address chain g e = ground arith

  confirm_check-Known :
      (id : ℕ) (p : Proposal) (g : Guard)
      → confirm_check id g ≡ some p
      → Known g id p.amount p.address p.chain
  unfolding confirm_check
  confirm_check-Known id p g e = ground arith

  sent-update :
      (id : ℕ) (st : Status) (tx by : Option ℕ) (g : Guard)
      → (update_status id st tx by g).sent ≡ g.sent
  unfolding update_status
  sent-update id st tx by g = ground arith

  -- A step that only changes the status of a proposal, and perhaps the waiting ones.
  mark :
      (w : World) (g : Guard) (id : ℕ) (st : Status) (tx by : Option ℕ) (ts : List Task)
      → IsAudited w
      → g.proposals ≡ w.guard.proposals
      → g.whitelist ≡ w.guard.whitelist
      → g.sent ≡ w.guard.sent
      → RowsListed cfg g
      → All (IsSound w.guard) ts
      → IsAudited (record { guard = update_status id st tx by g; tasks = ts })
  mark w g id st tx by ts a same kept still rows sound =
      grow w (update_status id st tx by g) ts a
        (trans-Grows cfg w.guard g (update_status id st tx by g)
          (same-Grows cfg w.guard g same kept) (update_status-Grows cfg id st tx by g))
        (update_status-RowsListed cfg id st tx by g rows) (sent-update id st tx by g ∙ still) sound

  settle-IsAudited :
      (w : World) (id by : ℕ) (answer : Option ℕ) (ts : List Task)
      → IsAudited w
      → All (IsSound w.guard) ts
      → IsAudited (record { guard = settle id answer by w.guard; tasks = ts })
  unfolding settle
  settle-IsAudited w id by none ts a sound =
      mark w w.guard id failed none none ts a refl refl refl a.rows sound
  settle-IsAudited w id by (some tx) ts a sound =
      mark w w.guard id completed (some tx) (some by) ts a refl refl refl a.rows sound

  reject-IsAudited :
      (w : World) (id : ℕ) → IsAudited w → IsAudited (record w { guard = reject id w.guard })
  unfolding reject
  reject-IsAudited w id a =
      mark w (record w.guard { waiting = erase id w.guard.waiting }) id rejected none none w.tasks a
        refl refl refl a.rows a.tasks

  expire-IsAudited :
      (w : World) (id : ℕ) → IsAudited w → IsAudited (record w { guard = expire id w.guard })
  unfolding expire
  expire-IsAudited w id a = elim (Bool-cases (contains id w.guard.waiting)) [
    | inl waits ↦ rw waits (
        mark w (record w.guard { waiting = erase id w.guard.waiting }) id expired none none w.tasks
          a refl refl refl a.rows a.tasks)
    | inr gone ↦ rw gone a
  ]

  sent-propose :
      (total amount : ℤ) (id address chain day : ℕ) (g : Guard)
      → (propose_with cfg total id amount address chain day g).0.sent ≡ g.sent
  unfolding propose_with
  sent-propose total amount id address chain day g = ground arith

  Step-IsAudited : {w u : World} → Step cfg w u → IsAudited w → IsAudited u
  unfolding withdraw confirm_end add_to_whitelist
  Step-IsAudited {w} (lists address chain) a =
      grow w (add_to_whitelist cfg address chain w.guard) w.tasks a
        (add_to_whitelist-Grows cfg address chain w.guard)
        (add_to_whitelist-RowsListed cfg address chain w.guard a.rows) refl a.tasks
  Step-IsAudited {w} (checks address chain ok) a = record {
    rows = a.rows;
    tasks = (may_propose-Listed address chain w.guard ok, a.tasks);
    sent = a.sent;
  }
  Step-IsAudited {w} (proposes i address chain total amount id day at) a =
      let task = All-get (IsSound w.guard) w.tasks i (checked address chain) a.tasks at in
      grow w (propose_with cfg total id amount address chain day w.guard).0 (set w.tasks i finished)
        a (propose_with-Grows cfg total amount id address chain day w.guard)
        (propose_with-RowsListed cfg total amount id address chain day w.guard task a.rows)
        (sent-propose total amount id address chain day w.guard)
        (All-set (IsSound w.guard) w.tasks i finished tt a.tasks)
  Step-IsAudited {w} (confirms id p ok) a = record {
    rows = a.rows;
    tasks = (confirm_check-Known id p w.guard ok, a.tasks);
    sent = a.sent;
  }
  Step-IsAudited {w} (sends i id p at) a = record {
    rows = a.rows;
    tasks = All-set (IsSound w.guard) w.tasks i (settling id) tt a.tasks;
    sent = (All-get (IsSound w.guard) w.tasks i (executing id p) a.tasks at, a.sent);
  }
  Step-IsAudited {w} (settles i id answer by at) a =
      settle-IsAudited w id by answer (set w.tasks i (closing id)) a
        (All-set (IsSound w.guard) w.tasks i (closing id) tt a.tasks)
  Step-IsAudited {w} (closes i id at) a = record {
    rows = a.rows;
    tasks = All-set (IsSound w.guard) w.tasks i finished tt a.tasks;
    sent = a.sent;
  }
  Step-IsAudited {w} (rejects id) a = reject-IsAudited w id a
  Step-IsAudited {w} (expires id) a = expire-IsAudited w id a

  Reach-IsAudited : {w : World} → Reach cfg w → IsAudited w
  Reach-IsAudited here = record { rows = λ id q e. absurd (none≢some e); tasks = tt; sent = tt }
  Reach-IsAudited (next r s) = Step-IsAudited s (Reach-IsAudited r)

  -- A withdrawal that is accounted for: the table has its proposal, with the amount, the address and
  -- the chain that the exchange was given, and the whitelist has the address.
  abbrev pub IsAccounted : Guard → Sent → Type 0
  IsAccounted g s = Known g s.proposal_id s.amount s.address s.chain × Listed cfg g s.address

  IsRecorded-IsAccounted :
      (g : Guard) (s : Sent) → RowsListed cfg g → IsRecorded g s → IsAccounted g s
  IsRecorded-IsAccounted g s rows k = elim (Option-cases (lookup s.proposal_id g.proposals)) [
    | inl e ↦ absurd (rw e at k)
    | inr (q, e) ↦ (k, ground (arith, rows s.proposal_id q e, rw e at k))
  ]

  -- If only whitelisted addresses are allowed, then in every state that the guard reaches, however
  -- its coroutines interleave and whatever the exchange answers, each withdrawal that the exchange
  -- was ever asked for is accounted for: no status change, timeout, rejection or race loses its
  -- proposal, or sends another amount or to another address.
  pub Reach-IsAccounted : {w : World} → Reach cfg w → All (IsAccounted w.guard) w.guard.sent
  Reach-IsAccounted {w} r =
      let a = Reach-IsAudited r in
      All-map (IsRecorded w.guard) (IsAccounted w.guard) w.guard.sent
        (λ s. IsRecorded-IsAccounted w.guard s a.rows) a.sent
