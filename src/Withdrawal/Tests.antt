-- ===== src/Withdrawal/Tests.antt =====
-- execution/withdrawal_guard.py: runs of the model, and each theorem at an input.
use quantluna.Prelude.{◌≡◌, refl, true, false, none, some, List, [], ◌∷◌, arith, All}
use quantluna.Prelude.Int.{pos, ◌+ℤ◌, ◌-ℤ◌}
use quantluna.Withdrawal.{
  Config, Guard, Proposal, proposal, completed, today_withdrawn, share, propose_withdrawal,
  propose_with, may_propose, is_whitelisted, add_to_whitelist, confirm, confirm_check, withdraw,
  settle, reject,
}
use quantluna.Withdrawal.Race.{confirm_race, confirm_twice}
use quantluna.Withdrawal.Rounds.{Round, rounds, IsWithin, rounds-IsWithin}
use quantluna.Withdrawal.Overrun.{reject_refunds, limit_overrun}
use quantluna.Withdrawal.Steps.{lists, checks, proposes, confirms, sends, here, next}
use quantluna.Withdrawal.Steps.Audit.{IsAccounted, Reach-IsAccounted}

abbrev cfg : Config
cfg = record { daily_limit = pos 1000; whitelist_only = true; lower = λ s. s; upper = λ s. s }

abbrev listed : Guard
listed = record { whitelist = (40, 1) ∷ []; proposals = []; waiting = []; sent = [] }

abbrev asked : Proposal
asked = proposal (pos 600) 40 1 20

abbrev waiting_one : Guard
waiting_one = record listed { proposals = (7, asked) ∷ []; waiting = (7, tt) ∷ [] }

abbrev paid : Guard
paid = record listed { proposals = (7, record asked { status = completed }) ∷ [] }

refused_address : (propose_withdrawal cfg 7 (pos 600) 41 1 20 listed).1 ≡ none
unfolding propose_withdrawal may_propose is_whitelisted
refused_address = refl

refused_amount : (propose_withdrawal cfg 8 (pos 600) 40 1 20 paid).1 ≡ none
unfolding propose_withdrawal propose_with may_propose is_whitelisted today_withdrawn share ◌+ℤ◌
refused_amount = refl

-- One chain to an address: listing it again for another chain takes the first off.
relisted : is_whitelisted cfg 40 1 (add_to_whitelist cfg 40 2 listed) ≡ false
unfolding is_whitelisted add_to_whitelist
relisted = refl

confirm_race_example :
    (confirm_check 7 (withdraw 7 asked waiting_one) ≡ some asked)
    × (confirm_check 7 (settle 7 (some 99) 5 (withdraw 7 asked waiting_one)) ≡ none)
unfolding confirm_check
confirm_race_example = confirm_race 7 5 (some 99) asked waiting_one refl

confirm_twice_example :
    let g = (confirm 7 (some 99) 5 waiting_one).0 in confirm 7 (some 98) 6 g ≡ (g, false)
confirm_twice_example = confirm_twice 7 5 6 (some 99) (some 98) waiting_one

abbrev days_work : List Round
days_work =
    record { id = 7; amount = pos 600; address = 40; chain = 1; day = 20; answer = some 99; by = 5 }
    ∷ record {
      id = 8;
      amount = pos 600;
      address = 40;
      chain = 1;
      day = 20;
      answer = some 98;
      by = 5;
    }
    ∷ record { id = 9; amount = pos 400; address = 40; chain = 1; day = 20; answer = none; by = 5 }
    ∷ []

rounds-IsWithin_example : IsWithin cfg (rounds cfg days_work listed)
unfolding today_withdrawn
rounds-IsWithin_example = rounds-IsWithin cfg days_work listed (λ d. omega arith)

reject_refunds_example :
    (today_withdrawn 20 (reject 7 paid).proposals ≡ today_withdrawn 20 paid.proposals -ℤ pos 600)
    × ((reject 7 paid).sent ≡ [])
reject_refunds_example = reject_refunds 7 (record asked { status = completed }) paid refl refl

limit_overrun_example :
    let g1 = (propose_withdrawal cfg 7 (pos 600) 40 1 20 listed).0 in
    let g2 = (propose_withdrawal cfg 8 (pos 700) 40 1 20 g1).0 in
    let g3 = (confirm 7 (some 99) 5 g2).0 in
    let g4 = (confirm 8 (some 99) 5 g3).0 in
    today_withdrawn 20 g4.proposals ≡ today_withdrawn 20 [] +ℤ pos 600 +ℤ pos 700
unfolding may_propose is_whitelisted today_withdrawn ◌+ℤ◌
limit_overrun_example =
    limit_overrun cfg 7 8 99 5 20 40 1 40 1 (pos 600) (pos 700) listed refl refl refl refl
      (omega arith) (omega arith) (omega arith)

-- A proposal is made, and two operators confirm it at once.
abbrev sent_twice : Guard
sent_twice = record waiting_one {
  sent =
      record { proposal_id = 7; amount = pos 600; address = 40; chain = 1 }
      ∷ record { proposal_id = 7; amount = pos 600; address = 40; chain = 1 }
      ∷ [];
}

Reach-IsAccounted_example : All (IsAccounted cfg refl sent_twice) sent_twice.sent
unfolding may_propose is_whitelisted add_to_whitelist propose_with confirm_check withdraw ◌+ℤ◌
Reach-IsAccounted_example = Reach-IsAccounted cfg refl (
    next
      (next
        (next
          (next
            (next (next (next here (lists 40 1)) (checks 40 1 refl))
              (proposes 0 40 1 (pos 0) (pos 600) 7 20 refl))
            (confirms 7 asked refl))
          (confirms 7 asked refl))
        (sends 0 7 asked refl))
      (sends 1 7 asked refl))
