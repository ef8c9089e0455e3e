-- ===== src/Round/Delivery/Examples.antt =====
-- Callers of a round that wait, that leave, and one that holds up the loop.
use unison.Base.{ℕ, ◌+◌, ◌≤◌, ◌≡◌, refl, true, false, none, some, [], ◌∷◌, arith}
use unison.Quorum.{Quorum, Certificate, Error, new_certificate}
use unison.Quorum.Contract.{quorum_certificate, contract}
use unison.Quorum.Examples.{block_id, block}
use unison.Round.{Round, Answers, run}
use unison.Round.Order.{pending}
use unison.Round.Run.{requested}
use unison.Round.Examples.{request, proposal, empty, empty-IsOrderly, added, added_there}
use unison.Round.Delivery.{
  Unread, deliver, channel_ready, closed_ready, context_ready, closed_round, exec_op, context_error,
  closed_error, error_of, join, GetCall, get_certificate, run-delivers, get_certificate_blocks,
}

refused : exec_op {E = Error} closed_ready channel_ready none ≡ (false, closed_round)
unfolding exec_op
refused = refl

-- A call whose first wait is ended by its context, and whose second by the time limit.
abbrev leaves : GetCall Certificate Error
leaves = record {
  first_submit = channel_ready;
  first_wait = context_ready;
  cancelled = true;
  second_submit = channel_ready;
  second_wait = context_ready;
  error = none;
  comm = none;
}

leaves_result :
    get_certificate 1 block_id leaves
    ≡ (request 1 ∷ request 1 ∷ [], none, context_error ∷ context_error ∷ [])
unfolding get_certificate exec_op error_of join
leaves_result = refl

waits_result :
    get_certificate 1 block_id
      (record leaves { first_wait = channel_ready; comm = some (new_certificate block) })
    ≡ (request 1 ∷ [], some (new_certificate block), [])
unfolding get_certificate exec_op error_of
waits_result = refl

closed_result :
    get_certificate 1 block_id (record leaves { first_submit = closed_ready; cancelled = false })
    ≡ ([], none, closed_error ∷ [])
unfolding get_certificate exec_op error_of
closed_result = refl

-- The witnesses.
each_once : (a : ℕ) → pending a empty + requested a (request 1 ∷ proposal 2 ∷ []) ≤ 1
each_once a = ground arith

run-delivers_example :
    (r' : Round Quorum) × (ans : Answers Certificate Error) × (left : Unread) × (run
        quorum_certificate
        (request 1 ∷ proposal 2 ∷ [])
        empty
      ≡ some (r', ans))
    × (deliver ans (λ _. 0) ≡ some left)
run-delivers_example =
    run-delivers quorum_certificate contract (request 1 ∷ proposal 2 ∷ []) empty empty-IsOrderly
      each_once

get_certificate_blocks_example :
    (ans : Answers Certificate Error) × (run quorum_certificate
        (get_certificate 1 block_id leaves).0
        added
      ≡ some (added, ans))
    × (deliver ans (λ _. 0) ≡ none)
get_certificate_blocks_example =
    get_certificate_blocks quorum_certificate 1 block_id leaves added (new_certificate block)
      added_there refl refl refl refl refl
