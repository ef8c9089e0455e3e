-- ===== src/Round/Examples.antt =====
-- Rounds over the quorum of dag/quorum: runs of the loop, and its theorems at these inputs.
use unison.Base.{ℕ, ◌+◌, ◌≤◌, ◌≡◌, refl, true, false, some, none, [], ◌∷◌, arith, ℕ_discrete}
use unison.Base.Key.{bytes_key, bytes_discrete}
use unison.Base.Map.{lookup, insert, delete}
use unison.Messages.{equals}
use unison.Quorum.{
  Quorum, Certificate, Error, new_quorum, new_certificate, add, get, delete_certificate,
}
use unison.Quorum.Invariant.{new_quorum-IsValid}
use unison.Quorum.Contract.{quorum_certificate, contract, finalize_result}
use unison.Quorum.Examples.{
  members, members-IsValidSet, block_id, block, signature_of, solo, solo_proposed, solo_final,
  solo_get, solo_signed, solo_is_final,
}
use unison.Round.{
  Round, StateOp, add_op, get_op, delete_op, add_sign_op, set_certificate, set_error, not_deleted,
  not_found, new_round, contains, remove, notify_added, state_add, subscribe, state_get,
  state_delete, try_finalize, state_add_sign, dispatch, do_op, run,
}
use unison.Round.Order.{pending, IsOrderly, Settles}
use unison.Round.Settle.{do_op-Settles}
use unison.Round.Run.{requested, new_round-IsOrderly}
use unison.Round.Termination.{own_steps, submissions, work, own_steps-work}
use unison.Round.Waiting.{channel_case, stop_check, stop_close, stop_wait, stop_returns}
use unison.Round.Loop.{
  Loop, started, draining, stopped, Step, submit, take, stop, leave, finish, Reach, here, next,
  IsServed, started-IsServed_always,
}

abbrev pub request : ℕ → StateOp
request p = record { pointer = p; kind = get_op block_id }

abbrev pub proposal : ℕ → StateOp
proposal p = record { pointer = p; kind = add_op block }

abbrev pub empty : Round Quorum
empty = record { round_num = 1; quorum = new_quorum members; get_op_subs = []; finalized = false }

-- Operation 1 waits for the block.
abbrev asked_for : Round Quorum
asked_for = record empty { get_op_subs = (55 ∷ [], 1 ∷ []) ∷ [] }

abbrev pub added : Round Quorum
added = record empty {
  quorum = record (new_quorum members) { certificates = (55 ∷ [], new_certificate block) ∷ [] };
}

pub added_there : quorum_certificate.get block_id added.quorum ≡ some (new_certificate block)
unfolding get lookup bytes_discrete
added_there = refl

empty_is_new : new_round 1 (new_quorum members) ≡ empty
unfolding new_round
empty_is_new = refl

asks : do_op quorum_certificate (request 1) empty ≡ some (asked_for, [])
unfolding do_op dispatch state_get subscribe get lookup insert contains new_quorum
asks = refl

answers :
    do_op quorum_certificate (proposal 2) asked_for
    ≡ some (added, (1, set_certificate (new_certificate block)) ∷ (2, set_error none) ∷ [])
unfolding do_op dispatch state_add notify_added get add lookup insert delete bytes_discrete
    new_quorum equals new_certificate
answers = refl

cancels : do_op quorum_certificate (request 1) asked_for ≡ some (empty, (1, set_error none) ∷ [])
unfolding do_op dispatch state_get subscribe get lookup delete contains remove bytes_discrete
    new_quorum
cancels = refl

refuses :
    do_op quorum_certificate (record { pointer = 3; kind = delete_op block_id }) empty
    ≡ some (empty, (3, set_error (some not_deleted)) ∷ [])
unfolding do_op dispatch state_delete delete_certificate new_quorum lookup delete
refuses = refl

misses :
    do_op quorum_certificate
      (record { pointer = 3; kind = add_sign_op block_id (signature_of 1) })
      empty
    ≡ some (empty, (3, set_error (some not_found)) ∷ [])
unfolding do_op dispatch state_add_sign get new_quorum lookup
misses = refl

runs :
    run quorum_certificate (request 1 ∷ proposal 2 ∷ []) empty
    ≡ some (added, (1, set_certificate (new_certificate block)) ∷ (2, set_error none) ∷ [])
unfolding run do_op dispatch state_get subscribe contains state_add notify_added get add lookup
    insert delete bytes_discrete new_quorum equals new_certificate
runs = refl

pub empty-IsOrderly : IsOrderly quorum_certificate contract empty
unfolding new_round
empty-IsOrderly =
    new_round-IsOrderly quorum_certificate contract 1 (new_quorum members)
      (0, new_quorum-IsValid members members-IsValidSet)

asked_for-IsOrderly : IsOrderly quorum_certificate contract asked_for
unfolding new_quorum get lookup
asked_for-IsOrderly = record {
  valid = (0, new_quorum-IsValid members members-IsValidSet);
  quiet = λ id h. cc;
  nonempty = (λ e. cc, tt);
  unique = (refl, tt);
}

waits_there : lookup (55 ∷ []) asked_for.get_op_subs ≡ some (1 ∷ [])
unfolding lookup bytes_discrete
waits_there = refl

one_waits : contains 1 (1 ∷ []) ≡ true
unfolding contains ℕ_discrete
one_waits = refl

-- A round with one includer, which its signature makes final.
abbrev pub proposed : Round Quorum
proposed = record { round_num = 1; quorum = solo_proposed; get_op_subs = []; finalized = false }

abbrev pub settled : Round Quorum
settled = record { round_num = 1; quorum = solo_final; get_op_subs = []; finalized = true }

abbrev pub last_signature : StateOp
last_signature = record { pointer = 4; kind = add_sign_op block_id (signature_of 1) }

pub becomes_final :
    do_op quorum_certificate last_signature proposed ≡ some (settled, (4, set_error none) ∷ [])
unfolding do_op dispatch state_add_sign try_finalize finalize_result
becomes_final = ground (arith, solo_get, solo_signed, solo_is_final)

pub solo_adds :
    do_op quorum_certificate (proposal 2) (new_round 1 (new_quorum solo))
    ≡ some (proposed, (2, set_error none) ∷ [])
unfolding do_op dispatch state_add notify_added add new_quorum new_certificate new_round lookup
    insert bytes_discrete equals
solo_adds = refl

-- A loop that takes one operation, is told to stop, and drains the other.
abbrev from : Loop Quorum Certificate Error
from = started empty

abbrev sent_one : Loop Quorum Certificate Error
sent_one = record from { channel = request 1 ∷ []; accepted = request 1 ∷ [] }

abbrev took_one : Loop Quorum Certificate Error
took_one = record sent_one { round = asked_for; channel = []; handled = request 1 ∷ [] }

abbrev told : Loop Quorum Certificate Error
told = record took_one { closing = true }

abbrev left_loop : Loop Quorum Certificate Error
left_loop = record told { mode = draining }

abbrev over : Loop Quorum Certificate Error
over = record left_loop { mode = stopped }

to_left_loop : Reach quorum_certificate from left_loop
unfolding started
to_left_loop =
    next
      (next
        (next (next here (submit (request 1) sent_one (omega arith) refl))
          (take (request 1) [] asked_for [] took_one refl refl asks refl))
        (stop told refl refl))
      (leave left_loop refl refl refl)

closes : Step quorum_certificate left_loop over
closes = finish over refl refl refl

-- The witnesses.
do_op-Settles_example :
    Settles quorum_certificate contract 2 asked_for
      (do_op quorum_certificate (proposal 2) asked_for)
unfolding ℕ_discrete
do_op-Settles_example =
    do_op-Settles quorum_certificate contract (proposal 2) asked_for asked_for-IsOrderly
      (omega arith)

started-IsServed_always_example : IsServed quorum_certificate empty left_loop
started-IsServed_always_example =
    started-IsServed_always quorum_certificate empty left_loop to_left_loop

to_took_one : Reach quorum_certificate from took_one
unfolding started
to_took_one =
    next (next here (submit (request 1) sent_one (omega arith) refl))
      (take (request 1) [] asked_for [] took_one refl refl asks refl)

own_steps-work_example :
    own_steps quorum_certificate to_left_loop + work left_loop
    ≡ work from + submissions quorum_certificate to_left_loop
own_steps-work_example = own_steps-work quorum_certificate to_left_loop

took_once : (a : ℕ) → pending a empty + requested a took_one.accepted ≤ 1
unfolding new_round
took_once a = ground arith

took_still : took_one.closing ≡ false
unfolding started
took_still = refl

stop_returns_example :
    (stop_check took_one ≡ none)
    × ((u : Loop Quorum Certificate Error) × (stop_close took_one ≡ some u)
        × ((t : Loop Quorum Certificate Error) × Reach quorum_certificate u t
            × (stop_wait t false channel_case ≡ some none)
            × (t.handled ≡ took_one.accepted)))
stop_returns_example =
    stop_returns quorum_certificate contract empty took_one empty-IsOrderly to_took_one took_still
      took_once
