-- ===== src/Round/OrderExamples.antt =====
-- A block and two signatures on it, taken in either order by the loops of two rounds.
use unison.Base.{ℕ, ◌≡◌, refl, false, none, some, List, [], ◌∷◌, arith}
use unison.Base.Key.{bytes_key, bytes_discrete}
use unison.Base.Map.{lookup, insert}
use unison.Messages.{Signature, equals}
use unison.Quorum.{Quorum, Certificate, Error, new_quorum, new_certificate, add}
use unison.Quorum.Contract.{quorum_certificate}
use unison.Quorum.Examples.{members, block_id, signature_of}
use unison.Quorum.OrderExamples.{
  unsigned, quorum_with, unsigned_get, with_get, signs_first_one, signs_first_two, signs_then_two,
  signs_then_one,
}
use unison.Round.{
  Round, StateOp, Answers, add_sign_op, set_error, new_round, state_add, notify_added,
  state_add_sign, dispatch, do_op, run,
}
use unison.Round.Examples.{proposal}

abbrev holding : Quorum → Round Quorum
holding q = record { round_num = 1; quorum = q; get_op_subs = []; finalized = false }

abbrev pub after : List Signature → Round Quorum
after ss = holding (quorum_with ss)

abbrev pub signature_op : ℕ → ℕ → StateOp
signature_op op v = record { pointer = op; kind = add_sign_op block_id (signature_of v) }

adds :
    do_op quorum_certificate (proposal 2) (new_round 1 (new_quorum members))
    ≡ some (holding unsigned, (2, set_error none) ∷ [])
unfolding do_op dispatch state_add notify_added add new_quorum new_certificate new_round lookup
    insert bytes_discrete equals
adds = refl

first_one :
    do_op quorum_certificate (signature_op 3 1) (holding unsigned)
    ≡ some (after (signature_of 1 ∷ []), (3, set_error none) ∷ [])
unfolding do_op dispatch state_add_sign
first_one = ground (arith, unsigned_get, signs_first_one)

then_two :
    do_op quorum_certificate (signature_op 4 2) (after (signature_of 1 ∷ []))
    ≡ some (after (signature_of 1 ∷ signature_of 2 ∷ []), (4, set_error none) ∷ [])
unfolding do_op dispatch state_add_sign
then_two = ground (arith, with_get (signature_of 1 ∷ []), signs_then_two)

first_two :
    do_op quorum_certificate (signature_op 3 2) (holding unsigned)
    ≡ some (after (signature_of 2 ∷ []), (3, set_error none) ∷ [])
unfolding do_op dispatch state_add_sign
first_two = ground (arith, unsigned_get, signs_first_two)

then_one :
    do_op quorum_certificate (signature_op 4 1) (after (signature_of 2 ∷ []))
    ≡ some (after (signature_of 2 ∷ signature_of 1 ∷ []), (4, set_error none) ∷ [])
unfolding do_op dispatch state_add_sign
then_one = ground (arith, with_get (signature_of 2 ∷ []), signs_then_one)

abbrev pub all_done : Answers Certificate Error
all_done = (2, set_error none) ∷ (3, set_error none) ∷ (4, set_error none) ∷ []

pub one_two :
    run quorum_certificate
      (proposal 2 ∷ signature_op 3 1 ∷ signature_op 4 2 ∷ [])
      (new_round 1 (new_quorum members))
    ≡ some (after (signature_of 1 ∷ signature_of 2 ∷ []), all_done)
unfolding run
one_two = ground (arith, adds, first_one, then_two)

pub two_one :
    run quorum_certificate
      (proposal 2 ∷ signature_op 3 2 ∷ signature_op 4 1 ∷ [])
      (new_round 1 (new_quorum members))
    ≡ some (after (signature_of 2 ∷ signature_of 1 ∷ []), all_done)
unfolding run
two_one = ground (arith, adds, first_two, then_one)
