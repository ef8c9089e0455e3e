-- ===== src/Node/Examples.antt =====
-- A node of a network with one includer: it starts a round, takes its own block and its signature.
use unison.Base.{ℕ, ◌+◌, leb, ◌≡◌, refl, true, some, none, List, [], ◌∷◌, All, ℕ_discrete}
use unison.Base.Key.{bytes_key, nat_key}
use unison.Base.Map.{lookup, insert}
use unison.Quorum.{Certificate, Error, new_quorum, list}
use unison.Quorum.Total.{IsValidSet, threshold}
use unison.Quorum.Invariant.{IsValid, completed_stake}
use unison.Quorum.Finality.{SharesThird}
use unison.Quorum.Tracking.{IsDecided}
use unison.Quorum.Examples.{solo, solo_final-IsValid, block_id, signature_of}
use unison.Round.{StateOp, Answers, run, new_round, set_error}
use unison.Round.Examples.{proposal, proposed, settled, last_signature, solo_adds, becomes_final}
use unison.Manager.{start_round, new_manager}
use unison.Gossip.{Env, which_data, Gossip, round_got, op_done}
use unison.Node.{
  Protocol, Node, new_node, start, exec, IsGood, Vouches, IsPermitted, starts, executes, Reach,
  here, next,
}
use unison.Node.Safety.{exec_lem, listed-IsDecided, nodes-SharesThird}
use unison.Node.Projection.{round-IsRun}
use unison.Finalization.Deleted.{deleted_by}
use unison.Finalization.Prompt.{fresh_round}
use unison.Quorum.Contract.{quorum_certificate}
use unison.Node.Handlers.{Follows}

abbrev pub protocol : Protocol
protocol = record {
  decode = λ _. some block_id;
  is_valid = λ _. true;
  hash = λ _. some (7 ∷ []);
  verify = λ _ _. true;
  includers = λ _. solo;
}

abbrev started : Node
started = start protocol 1 new_node

abbrev with_block : Node
with_block = record started { rounds = (1, proposed) ∷ [] }

abbrev decided : Node
decided = record started { rounds = (1, settled) ∷ [] }

first_round : started.rounds ≡ (1, new_round 1 (new_quorum solo)) ∷ []
unfolding start new_node start_round new_manager insert
first_round = refl

adds : exec 1 (proposal 2) started ≡ some ((2, set_error none) ∷ [], with_block)
unfolding start new_node start_round new_manager insert lookup ℕ_discrete
adds =
    exec_lem 1 (proposal 2) started (new_round 1 (new_quorum solo)) proposed
      ((2, set_error none) ∷ []) refl solo_adds

decides : exec 1 last_signature with_block ≡ some ((4, set_error none) ∷ [], decided)
unfolding insert lookup ℕ_discrete
decides =
    exec_lem 1 last_signature with_block proposed settled ((4, set_error none) ∷ []) refl
      becomes_final

decided_round : lookup 1 decided.rounds ≡ some settled
unfolding lookup ℕ_discrete
decided_round = refl

to_decided : Reach protocol new_node decided
unfolding start new_node start_round new_manager insert
to_decided =
    next
      (next (next here (starts 1 started refl)) (
        executes 1 (proposal 2) ((2, set_error none) ∷ []) with_block (refl, ([], refl), refl, refl)
          adds))
      (executes 1 last_signature ((4, set_error none) ∷ []) decided (refl, ([], refl, refl))
        decides)

valid_sets : (n : ℕ) → IsValidSet (protocol.includers n)
valid_sets n = solo_final-IsValid.set

-- A part of the node's environment as the protocol says; the rest succeeds.
abbrev pub env : Env
env = record {
  decode = protocol.decode;
  is_valid = protocol.is_valid;
  hash = protocol.hash;
  get_round = λ _. round_got;
  add_certificate = λ _. op_done;
  delete_certificate = λ _. op_done;
  get_certificate = λ _. op_done;
  add_signature = λ _ _. op_done;
  certify = λ _. true;
  sign = λ _. some (signature_of 1);
  verify = protocol.verify;
  publish = λ _ _. true;
}

abbrev gossip : Gossip
gossip = record {
  which = which_data;
  id = some (1 ∷ []);
  payload = some (9 ∷ []);
  signature = none;
  signer = none;
}

pub follows : Follows protocol env
follows = record {
  decode = λ _. refl;
  is_valid = λ _. refl;
  hash = λ _. refl;
  verify = λ _ _. refl;
}

-- The witnesses.
listed-IsDecided_example :
    All (IsDecided solo.includers (IsGood protocol 1) (Vouches protocol 1)) (list settled.quorum)
listed-IsDecided_example =
    listed-IsDecided protocol valid_sets decided 1 settled to_decided decided_round

nodes-SharesThird_example :
    All
      (λ (c : Certificate). All (SharesThird solo.includers c) (list settled.quorum))
      (list settled.quorum)
nodes-SharesThird_example =
    nodes-SharesThird protocol valid_sets decided decided 1 settled settled to_decided to_decided
      decided_round decided_round

round-IsRun_example :
    (ops : List StateOp) × (ans : Answers Certificate Error) × All
      (λ (o : StateOp). IsPermitted protocol 1 o.kind)
      ops
    × (run quorum_certificate ops (fresh_round 1 solo) ≡ some (settled, ans))
    × IsValid (deleted_by ops (fresh_round 1 solo)) settled.quorum
    × (settled.finalized
        ≡ leb
            (threshold solo)
            (completed_stake settled.quorum + deleted_by ops (fresh_round 1 solo)))
round-IsRun_example = round-IsRun protocol decided 1 settled (valid_sets 1) to_decided decided_round
