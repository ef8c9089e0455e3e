-- ===== src/Node/Safety.antt =====
-- Whatever a node does, the certificates that its quorums list are decided: good messages, checked
-- signatures, and signers with more than two thirds of the stake; and two nodes decide alike.
use unison.Base.{
  ℕ, ◌≡◌, refl, sym, ◌∙◌, subst, some, List, All, arith, Option-cases, Bool-cases, inl, inr,
}
use unison.Base.Key.{bytes_key, nat_key}
use unison.Base.Map.{lookup, insert}
use unison.Base.Entries.{All-lookup, All-insert}
use unison.Messages.{Signature, MessageId}
use unison.Quorum.{Error, Includer, Certificate, Quorum, new_quorum, get, list}
use unison.Quorum.Total.{IsValidSet}
use unison.Quorum.Invariant.{IsEntry}
use unison.Quorum.Finality.{SharesThird, list-SharesThird}
use unison.Quorum.Contract.{quorum_certificate}
use unison.Quorum.Tracking.{
  Tracks, new_quorum-Tracks, add-Tracks, delete-Tracks, sign-Tracks, finalize-Tracks, IsDecided,
  list-IsDecided,
}
use unison.Round.{
  Round, StateOp, StateOpKind, add_op, get_op, delete_op, add_sign_op, Answers, new_round, do_op,
}
use unison.Round.Preserve.{Keeps, do_op-keeps}
use unison.Manager.{start_round}
use unison.Node.{
  Protocol, Node, new_node, start, exec, IsGood, Vouches, IsPermitted, Step, starts, executes,
  registers, Reach, here, next,
}

-- An operation on a round that is there, and does not panic.
pub exec_lem :
    (n : ℕ) (op : StateOp) (s : Node) (r r' : Round Quorum) (ans : Answers Certificate Error)
    → lookup n s.rounds ≡ some r
    → do_op quorum_certificate op r ≡ some (r', ans)
    → exec n op s ≡ some (ans, record s { rounds = insert n r' s.rounds })
unfolding exec
exec_lem n op s r r' ans e d = rw (e, d, exec) refl

module _ (p : Protocol) (valid_sets : (n : ℕ) → IsValidSet (p.includers n)) where
  abbrev Knows : ℕ → Quorum → Type 0
  Knows n q = Tracks (p.includers n).includers (IsGood p n) (Vouches p n) q

  -- Every round's quorum knows its messages and signatures.
  abbrev pub IsSound : Node → Type 0
  IsSound s = All (λ (e : ℕ × Round Quorum). Knows e.0 e.1.quorum) s.rounds

  Vouches-string :
      (n : ℕ) (id : MessageId) (sig : Signature) (q : Quorum) (cert : Certificate)
      → IsPermitted p n (add_sign_op id sig)
      → Knows n q
      → lookup id.string q.certificates ≡ some cert
      → Vouches p n cert.msg sig
  Vouches-string n id sig q cert (same_round, (cid, d, v)) t held =
      let entry =
        All-lookup (IsEntry q.includers.includers) id.string cert q.certificates t.valid.1.entries
          held in
      (id, cid, d, same_round, entry.0, v)

  permitted-Keeps :
      (n : ℕ) (kind : StateOpKind) → IsPermitted p n kind → Keeps quorum_certificate (Knows n) kind
  unfolding get
  permitted-Keeps n (add_op msg) g =
      λ q t. add-Tracks (p.includers n).includers (IsGood p n) (Vouches p n) msg q g t
  permitted-Keeps n (get_op id) g = tt
  permitted-Keeps n (delete_op id) g =
      λ q t. delete-Tracks (p.includers n).includers (IsGood p n) (Vouches p n) id q t
  permitted-Keeps n (add_sign_op id sig) g = λ q q' cert res t held e.
      sign-Tracks (p.includers n).includers (IsGood p n) (Vouches p n) id.string sig cert q q' res t
        held (Vouches-string n id sig q cert g t held) e

  exec-IsSound :
      (n : ℕ) (op : StateOp) (ans : Answers Certificate Error) (s t : Node)
      → IsPermitted p n op.kind
      → IsSound s
      → exec n op s ≡ some (ans, t)
      → IsSound t
  unfolding exec
  exec-IsSound n op ans s t g h e = elim (Option-cases (lookup n s.rounds)) [
    | inl f ↦ absurd (ground (arith, f))
    | inr (r, f) ↦ elim (Option-cases (do_op quorum_certificate op r)) [
      | inl d ↦ absurd (ground (arith, f, d))
      | inr ((r', now), d) ↦
          let after : record s { rounds = insert n r' s.rounds } ≡ t = ground (arith, f, d) in
          let known =
            All-lookup (λ (e : ℕ × Round Quorum). Knows e.0 e.1.quorum) n r s.rounds h f in
          subst IsSound after (
            All-insert (λ (e : ℕ × Round Quorum). Knows e.0 e.1.quorum) n r' s.rounds h
              (do_op-keeps quorum_certificate (Knows n) op r r' now
                (λ q q' res k u.
                  finalize-Tracks (p.includers n).includers (IsGood p n) (Vouches p n) q q' res k u)
                (permitted-Keeps n op.kind g) known d))
    ]
  ]

  start-IsSound : (n : ℕ) (s : Node) → IsSound s → IsSound (start p n s)
  unfolding start new_round
  start-IsSound n s h = elim (Bool-cases (start_round n n s.registry).0) [
    | inr e ↦ rw (e, start) h
    | inl e ↦
        rw (e, start)
          (All-insert (λ (e : ℕ × Round Quorum). Knows e.0 e.1.quorum) n
            (new_round n (new_quorum (p.includers n))) s.rounds h
            (new_quorum-Tracks (p.includers n).includers (IsGood p n) (Vouches p n) (p.includers n)
              (valid_sets n) refl))
  ]

  Step-IsSound : {s t : Node} → IsSound s → Step p s t → IsSound t
  Step-IsSound {s} h (starts n t e) = subst IsSound (sym e) (start-IsSound n s h)
  Step-IsSound {s} h (executes n op ans t g e) = exec-IsSound n op ans s t g h e
  Step-IsSound {s} h (registers m t e) = subst IsSound (sym e) h

  Reach-IsSound : {s t : Node} → IsSound s → Reach p s t → IsSound t
  Reach-IsSound h here = h
  Reach-IsSound h (next r st) = Step-IsSound (Reach-IsSound h r) st

  round-Knows :
      (s : Node) (n : ℕ) (r : Round Quorum)
      → Reach p new_node s
      → lookup n s.rounds ≡ some r
      → Knows n r.quorum
  unfolding new_node
  round-Knows s n r w e =
      All-lookup (λ (e : ℕ × Round Quorum). Knows e.0 e.1.quorum) n r s.rounds (Reach-IsSound tt w)
        e

  -- From a new node, after any interleaving of round starts and operations that the handlers permit:
  -- every certificate that a round's quorum lists is over a message of that round whose id decodes, is
  -- valid and names its hash, and is signed by distinct includers of the round with more than two
  -- thirds of the stake, each of whose signatures was checked over the bytes of an id of that round
  -- that prints as the message's.
  pub listed-IsDecided :
      (s : Node) (n : ℕ) (r : Round Quorum)
      → Reach p new_node s
      → lookup n s.rounds ≡ some r
      → All (IsDecided (p.includers n).includers (IsGood p n) (Vouches p n)) (list r.quorum)
  listed-IsDecided s n r w e =
      list-IsDecided (p.includers n).includers (IsGood p n) (Vouches p n) r.quorum
        (round-Knows s n r w e)

  -- Two nodes that run the same protocol, each in its own way: of a round that both have, each
  -- certificate that the one lists and each that the other lists have common signers with more than
  -- a third of the round's stake.
  pub nodes-SharesThird :
      (s s' : Node) (n : ℕ) (r r' : Round Quorum)
      → Reach p new_node s
      → Reach p new_node s'
      → lookup n s.rounds ≡ some r
      → lookup n s'.rounds ≡ some r'
      → All
          (λ (c : Certificate). All (SharesThird (p.includers n).includers c) (list r'.quorum))
          (list r.quorum)
  nodes-SharesThird s s' n r r' w w' e e' =
      let k = round-Knows s n r w e in
      let k' = round-Knows s' n r' w' e' in
      subst
        (λ (vs : List Includer).
          All (λ (c : Certificate). All (SharesThird vs c) (list r'.quorum)) (list r.quorum))
        k.members
        (list-SharesThird k.valid.0 k'.valid.0 r.quorum r'.quorum k.valid.1 k'.valid.1
          (k.members ∙ sym k'.members))
