-- ===== src/Node/Projection.antt =====
-- A node's rounds refine the state machine of one round: what interleaves with them changes nothing.
use unison.Base.{
  ℕ, ◌+◌, ◌≡◌, refl, sym, subst, some, List, [], ◌∷◌, ◌++◌, All, All-append, leb, arith,
  Option-cases, Bool-cases, inl, inr,
}
use unison.Base.Key.{nat_key}
use unison.Base.Map.{lookup, insert}
use unison.Base.Entries.{All-lookup, All-insert}
use unison.Quorum.{Certificate, Quorum, Error}
use unison.Quorum.Total.{IsValidSet, threshold}
use unison.Quorum.Invariant.{IsValid, completed_stake}
use unison.Quorum.Contract.{quorum_certificate}
use unison.Round.{Round, StateOp, Answers, do_op, run}
use unison.Round.Loop.{run-append}
use unison.Manager.{start_round}
use unison.Node.{
  Protocol, Node, new_node, start, exec, IsPermitted, Step, starts, executes, registers, Reach,
  here, next,
}
use unison.Finalization.Deleted.{deleted_by}
use unison.Finalization.Prompt.{fresh_round, fresh_final-exact}

module _ (p : Protocol) where
  -- The round is what permitted operations make of a new round over its includers.
  abbrev pub IsRun : ℕ → Round Quorum → Type 0
  IsRun n r =
      (ops : List StateOp) × (ans : Answers Certificate Error) × All
        (λ (o : StateOp). IsPermitted p n o.kind) ops
      × (run quorum_certificate ops (fresh_round n (p.includers n)) ≡ some (r, ans))

  abbrev AreRuns : Node → Type 0
  AreRuns s = All (λ (e : ℕ × Round Quorum). IsRun e.0 e.1) s.rounds

  IsRun-append :
      (n : ℕ) (op : StateOp) (r r' : Round Quorum) (now : Answers Certificate Error)
      → IsPermitted p n op.kind
      → IsRun n r
      → do_op quorum_certificate op r ≡ some (r', now)
      → IsRun n r'
  IsRun-append n op r r' now g (ops, ans, gs, e) d = (
    ops ++ op ∷ [],
    ans ++ now,
    All-append (λ (o : StateOp). IsPermitted p n o.kind) ops (op ∷ []) gs (g, tt),
    run-append quorum_certificate ops op (fresh_round n (p.includers n)) r r' ans now e d,
  )

  exec-AreRuns :
      (n : ℕ) (op : StateOp) (ans : Answers Certificate Error) (s t : Node)
      → IsPermitted p n op.kind
      → AreRuns s
      → exec n op s ≡ some (ans, t)
      → AreRuns t
  unfolding exec
  exec-AreRuns n op ans s t g h e = elim (Option-cases (lookup n s.rounds)) [
    | inl f ↦ absurd (ground (arith, f))
    | inr (r, f) ↦ elim (Option-cases (do_op quorum_certificate op r)) [
      | inl d ↦ absurd (ground (arith, f, d))
      | inr ((r', now), d) ↦
          let after : record s { rounds = insert n r' s.rounds } ≡ t = ground (arith, f, d) in
          let before = All-lookup (λ (e : ℕ × Round Quorum). IsRun e.0 e.1) n r s.rounds h f in
          subst AreRuns after (
            All-insert (λ (e : ℕ × Round Quorum). IsRun e.0 e.1) n r' s.rounds h
              (IsRun-append n op r r' now g before d))
    ]
  ]

  start-AreRuns : (n : ℕ) (s : Node) → AreRuns s → AreRuns (start p n s)
  unfolding start run
  start-AreRuns n s h = elim (Bool-cases (start_round n n s.registry).0) [
    | inr e ↦ rw (e, start) h
    | inl e ↦
        rw (e, start)
          (All-insert (λ (e : ℕ × Round Quorum). IsRun e.0 e.1) n (fresh_round n (p.includers n))
            s.rounds h ([], [], tt, refl))
  ]

  Step-AreRuns : {s t : Node} → AreRuns s → Step p s t → AreRuns t
  Step-AreRuns {s} h (starts n t e) = subst AreRuns (sym e) (start-AreRuns n s h)
  Step-AreRuns {s} h (executes n op ans t g e) = exec-AreRuns n op ans s t g h e
  Step-AreRuns {s} h (registers m t e) = subst AreRuns (sym e) h

  Reach-AreRuns : {s t : Node} → AreRuns s → Reach p s t → AreRuns t
  Reach-AreRuns h here = h
  Reach-AreRuns h (next r st) = Step-AreRuns (Reach-AreRuns h r) st

  -- From a new node, after any interleaving of round starts and operations that the handlers permit,
  -- each round over valid includers is what permitted operations on it alone make of a new round,
  -- whatever happened to other rounds and the registry; and its `finalCh` is closed exactly if the
  -- proposers of its complete certificates, with what each complete certificate that those operations
  -- deleted had counted for, hold more than two thirds of the round's stake.
  pub round-IsRun :
      (s : Node) (n : ℕ) (r : Round Quorum)
      → IsValidSet (p.includers n)
      → Reach p new_node s
      → lookup n s.rounds ≡ some r
      → (ops : List StateOp) × (ans : Answers Certificate Error) × All
          (λ (o : StateOp). IsPermitted p n o.kind)
          ops
        × (run quorum_certificate ops (fresh_round n (p.includers n)) ≡ some (r, ans))
        × IsValid (deleted_by ops (fresh_round n (p.includers n))) r.quorum
        × (r.finalized
            ≡ leb
                (threshold (p.includers n))
                (completed_stake r.quorum + deleted_by ops (fresh_round n (p.includers n))))
  unfolding new_node
  round-IsRun s n r valid w e =
      let (ops, ans, gs, f) =
        All-lookup (λ (e : ℕ × Round Quorum). IsRun e.0 e.1) n r s.rounds (Reach-AreRuns tt w) e in
      let (v, final) = fresh_final-exact n (p.includers n) valid ops r ans f in
      (ops, ans, gs, f, v, final)
