-- ===== src/Finalization/Settled.antt =====
-- A round becomes final: enough proposals with enough signatures each close `finalCh`, in whatever
-- order the loop takes them and whatever else it takes.
use unison.Base.{
  ℕ, ◌*◌, length, ◌≤◌, ◌≡◌, ◌≢◌, refl, ◌∙◌, true, some, none, List, [], ◌∷◌, All, All-map, inl,
  arith, subst,
}
use unison.Base.Key.{Bytes, bytes_key}
use unison.Finalization.Valid.{IsOver}
use unison.Quorum.{Includer, Includers, Quorum, Certificate, Error, find_includer, new_quorum, list}
use unison.Quorum.Total.{IsValidSet, two_thirds, threshold}
use unison.Quorum.Stake.{stake_sum, weight, weights, Distinct}
use unison.Quorum.Invariant.{IsEntry, completed_stake}
use unison.Quorum.Contract.{quorum_certificate}
use unison.Quorum.Proposals.{
  Proposal, proposed_stake, ByDifferent, DistinctKeys, IsComplete, signed-completed,
  proposed_stake-le, different_keys, IsListed, list-IsListed,
}
use unison.Round.{Round, StateOp, Answers, new_round, run}
use unison.Round.Loop.{Loop, started, Reach, started-IsServed_always}
use unison.Round.Run.{requested}
use unison.Finalization.Prompt.{
  fresh_round, fresh-IsOver, fresh_run, fresh_run-ready, members-ready,
}
use unison.Finalization.Arrival.{Spares, Supports, IsThere, proposal_arrives}
use unison.Base.Entries.{All-lookup}
use unison.Base.Map.{lookup}
use unison.Quorum.Signing.{IsValidCert}

-- The proposal is an includer's, and its signatures are by different includers with more than two
-- thirds of the stake.
pub record IsBacked (vs : List Includer) (b : Proposal) : Type 0 where
  pub known : find_includer vs b.proposer ≢ none
  pub signers_known : All (λ s. find_includer vs s.signer ≢ none) b.signatures
  pub distinct : Distinct b.signatures
  pub enough : two_thirds (stake_sum vs) ≤ weights vs b.signatures

-- What the proposal needs of the operations.
abbrev pub Carries : List StateOp → Proposal → Type 0
Carries ops b = Supports b ops × All (λ (o : StateOp). Spares b o.kind) ops

there-IsComplete :
    (vs : List Includer) (b : Proposal) (q : Quorum)
    → IsBacked vs b
    → IsThere vs b b.signatures q
    → IsComplete q.certificates b
there-IsComplete vs b q k (t, (cert, held, (by_proposer, signed))) =
    let entry =
      All-lookup (IsEntry q.includers.includers) b.key cert q.certificates t.valid.1.entries held in
    let valid_cert = subst (λ (l : List Includer). IsValidCert l cert) t.members entry.1 in
    (
      cert,
      held,
      by_proposer,
      signed-completed vs cert b.signatures valid_cert k.distinct signed k.enough,
    )

module _ (n : ℕ) (incl : Includers) (valid : IsValidSet incl) where
  carried-IsComplete :
      (ops : List StateOp) (r : Round Quorum) (ans : Answers Certificate Error) (bs : List Proposal)
      → All (IsBacked incl.includers) bs
      → All (Carries ops) bs
      → run quorum_certificate ops (fresh_round n incl) ≡ some (r, ans)
      → All (IsComplete r.quorum.certificates) bs
  unfolding new_round new_quorum lookup
  carried-IsComplete ops r ans [] k c e = tt
  carried-IsComplete ops r ans (b ∷ bs) (k, ks) ((supports, spared), cs) e = (
    there-IsComplete incl.includers b r.quorum k (
        proposal_arrives incl.includers b ops (fresh_round n incl) r ans k.known k.signers_known
          spared supports (fresh-IsOver n incl valid, inl refl) e),
    carried-IsComplete ops r ans bs ks cs e,
  )

  -- A run that carries proposals under different keys, whose proposers' stakes add up to what is
  -- required, leaves the round final.
  carried_final :
      (ops : List StateOp) (bs : List Proposal) (r : Round Quorum) (ans : Answers Certificate Error)
      → All (IsComplete r.quorum.certificates) bs
      → DistinctKeys bs
      → threshold incl ≤ proposed_stake incl.includers bs
      → run quorum_certificate ops (fresh_round n incl) ≡ some (r, ans)
      → r.finalized ≡ true
  carried_final ops bs r ans complete keys enough e =
      let (t, final) = fresh_run-ready n incl valid ops r ans e in
      let (lost, v) = t.valid in
      let counted : proposed_stake incl.includers bs ≤ completed_stake r.quorum =
        subst (λ (l : List Includer). proposed_stake l bs ≤ completed_stake r.quorum) t.members
          (proposed_stake-le r.quorum.includers.includers bs r.quorum.certificates v.unique keys
            complete) in
      final ∙ members-ready incl.includers lost r.quorum v t.members ∙ ground arith

  carried-IsListed :
      (q : Quorum) (bs : List Proposal)
      → IsOver incl.includers q
      → All (IsComplete q.certificates) bs
      → All (IsListed (list q)) bs
  carried-IsListed q bs t complete =
      All-map (IsComplete q.certificates) (IsListed (list q))
        (λ b h. list-IsListed t.valid.0 q b t.valid.1 h) bs complete

  -- A round over valid includers becomes final: when its loop takes, in any order and among any other
  -- operations, proposals by different includers with more than two thirds of the stake, each with
  -- later signatures by different includers with more than two thirds, and no operation deletes their
  -- certificates or takes their ids for another proposer, then, each operation being requested once,
  -- the run ends without a panic and with `finalCh` closed.
  pub run-becomes_final :
      (ops : List StateOp) (bs : List Proposal)
      → ((a : ℕ) → requested a ops ≤ 1)
      → ByDifferent bs
      → threshold incl ≤ proposed_stake incl.includers bs
      → All (IsBacked incl.includers) bs
      → All (Carries ops) bs
      → (r : Round Quorum) × (ans : Answers Certificate Error) × (run quorum_certificate ops
            (fresh_round n incl)
          ≡ some (r, ans))
        × (r.finalized ≡ true)
  run-becomes_final ops bs once different enough backed carried =
      let (r, ans, e) = fresh_run n incl valid ops once in
      let complete = carried-IsComplete ops r ans bs backed carried e in
      let keys = different_keys bs r.quorum.certificates different complete in
      (r, ans, e, carried_final ops bs r ans complete keys enough e)

  -- Such a run lists a complete certificate for each of the proposals.
  pub run-settles :
      (ops : List StateOp) (bs : List Proposal)
      → ((a : ℕ) → requested a ops ≤ 1)
      → ByDifferent bs
      → threshold incl ≤ proposed_stake incl.includers bs
      → All (IsBacked incl.includers) bs
      → All (Carries ops) bs
      → (r : Round Quorum) × (ans : Answers Certificate Error) × (run quorum_certificate ops
            (fresh_round n incl)
          ≡ some (r, ans))
        × (r.finalized ≡ true)
        × All (IsListed (list r.quorum)) bs
  run-settles ops bs once different enough backed carried =
      let (r, ans, e, final) = run-becomes_final ops bs once different enough backed carried in
      let (t, _) = fresh_run-ready n incl valid ops r ans e in
      let complete = carried-IsComplete ops r ans bs backed carried e in
      (r, ans, e, final, carried-IsListed r.quorum bs t complete)

  -- The same of the goroutine: however callers, the loop and `Stop` interleave, once the loop has
  -- taken such operations from its channel, in whatever order, `finalCh` is closed.
  pub loop-becomes_final :
      (s : Loop Quorum Certificate Error) (bs : List Proposal)
      → Reach quorum_certificate (started (fresh_round n incl)) s
      → ByDifferent bs
      → threshold incl ≤ proposed_stake incl.includers bs
      → All (IsBacked incl.includers) bs
      → All (Carries s.handled) bs
      → s.round.finalized ≡ true
  loop-becomes_final s bs w different enough backed carried =
      let e = (started-IsServed_always quorum_certificate (fresh_round n incl) s w).served in
      let complete = carried-IsComplete s.handled s.round s.answers bs backed carried e in
      let keys = different_keys bs s.round.quorum.certificates different complete in
      carried_final s.handled bs s.round s.answers complete keys enough e

  -- The proposals are one includer's.
  abbrev pub IsSole : Bytes → List Proposal → Type 0
  IsSole p bs = All (λ (b : Proposal). b.proposer ≡ p) bs

  sole_stake :
      (p : Bytes) (bs : List Proposal)
      → IsSole p bs
      → proposed_stake incl.includers bs ≡ length bs * weight incl.includers p
  sole_stake p [] h = omega arith
  sole_stake p (b ∷ bs) h = rw (h.0, sole_stake p bs h.1) (omega arith)

  -- One includer alone makes a round final, however small its stake: blocks of one proposer under
  -- different ids, each with signatures by different includers with more than two thirds of the stake,
  -- count its stake once for each block, so when they are enough to multiply it to two thirds the run
  -- ends with `finalCh` closed, though nobody else proposed anything.
  pub sole_proposer_finalizes :
      (ops : List StateOp) (p : Bytes) (bs : List Proposal)
      → ((a : ℕ) → requested a ops ≤ 1)
      → IsSole p bs
      → DistinctKeys bs
      → threshold incl ≤ length bs * weight incl.includers p
      → All (IsBacked incl.includers) bs
      → All (Carries ops) bs
      → (r : Round Quorum) × (ans : Answers Certificate Error) × (run quorum_certificate ops
            (fresh_round n incl)
          ≡ some (r, ans))
        × (r.finalized ≡ true)
  sole_proposer_finalizes ops p bs once sole keys enough backed carried =
      let (r, ans, e) = fresh_run n incl valid ops once in
      let complete = carried-IsComplete ops r ans bs backed carried e in
      (r, ans, e, carried_final ops bs r ans complete keys (rw (sole_stake p bs sole) enough) e)
