-- ===== src/Finalization/Convergence.antt =====
-- Two rounds over the same includers that took their proposals and signatures in different orders.
use unison.Base.{ℕ, ◌+◌, ◌≡◌, sym, ap, ◌∙◌, subst, some, List, All, All-map, leb, arith}
use unison.Base.Key.{Bytes, bytes_key}
use unison.Base.Map.{lookup}
use unison.Quorum.{Includers, Quorum, Certificate, Error, get}
use unison.Quorum.Total.{IsValidSet, two_thirds}
use unison.Quorum.Stake.{stake_sum}
use unison.Quorum.Invariant.{
  IsValid, new_quorum-IsValid, add-IsValid, sign-IsValid, completed_stake,
}
use unison.Quorum.Contract.{quorum_certificate}
use unison.Quorum.Readiness.{finalize_result-IsValid}
use unison.Quorum.Agreement.{Matches, completed_stake-agree}
use unison.Round.{
  Round, StateOp, StateOpKind, add_op, get_op, delete_op, add_sign_op, Answers, new_round, run,
}
use unison.Round.Preserve.{Keeps, KeepsFinal, run-keeps}
use unison.Finalization.Prompt.{fresh_round, fresh_run-ready, members-ready}

-- The operation deletes nothing.
abbrev pub IsKeeping : StateOpKind → Type 0
IsKeeping (add_op msg) = Unit
IsKeeping (get_op id) = Unit
IsKeeping (delete_op id) = ⊥
IsKeeping (add_sign_op id sig) = Unit

-- Without deletions the counted stake is that of the certificates that are there.
kept-IsValid : (kind : StateOpKind) → IsKeeping kind → Keeps quorum_certificate (IsValid 0) kind
unfolding get
kept-IsValid (add_op msg) h = λ q v. add-IsValid msg 0 q v
kept-IsValid (get_op id) h = tt
kept-IsValid (delete_op id) h = absurd h
kept-IsValid (add_sign_op id sig) h = λ q q' cert res v held e.
    let (res', q₁, f, v') = sign-IsValid id.string sig cert 0 q v held in
    let same_end : q₁ ≡ q' = ground arith in subst (IsValid 0) same_end v'

finalize-IsValid : KeepsFinal quorum_certificate (IsValid 0)
finalize-IsValid = λ q q' res v e. finalize_result-IsValid 0 q q' res v e

module _ (n : ℕ) (incl : Includers) (valid : IsValidSet incl) where
  kept-final :
      (ops : List StateOp) (r : Round Quorum) (ans : Answers Certificate Error)
      → All (λ (o : StateOp). IsKeeping o.kind) ops
      → run quorum_certificate ops (fresh_round n incl) ≡ some (r, ans)
      → IsValid 0 r.quorum
        × (r.quorum.includers.includers ≡ incl.includers)
        × (r.finalized ≡ leb (two_thirds (stake_sum incl.includers)) (completed_stake r.quorum + 0))
  unfolding new_round
  kept-final ops r ans h e =
      let (t, final) = fresh_run-ready n incl valid ops r ans e in
      let v =
        run-keeps quorum_certificate (IsValid 0) ops (fresh_round n incl) r ans finalize-IsValid
          (All-map (λ (o : StateOp). IsKeeping o.kind)
            (λ (o : StateOp). Keeps quorum_certificate (IsValid 0) o.kind)
            (λ o k. kept-IsValid o.kind k) ops h)
          (new_quorum-IsValid incl valid) e in
      (v, t.members, final ∙ members-ready incl.includers 0 r.quorum v t.members)

  -- Order does not matter: two nodes whose rounds over the same includers took any operations but
  -- deletions, each in its own order, and now hold certificates of the same proposers and signers
  -- under the same ids, agree on whether the round is final.
  pub same_signers-same_final :
      (ops ops' : List StateOp) (r r' : Round Quorum) (ans ans' : Answers Certificate Error)
      → All (λ (o : StateOp). IsKeeping o.kind) ops
      → All (λ (o : StateOp). IsKeeping o.kind) ops'
      → run quorum_certificate ops (fresh_round n incl) ≡ some (r, ans)
      → run quorum_certificate ops' (fresh_round n incl) ≡ some (r', ans')
      → ((k : Bytes) → Matches (lookup k r.quorum.certificates) (lookup k r'.quorum.certificates))
      → r.finalized ≡ r'.finalized
  same_signers-same_final ops ops' r r' ans ans' h h' e e' same =
      let (v, members, final) = kept-final ops r ans h e in
      let (v', members', final') = kept-final ops' r' ans' h' e' in
      let stake =
        completed_stake-agree incl.includers 0 0 r.quorum r'.quorum v v' members members' same in
      final ∙ ap (λ (x : ℕ). leb (two_thirds (stake_sum incl.includers)) (x + 0)) stake ∙ sym final'
