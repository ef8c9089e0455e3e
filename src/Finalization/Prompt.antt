-- ===== src/Finalization/Prompt.antt =====
-- When a round over a quorum becomes final: `stateAddSign` of rebro/gossip/internal/round closes
-- `finalCh` exactly when the stake that the quorum of dag/quorum counts suffices.
use unison.Base.{
  ℕ, ◌+◌, ◌≤◌, ◌≡◌, refl, ◌∙◌, subst, Bool, true, some, List, ◌⊎◌, inl, inr, leb, arith,
}
use unison.Base.Result.{Result, ok}
use unison.Messages.{Signature, MessageId}
use unison.Quorum.{Includer, Includers, Quorum, Certificate, Error, new_quorum, get, sign}
use unison.Quorum.Total.{IsValidSet, two_thirds, threshold}
use unison.Quorum.Stake.{stake_sum}
use unison.Quorum.Invariant.{new_quorum-IsValid, completed_stake, IsValid}
use unison.Quorum.Contract.{quorum_certificate, contract, finalize_result}
use unison.Quorum.Tracking.{new_quorum-Tracks}
use unison.Quorum.Readiness.{
  ready, add-ready, delete-ready, ready-exact, finalize_result-ready, sign-Counts,
}
use unison.Round.{Round, StateOp, Answers, new_round, run}
use unison.Round.Run.{requested, new_round-IsOrderly, run-Runs}
use unison.Round.Prompt.{Decides, run-IsPrompt}
use unison.Finalization.Deleted.{deleted_by, run-IsValid}
use unison.Finalization.Valid.{IsOver, op-Keeps, finalize-IsOver, run-IsOver}

module _ (vs : List Includer) where
  sign_ready :
      (id : MessageId) (s : Signature) (cert : Certificate) (q q' : Quorum)
      (res : Result Error Bool)
      → IsOver vs q
      → get id q ≡ some cert
      → sign id.string s cert q ≡ some (res, q')
      → (ready vs q' ≡ ready vs q) ⊎ ((res ≡ ok true) × (ready vs q ≡ true → ready vs q' ≡ true))
  unfolding get
  sign_ready id s cert q q' res t held e =
      elim (sign-Counts id.string s cert t.valid.0 q q' res t.valid.1 held e) [
        | inl same_stake ↦ inl (rw same_stake refl)
        | inr (yes_now, up) ↦ inr (yes_now, up (two_thirds (stake_sum vs)))
      ]

  finalize_ready :
      (q q' : Quorum) (res : Result Error Bool)
      → IsOver vs q
      → finalize_result q ≡ some (res, q')
      → (res ≡ ok (ready vs q)) × (ready vs q' ≡ ready vs q)
  finalize_ready q q' res t e =
      let (answer, same_stake) = finalize_result-ready t.valid.0 q q' res t.valid.1 e in
      (subst (λ (l : List Includer). res ≡ ok (ready l q)) t.members answer, rw same_stake refl)

  decides : Decides quorum_certificate (IsOver vs) (ready vs)
  decides = record {
    keeps = op-Keeps vs;
    keeps_final = finalize-IsOver vs;
    add_ready = add-ready vs;
    delete_ready = delete-ready vs;
    sign_ready = sign_ready;
    finalize_ready = finalize_ready;
  }

  pub run-ready :
      (ops : List StateOp) (r r' : Round Quorum) (ans : Answers Certificate Error)
      → IsOver vs r.quorum
      → r.finalized ≡ ready vs r.quorum
      → run quorum_certificate ops r ≡ some (r', ans)
      → r'.finalized ≡ ready vs r'.quorum
  run-ready ops r r' ans t p e =
      run-IsPrompt quorum_certificate (IsOver vs) (ready vs) decides ops r r' ans t p e

pub members-ready :
    (vs : List Includer) (lost : ℕ) (q : Quorum)
    → IsValid lost q
    → q.includers.includers ≡ vs
    → ready vs q ≡ leb (two_thirds (stake_sum vs)) (completed_stake q + lost)
members-ready vs lost q v members =
    subst
      (λ (l : List Includer). ready l q ≡ leb (two_thirds (stake_sum l)) (completed_stake q + lost))
      members (ready-exact lost q v)

-- A new round over the includers.
abbrev pub fresh_round : ℕ → Includers → Round Quorum
fresh_round n incl = new_round n (new_quorum incl)

module _ (n : ℕ) (incl : Includers) (valid : IsValidSet incl) where
  pub fresh-IsOver : IsOver incl.includers (fresh_round n incl).quorum
  unfolding new_round
  fresh-IsOver = new_quorum-Tracks incl.includers (λ _. Unit) (λ _ _. Unit) incl valid refl

  fresh-ready : (fresh_round n incl).finalized ≡ ready incl.includers (fresh_round n incl).quorum
  unfolding new_round new_quorum
  fresh-ready = ground arith

  pub fresh_run :
      (ops : List StateOp)
      → ((a : ℕ) → requested a ops ≤ 1)
      → (r : Round Quorum) × (ans : Answers Certificate Error) × (run quorum_certificate ops
            (fresh_round n incl)
          ≡ some (r, ans))
  unfolding new_round
  fresh_run ops once =
      let o =
        new_round-IsOrderly quorum_certificate contract n (new_quorum incl) fresh-IsOver.valid in
      let (r, ans, e, _, _) =
        run-Runs quorum_certificate contract ops (fresh_round n incl) o
          (λ a. omega (arith, once a)) in
      (r, ans, e)

  pub fresh_run-ready :
      (ops : List StateOp) (r : Round Quorum) (ans : Answers Certificate Error)
      → run quorum_certificate ops (fresh_round n incl) ≡ some (r, ans)
      → IsOver incl.includers r.quorum × (r.finalized ≡ ready incl.includers r.quorum)
  fresh_run-ready ops r ans e = (
    run-IsOver incl.includers ops (fresh_round n incl) r ans fresh-IsOver e,
    run-ready incl.includers ops (fresh_round n incl) r ans fresh-IsOver fresh-ready e,
  )

  pub fresh_final-exact :
      (ops : List StateOp) (r : Round Quorum) (ans : Answers Certificate Error)
      → run quorum_certificate ops (fresh_round n incl) ≡ some (r, ans)
      → IsValid (deleted_by ops (fresh_round n incl)) r.quorum
        × (r.finalized
            ≡ leb (threshold incl) (completed_stake r.quorum + deleted_by ops (fresh_round n incl)))
  unfolding new_round
  fresh_final-exact ops r ans e =
      let (t, final) = fresh_run-ready ops r ans e in
      let lost = deleted_by ops (fresh_round n incl) in
      let v : IsValid lost r.quorum =
        subst (λ (k : ℕ). IsValid k r.quorum) (omega arith)
          (run-IsValid 0 ops (fresh_round n incl) r ans (new_quorum-IsValid incl valid) e) in
      (v, final ∙ members-ready incl.includers lost r.quorum v t.members)

  -- Any operations on a new round over valid includers, each requested once, are carried out without
  -- a panic, and then the listeners of `Finalize` have been released exactly if the proposers of the
  -- complete certificates, with what each complete certificate that these operations deleted had
  -- counted for, hold more than two thirds of the stake; the quorum is valid, and so it counts that
  -- stake and nothing else.
  pub run-final_iff :
      (ops : List StateOp)
      → ((a : ℕ) → requested a ops ≤ 1)
      → (r : Round Quorum) × (ans : Answers Certificate Error) × (run quorum_certificate ops
            (fresh_round n incl)
          ≡ some (r, ans))
        × IsValid (deleted_by ops (fresh_round n incl)) r.quorum
        × (r.finalized
            ≡ leb (threshold incl) (completed_stake r.quorum + deleted_by ops (fresh_round n incl)))
  run-final_iff ops once =
      let (r, ans, e) = fresh_run ops once in
      let (v, exact) = fresh_final-exact ops r ans e in (r, ans, e, v, exact)
