-- ===== src/Finalization/Valid.antt =====
-- Through every operation of a round its quorum stays a valid quorum of the same includers.
use unison.Base.{◌≡◌, some, List, All-const}
use unison.Quorum.{Includer, Quorum, Certificate, Error, get}
use unison.Quorum.Contract.{quorum_certificate}
use unison.Quorum.Tracking.{Tracks, add-Tracks, delete-Tracks, sign-Tracks, finalize-Tracks}
use unison.Round.{Round, StateOp, StateOpKind, add_op, get_op, delete_op, add_sign_op, Answers, run}
use unison.Round.Preserve.{Keeps, KeepsFinal, run-keeps}

module _ (vs : List Includer) where
  -- A valid quorum over the includers.
  abbrev pub IsOver : Quorum → Type 0
  IsOver = Tracks vs (λ _. Unit) (λ _ _. Unit)

  pub op-Keeps : (kind : StateOpKind) → Keeps quorum_certificate IsOver kind
  unfolding get
  op-Keeps (add_op msg) = λ q t. add-Tracks vs (λ _. Unit) (λ _ _. Unit) msg q tt t
  op-Keeps (get_op id) = tt
  op-Keeps (delete_op id) = λ q t. delete-Tracks vs (λ _. Unit) (λ _ _. Unit) id q t
  op-Keeps (add_sign_op id sig) = λ q q' cert res t held e.
      sign-Tracks vs (λ _. Unit) (λ _ _. Unit) id.string sig cert q q' res t held tt e

  pub finalize-IsOver : KeepsFinal quorum_certificate IsOver
  finalize-IsOver = λ q q' res t e. finalize-Tracks vs (λ _. Unit) (λ _ _. Unit) q q' res t e

  pub run-IsOver :
      (ops : List StateOp) (r r' : Round Quorum) (ans : Answers Certificate Error)
      → IsOver r.quorum
      → run quorum_certificate ops r ≡ some (r', ans)
      → IsOver r'.quorum
  run-IsOver ops r r' ans t e =
      run-keeps quorum_certificate IsOver ops r r' ans finalize-IsOver
        (All-const (λ (op : StateOp). Keeps quorum_certificate IsOver op.kind)
          (λ op. op-Keeps op.kind) ops)
        t e
