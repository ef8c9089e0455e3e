-- ===== src/Finalization/Deleted.antt =====
-- The stake that deleted certificates leave counted: `Delete` of dag/quorum/quorum.go takes a
-- certificate away and not what it counted for.
use unison.Base.{ℕ, ◌+◌, ◌≡◌, subst, some, none, List, [], ◌∷◌, arith}
use unison.Quorum.{Quorum, Certificate, Error, get}
use unison.Quorum.Invariant.{IsValid, add-IsValid, sign-IsValid}
use unison.Quorum.Finality.{credit_at, delete-IsValid}
use unison.Quorum.Contract.{quorum_certificate}
use unison.Quorum.Readiness.{finalize_result-IsValid}
use unison.Round.{
  Round, StateOp, StateOpKind, add_op, get_op, delete_op, add_sign_op, Answers, do_op, run,
}
use unison.Round.Preserve.{Gives, do_op-gives, run-nil, run-cons}

-- What an operation deletes: the stake that the certificate of a `Delete` counts for then.
abbrev pub deleted_in : StateOpKind → Quorum → ℕ
deleted_in (add_op msg) q = 0
deleted_in (get_op id) q = 0
deleted_in (delete_op id) q = credit_at id q
deleted_in (add_sign_op id sig) q = 0

-- What the operations of a run delete, each weighed in the quorum that it finds.
abbrev pub deleted_by : List StateOp → Round Quorum → ℕ
deleted_by [] r = 0
deleted_by (op ∷ ops) r =
    deleted_in op.kind r.quorum
    + elim (do_op quorum_certificate op r) [ none ↦ 0 | some (r', _) ↦ deleted_by ops r' ]

padded-IsValid : (lost : ℕ) (q : Quorum) → IsValid lost q → IsValid (lost + 0) q
padded-IsValid lost q v = subst (λ (n : ℕ). IsValid n q) (omega arith) v

kind-Gives :
    (lost : ℕ) (kind : StateOpKind) (q : Quorum)
    → IsValid lost q
    → Gives quorum_certificate (IsValid (lost + deleted_in kind q)) kind q
unfolding get
kind-Gives lost (add_op msg) q v = padded-IsValid lost _ (add-IsValid msg lost q v)
kind-Gives lost (get_op id) q v = padded-IsValid lost q v
kind-Gives lost (delete_op id) q v = delete-IsValid id lost q v
kind-Gives lost (add_sign_op id sig) q v = (
  λ _. padded-IsValid lost q v,
  λ q' cert res held e.
      let (res', q₁, f, v') = sign-IsValid id.string sig cert lost q v held in
      let same_end : q₁ ≡ q' = ground arith in
      padded-IsValid lost q' (subst (IsValid lost) same_end v'),
)

do_op-IsValid :
    (lost : ℕ) (op : StateOp) (r r' : Round Quorum) (ans : Answers Certificate Error)
    → IsValid lost r.quorum
    → do_op quorum_certificate op r ≡ some (r', ans)
    → IsValid (lost + deleted_in op.kind r.quorum) r'.quorum
do_op-IsValid lost op r r' ans v e =
    do_op-gives quorum_certificate (IsValid (lost + deleted_in op.kind r.quorum)) op r r' ans
      (λ q q' res w f. finalize_result-IsValid _ q q' res w f) (kind-Gives lost op.kind r.quorum v)
      e

-- A run of a valid quorum leaves counted what its complete certificates count for, what was deleted
-- before, and what the run deletes, and nothing else.
pub run-IsValid :
    (lost : ℕ) (ops : List StateOp) (r r' : Round Quorum) (ans : Answers Certificate Error)
    → IsValid lost r.quorum
    → run quorum_certificate ops r ≡ some (r', ans)
    → IsValid (lost + deleted_by ops r) r'.quorum
run-IsValid lost [] r r' ans v e =
    padded-IsValid lost r'.quorum (
      subst (λ (x : Round Quorum). IsValid lost x.quorum) (run-nil quorum_certificate r r' ans e) v)
run-IsValid lost (op ∷ ops) r r' ans v e =
    let (r₁, now, later, f, g) = run-cons quorum_certificate op ops r r' ans e in
    let rest =
      run-IsValid (lost + deleted_in op.kind r.quorum) ops r₁ r' later
        (do_op-IsValid lost op r r₁ now v f) g in
    subst (λ (n : ℕ). IsValid n r'.quorum) (ground (arith, f)) rest
