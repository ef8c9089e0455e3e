-- ===== src/Finalization/Arrival.antt =====
-- A proposal and the signatures on it, as operations that the loop of a round takes in any order and
-- among others: once taken, they are in the quorum.
use unison.Base.{◌≡◌, ◌≢◌, subst, true, some, none, List, [], ◌∷◌, All, All-map, Any, ◌⊎◌, inl, inr}
use unison.Base.Key.{Bytes, bytes_key}
use unison.Messages.{Signature}
use unison.Quorum.{Includer, Quorum, Certificate, Error, find_includer, has_signer, get}
use unison.Quorum.Contract.{quorum_certificate}
use unison.Quorum.Presence.{
  Present, add-Present, delete-Present, sign-Present, finalize-Present, sign-signs,
}
use unison.Quorum.Vacancy.{
  IsFree, add-IsFree, delete-IsFree, sign-IsFree, finalize-IsFree, add-proposes,
}
use unison.Quorum.Proposals.{Proposal}
use unison.Round.{Round, StateOp, StateOpKind, add_op, get_op, delete_op, add_sign_op, Answers, run}
use unison.Round.Preserve.{Keeps, KeepsFinal, Gives, run-cons, do_op-gives, do_op-keeps, run-keeps}
use unison.Finalization.Valid.{IsOver, op-Keeps, finalize-IsOver}

-- The operation adds the proposal's message.
abbrev pub Proposes : Proposal → StateOpKind → Type 0
Proposes b (add_op msg) = (msg.id.string ≡ b.key) × (msg.id.signer ≡ b.proposer)
Proposes b (get_op id) = ⊥
Proposes b (delete_op id) = ⊥
Proposes b (add_sign_op id sig) = ⊥

-- The operation adds the signature to the certificate of the key.
abbrev pub Signs : Bytes → Signature → StateOpKind → Type 0
Signs k s (add_op msg) = ⊥
Signs k s (get_op id) = ⊥
Signs k s (delete_op id) = ⊥
Signs k s (add_sign_op id sig) = (id.string ≡ k) × (sig ≡ s)

-- The operation does not delete the proposal's certificate, nor add another's message under its key.
abbrev pub Spares : Proposal → StateOpKind → Type 0
Spares b (add_op msg) = msg.id.string ≡ b.key → msg.id.signer ≡ b.proposer
Spares b (get_op id) = Unit
Spares b (delete_op id) = id.string ≢ b.key
Spares b (add_sign_op id sig) = Unit

-- The proposal's message is added, and after that each of its signatures.
abbrev pub Supports : Proposal → List StateOp → Type 0
Supports b [] = ⊥
Supports b (op ∷ ops) =
    (Proposes b op.kind × All (λ s. Any (λ (o : StateOp). Signs b.key s o.kind) ops) b.signatures)
    ⊎ Supports b ops

module _ (vs : List Includer) (b : Proposal) where
  abbrev pub IsThere : List Signature → Quorum → Type 0
  IsThere ss q = IsOver vs q × Present b.key b.proposer ss q

  abbrev pub IsOpen : Quorum → Type 0
  IsOpen q = IsOver vs q × IsFree b.key b.proposer q

  Spares-IsThere :
      (ss : List Signature) (kind : StateOpKind)
      → Spares b kind
      → Keeps quorum_certificate (IsThere ss) kind
  unfolding get
  Spares-IsThere ss (add_op msg) h =
      λ q (t, p). (op-Keeps vs (add_op msg) q t, add-Present b.key b.proposer ss msg q p)
  Spares-IsThere ss (get_op id) h = tt
  Spares-IsThere ss (delete_op id) h =
      λ q (t, p). (op-Keeps vs (delete_op id) q t, delete-Present b.key b.proposer ss id q h p)
  Spares-IsThere ss (add_sign_op id sig) h = λ q q' cert res (t, p) held e. (
    op-Keeps vs (add_sign_op id sig) q q' cert res t held e,
    sign-Present b.key b.proposer ss id.string sig cert q q' res held e p,
  )

  finalize-IsThere : (ss : List Signature) → KeepsFinal quorum_certificate (IsThere ss)
  finalize-IsThere ss = λ q q' res (t, p) e.
      (finalize-IsOver vs q q' res t e, finalize-Present b.key b.proposer ss q q' res e p)

  Spares-IsOpen : (kind : StateOpKind) → Spares b kind → Keeps quorum_certificate IsOpen kind
  unfolding get
  Spares-IsOpen (add_op msg) h =
      λ q (t, p). (op-Keeps vs (add_op msg) q t, add-IsFree b.key b.proposer msg q h p)
  Spares-IsOpen (get_op id) h = tt
  Spares-IsOpen (delete_op id) h =
      λ q (t, p). (op-Keeps vs (delete_op id) q t, delete-IsFree b.key b.proposer id q h p)
  Spares-IsOpen (add_sign_op id sig) h = λ q q' cert res (t, p) held e. (
    op-Keeps vs (add_sign_op id sig) q q' cert res t held e,
    sign-IsFree b.key b.proposer id.string sig cert q q' res held e p,
  )

  finalize-IsOpen : KeepsFinal quorum_certificate IsOpen
  finalize-IsOpen = λ q q' res (t, p) e.
      (finalize-IsOver vs q q' res t e, finalize-IsFree b.key b.proposer q q' res e p)

  Proposes-IsThere :
      (kind : StateOpKind) (q : Quorum)
      → find_includer vs b.proposer ≢ none
      → Proposes b kind
      → IsOpen q
      → Gives quorum_certificate (IsThere []) kind q
  Proposes-IsThere (add_op msg) q known (same_key, same_signer) (t, free) =
      let member : find_includer q.includers.includers msg.id.signer ≢ none =
        (λ e. known (rw (← same_signer, ← t.members) e)) in
      (
        op-Keeps vs (add_op msg) q t,
        rw (← same_key, ← same_signer)
            (add-proposes msg q member (rw (same_key, same_signer) free)),
      )
  Proposes-IsThere (get_op id) q known h o = absurd h
  Proposes-IsThere (delete_op id) q known h o = absurd h
  Proposes-IsThere (add_sign_op id sig) q known h o = absurd h

  Signs-IsThere :
      (s : Signature) (kind : StateOpKind) (q : Quorum)
      → find_includer vs s.signer ≢ none
      → Signs b.key s kind
      → IsThere [] q
      → Gives quorum_certificate (IsThere (s ∷ [])) kind q
  unfolding get
  Signs-IsThere s (add_op msg) q known h o = absurd h
  Signs-IsThere s (get_op id) q known h o = absurd h
  Signs-IsThere s (delete_op id) q known h o = absurd h
  Signs-IsThere s (add_sign_op id sig) q known (same_key, same_sig) (t, p) =
      let member : find_includer q.includers.includers s.signer ≢ none =
        (λ e. known (rw (← t.members) e)) in
      (
        λ absent. let (cert, held, _) = p in absurd (cc),
        λ q' cert res held e. (
          op-Keeps vs (add_sign_op id sig) q q' cert res t held e,
          sign-signs b.key b.proposer s cert q q' res member (rw (← same_key) held)
              (rw (← same_key, ← same_sig) e) p,
        ),
      )

  abbrev Spared : List StateOp → Type 0
  Spared = All (λ (o : StateOp). Spares b o.kind)

  run-IsThere :
      (ss : List Signature) (ops : List StateOp) (r r' : Round Quorum)
      (ans : Answers Certificate Error)
      → Spared ops
      → IsThere ss r.quorum
      → run quorum_certificate ops r ≡ some (r', ans)
      → IsThere ss r'.quorum
  run-IsThere ss ops r r' ans h p e =
      run-keeps quorum_certificate (IsThere ss) ops r r' ans (finalize-IsThere ss)
        (All-map (λ (o : StateOp). Spares b o.kind)
          (λ (o : StateOp). Keeps quorum_certificate (IsThere ss) o.kind)
          (λ o k. Spares-IsThere ss o.kind k) ops h)
        p e

  signature_arrives :
      (s : Signature) (ops : List StateOp) (r r' : Round Quorum) (ans : Answers Certificate Error)
      → find_includer vs s.signer ≢ none
      → Spared ops
      → Any (λ (o : StateOp). Signs b.key s o.kind) ops
      → IsThere [] r.quorum
      → run quorum_certificate ops r ≡ some (r', ans)
      → IsThere (s ∷ []) r'.quorum
  signature_arrives s [] r r' ans known h a p e = absurd a
  signature_arrives s (op ∷ ops) r r' ans known (h, hs) (inl now_signs) p e =
      let (r₁, now, later, f, g) = run-cons quorum_certificate op ops r r' ans e in
      run-IsThere (s ∷ []) ops r₁ r' later hs
        (do_op-gives quorum_certificate (IsThere (s ∷ [])) op r r₁ now (finalize-IsThere (s ∷ []))
          (Signs-IsThere s op.kind r.quorum known now_signs p) f)
        g
  signature_arrives s (op ∷ ops) r r' ans known (h, hs) (inr later_signs) p e =
      let (r₁, now, later, f, g) = run-cons quorum_certificate op ops r r' ans e in
      signature_arrives s ops r₁ r' later known hs later_signs
        (do_op-keeps quorum_certificate (IsThere []) op r r₁ now (finalize-IsThere [])
          (Spares-IsThere [] op.kind h) p f)
        g

  abbrev HasSigned : List Signature → Certificate → Type 0
  HasSigned ss c = All (λ s. has_signer s.signer c.signatures ≡ true) ss

  signatures_arrive :
      (ss : List Signature) (ops : List StateOp) (r r' : Round Quorum)
      (ans : Answers Certificate Error)
      → All (λ s. find_includer vs s.signer ≢ none) ss
      → Spared ops
      → All (λ s. Any (λ (o : StateOp). Signs b.key s o.kind) ops) ss
      → IsThere [] r.quorum
      → run quorum_certificate ops r ≡ some (r', ans)
      → IsThere ss r'.quorum
  signatures_arrive [] ops r r' ans known h a p e = run-IsThere [] ops r r' ans h p e
  signatures_arrive (s ∷ ss) ops r r' ans known h a p e =
      let (t, (c, at_c, (by_c, one))) = signature_arrives s ops r r' ans known.0 h a.0 p e in
      let (_, (c', at_c', (_, rest))) = signatures_arrive ss ops r r' ans known.1 h a.1 p e in
      let same_cert : c' ≡ c = cc in
      (t, (c, at_c, (by_c, (one.0, subst (HasSigned ss) same_cert rest))))

  -- A run that adds the proposal's message and then its signatures, all by includers, and spares its
  -- certificate, ends with the certificate and the signatures in the quorum.
  pub proposal_arrives :
      (ops : List StateOp) (r r' : Round Quorum) (ans : Answers Certificate Error)
      → find_includer vs b.proposer ≢ none
      → All (λ s. find_includer vs s.signer ≢ none) b.signatures
      → Spared ops
      → Supports b ops
      → IsOpen r.quorum
      → run quorum_certificate ops r ≡ some (r', ans)
      → IsThere b.signatures r'.quorum
  proposal_arrives [] r r' ans known ks h a p e = absurd a
  proposal_arrives (op ∷ ops) r r' ans known ks (h, hs) (inl (proposes, signs)) p e =
      let (r₁, now, later, f, g) = run-cons quorum_certificate op ops r r' ans e in
      signatures_arrive b.signatures ops r₁ r' later ks hs signs
        (do_op-gives quorum_certificate (IsThere []) op r r₁ now (finalize-IsThere [])
          (Proposes-IsThere op.kind r.quorum known proposes p) f)
        g
  proposal_arrives (op ∷ ops) r r' ans known ks (h, hs) (inr later_on) p e =
      let (r₁, now, later, f, g) = run-cons quorum_certificate op ops r r' ans e in
      proposal_arrives ops r₁ r' later known ks hs later_on
        (do_op-keeps quorum_certificate IsOpen op r r₁ now finalize-IsOpen (Spares-IsOpen op.kind h)
          p f)
        g
