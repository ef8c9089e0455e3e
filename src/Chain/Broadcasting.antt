-- ===== src/Chain/Broadcasting.antt =====
-- The chain over the rounds that its broadcasts start: what `Broadcast` of rebro/gossip leaves of the
-- quorum that the chain made is what the loop of the round makes of it.
use unison.Base.{ℕ, ◌≡◌, refl, Bool, false, Option, none, some, List, Option-cases, inl, inr, ◌&&◌}
use unison.Base.Key.{Bytes}
use unison.Messages.{Message}
use unison.MemPool.{MemPool}
use unison.Quorum.{Includers, Quorum, new_quorum}
use unison.Quorum.Total.{IsValidSet}
use unison.Quorum.Contract.{quorum_certificate}
use unison.Quorum.Tracking.{new_quorum-Tracks}
use unison.Round.{StateOp, new_round, run}
use unison.Finalization.Valid.{run-IsOver}
use unison.Block.{Capnp}
use unison.Chain.Heights.{KeepsQuorum}
use unison.Chain.Running.{Running, begun, Reach, IsBuilt, begun-IsBuilt}

-- A broadcast over a new round, whose loop takes these operations until `Broadcast` returns: it
-- returns nil only if the round became final and the other calls succeeded. After a panic nothing
-- goes on.
unfoldable pub round_broadcast :
    (ops : Message → List StateOp) → (succeeds : Message → Bool) → Message → Quorum → Bool × Quorum
round_broadcast ops succeeds msg qrm =
    elim (run quorum_certificate (ops msg) (new_round msg.id.round qrm)) [
      | none ↦ (false, qrm)
      | some (r, _) ↦ (r.finalized && succeeds msg, r.quorum)
    ]

round_broadcast-KeepsQuorum :
    (includers : ℕ → Option Includers) (ops : Message → List StateOp) (succeeds : Message → Bool)
    → ((n : ℕ) (incl : Includers) → includers n ≡ some incl → IsValidSet incl)
    → KeepsQuorum includers (round_broadcast ops succeeds)
unfolding round_broadcast new_round
round_broadcast-KeepsQuorum includers ops succeeds sets n incl m held =
    let at_first =
      new_quorum-Tracks incl.includers (λ _. Unit) (λ _ _. Unit) incl (sets n incl held) refl in
    elim (Option-cases (run quorum_certificate (ops m) (new_round m.id.round (new_quorum incl)))) [
      | inl e ↦ rw (e, round_broadcast) (at_first.valid, at_first.members)
      | inr ((r, ans), e) ↦
          let after =
            run-IsOver incl.includers (ops m) (new_round m.id.round (new_quorum incl)) r ans
              at_first e in
          rw (e, round_broadcast) (after.valid, after.members)
    ]

-- With valid includers at every height, in every state that the goroutine of a chain comes to,
-- whatever operations the loops of its rounds take and whatever others do to its pool, it is at its
-- first height without certificates, or its last certificates are each signed by distinct includers
-- of the height below with more than two thirds of the stake.
pub begun-IsBuilt_on_rounds :
    (capnp : Capnp) (sha256 : Bytes → Bytes) (includers : ℕ → Option Includers)
    (ops : ℕ → Message → List StateOp) (succeeds : ℕ → Message → Bool) (signer : Bytes)
    (p : MemPool) (s : Running)
    → ((n : ℕ) (incl : Includers) → includers n ≡ some incl → IsValidSet incl)
    → Reach capnp sha256 includers (λ k. round_broadcast (ops k) (succeeds k)) signer (begun p) s
    → IsBuilt capnp sha256 includers (λ k. round_broadcast (ops k) (succeeds k)) signer s.chain
begun-IsBuilt_on_rounds capnp sha256 includers ops succeeds signer p s sets r =
    begun-IsBuilt capnp sha256 includers (λ k. round_broadcast (ops k) (succeeds k)) signer p s
      (λ k. round_broadcast-KeepsQuorum includers (ops k) (succeeds k) sets) r
