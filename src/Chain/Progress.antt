-- ===== src/Chain/Progress.antt =====
-- A chain makes progress: when enough proposals are signed in the round that it broadcasts in,
-- `startRound` ends with the next height, and the next block builds on those proposals.
use unison.Base.{ℕ, ◌+◌, ◌^◌, ◌%◌, ◌≤◌, ◌≡◌, refl, Bool, true, Option, some, List, All, arith}
use unison.Base.Key.{Bytes}
use unison.Messages.{Message, Batch}
use unison.MemPool.{MemPool, list_by_signer}
use unison.Quorum.{Includers, Certificate, new_quorum, list}
use unison.Quorum.Total.{IsValidSet, threshold}
use unison.Quorum.Proposals.{Proposal, ByDifferent, proposed_stake, IsListed}
use unison.Round.{StateOp}
use unison.Round.Run.{requested}
use unison.Block.{Capnp}
use unison.Chain.{Chain, finishes, clean, assemble, propose, list_and_propose, start_round}
use unison.Chain.Broadcasting.{round_broadcast}
use unison.Finalization.Settled.{IsBacked, Carries, run-settles}

-- What the loop of the round takes settles it, for the message that the chain broadcasts.
pub record IsSettling (incl : Includers) (ops : List StateOp) (bs : List Proposal) : Type 0 where
  pub once : (a : ℕ) → requested a ops ≤ 1
  pub different : ByDifferent bs
  pub enough : threshold incl ≤ proposed_stake incl.includers bs
  pub backed : All (IsBacked incl.includers) bs
  pub carried : All (Carries ops) bs

module _ (ops : Message → List StateOp) (succeeds : Message → Bool) where
  -- The broadcast then returns nil, with a quorum that lists the proposals.
  round_broadcast-lists :
      (incl : Includers) (msg : Message) (bs : List Proposal)
      → IsValidSet incl
      → IsSettling incl (ops msg) bs
      → succeeds msg ≡ true
      → ((round_broadcast ops succeeds msg (new_quorum incl)).0 ≡ true)
        × All (IsListed (list (round_broadcast ops succeeds msg (new_quorum incl)).1)) bs
  unfolding round_broadcast
  round_broadcast-lists incl msg bs valid s sent =
      let (r, ans, e, final, listed) =
        run-settles msg.id.round incl valid (ops msg) bs s.once s.different s.enough s.backed
          s.carried in
      rw (e, round_broadcast) (ground arith, listed)

  module _ (capnp : Capnp) (sha256 : Bytes → Bytes) (includers : ℕ → Option Includers)
      (signer : Bytes) where
    -- A chain whose last certificates hold blocks, whose node has batches of its own and can encode
    -- its block, and whose broadcast publishes and stops its round, goes on to the next height in one
    -- call of `startRound`, if the loop of the round that it starts takes proposals by different
    -- includers with more than two thirds of the stake, each with later signatures by different
    -- includers with more than two thirds, in any order and among any other operations that spare
    -- their certificates; and a complete certificate of each of those proposals is among those that
    -- the next block builds on.
    pub start_round-progresses :
        (c : Chain) (p p' : MemPool) (parents : List Bytes) (batches : List Batch) (msg : Message)
        (incl : Includers) (bs : List Proposal)
        → clean capnp c.last_certs p ≡ some (parents, p')
        → list_by_signer signer p' ≡ some batches
        → assemble capnp sha256 c.height signer batches parents ≡ some (some msg)
        → includers c.height ≡ some incl
        → IsValidSet incl
        → IsSettling incl (ops msg) bs
        → succeeds msg ≡ true
        → (certs : List Certificate) × (start_round capnp sha256 includers
              (round_broadcast ops succeeds)
              signer
              c
              p
            ≡ finishes msg (record { height = (c.height + 1) % 2 ^ 64; last_certs = certs }) p')
          × All (IsListed certs) bs
    unfolding start_round list_and_propose propose
    start_round-progresses c p p' parents batches msg incl bs cleans own assembles at_height valid s
          sent =
        let (nil, listed) = round_broadcast-lists incl msg bs valid s sent in
        (
          list (round_broadcast ops succeeds msg (new_quorum incl)).1,
          rw (cleans, start_round)
              (rw (own, assembles, list_and_propose) (rw (at_height, nil, propose) refl)),
          listed,
        )
