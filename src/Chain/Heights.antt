-- ===== src/Chain/Heights.antt =====
-- When the height of a chain goes on, and what the next block builds on.
use unison.Base.{
  ℕ, ◌+◌, ◌^◌, ◌%◌, ◌≡◌, refl, sym, ap, Bool, true, Option, none, some, List, All, Option-cases,
  Bool-cases, inl, inr, subst,
}
use unison.Base.Key.{Bytes, bytes_key}
use unison.Messages.{Message}
use unison.MemPool.{MemPool, list_by_signer}
use unison.Quorum.{Includers, Quorum, Certificate, new_quorum, list, Includer}
use unison.Quorum.Invariant.{IsValid}
use unison.Quorum.Finality.{IsCertified, list-IsCertified}
use unison.Block.{Capnp}
use unison.Chain.{
  Chain, RoundEnd, panics, waits, fails, finishes, clean, assemble, propose, list_and_propose,
  start_round, marshal_failed,
}

-- A broadcast over a new quorum with the includers of a height leaves a valid quorum over the same
-- includers.
abbrev pub KeepsQuorum :
    (includers : ℕ → Option Includers) (broadcast : Message → Quorum → Bool × Quorum) → Type 0
KeepsQuorum includers broadcast =
    (n : ℕ) (incl : Includers) (m : Message)
    → includers n ≡ some incl
    → ((lost : ℕ) × IsValid lost (broadcast m (new_quorum incl)).1)
      × ((broadcast m (new_quorum incl)).1.includers.includers ≡ incl.includers)

-- Certificates of a height, each signed by distinct includers of the height who hold more than two
-- thirds of the stake.
abbrev pub IsDecidedAt : (includers : ℕ → Option Includers) → ℕ → List Certificate → Type 0
IsDecidedAt includers n certs =
    (incl : Includers) × (includers n ≡ some incl) × All (IsCertified incl.includers) certs

module _ (capnp : Capnp) (sha256 : Bytes → Bytes) (includers : ℕ → Option Includers)
    (broadcast : Message → Quorum → Bool × Quorum) (signer : Bytes) where
  -- What a call of `startRound` leaves of the chain: as it was, or a height higher, with the complete
  -- certificates of a quorum over the includers of the old height, which the broadcast returned.
  abbrev pub Advances : Chain → RoundEnd → Type 0
  Advances c panics = Unit
  Advances c (waits _) = Unit
  Advances c (fails _ c' _) = c' ≡ c
  Advances c (finishes msg c' _) =
      (incl : Includers) × (includers c.height ≡ some incl)
      × ((broadcast msg (new_quorum incl)).0 ≡ true)
      × (c' ≡ record {
        height = (c.height + 1) % 2 ^ 64;
        last_certs = list (broadcast msg (new_quorum incl)).1;
      })

  propose-Advances :
      (msg : Message) (c : Chain) (p : MemPool)
      → Advances c (propose capnp sha256 includers broadcast signer msg c p)
  unfolding propose
  propose-Advances msg c p = elim (Option-cases (includers c.height)) [
    | inl n ↦ rw (n, propose) refl
    | inr (incl, e) ↦ elim (Bool-cases (broadcast msg (new_quorum incl)).0) [
      | inl t ↦ rw (e, t, propose) (incl, e, t, refl)
      | inr f ↦ rw (e, f, propose) refl
    ]
  ]

  assembled-Advances :
      (c : Chain) (p : MemPool) (out : Option (Option Message))
      → Advances c (elim out [
        | none ↦ panics
        | some none ↦ fails marshal_failed c p
        | some (some msg) ↦ propose capnp sha256 includers broadcast signer msg c p
      ])
  assembled-Advances c p none = tt
  assembled-Advances c p (some none) = refl
  assembled-Advances c p (some (some msg)) = propose-Advances msg c p

  pub list_and_propose-Advances :
      (parents : List Bytes) (c : Chain) (p : MemPool)
      → Advances c (list_and_propose capnp sha256 includers broadcast signer parents c p)
  unfolding list_and_propose
  list_and_propose-Advances parents c p = elim (Option-cases (list_by_signer signer p)) [
    | inl n ↦ rw (n, list_and_propose) tt
    | inr (batches, f) ↦
        rw (f, list_and_propose)
          (assembled-Advances c p (assemble capnp sha256 c.height signer batches parents))
  ]

  -- A call of `startRound` leaves the chain as it was unless its broadcast returned nil; then the
  -- height is the next one, and the parents of the next block are the complete certificates of the
  -- quorum over the includers of the old height.
  pub start_round-Advances :
      (c : Chain) (p : MemPool)
      → Advances c (start_round capnp sha256 includers broadcast signer c p)
  unfolding start_round
  start_round-Advances c p = elim (Option-cases (clean capnp c.last_certs p)) [
    | inl n ↦ rw (n, start_round) tt
    | inr ((parents, p'), e) ↦ rw (e, start_round) (list_and_propose-Advances parents c p')
  ]

  pub finished-IsDecidedAt :
      (c c' : Chain) (p' : MemPool) (msg : Message)
      → KeepsQuorum includers broadcast
      → Advances c (finishes msg c' p')
      → (c'.height ≡ (c.height + 1) % 2 ^ 64) × IsDecidedAt includers c.height c'.last_certs
  finished-IsDecidedAt c c' p' msg keeps (incl, held, sent, after) =
      let ((lost, v), same_set) = keeps c.height incl msg held in
      (
        ap (λ (d : Chain). d.height) after,
        (
          incl,
          held,
          subst (λ (certs : List Certificate). All (IsCertified incl.includers) certs)
              (sym (ap (λ (d : Chain). d.last_certs) after))
              (subst
                (λ (vs : List Includer).
                  All (IsCertified vs) (list (broadcast msg (new_quorum incl)).1))
                same_set (list-IsCertified lost (broadcast msg (new_quorum incl)).1 v)),
        ),
      )

  -- If a broadcast over a new quorum with the includers of a height leaves a valid quorum over the
  -- same includers, then after a finished round every certificate that the next block builds on is
  -- signed by distinct includers who hold more than two thirds of the stake.
  pub start_round-IsCertified :
      (c c' : Chain) (p p' : MemPool) (msg : Message)
      → KeepsQuorum includers broadcast
      → start_round capnp sha256 includers broadcast signer c p ≡ finishes msg c' p'
      → IsDecidedAt includers c.height c'.last_certs
  start_round-IsCertified c c' p p' msg keeps e =
      (finished-IsDecidedAt c c' p' msg keeps (subst (Advances c) e (start_round-Advances c p))).1
