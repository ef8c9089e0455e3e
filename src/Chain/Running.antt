-- ===== src/Chain/Running.antt =====
-- The goroutine of a chain, `run` of dag/chain.go, next to the calls of others on its batch pool.
use unison.Base.{ℕ, ◌+◌, ◌^◌, ◌%◌, ◌≡◌, ◌⊎◌, refl, sym, Bool, Option, some, List, inl, inr, subst}
use unison.Base.Key.{Bytes}
use unison.Messages.{Message}
use unison.MemPool.{MemPool}
use unison.Quorum.{Includers, Quorum}
use unison.Block.{Capnp}
use unison.Chain.{Chain, ChainError, fails, finishes, new_chain, clean, list_and_propose}
use unison.Chain.Heights.{
  Advances, list_and_propose-Advances, KeepsQuorum, IsDecidedAt, finished-IsDecidedAt,
}

-- Where the goroutine is: between two calls of `startRound`, or in one, past the loop over the last
-- certificates, with the parents' hashes.
pub data Stage : Type 0 where
  between : Stage
  listing : List Bytes → Stage

pub record Running : Type 0 where
  pub chain : Chain
  pub pool : MemPool
  pub stage : Stage

-- The goroutine at its start, with the pool of its node.
unfoldable pub begun : MemPool → Running
begun p = record { chain = new_chain; pool = p; stage = between }

-- `broadcast k` is the outcome of the broadcast of the k-th attempt.
module _ (capnp : Capnp) (sha256 : Bytes → Bytes) (includers : ℕ → Option Includers)
    (broadcast : ℕ → Message → Quorum → Bool × Quorum) (signer : Bytes) where
  -- A round begins; it fails or finishes, once there are batches; the pool changes in any way.
  pub data Step (s : Running) : Running → Type 0 where
    begins :
        (parents : List Bytes) (p : MemPool)
        → s.stage ≡ between
        → clean capnp s.chain.last_certs s.pool ≡ some (parents, p)
        → Step s (record s { pool = p; stage = listing parents })
    gives_up :
        (k : ℕ) (parents : List Bytes) (e : ChainError) (c : Chain) (p : MemPool)
        → s.stage ≡ listing parents
        → list_and_propose capnp sha256 includers (broadcast k) signer parents s.chain s.pool
          ≡ fails e c p
        → Step s (record { chain = c; pool = p; stage = between })
    completes :
        (k : ℕ) (parents : List Bytes) (msg : Message) (c : Chain) (p : MemPool)
        → s.stage ≡ listing parents
        → list_and_propose capnp sha256 includers (broadcast k) signer parents s.chain s.pool
          ≡ finishes msg c p
        → Step s (record { chain = c; pool = p; stage = between })
    changes : (p : MemPool) → Step s (record s { pool = p })

  pub data Reach (s : Running) : Running → Type 0 where
    here : Reach s s
    next : {t u : Running} → Reach s t → Step t u → Reach s u

  -- The chain is at its first height without certificates, or its certificates are those of the
  -- height below, which was decided.
  abbrev pub IsBuilt : Chain → Type 0
  IsBuilt c =
      (c ≡ new_chain)
      ⊎ ((n : ℕ) × (c.height ≡ (n + 1) % 2 ^ 64) × IsDecidedAt includers n c.last_certs)

  step-IsBuilt :
      ((k : ℕ) → KeepsQuorum includers (broadcast k))
      → {s t : Running} → Step s t
      → IsBuilt s.chain
      → IsBuilt t.chain
  step-IsBuilt keeps (begins parents p at e) b = b
  step-IsBuilt keeps {s} (gives_up k parents e c p at failed) b =
      let same_chain : c ≡ s.chain =
        subst (Advances capnp sha256 includers (broadcast k) signer s.chain) failed (
          list_and_propose-Advances capnp sha256 includers (broadcast k) signer parents s.chain
            s.pool) in
      subst IsBuilt (sym same_chain) b
  step-IsBuilt keeps {s} (completes k parents msg c p at finished) b =
      let advanced = subst (Advances capnp sha256 includers (broadcast k) signer s.chain) finished (
        list_and_propose-Advances capnp sha256 includers (broadcast k) signer parents s.chain
          s.pool) in
      let (height, decided) =
        finished-IsDecidedAt capnp sha256 includers (broadcast k) signer s.chain c p msg (keeps k)
          advanced in
      inr (s.chain.height, height, decided)
  step-IsBuilt keeps (changes p) b = b

  -- In every state that the goroutine of a chain comes to, through rounds that fail and rounds that
  -- finish and whatever others do to its pool, it is at its first height without certificates, or its
  -- last certificates are each signed by distinct includers of the height below with more than two
  -- thirds of the stake, if every broadcast leaves a valid quorum over the same includers.
  pub begun-IsBuilt :
      (p : MemPool) (s : Running)
      → ((k : ℕ) → KeepsQuorum includers (broadcast k))
      → Reach (begun p) s
      → IsBuilt s.chain
  unfolding begun
  begun-IsBuilt p s keeps here = inl refl
  begun-IsBuilt p s keeps (next {t = t} r st) = step-IsBuilt keeps st (begun-IsBuilt p t keeps r)
