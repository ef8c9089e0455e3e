-- ===== src/Chain/Assembly.antt =====
-- The block that a node proposes, and what it cleans up before.
use unison.Base.{
  ℕ, ◌≡◌, ◌≢◌, ◌∙◌, refl, sym, ap, Option, none, some, List, [], ◌∷◌, All, arith, Option-cases, inl,
  inr, ◌⊎◌, map, subst,
}
use unison.Base.Key.{Bytes, bytes_key}
use unison.Base.Map.{lookup}
use unison.Messages.{Message, Batch}
use unison.MemPool.{MemPool, delete_batch}
use unison.MemPool.Laws.{delete_batch-lookup}
use unison.Quorum.{Certificate}
use unison.Block.{Block, Capnp, message_id, marshal, unmarshal, new_block, hash_block}
use unison.Block.Codec.{IsDocumented, unmarshal-marshal}
use unison.Chain.{hash_message, delete_all, clean, assemble}

module _ (capnp : Capnp) (sha256 : Bytes → Bytes) where
  -- A proposed message: its hash is the one that its id names, and its payload is the block of the
  -- height with the hashes of the batches and the parents.
  pub record IsProposal (height : ℕ) (signer : Bytes) (batches : List Batch) (parents : List Bytes)
      (msg : Message) : Type 0 where
    pub hashed : hash_message sha256 msg ≡ msg.id.hash
    pub round : msg.id.round ≡ height
    pub by : msg.id.signer ≡ signer
    pub decodes :
        unmarshal capnp msg.payload ≡ some (new_block capnp sha256 height signer batches parents)

  -- The message over the bytes of the block.
  abbrev proposal : ℕ → Bytes → Bytes → Message
  proposal height signer bytes = record {
    id = message_id (record { round = height; signer = signer; hash = some (sha256 bytes) });
    payload = bytes;
  }

  assemble_as :
      (height : ℕ) (signer : Bytes) (batches : List Batch) (parents : List Bytes)
      (out : Option Bytes)
      → marshal capnp (new_block capnp sha256 height signer batches parents) ≡ out
      → assemble capnp sha256 height signer batches parents
        ≡ elim out [ none ↦ none | some bytes ↦ some (some (proposal height signer bytes)) ]
  unfolding assemble hash_block marshal new_block
  assemble_as height signer batches parents none e = rw (e, assemble) refl
  assemble_as height signer batches parents (some bytes) e = ground arith

  proposal-IsProposal :
      (height : ℕ) (signer : Bytes) (batches : List Batch) (parents : List Bytes) (bytes : Bytes)
      → IsDocumented capnp
      → marshal capnp (new_block capnp sha256 height signer batches parents) ≡ some bytes
      → IsProposal height signer batches parents (proposal height signer bytes)
  unfolding hash_message message_id new_block
  proposal-IsProposal height signer batches parents bytes doc e = record {
    hashed = refl;
    round = refl;
    by = refl;
    decodes =
        unmarshal-marshal capnp doc (new_block capnp sha256 height signer batches parents) bytes e;
  }

  -- A message that a node assembles is one that the others take: with capnp as documented, the hash of
  -- its payload is that of its id, and the payload decodes to the block of that height and signer with
  -- the hashes of the batches and the parents.
  pub assemble-IsProposal :
      (height : ℕ) (signer : Bytes) (batches : List Batch) (parents : List Bytes) (msg : Message)
      → IsDocumented capnp
      → assemble capnp sha256 height signer batches parents ≡ some (some msg)
      → IsProposal height signer batches parents msg
  assemble-IsProposal height signer batches parents msg doc e =
      elim (Option-cases (marshal capnp (new_block capnp sha256 height signer batches parents))) [
        | inl n ↦ absurd (ground (arith, assemble_as height signer batches parents none n))
        | inr (bytes, f) ↦
            let same_msg : proposal height signer bytes ≡ msg =
              ground (arith, assemble_as height signer batches parents (some bytes) f) in
            subst (IsProposal height signer batches parents) same_msg
              (proposal-IsProposal height signer batches parents bytes doc f)
      ]

-- The batches of the block that a certificate is over.
abbrev pub named : Capnp → Certificate → List Bytes
named capnp cert = elim (unmarshal capnp cert.msg.payload) [ none ↦ [] | some blk ↦ blk.batches ]

-- The key is in no pool entry, or its entry is as it was.
abbrev Kept : Bytes → MemPool → MemPool → Type 0
Kept j p p' = (lookup j p'.batches ≡ none) ⊎ (lookup j p'.batches ≡ lookup j p.batches)

delete_all-keeps : (hs : List Bytes) (j : Bytes) (p : MemPool) → Kept j p (delete_all hs p)
unfolding delete_all
delete_all-keeps [] j p = inr refl
delete_all-keeps (h ∷ hs) j p =
    ground (arith, delete_all-keeps hs j (delete_batch h p).1, delete_batch-lookup h j p)

-- The key is none of these.
abbrev pub Other : Bytes → List Bytes → Type 0
Other j hs = All (λ (h : Bytes). h ≢ j) hs

delete_all-Other :
    (hs : List Bytes) (j : Bytes) (p : MemPool)
    → Other j hs
    → lookup j (delete_all hs p).batches ≡ lookup j p.batches
unfolding delete_all
delete_all-Other [] j p o = refl
delete_all-Other (h ∷ hs) j p o =
    ground (arith, delete_all-Other hs j (delete_batch h p).1 o.1, delete_batch-lookup h j p, o.0)

-- Keys that are absent stay absent.
abbrev pub Absent : MemPool → Bytes → Type 0
Absent p h = lookup h p.batches ≡ none

delete_all-Absent :
    (hs : List Bytes) (j : Bytes) (p : MemPool) → Absent p j → Absent (delete_all hs p) j
delete_all-Absent hs j p a = ground (arith, delete_all-keeps hs j p)

delete_all-All : (hs : List Bytes) (p : MemPool) → All (Absent (delete_all hs p)) hs
unfolding delete_all
delete_all-All [] p = tt
delete_all-All (h ∷ hs) p = (
  delete_all-Absent hs h (delete_batch h p).1 (ground (arith, delete_batch-lookup h h p)),
  delete_all-All hs (delete_batch h p).1,
)

still-Absent :
    (hs : List Bytes) (p p' : MemPool)
    → ((j : Bytes) → Absent p j → Absent p' j)
    → All (Absent p) hs
    → All (Absent p') hs
still-Absent [] p p' h a = tt
still-Absent (x ∷ hs) p p' h a = (h x a.0, still-Absent hs p p' h a.1)

-- What the loop over the last certificates leaves: the hashes of their blocks, none of the batches
-- that the blocks name, and every other entry as it was.
pub record IsCleaned (capnp : Capnp) (certs : List Certificate) (p : MemPool) (parents : List Bytes)
    (p' : MemPool) : Type 0 where
  pub hashes : parents ≡ map (λ (c : Certificate). c.msg.id.hash) certs
  pub gone : All (λ (c : Certificate). All (Absent p') (named capnp c)) certs
  pub others :
      (j : Bytes)
      → All (λ (c : Certificate). Other j (named capnp c)) certs
      → lookup j p'.batches ≡ lookup j p.batches
  pub kept : (j : Bytes) → (lookup j p'.batches ≡ none) ⊎ (lookup j p'.batches ≡ lookup j p.batches)

clean_next :
    (capnp : Capnp) (cert : Certificate) (certs : List Certificate) (p p' : MemPool) (blk : Block)
    (parents : List Bytes)
    → unmarshal capnp cert.msg.payload ≡ some blk
    → IsCleaned capnp certs (delete_all blk.batches p) parents p'
    → IsCleaned capnp (cert ∷ certs) p (cert.msg.id.hash ∷ parents) p'
clean_next capnp cert certs p p' blk parents e c = record {
  hashes = ap (λ (hs : List Bytes). cert.msg.id.hash ∷ hs) c.hashes;
  gone = (
    subst (λ (o : Option Block). All (Absent p') (elim o [ none ↦ [] | some b ↦ b.batches ]))
        (sym e)
        (still-Absent blk.batches (delete_all blk.batches p) p' (λ j a. ground (arith, c.kept j))
          (delete_all-All blk.batches p)),
    c.gone,
  );
  others = λ j (o, os).
      let mine : Other j blk.batches =
        subst (λ (out : Option Block). Other j (elim out [ none ↦ [] | some b ↦ b.batches ])) e o in
      c.others j os ∙ delete_all-Other blk.batches j p mine;
  kept = λ j. ground (arith, c.kept j, delete_all-keeps blk.batches j p);
}

-- Before it proposes, a node takes every batch that the blocks of the last certificates name out of
-- its pool, changes no entry under any other key, and its parents are those blocks' hashes, in order.
pub clean-IsCleaned :
    (capnp : Capnp) (certs : List Certificate) (p p' : MemPool) (parents : List Bytes)
    → clean capnp certs p ≡ some (parents, p')
    → IsCleaned capnp certs p parents p'
unfolding clean
clean-IsCleaned capnp [] p p' parents e =
    let none_left : [] ≡ parents = cc in
    let same_pool : p ≡ p' = cc in
    rw (← none_left, ← same_pool)
      (record { hashes = refl; gone = tt; others = λ j o. refl; kept = λ j. inr refl })
clean-IsCleaned capnp (cert ∷ certs) p p' parents e =
    elim (Option-cases (unmarshal capnp cert.msg.payload)) [
      | inl n ↦ absurd (ground (arith, n))
      | inr (blk, f) ↦ elim (Option-cases (clean capnp certs (delete_all blk.batches p))) [
        | inl n ↦ absurd (ground (arith, f, n))
        | inr ((ps, q), g) ↦
            let same_parents : cert.msg.id.hash ∷ ps ≡ parents = ground (arith, f, g) in
            let same_pool : q ≡ p' = ground (arith, f, g) in
            rw (← same_parents, ← same_pool)
              (clean_next capnp cert certs p q blk ps f
                (clean-IsCleaned capnp certs (delete_all blk.batches p) q ps g))
      ]
    ]
