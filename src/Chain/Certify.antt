-- ===== src/Chain/Certify.antt =====
-- `Certify`: exactly which messages it lets pass.
use unison.Base.{
  ◌≡◌, ◌≢◌, ◌↔◌, refl, true, Option, none, some, List, [], ◌∷◌, All, arith, Option-cases,
  Bool-cases, inl, inr, length, ◌⊎◌,
}
use unison.Base.Key.{Bytes}
use unison.Block.{BlockId, Block, Capnp, bytes_of, is_valid_id, unmarshal}
use unison.Chain.{PullReply, pull_got, pull_deleted, pull_failed, pull_all, certify}

-- A pull that ended with the batch, or told that it was deleted.
abbrev pub IsPulled : (Bytes → PullReply) → Bytes → Type 0
IsPulled pull h = pull h ≢ pull_failed

reply_cases : (r : PullReply) → (r ≡ pull_failed) ⊎ (r ≢ pull_failed)
reply_cases pull_got = inr (λ e. cc)
reply_cases pull_deleted = inr (λ e. cc)
reply_cases pull_failed = inl refl

pull_on :
    (pull : Bytes → PullReply) (h : Bytes) (hs : List Bytes) (r : PullReply)
    → pull h ≡ r
    → r ≢ pull_failed
    → pull_all pull (h ∷ hs) ≡ pull_all pull hs
unfolding pull_all
pull_on pull h hs pull_got e n = rw (e, pull_all) refl
pull_on pull h hs pull_deleted e n = rw (e, pull_all) refl
pull_on pull h hs pull_failed e n = absurd (n refl)

pull_stop :
    (pull : Bytes → PullReply) (h : Bytes) (hs : List Bytes)
    → pull h ≡ pull_failed
    → pull_all pull (h ∷ hs) ≢ none
unfolding pull_all
pull_stop pull h hs e f = ground (arith, e)

pull_all-All :
    (pull : Bytes → PullReply) (hs : List Bytes)
    → (pull_all pull hs ≡ none) ↔ All (IsPulled pull) hs
pull_all-All pull [] = unfold pull_all in (λ _. tt, λ _. refl)
pull_all-All pull (h ∷ hs) = elim (reply_cases (pull h)) [
  | inl e ↦ (λ f. absurd (pull_stop pull h hs e f), λ a. absurd (a.0 e))
  | inr n ↦
      rw (pull_on pull h hs (pull h) refl n)
        (λ f. (n, (pull_all-All pull hs).0 f), λ a. (pull_all-All pull hs).1 a.1)
]

-- What a certified message is: it has a payload, the hash of its id has 32 bytes, the payload is a
-- block, and none of the block's batches failed to be pulled.
pub record IsCertifiable (capnp : Capnp) (pull : Bytes → PullReply) (id : BlockId)
    (payload : Option Bytes) : Type 0 where
  pub present : payload ≢ none
  pub hash_length : length (bytes_of id.hash) ≡ 32
  pub has_batches :
      (blk : Block) × (unmarshal capnp (bytes_of payload) ≡ some blk)
      × All (IsPulled pull) blk.batches

valid_length : (id : BlockId) → (is_valid_id id ≡ true) ↔ (length (bytes_of id.hash) ≡ 32)
unfolding is_valid_id
valid_length id = (λ h. ground arith, λ h. ground arith)

certify-IsCertifiable :
    (capnp : Capnp) (pull : Bytes → PullReply) (id : BlockId) (payload : Option Bytes)
    → certify capnp pull id payload ≡ none
    → IsCertifiable capnp pull id payload
unfolding certify
certify-IsCertifiable capnp pull id none h = cc
certify-IsCertifiable capnp pull id (some bytes) h = elim (Bool-cases (is_valid_id id)) [
  | inr v ↦ absurd (ground (arith, v))
  | inl v ↦ elim (Option-cases (unmarshal capnp bytes)) [
    | inl e ↦ absurd (ground (arith, v, e))
    | inr (blk, e) ↦ record {
      present = λ n. cc;
      hash_length = (valid_length id).0 v;
      has_batches = (blk, e, (pull_all-All pull blk.batches).0 (ground (arith, v, e)));
    }
  ]
]

IsCertifiable-certify :
    (capnp : Capnp) (pull : Bytes → PullReply) (id : BlockId) (payload : Option Bytes)
    → IsCertifiable capnp pull id payload
    → certify capnp pull id payload ≡ none
unfolding certify
IsCertifiable-certify capnp pull id none c = absurd (c.present refl)
IsCertifiable-certify capnp pull id (some bytes) c =
    let (blk, e, a) = c.has_batches in
    rw ((valid_length id).1 c.hash_length, e, certify) ((pull_all-All pull blk.batches).1 a)

-- `Certify` returns nil exactly for a message with a payload that is a block, under an id whose hash
-- has 32 bytes, when no batch of the block failed to be pulled; a batch that was deleted passes.
pub certify-none_iff :
    (capnp : Capnp) (pull : Bytes → PullReply) (id : BlockId) (payload : Option Bytes)
    → (certify capnp pull id payload ≡ none) ↔ IsCertifiable capnp pull id payload
certify-none_iff capnp pull id payload =
    (certify-IsCertifiable capnp pull id payload, IsCertifiable-certify capnp pull id payload)
