-- ===== src/Gossip/Sending.antt =====
-- How a gossip is written and read: `broadcastGossip` of rebro/gossip/broadcaster.go with the setters
-- of broadcaster.go and process.go, over the accessors of gossipmsg/gossip.capnp.go. capnp's structs
-- are a parameter.
use unison.Base.{
  ℕ, ◌≡◌, ◌≢◌, refl, ◌∙◌, Bool, false, Option, none, some, ite, ℕ_discrete, arith, Option-cases,
  inl, inr,
}
use unison.Base.Key.{Bytes}
use unison.Messages.{Signature, MessageId, Message}
use unison.Gossip.{
  Which, which_data, which_signature, which_unknown, Gossip, Env, process_gossip, deliver_gossip,
  verdict, trace_of,
}

-- capnp over its structs `S`; `none` is an error. `new_root` is `NewMessage` and `NewRootStruct`,
-- `data_at` and `set_data` a pointer of bytes by its index, `u16` the word that tells the union,
-- `unmarshal` is `Unmarshal` and the reading of the root.
pub record Capnp (S : Type 0) : Type 0 where
  pub new_root : Option S
  pub u16 : S → ℕ
  pub set_u16 : ℕ → S → S
  pub data_at : ℕ → S → Option Bytes
  pub set_data : ℕ → Bytes → S → Option S
  pub marshal : S → Option Bytes
  pub unmarshal : Bytes → Option S

-- What capnp documents: a value that is set is read, and nothing else changes; bytes that are
-- marshalled unmarshal to the struct.
pub record Documented {S : Type 0} (c : Capnp S) : Type 0 where
  pub u16_set : (n : ℕ) (s : S) → c.u16 (c.set_u16 n s) ≡ n
  pub data_u16 : (i n : ℕ) (s : S) → c.data_at i (c.set_u16 n s) ≡ c.data_at i s
  pub data_set : (i : ℕ) (v : Bytes) (s t : S) → c.set_data i v s ≡ some t → c.data_at i t ≡ some v
  pub data_other :
      (i j : ℕ) (v : Bytes) (s t : S)
      → i ≢ j
      → c.set_data i v s ≡ some t
      → c.data_at j t ≡ c.data_at j s
  pub u16_data : (i : ℕ) (v : Bytes) (s t : S) → c.set_data i v s ≡ some t → c.u16 t ≡ c.u16 s
  pub unmarshal_marshal : (s : S) (b : Bytes) → c.marshal s ≡ some b → c.unmarshal b ≡ some s

module _ {S : Type 0} (c : Capnp S) where
  -- `Gossip.Which`
  pub which : S → Which
  which s =
      ite (ℕ_discrete (c.u16 s) 0) which_signature
        (ite (ℕ_discrete (c.u16 s) 1) which_data which_unknown)

  -- The getters `Id`, `Signer`, `Signature` and `Data`: the signer and the payload share a pointer.
  abbrev pub get_id : S → Option Bytes
  get_id s = c.data_at 0 s

  abbrev pub get_signer : S → Option Bytes
  get_signer s = c.data_at 1 s

  abbrev pub get_signature : S → Option Bytes
  get_signature s = c.data_at 2 s

  abbrev pub get_payload : S → Option Bytes
  get_payload s = c.data_at 1 s

  -- The setters `SetId`, `SetSigner`, `SetSignature` and `SetData` of the fields, and those that
  -- choose the kind of a gossip.
  abbrev pub set_id : Bytes → S → Option S
  set_id v s = c.set_data 0 v s

  abbrev pub set_signer : Bytes → S → Option S
  set_signer v s = c.set_data 1 v s

  abbrev pub set_signature : Bytes → S → Option S
  set_signature v s = c.set_data 2 v s

  abbrev pub set_payload : Bytes → S → Option S
  set_payload v s = c.set_data 1 v s

  abbrev pub choose_signature : S → S
  choose_signature s = c.set_u16 0 s

  abbrev pub choose_data : S → S
  choose_data s = c.set_u16 1 s

  -- What the accessors give of the root.
  pub read_gossip : S → Gossip
  unfolding which
  read_gossip s = record {
    which = which s;
    id = get_id s;
    payload = get_payload s;
    signature = get_signature s;
    signer = get_signer s;
  }

  -- `capnp.Unmarshal` and `ReadRootGossip` of `deliverGossip`.
  unfoldable pub read : Bytes → Option Gossip
  unfolding read_gossip
  read bytes = elim (c.unmarshal bytes) [ none ↦ none | some s ↦ some (read_gossip s) ]

  -- The setter that `processData` passes to `broadcastGossip`.
  unfoldable pub signature_setter : Bytes → Signature → S → Option S
  signature_setter canonical_id signature gsp = elim (set_id canonical_id (choose_signature gsp)) [
    | none ↦ none
    | some with_id ↦ elim (set_signature signature.body with_id) [
      | none ↦ none
      | some with_body ↦ set_signer signature.signer with_body
    ]
  ]

  -- The setter that `Broadcast` passes to it.
  unfoldable pub data_setter : (MessageId → Option Bytes) → Message → S → Option S
  data_setter marshal_id msg message = elim (marshal_id msg.id) [
    | none ↦ none
    | some canonical_id ↦ elim (set_id canonical_id message) [
      | none ↦ none
      | some with_id ↦ elim (set_payload msg.payload with_id) [
        | none ↦ none
        | some with_data ↦ some (choose_data with_data)
      ]
    ]
  ]

  -- `broadcastGossip`: the bytes that it publishes, if it comes to that, and whether it returns nil.
  unfoldable pub broadcast_gossip : (Bytes → Bool) → (S → Option S) → Option Bytes × Bool
  broadcast_gossip publish setter = elim c.new_root [
    | none ↦ (none, false)
    | some msg ↦ elim (setter msg) [
      | none ↦ (none, false)
      | some set ↦ elim (c.marshal set) [
        | none ↦ (none, false)
        | some bytes ↦ (some bytes, publish bytes)
      ]
    ]
  ]

  -- What is published was set and marshalled.
  published_set :
      (publish : Bytes → Bool) (setter : S → Option S) (bytes : Bytes)
      → (broadcast_gossip publish setter).0 ≡ some bytes
      → (s : S) × (t : S) × (setter s ≡ some t) × (c.marshal t ≡ some bytes)
  unfolding broadcast_gossip
  published_set publish setter bytes e = elim (Option-cases c.new_root) [
    | inl n ↦ absurd (ground (arith, n))
    | inr (s, f) ↦ elim (Option-cases (setter s)) [
      | inl n ↦ absurd (ground (arith, n, f))
      | inr (t, g) ↦ (s, t, g, ground (arith, f, g))
    ]
  ]

  module _ (d : Documented c) where
    -- A signature gossip is read as it was written.
    pub read-signature :
        (publish : Bytes → Bool) (cid bytes : Bytes) (sig : Signature)
        → (broadcast_gossip publish (signature_setter cid sig)).0 ≡ some bytes
        → (gsp : Gossip) × (read bytes ≡ some gsp)
          × (gsp.which ≡ which_signature)
          × (gsp.id ≡ some cid)
          × (gsp.signature ≡ some sig.body)
          × (gsp.signer ≡ some sig.signer)
    unfolding signature_setter read
    read-signature publish cid bytes sig e =
        let (s, t, f, g) = published_set publish (signature_setter cid sig) bytes e in
        elim (Option-cases (c.set_data 0 cid (c.set_u16 0 s))) [
          | inl n ↦ absurd (ground (arith, n))
          | inr (a, ha) ↦ elim (Option-cases (c.set_data 2 sig.body a)) [
            | inl n ↦ absurd (ground (arith, n, ha))
            | inr (b, hb) ↦
                let hc : c.set_data 1 sig.signer b ≡ some t = ground (arith, f, ha, hb) in
                let word : c.u16 t ≡ 0 =
                  d.u16_data 1 sig.signer b t hc
                  ∙ d.u16_data 2 sig.body a b hb
                  ∙ d.u16_data 0 cid (c.set_u16 0 s) a ha
                  ∙ d.u16_set 0 s in
                (
                  read_gossip t,
                  rw (d.unmarshal_marshal t bytes g, read) refl,
                  ground (arith, word),
                  d.data_other 1 0 sig.signer b t (λ n. cc) hc
                      ∙ d.data_other 2 0 sig.body a b (λ n. cc) hb
                      ∙ d.data_set 0 cid (c.set_u16 0 s) a ha,
                  d.data_other 1 2 sig.signer b t (λ n. cc) hc ∙ d.data_set 2 sig.body a b hb,
                  d.data_set 1 sig.signer b t hc,
                )
          ]
        ]

    -- So is a data gossip.
    pub read-data :
        (publish : Bytes → Bool) (marshal_id : MessageId → Option Bytes) (msg : Message)
        (bytes : Bytes)
        → (broadcast_gossip publish (data_setter marshal_id msg)).0 ≡ some bytes
        → (gsp : Gossip) × (cid : Bytes) × (read bytes ≡ some gsp)
          × (marshal_id msg.id ≡ some cid)
          × (gsp.which ≡ which_data)
          × (gsp.id ≡ some cid)
          × (gsp.payload ≡ some msg.payload)
    unfolding data_setter read
    read-data publish marshal_id msg bytes e =
        let (s, t, f, g) = published_set publish (data_setter marshal_id msg) bytes e in
        elim (Option-cases (marshal_id msg.id)) [
          | inl n ↦ absurd (ground (arith, n))
          | inr (cid, m) ↦ elim (Option-cases (c.set_data 0 cid s)) [
            | inl n ↦ absurd (ground (arith, n, m))
            | inr (a, ha) ↦ elim (Option-cases (c.set_data 1 msg.payload a)) [
              | inl n ↦ absurd (ground (arith, n, m, ha))
              | inr (b, hb) ↦
                  let end : c.set_u16 1 b ≡ t = ground (arith, f, m, ha, hb) in
                  let word : c.u16 t ≡ 1 = rw (← end) (d.u16_set 1 b) in
                  (
                    read_gossip t,
                    cid,
                    rw (d.unmarshal_marshal t bytes g, read) refl,
                    m,
                    ground (arith, word),
                    rw (← end) (
                        d.data_u16 0 1 b
                        ∙ d.data_other 1 0 msg.payload a b (λ n. cc) hb
                        ∙ d.data_set 0 cid s a ha),
                    rw (← end) (d.data_u16 1 1 b ∙ d.data_set 1 msg.payload a b hb),
                  )
            ]
          ]
        ]

-- What is read is processed.
pub deliver_gossip_lem :
    (env : Env) (unmarshal : Bytes → Option Gossip) (bytes : Bytes) (gsp : Gossip)
    → unmarshal bytes ≡ some gsp
    → deliver_gossip env unmarshal bytes
      ≡ (verdict (process_gossip env gsp), trace_of (process_gossip env gsp))
unfolding deliver_gossip
deliver_gossip_lem env unmarshal bytes gsp e = rw (e, deliver_gossip) refl
