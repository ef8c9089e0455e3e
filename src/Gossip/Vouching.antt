-- ===== src/Gossip/Vouching.antt =====
-- What a node does for a signature gossip, and under which conditions.
use unison.Base.{◌≡◌, refl, true, some, [], ◌∷◌, ◌⊎◌, inl, inr, Option-cases, Bool-cases}
use unison.Base.Key.{Bytes, bytes_key}
use unison.Messages.{Signature, MessageId}
use unison.Gossip.{
  Gossip, Env, adds_signature, RoundReply, round_got, round_elapsed, round_failed, OpReply, op_done,
  op_closed, op_failed, Flow, prepend, unless_closed, add_signature_failed, process_signature,
  ValidationResult, validation_accept, validation_reject, verdict, trace_of,
}
use unison.Gossip.Trace.{prepend_nil}

-- A round that is closed meanwhile is no reason to reject a gossip.
abbrev pub reply_verdict : OpReply → ValidationResult
reply_verdict op_done = validation_accept
reply_verdict op_closed = validation_accept
reply_verdict op_failed = validation_reject

module _ (env : Env) (gsp : Gossip) where
  -- What is known of a signature when the node adds it to a certificate: it is the gossip's, the
  -- signer's check of it over the id passed, and the round holds the id's certificate.
  pub record IsVouched (id : MessageId) (sig : Signature) : Type 0 where
    pub over :
        (cid : Bytes) × (gsp.id ≡ some cid)
        × (env.decode cid ≡ some id)
        × (env.verify cid sig ≡ true)
    pub sent_body : gsp.signature ≡ some sig.body
    pub sent_signer : gsp.signer ≡ some sig.signer
    pub round_live : env.get_round id.round ≡ round_got
    pub held : env.get_certificate id ≡ op_done

  -- How `process_signature` goes on.
  abbrev pub SignatureTrace : Flow (Unit {0}) → Type 0
  SignatureTrace run =
      (trace_of run ≡ [])
      ⊎ ((id : MessageId) × (sig : Signature) × (trace_of run ≡ adds_signature id sig ∷ [])
          × IsVouched id sig
          × (verdict run ≡ reply_verdict (env.add_signature id sig)))

  vouched_run :
      (cid : Bytes) (id : MessageId) (sig : Signature)
      → IsVouched id sig
      → gsp.id ≡ some cid
      → env.decode cid ≡ some id
      → env.verify cid sig ≡ true
      → process_signature env gsp
        ≡ prepend
            (adds_signature id sig ∷ [])
            (unless_closed (env.add_signature id sig) add_signature_failed)
  unfolding process_signature
  vouched_run cid id sig v e d c =
      rw (e, d, v.round_live, v.held, v.sent_body, v.sent_signer, c, process_signature)
        (simp prepend_nil)

  vouched-SignatureTrace :
      (cid : Bytes) (id : MessageId) (sig : Signature) (reply : OpReply)
      → IsVouched id sig
      → process_signature env gsp
        ≡ prepend
            (adds_signature id sig ∷ [])
            (unless_closed (env.add_signature id sig) add_signature_failed)
      → env.add_signature id sig ≡ reply
      → SignatureTrace (process_signature env gsp)
  vouched-SignatureTrace cid id sig op_done v run a =
      rw (run, a) (inr (id, sig, refl, v, rw a refl))
  vouched-SignatureTrace cid id sig op_closed v run a =
      rw (run, a) (inr (id, sig, refl, v, rw a refl))
  vouched-SignatureTrace cid id sig op_failed v run a =
      rw (run, a) (inr (id, sig, refl, v, rw a refl))

  held-SignatureTrace :
      (cid : Bytes) (id : MessageId)
      → gsp.id ≡ some cid
      → env.decode cid ≡ some id
      → env.get_round id.round ≡ round_got
      → env.get_certificate id ≡ op_done
      → SignatureTrace (process_signature env gsp)
  unfolding process_signature
  held-SignatureTrace cid id e d g h = elim (Option-cases gsp.signature) [
    | inl b ↦ rw (e, d, g, h, b, process_signature) (inl refl)
    | inr (body, b) ↦ elim (Option-cases gsp.signer) [
      | inl s ↦ rw (e, d, g, h, b, s, process_signature) (inl refl)
      | inr (signer, s) ↦
          let sig : Signature = record { body = body; signer = signer } in
          elim (Bool-cases (env.verify cid sig)) [
            | inr c ↦ rw (e, d, g, h, b, s, c, process_signature) (inl refl)
            | inl c ↦
                let v : IsVouched id sig = record {
                  over = (cid, e, d, c);
                  sent_body = b;
                  sent_signer = s;
                  round_live = g;
                  held = h;
                } in
                vouched-SignatureTrace cid id sig _ v (vouched_run cid id sig v e d c) refl
          ]
    ]
  ]

  live-SignatureTrace :
      (cid : Bytes) (id : MessageId) (reply : OpReply)
      → gsp.id ≡ some cid
      → env.decode cid ≡ some id
      → env.get_round id.round ≡ round_got
      → env.get_certificate id ≡ reply
      → SignatureTrace (process_signature env gsp)
  unfolding process_signature
  live-SignatureTrace cid id op_done e d g h = held-SignatureTrace cid id e d g h
  live-SignatureTrace cid id op_closed e d g h = rw (e, d, g, h, process_signature) (inl refl)
  live-SignatureTrace cid id op_failed e d g h = rw (e, d, g, h, process_signature) (inl refl)

  decoded-SignatureTrace :
      (cid : Bytes) (id : MessageId) (reply : RoundReply)
      → gsp.id ≡ some cid
      → env.decode cid ≡ some id
      → env.get_round id.round ≡ reply
      → SignatureTrace (process_signature env gsp)
  unfolding process_signature
  decoded-SignatureTrace cid id round_got e d g = live-SignatureTrace cid id _ e d g refl
  decoded-SignatureTrace cid id round_elapsed e d g = rw (e, d, g, process_signature) (inl refl)
  decoded-SignatureTrace cid id round_failed e d g = rw (e, d, g, process_signature) (inl refl)

  -- The handling of a signature gossip does nothing outside, or it adds one signature to a
  -- certificate: that of the gossip, after the check of it over the gossip's id has passed and with
  -- the certificate present in its round. It then rejects the gossip exactly if the round refuses
  -- the signature; a round closed meanwhile is no reason to.
  pub process_signature-SignatureTrace : SignatureTrace (process_signature env gsp)
  unfolding process_signature
  process_signature-SignatureTrace = elim (Option-cases gsp.id) [
    | inl e ↦ rw (e, process_signature) (inl refl)
    | inr (cid, e) ↦ elim (Option-cases (env.decode cid)) [
      | inl d ↦ rw (e, d, process_signature) (inl refl)
      | inr (id, d) ↦ decoded-SignatureTrace cid id _ e d refl
    ]
  ]

  vouched-trace :
      (id : MessageId) (sig : Signature) (reply : OpReply)
      → process_signature env gsp
        ≡ prepend
            (adds_signature id sig ∷ [])
            (unless_closed (env.add_signature id sig) add_signature_failed)
      → env.add_signature id sig ≡ reply
      → (trace_of (process_signature env gsp) ≡ adds_signature id sig ∷ [])
        × (verdict (process_signature env gsp) ≡ reply_verdict (env.add_signature id sig))
  vouched-trace id sig op_done run a = rw (run, a) (refl, refl)
  vouched-trace id sig op_closed run a = rw (run, a) (refl, refl)
  vouched-trace id sig op_failed run a = rw (run, a) (refl, refl)

  -- A signature that is vouched for is added.
  pub process_signature-serves :
      (id : MessageId) (sig : Signature)
      → IsVouched id sig
      → (trace_of (process_signature env gsp) ≡ adds_signature id sig ∷ [])
        × (verdict (process_signature env gsp) ≡ reply_verdict (env.add_signature id sig))
  process_signature-serves id sig v =
      let (cid, e, d, c) = v.over in vouched-trace id sig _ (vouched_run cid id sig v e d c) refl
