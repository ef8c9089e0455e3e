-- ===== src/Quorum/Tracking.antt =====
-- What is known of the messages and the signatures that a quorum holds, through every operation: a
-- property of each, which the caller of `Add` and of `AddSignature` answers for.
use unison.Base.{
  ◌≡◌, ap, subst, Bool, some, List, [], ◌∷◌, ◌++◌, All, All-append, arith, Option-cases, Bool-cases,
  inl, inr, ◌⊎◌,
}
use unison.Base.Int.{ℤ}
use unison.Base.Key.{Bytes, bytes_key}
use unison.Base.Map.{Map, lookup, insert}
use unison.Base.Entries.{All-lookup, All-insert, All-delete}
use unison.Base.Result.{Result}
use unison.Messages.{Signature, MessageId, Message}
use unison.Quorum.{
  Error, Includer, Includers, Certificate, Quorum, get_by_pub_key, update_total_stake,
  total_stake_of, stake_required, new_quorum, new_certificate, add, delete_certificate,
  completed_of, list, finalize, count_certificate, complete, add_signature, sign,
}
use unison.Quorum.Total.{IsValidSet}
use unison.Quorum.Invariant.{IsValid, new_quorum-IsValid, add-IsValid, sign-IsValid}
use unison.Quorum.Finality.{delete-IsValid, IsCertified, list-IsCertified}
use unison.Quorum.Contract.{IsValidQuorum, finalize_result, finalize-Keeps}

stake_required-includers :
    (incl incl' : Includers) (n : ℤ)
    → stake_required incl ≡ some (n, incl')
    → incl'.includers ≡ incl.includers
unfolding stake_required total_stake_of update_total_stake
stake_required-includers incl incl' n e = ground arith

-- What `addSignature` leaves alone, and the one signature that it may add.
abbrev pub SignedBy : Signature → Certificate → Certificate → Quorum → Quorum → Type 0
SignedBy s cert cert' q q' =
    (cert'.msg ≡ cert.msg)
    × ((cert'.signatures ≡ cert.signatures) ⊎ (cert'.signatures ≡ cert.signatures ++ s ∷ []))
    × (q'.certificates ≡ q.certificates)
    × (q'.includers.includers ≡ q.includers.includers)

pub add_signature-SignedBy :
    (s : Signature) (cert cert' : Certificate) (q q' : Quorum) (r : Result Error Bool)
    → add_signature s cert q ≡ some (r, cert', q')
    → SignedBy s cert cert' q q'
unfolding add_signature complete count_certificate get_by_pub_key
add_signature-SignedBy s cert cert' q q' r e = elim (Option-cases (stake_required q.includers)) [
  | inl n ↦ ground (arith, n)
  | inr ((required, incl), f) ↦
      let same_list = stake_required-includers q.includers incl required f in
      ground (arith, f, same_list)
]

pub finalize-includers :
    (q q' : Quorum) (b : Bool)
    → finalize q ≡ some (b, q')
    → (q'.includers.includers ≡ q.includers.includers) × (q'.certificates ≡ q.certificates)
unfolding finalize
finalize-includers q q' b e = elim (Option-cases (stake_required q.includers)) [
  | inl n ↦ absurd (ground (arith, n))
  | inr ((required, incl), f) ↦
      let same_list = stake_required-includers q.includers incl required f in
      ground (arith, f, same_list)
]

module _ (vs : List Includer) (Good : Message → Type 0) (Signs : Message → Signature → Type 0) where
  abbrev pub IsTracked : Bytes × Certificate → Type 0
  IsTracked e = Good e.1.msg × All (Signs e.1.msg) e.1.signatures

  -- A valid quorum of the includers whose messages and signatures all have their properties.
  pub record Tracks (q : Quorum) : Type 0 where
    pub valid : IsValidQuorum q
    pub members : q.includers.includers ≡ vs
    pub tracked : All IsTracked q.certificates

  pub new_quorum-Tracks :
      (incl : Includers) → IsValidSet incl → incl.includers ≡ vs → Tracks (new_quorum incl)
  unfolding new_quorum
  new_quorum-Tracks incl v e = record {
    valid = (0, new_quorum-IsValid incl v);
    members = e;
    tracked = tt;
  }

  pub add-Tracks : (msg : Message) (q : Quorum) → Good msg → Tracks q → Tracks (add msg q).1
  unfolding add new_certificate
  add-Tracks msg q g t = record {
    valid = (t.valid.0, add-IsValid msg t.valid.0 q t.valid.1);
    members = ground (arith, t.members);
    tracked = elim (Option-cases (get_by_pub_key q.includers msg.id.signer)) [
      | inl n ↦ rw (n, add) t.tracked
      | inr (i, e) ↦ elim (Option-cases (lookup msg.id.string q.certificates)) [
        | inr (c, f) ↦ rw (e, f, add) t.tracked
        | inl f ↦
            rw (e, f, add)
              (All-insert IsTracked msg.id.string (new_certificate msg) q.certificates t.tracked
                (g, tt))
      ]
    ];
  }

  pub delete-Tracks : (id : MessageId) (q : Quorum) → Tracks q → Tracks (delete_certificate id q).1
  unfolding delete_certificate
  delete-Tracks id q t = record {
    valid = (_, delete-IsValid id t.valid.0 q t.valid.1);
    members = ground (arith, t.members);
    tracked = elim (Option-cases (lookup id.string q.certificates)) [
      | inl n ↦ rw (n, delete_certificate) t.tracked
      | inr (c, e) ↦
          rw (e, delete_certificate) (All-delete IsTracked id.string q.certificates t.tracked)
    ];
  }

  signed-All :
      (s : Signature) (cert cert' : Certificate)
      → All (Signs cert.msg) cert.signatures
      → Signs cert.msg s
      → (cert'.signatures ≡ cert.signatures) ⊎ (cert'.signatures ≡ cert.signatures ++ s ∷ [])
      → All (Signs cert.msg) cert'.signatures
  signed-All s cert cert' h g (inl e) = rw e h
  signed-All s cert cert' h g (inr e) =
      rw e (All-append (Signs cert.msg) cert.signatures (s ∷ []) h (g, tt))

  pub sign-Tracks :
      (k : Bytes) (s : Signature) (cert : Certificate) (q q' : Quorum) (r : Result Error Bool)
      → Tracks q
      → lookup k q.certificates ≡ some cert
      → Signs cert.msg s
      → sign k s cert q ≡ some (r, q')
      → Tracks q'
  unfolding sign
  sign-Tracks k s cert q q' r t held g e = elim (Option-cases (add_signature s cert q)) [
    | inl n ↦ absurd (ground (arith, n))
    | inr ((r', cert', q''), f) ↦
        let (same_msg, sigs, same_map, same_set) = add_signature-SignedBy s cert cert' q q'' r' f in
        let (good, signed) = All-lookup IsTracked k cert q.certificates t.tracked held in
        let (r₂, q₂, e₂, v₂) = sign-IsValid k s cert t.valid.0 q t.valid.1 held in
        let same_end : q₂ ≡ q' = ground (arith, e₂) in
        let after : record q'' { certificates = insert k cert' q''.certificates } ≡ q' =
          ground (arith, f) in
        record {
          valid = (t.valid.0, subst (IsValid t.valid.0) same_end v₂);
          members = ground (arith, after, same_set, t.members);
          tracked = subst (All IsTracked) (ap (λ (x : Quorum). x.certificates) after) (
              rw same_map (
                All-insert IsTracked k cert' q.certificates t.tracked
                  (rw same_msg (good, signed-All s cert cert' signed g sigs))));
        }
  ]

  pub finalize-Tracks :
      (q q' : Quorum) (r : Result Error Bool)
      → Tracks q
      → finalize_result q ≡ some (r, q')
      → Tracks q'
  unfolding finalize_result
  finalize-Tracks q q' r t e =
      let (r₂, q₂, e₂, v₂, _) = finalize-Keeps q t.valid in
      let same_end : q₂ ≡ q' = ground (arith, e₂) in
      elim (Option-cases (finalize q)) [
        | inl n ↦ absurd (ground (arith, n))
        | inr ((b, q₃), f) ↦
            let (same_set, same_map) = finalize-includers q q₃ b f in
            let after : q₃ ≡ q' = ground (arith, f) in
            record {
              valid = subst IsValidQuorum same_end v₂;
              members = ground (arith, after, same_set, t.members);
              tracked =
                  subst (All IsTracked) (ap (λ (x : Quorum). x.certificates) after)
                    (rw same_map t.tracked);
            }
      ]

  -- A certificate that `List` gives: its message and its signatures have their properties, and its
  -- signers are distinct includers who hold more than two thirds of the stake.
  abbrev pub IsDecided : Certificate → Type 0
  IsDecided cert = IsCertified vs cert × Good cert.msg × All (Signs cert.msg) cert.signatures

  completed_of-tracked :
      (m : Map Bytes Certificate)
      → All IsTracked m
      → All (λ (c : Certificate). Good c.msg × All (Signs c.msg) c.signatures) (completed_of m)
  unfolding completed_of
  completed_of-tracked [] h = tt
  completed_of-tracked ((k, cert) ∷ m) h = elim (Bool-cases cert.completed) [
    | inl e ↦ rw (e, completed_of) (h.0, completed_of-tracked m h.1)
    | inr e ↦ rw (e, completed_of) (completed_of-tracked m h.1)
  ]

  both :
      (cs : List Certificate)
      → All (IsCertified vs) cs
      → All (λ (c : Certificate). Good c.msg × All (Signs c.msg) c.signatures) cs
      → All IsDecided cs
  both [] h k = tt
  both (c ∷ cs) h k = ((h.0, k.0.0, k.0.1), both cs h.1 k.1)

  pub list-IsDecided : (q : Quorum) → Tracks q → All IsDecided (list q)
  unfolding list
  list-IsDecided q t =
      both (list q)
        (subst (λ (l : List Includer). All (IsCertified l) (list q)) t.members
          (list-IsCertified t.valid.0 q t.valid.1))
        (completed_of-tracked q.certificates t.tracked)
