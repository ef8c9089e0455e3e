-- ===== src/Quorum/Invariant.antt =====
-- What every operation of a quorum keeps true, and what `Finalize` then decides.
use Prim.Native.Nat.{min}
use unison.Base.{
  ℕ, ◌+◌, ◌≡◌, ◌≢◌, refl, sym, Bool, true, false, some, none, List, All, if◌then◌else◌, arith,
  Bool-cases, Option-cases, inl, inr,
}
use unison.Base.Int.{ℤ, pos}
use unison.Base.Key.{Bytes, bytes_key}
use unison.Base.Map.{lookup, insert}
use unison.Base.Entries.{
  Unique, All-lookup, All-insert, insert-Unique, sum_by, sum_by-insert, sum_by-insert_new,
}
use unison.Base.Result.{Result, ok}
use unison.Messages.{Signature, Message}
use unison.Quorum.{
  Error, Includer, Includers, Certificate, Quorum, find_includer, has_signer, safe_add_clip,
  new_quorum, new_certificate, add, add_signature, sign,
}
use unison.Quorum.Stake.{weight}
use unison.Quorum.Total.{IsValidSet, filled, safe_add_clip_pos}
use unison.Quorum.Signing.{
  IsValidCert, find_includer-HasStake, signed, credited, add_signature-accepts,
  add_signature-refuses, signed-IsValidCert, completed_stays,
}

-- What a certificate counts for: its proposer's stake once it is complete.
abbrev pub credit : List Includer → Certificate → ℕ
credit vs cert = if cert.completed then weight vs cert.msg.id.signer else 0

-- The stake of the proposers of the complete certificates, a proposer once for each of them.
abbrev pub completed_stake : Quorum → ℕ
completed_stake q = sum_by (credit q.includers.includers) q.certificates

-- A certificate stands under its message's id.
abbrev pub IsEntry : List Includer → Bytes × Certificate → Type 0
IsEntry vs e = (e.0 ≡ e.1.msg.id.string) × IsValidCert vs e.1

-- `lost` is what complete certificates that were deleted had counted for.
pub record IsValid (lost : ℕ) (q : Quorum) : Type 0 where
  pub set : IsValidSet q.includers
  pub entries : All (IsEntry q.includers.includers) q.certificates
  pub unique : Unique q.certificates
  pub counted : q.active_stake ≡ pos (min 9223372036854775807 (completed_stake q + lost))

-- A new quorum over valid includers is valid.
pub new_quorum-IsValid : (incl : Includers) → IsValidSet incl → IsValid 0 (new_quorum incl)
unfolding new_quorum
new_quorum-IsValid incl v = record { set = v; entries = tt; unique = tt; counted = ground arith }

pub filled-IsValidSet : (incl : Includers) → IsValidSet incl → IsValidSet (filled incl)
filled-IsValidSet incl v = record {
  stakes = v.stakes;
  bounded = v.bounded;
  cached = inr (refl, v.bounded);
}

new_certificate-IsValidCert :
    (vs : List Includer) (msg : Message)
    → find_includer vs msg.id.signer ≢ none
    → IsValidCert vs (new_certificate msg)
unfolding new_certificate
new_certificate-IsValidCert vs msg h = record {
  proposed = h;
  distinct = tt;
  known = tt;
  staked = refl;
  decided = ground arith;
}

inserted-IsValid :
    (msg : Message) (lost : ℕ) (q : Quorum)
    → IsValid lost q
    → find_includer q.includers.includers msg.id.signer ≢ none
    → lookup msg.id.string q.certificates ≡ none
    → IsValid lost
        (record q { certificates = insert msg.id.string (new_certificate msg) q.certificates })
unfolding new_certificate
inserted-IsValid msg lost q v known fresh =
    let vs = q.includers.includers in
    record {
      set = v.set;
      entries =
          All-insert (IsEntry vs) msg.id.string (new_certificate msg) q.certificates v.entries
            (refl, new_certificate-IsValidCert vs msg known);
      unique = insert-Unique msg.id.string (new_certificate msg) q.certificates v.unique;
      counted = ground (
        arith,
        v.counted,
        sum_by-insert_new (credit vs) msg.id.string (new_certificate msg) q.certificates fresh,
      );
    }

-- `Add` keeps the quorum valid, whether it takes the message or refuses it.
pub add-IsValid :
    (msg : Message) (lost : ℕ) (q : Quorum) → IsValid lost q → IsValid lost (add msg q).1
unfolding add
add-IsValid msg lost q v = elim (Option-cases (find_includer q.includers.includers msg.id.signer)) [
  | inl e ↦ rw (e, add) v
  | inr (p, e) ↦ elim (Option-cases (lookup msg.id.string q.certificates)) [
    | inl f ↦ rw (e, f, add) (inserted-IsValid msg lost q v (λ n. cc) f)
    | inr (c, f) ↦ rw (e, f, add) v
  ]
]

-- A certificate of the map is replaced by a valid one of the same message; `t` and `a` are the
-- cached total and the active stake after it.
replaced-IsValid :
    (key : Bytes) (cert cert' : Certificate) (lost : ℕ) (q : Quorum) (t a : ℤ)
    → IsValid lost q
    → lookup key q.certificates ≡ some cert
    → cert'.msg ≡ cert.msg
    → IsValidCert q.includers.includers cert'
    → IsValidSet (record q.includers { total_stake = t })
    → ((n : ℕ)
        → n + credit q.includers.includers cert
          ≡ completed_stake q + credit q.includers.includers cert'
        → a ≡ pos (min 9223372036854775807 (n + lost)))
    → IsValid lost (record q {
      includers = record q.includers { total_stake = t };
      certificates = insert key cert' q.certificates;
      active_stake = a;
    })
replaced-IsValid key cert cert' lost q t a v held same_msg c' set' counts =
    let vs = q.includers.includers in
    let entry : IsEntry vs (key, cert) =
      All-lookup (IsEntry vs) key cert q.certificates v.entries held in
    record {
      set = set';
      entries =
          All-insert (IsEntry vs) key cert' q.certificates v.entries (rw same_msg entry.0, c');
      unique = insert-Unique key cert' q.certificates v.unique;
      counted = counts _ (sum_by-insert (credit vs) key cert' cert q.certificates held);
    }

module _ (key : Bytes) (s : Signature) (cert : Certificate) (lost : ℕ) (q : Quorum)
    (valid : IsValid lost q) (held : lookup key q.certificates ≡ some cert) where
  held_cert : IsValidCert q.includers.includers cert
  held_cert =
      (All-lookup (IsEntry q.includers.includers) key cert q.certificates valid.entries held).1

  unchanged-IsValid : IsValid lost (record q { certificates = insert key cert q.certificates })
  unchanged-IsValid =
      replaced-IsValid key cert cert lost q q.includers.total_stake q.active_stake valid held refl
        held_cert valid.set (λ n e. ground (arith, valid.counted))

  module _ (v p : Includer) (e : find_includer q.includers.includers s.signer ≡ some v)
      (proposed : find_includer q.includers.includers cert.msg.id.signer ≡ some p)
      (new : has_signer s.signer cert.signatures ≡ false) where
    credit_step :
        (n : ℕ)
        → cert.completed ≡ false
        → (signed q.includers.includers s cert).completed ≡ true
        → n + credit q.includers.includers cert
          ≡ completed_stake q + credit q.includers.includers (signed q.includers.includers s cert)
        → safe_add_clip q.active_stake p.stake ≡ pos (min 9223372036854775807 (n + lost))
    credit_step n open_before done h = rw valid.counted (
        ground (
          arith,
          safe_add_clip_pos (min 9223372036854775807 (completed_stake q + lost)) p,
          find_includer-HasStake q.includers.includers cert.msg.id.signer p valid.set.stakes,
        ))

    abbrev signed_cert : Certificate
    signed_cert = signed q.includers.includers s cert

    signed_cert-IsValidCert : IsValidCert q.includers.includers signed_cert
    signed_cert-IsValidCert = signed-IsValidCert s cert q held_cert (λ n. cc) new

    -- The quorum with the signed certificate written back.
    abbrev after_signing : Bool → Bool → Quorum
    after_signing before after =
        let q' = credited before after p q in
        record q' { certificates = insert key signed_cert q'.certificates }

    after_signing-IsValid :
        (before after : Bool)
        → before ≡ cert.completed
        → after ≡ signed_cert.completed
        → IsValid lost (after_signing before after)
    after_signing-IsValid true after eb ea =
        replaced-IsValid key cert signed_cert lost q q.includers.total_stake q.active_stake valid
          held refl signed_cert-IsValidCert valid.set
          (λ n h. ground (arith, valid.counted, completed_stays s cert q held_cert))
    after_signing-IsValid false true eb ea =
        replaced-IsValid key cert signed_cert lost q _ _ valid held refl signed_cert-IsValidCert
          (filled-IsValidSet q.includers valid.set) (λ n h. credit_step n (sym eb) (sym ea) h)
    after_signing-IsValid false false eb ea =
        replaced-IsValid key cert signed_cert lost q _ q.active_stake valid held refl
          signed_cert-IsValidCert (filled-IsValidSet q.includers valid.set)
          (λ n h. ground (arith, valid.counted))

    accepted-IsValid :
        (r : Result Error Bool) × (q' : Quorum) × (sign key s cert q ≡ some (r, q'))
        × IsValid lost q'
    unfolding sign
    accepted-IsValid = (
      ok signed_cert.completed,
      after_signing cert.completed signed_cert.completed,
      rw (add_signature-accepts s cert q v p valid.set held_cert e proposed new, sign),
      after_signing-IsValid cert.completed signed_cert.completed refl refl,
    )

  refused_sign :
      (r : Result Error Bool)
      → add_signature s cert q ≡ some (r, cert, q)
      → (r : Result Error Bool) × (q' : Quorum) × (sign key s cert q ≡ some (r, q'))
        × IsValid lost q'
  unfolding sign
  refused_sign r e = (
    r,
    record q { certificates = insert key cert q.certificates },
    rw (e, sign),
    unchanged-IsValid,
  )

  -- A signature on a certificate of a valid quorum is answered without a panic, on every branch, and
  -- leaves the quorum valid.
  pub sign-IsValid :
      (r : Result Error Bool) × (q' : Quorum) × (sign key s cert q ≡ some (r, q')) × IsValid lost q'
  sign-IsValid = elim (Option-cases (find_includer q.includers.includers s.signer)) [
    | inl e ↦ refused_sign _ ((add_signature-refuses s cert q).0 e)
    | inr (v, e) ↦ elim (Bool-cases (has_signer s.signer cert.signatures)) [
      | inl d ↦ refused_sign _ ((add_signature-refuses s cert q).1 (λ n. cc) d)
      | inr new ↦ elim (Option-cases (find_includer q.includers.includers cert.msg.id.signer)) [
        | inl n ↦ absurd (held_cert.proposed n)
        | inr (p, proposed) ↦ accepted-IsValid v p e proposed new
      ]
    ]
  ]
