-- ===== src/Quorum/Readiness.antt =====
-- Whether the stake that a quorum counts suffices, through every operation: what `Finalize` answers.
use Prim.Native.Nat.{min}
use unison.Base.{
  ℕ, ◌+◌, ◌≡◌, Bool, true, false, some, List, arith, ◌⊎◌, Bool-cases, Option-cases, inl, inr, leb,
  subst,
}
use unison.Base.Int.{pos, leb_ℤ}
use unison.Base.Key.{Bytes, bytes_key}
use unison.Base.Map.{lookup}
use unison.Base.Entries.{All-lookup}
use unison.Base.Result.{Result, ok}
use unison.Messages.{Signature, MessageId, Message}
use unison.Quorum.{
  Error, Includer, Certificate, Quorum, find_includer, has_signer, safe_add_clip, add,
  delete_certificate, add_signature, sign,
}
use unison.Quorum.Stake.{stake_sum}
use unison.Quorum.Total.{two_thirds, threshold, filled, safe_add_clip_pos, HasStake}
use unison.Quorum.Signing.{
  find_includer-HasStake, signed, credited, add_signature-accepts, add_signature-refuses,
  completed_stays,
}
use unison.Quorum.Invariant.{IsValid, IsEntry, completed_stake, filled-IsValidSet}
use unison.Quorum.Finality.{finalize-exact}
use unison.Quorum.Contract.{finalize_result}

-- The counted stake is more than two thirds.
abbrev pub ready : List Includer → Quorum → Bool
ready vs q = leb_ℤ (pos (two_thirds (stake_sum vs))) q.active_stake

pub add-ready :
    (vs : List Includer) (msg : Message) (q : Quorum) → ready vs (add msg q).1 ≡ ready vs q
unfolding add
add-ready vs msg q = ground arith

pub delete-ready :
    (vs : List Includer) (id : MessageId) (q : Quorum)
    → ready vs (delete_certificate id q).1 ≡ ready vs q
unfolding delete_certificate
delete-ready vs id q = ground arith

pub ready-exact :
    (lost : ℕ) (q : Quorum)
    → IsValid lost q
    → ready q.includers.includers q ≡ leb (threshold q.includers) (completed_stake q + lost)
ready-exact lost q v = rw v.counted (ground (arith, v.set.bounded))

pub finalize_result-ready :
    (lost : ℕ) (q q' : Quorum) (res : Result Error Bool)
    → IsValid lost q
    → finalize_result q ≡ some (res, q')
    → (res ≡ ok (ready q.includers.includers q)) × (q'.active_stake ≡ q.active_stake)
unfolding finalize_result
finalize_result-ready lost q q' res v e =
    ground (arith, finalize-exact lost q v, ready-exact lost q v)

-- What a signature does to the counted stake: nothing, or it is answered with true and the stake
-- does not fall.
abbrev Counts : Quorum → Quorum → Result Error Bool → Type 0
Counts q q' res =
    (q'.active_stake ≡ q.active_stake)
    ⊎ ((res ≡ ok true)
        × ((n : ℕ) → leb_ℤ (pos n) q.active_stake ≡ true → leb_ℤ (pos n) q'.active_stake ≡ true))

module _ (key : Bytes) (s : Signature) (cert : Certificate) (lost : ℕ) (q q' : Quorum)
    (res : Result Error Bool) (valid : IsValid lost q)
    (held : lookup key q.certificates ≡ some cert) (e : sign key s cert q ≡ some (res, q')) where
  refused-Counts :
      (r : Result Error Bool) → add_signature s cert q ≡ some (r, cert, q) → Counts q q' res
  unfolding sign
  refused-Counts r f = inl (ground (arith, f))

  rises :
      (p : Includer) (n : ℕ)
      → HasStake p
      → leb_ℤ (pos n) q.active_stake ≡ true
      → leb_ℤ (pos n) (safe_add_clip q.active_stake p.stake) ≡ true
  rises p n hp = rw valid.counted (λ h.
      ground (arith, safe_add_clip_pos (min 9223372036854775807 (completed_stake q + lost)) p))

  credited-Counts :
      (before after : Bool) (p : Includer) (cert' : Certificate)
      → HasStake p
      → (before ≡ true → after ≡ true)
      → add_signature s cert q ≡ some (ok after, cert', credited before after p q)
      → Counts q q' res
  unfolding sign
  credited-Counts true after p cert' hp up f = inl (ground (arith, f))
  credited-Counts false false p cert' hp up f = inl (ground (arith, f))
  credited-Counts false true p cert' hp up f =
      let active : q'.active_stake ≡ safe_add_clip q.active_stake p.stake = ground (arith, f) in
      inr (ground (arith, f), λ n h. rw active (rises p n hp h))

  pub sign-Counts : Counts q q' res
  sign-Counts =
      let vs = q.includers.includers in
      let c = (All-lookup (IsEntry vs) key cert q.certificates valid.entries held).1 in
      elim (Option-cases (find_includer vs s.signer)) [
        | inl n ↦ refused-Counts _ ((add_signature-refuses s cert q).0 n)
        | inr (v, known) ↦ elim (Bool-cases (has_signer s.signer cert.signatures)) [
          | inl d ↦ refused-Counts _ ((add_signature-refuses s cert q).1 (λ n. cc) d)
          | inr new ↦ elim (Option-cases (find_includer vs cert.msg.id.signer)) [
            | inl n ↦ absurd (c.proposed n)
            | inr (p, proposed) ↦
                credited-Counts cert.completed (signed vs s cert).completed p (signed vs s cert)
                  (find_includer-HasStake vs cert.msg.id.signer p valid.set.stakes proposed)
                  (completed_stays s cert q c)
                  (add_signature-accepts s cert q v p valid.set c known proposed new)
          ]
        ]
      ]

pub finalize_result-IsValid :
    (lost : ℕ) (q q' : Quorum) (res : Result Error Bool)
    → IsValid lost q
    → finalize_result q ≡ some (res, q')
    → IsValid lost q'
unfolding finalize_result
finalize_result-IsValid lost q q' res v e =
    let after : record q { includers = filled q.includers } ≡ q' =
      ground (arith, finalize-exact lost q v) in
    subst (IsValid lost) after (record {
      set = filled-IsValidSet q.includers v.set;
      entries = v.entries;
      unique = v.unique;
      counted = v.counted;
    })
