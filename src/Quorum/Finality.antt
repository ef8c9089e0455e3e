-- ===== src/Quorum/Finality.antt =====
-- What `Finalize`, `List` and `Delete` tell of a valid quorum.
use unison.Base.{
  ℕ, ◌+◌, ◌*◌, ◌≤◌, ◌<◌, ◌≡◌, true, some, none, List, [], ◌∷◌, All, leb, arith, Option-cases, inl,
  inr,
}
use unison.Base.Key.{Bytes, bytes_key}
use unison.Base.Map.{Map, lookup}
use unison.Base.Entries.{All-delete, delete-Unique, sum_by-delete}
use unison.Messages.{MessageId}
use unison.Quorum.{Includer, Certificate, Quorum, delete_certificate, completed_of, list, finalize}
use unison.Quorum.Stake.{stake_sum, weights, Distinct}
use unison.Quorum.Total.{threshold, two_thirds, filled, stake_required-exact}
use unison.Quorum.Signing.{IsValidCert}
use unison.Quorum.Intersection.{common, common_third}
use unison.Quorum.Invariant.{IsValid, IsEntry, credit, completed_stake}

-- `Finalize` of a valid quorum never panics, and answers whether the proposers of its complete
-- certificates, with what deleted complete ones counted for, hold more than two thirds of the
-- stake; it changes only the cached total.
pub finalize-exact :
    (lost : ℕ) (q : Quorum)
    → IsValid lost q
    → finalize q
      ≡ some (
        leb (threshold q.includers) (completed_stake q + lost),
        record q { includers = filled q.includers },
      )
unfolding finalize
finalize-exact lost q v =
    ground (arith, v.counted, v.set.bounded, stake_required-exact q.includers v.set)

-- A certificate that a block's parents may name: signed by distinct includers who hold more than
-- two thirds of the stake.
pub record IsCertified (vs : List Includer) (cert : Certificate) : Type 0 where
  pub signers_distinct : Distinct cert.signatures
  pub stake_enough : two_thirds (stake_sum vs) ≤ weights vs cert.signatures

completed-IsCertified :
    (vs : List Includer) (cert : Certificate)
    → IsValidCert vs cert
    → cert.completed ≡ true
    → IsCertified vs cert
completed-IsCertified vs cert c done = record {
  signers_distinct = c.distinct;
  stake_enough = ground (arith, c.decided);
}

completed_of-All :
    (vs : List Includer) (m : Map Bytes Certificate)
    → All (IsEntry vs) m
    → All (IsCertified vs) (completed_of m)
unfolding completed_of
completed_of-All vs [] h = tt
completed_of-All vs ((k, cert) ∷ m) h =
    ground (arith, completed-IsCertified vs cert h.0.1, completed_of-All vs m h.1)

-- `List` of a valid quorum gives only certificates that are signed by distinct includers who hold
-- more than two thirds of the stake.
pub list-IsCertified :
    (lost : ℕ) (q : Quorum) → IsValid lost q → All (IsCertified q.includers.includers) (list q)
unfolding list
list-IsCertified lost q v = completed_of-All q.includers.includers q.certificates v.entries

-- What the certificate of an id, if there is one, counts for.
abbrev pub credit_at : MessageId → Quorum → ℕ
credit_at id q = elim (lookup id.string q.certificates) [
  | none ↦ 0
  | some cert ↦ credit q.includers.includers cert
]

-- `Delete` keeps the quorum valid, but what a complete certificate counted for stays counted: the
-- stake that `Finalize` weighs is not lowered when the certificate is taken away.
pub delete-IsValid :
    (id : MessageId) (lost : ℕ) (q : Quorum)
    → IsValid lost q
    → IsValid (lost + credit_at id q) (delete_certificate id q).1
unfolding delete_certificate
delete-IsValid id lost q v = elim (Option-cases (lookup id.string q.certificates)) [
  | inl e ↦
      rw (e, delete_certificate)
        (record {
          set = v.set;
          entries = v.entries;
          unique = v.unique;
          counted = ground (arith, v.counted);
        })
  | inr (cert, e) ↦
      rw (e, delete_certificate)
        (record {
          set = v.set;
          entries = All-delete (IsEntry q.includers.includers) id.string q.certificates v.entries;
          unique = delete-Unique id.string q.certificates v.unique;
          counted = ground (
            arith,
            v.counted,
            sum_by-delete (credit q.includers.includers) id.string cert q.certificates v.unique e,
          );
        })
]

-- Two certified certificates share signers with more than a third of the stake.
abbrev pub SharesThird : List Includer → Certificate → Certificate → Type 0
SharesThird vs c d = stake_sum vs < 3 * weights vs (common c.signatures d.signatures)

certified-SharesThird :
    (vs : List Includer) (c : Certificate) (ds : List Certificate)
    → IsCertified vs c
    → All (IsCertified vs) ds
    → All (SharesThird vs c) ds
certified-SharesThird vs c [] h hs = tt
certified-SharesThird vs c (d ∷ ds) h hs = (
  common_third vs c.signatures d.signatures h.signers_distinct hs.0.signers_distinct h.stake_enough
      hs.0.stake_enough,
  certified-SharesThird vs c ds h hs.1,
)

pairs-SharesThird :
    (vs : List Includer) (cs ds : List Certificate)
    → All (IsCertified vs) cs
    → All (IsCertified vs) ds
    → All (λ (c : Certificate). All (SharesThird vs c) ds) cs
pairs-SharesThird vs [] ds h hs = tt
pairs-SharesThird vs (c ∷ cs) ds h hs =
    (certified-SharesThird vs c ds h.0 hs, pairs-SharesThird vs cs ds h.1 hs)

-- Quorum intersection: of two valid quorums over the same includers, each certificate that the one
-- lists and each that the other lists share signers who hold more than a third of the stake.
pub list-SharesThird :
    (lost lost' : ℕ) (q q' : Quorum)
    → IsValid lost q
    → IsValid lost' q'
    → q.includers.includers ≡ q'.includers.includers
    → All (λ (c : Certificate). All (SharesThird q.includers.includers c) (list q')) (list q)
list-SharesThird lost lost' q q' v v' same_set =
    pairs-SharesThird q.includers.includers (list q) (list q') (list-IsCertified lost q v)
      (rw same_set (list-IsCertified lost' q' v'))
