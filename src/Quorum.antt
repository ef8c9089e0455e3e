-- ===== src/Quorum.antt =====
-- dag/quorum: the includer set with its stakes, the certificates of a round and the quorum that
-- they build. The includers and their public keys are not nil; a nil dereference or a `panic` of
-- the code is `none`. A certificate is shared between the map and its holder, so an operation on it
-- names it by its key in the map.
pub mod IncluderSet
pub mod SafeAdd
pub mod Stake
pub mod Total
pub mod Intersection
pub mod Signing
pub mod Invariant
pub mod Finality
pub mod Contract
pub mod Tracking
pub mod Readiness
pub mod Presence
pub mod Vacancy
pub mod Proposals
pub mod Agreement
pub mod Examples
pub mod OrderExamples
mod Witnesses
use unison.Base.{
  ℕ, Bool, true, false, Option, none, some, List, [], ◌∷◌, ◌++◌, ◌&&◌, not, if◌then◌else◌,
}
use unison.Base.Key.{Bytes, same, bytes_key}
use unison.Base.Map.{Map, lookup, insert, delete}
use unison.Base.Int.{ℤ, pos, negsuc, ltb_ℤ, leb_ℤ, max_int64, min_int64, add64, sub64, mul64, div64}
use unison.Base.Result.{Result, ok, err}
use unison.Messages.{Signature, MessageId, Message, PublicKey, equals}

-- `MaxStake`: `math.MaxInt64 / 8`.
abbrev pub max_stake : ℤ
max_stake = pos 1152921504606846975

pub record Includer : Type 0 where
  pub pub_key : PublicKey
  pub stake : ℤ

pub record Includers : Type 0 where
  pub includers : List Includer
  pub total_stake : ℤ

-- The sum and whether it would have left the range.
pub safe_add : ℤ → ℤ → ℤ × Bool
unfolding sub64 add64
safe_add a b =
    if ltb_ℤ (pos 0) b && ltb_ℤ (sub64 max_int64 b) a
    then (negsuc 0, true)
    else if ltb_ℤ b (pos 0) && ltb_ℤ a (sub64 min_int64 b)
    then (negsuc 0, true)
    else (add64 a b, false)

pub safe_add_clip : ℤ → ℤ → ℤ
unfolding safe_add
safe_add_clip a b =
    let (c, overflow) = safe_add a b in
    if overflow then if ltb_ℤ b (pos 0) then min_int64 else max_int64 else c

-- The loop of `GetByPubKey`.
pub find_includer : List Includer → Bytes → Option Includer
unfolding equals
find_includer [] pub_k = none
find_includer (v ∷ vs) pub_k =
    let rest = find_includer vs pub_k in if equals v.pub_key pub_k then some v else rest

pub get_by_pub_key : Includers → Bytes → Option Includer
unfolding find_includer
get_by_pub_key incl pub_k = find_includer incl.includers pub_k

-- The loop of `updateTotalStake`; `none` is its panic.
pub add_stakes : ℤ → List Includer → Option ℤ
add_stakes sum [] = some sum
add_stakes sum (v ∷ vs) =
    let sum' = safe_add_clip sum v.stake in
    let rest = add_stakes sum' vs in if ltb_ℤ max_stake sum' then none else rest

pub update_total_stake : Includers → Option Includers
unfolding add_stakes
update_total_stake incl = elim (add_stakes (pos 0) incl.includers) [
  | none ↦ none
  | some sum ↦ some (record incl { total_stake = sum })
]

-- `TotalStake` fills the cached total when it is 0.
pub total_stake_of : Includers → Option (ℤ × Includers)
unfolding update_total_stake
total_stake_of incl =
    if leb_ℤ incl.total_stake (pos 0) && leb_ℤ (pos 0) incl.total_stake
    then elim (update_total_stake incl) [
      | none ↦ none
      | some incl' ↦ some (incl'.total_stake, incl')
    ]
    else some (incl.total_stake, incl)

pub record Certificate : Type 0 where
  pub msg : Message
  pub signatures : List Signature
  pub active_stake : ℤ
  pub completed : Bool

pub record Quorum : Type 0 where
  pub includers : Includers
  pub certificates : Map Bytes Certificate
  pub active_stake : ℤ

-- The errors that `Add` and `addSignature` return.
pub data Error : Type 0 where
  signer_unknown certificate_exists signature_duplicate : Error

unfoldable pub new_quorum : Includers → Quorum
new_quorum incl = record { includers = incl; certificates = []; active_stake = pos 0 }

unfoldable pub new_certificate : Message → Certificate
new_certificate msg = record { msg = msg; signatures = []; active_stake = pos 0; completed = false }

-- `Quorum.Add`
unfoldable pub add : Message → Quorum → Result Error (Unit {0}) × Quorum
unfolding get_by_pub_key new_certificate lookup insert
add msg q = elim (get_by_pub_key q.includers msg.id.signer) [
  | none ↦ (err signer_unknown, q)
  | some _ ↦ elim (lookup msg.id.string q.certificates) [
    | some _ ↦ (err certificate_exists, q)
    | none ↦ (
      ok tt,
      record q { certificates = insert msg.id.string (new_certificate msg) q.certificates },
    )
  ]
]

-- `Quorum.Get`
unfoldable pub get : MessageId → Quorum → Option Certificate
unfolding lookup
get id q = lookup id.string q.certificates

-- `Quorum.Delete`
unfoldable pub delete_certificate : MessageId → Quorum → Bool × Quorum
unfolding lookup delete
delete_certificate id q = elim (lookup id.string q.certificates) [
  | none ↦ (false, q)
  | some _ ↦ (true, record q { certificates = delete id.string q.certificates })
]

completed_of : Map Bytes Certificate → List Certificate
completed_of [] = []
completed_of ((_, comm) ∷ m) =
    let rest = completed_of m in if comm.completed then comm ∷ rest else rest

-- `Quorum.List`; Go visits the map in any order, here it is the list's.
pub list : Quorum → List Certificate
unfolding completed_of
list q = completed_of q.certificates

-- `stakeRequired`
pub stake_required : Includers → Option (ℤ × Includers)
unfolding total_stake_of mul64 div64 add64
stake_required incl = elim (total_stake_of incl) [
  | none ↦ none
  | some (total, incl') ↦ some (add64 (div64 (mul64 total 2) 3) (pos 1), incl')
]

-- `Quorum.Finalize`; it returns no error.
pub finalize : Quorum → Option (Bool × Quorum)
unfolding stake_required
finalize q = elim (stake_required q.includers) [
  | none ↦ none
  | some (required, incl) ↦ some (leb_ℤ required q.active_stake, record q { includers = incl })
]

-- The loop of `addSignature` that looks for a signature of the same signer.
pub has_signer : Bytes → List Signature → Bool
has_signer k [] = false
has_signer k (s ∷ ss) = if same s.signer k then true else has_signer k ss

-- The end of `addSignature`: the certificate is complete, so the stake of its block's signer counts.
count_certificate : Certificate → Quorum → Option (Result Error Bool × Certificate × Quorum)
unfolding get_by_pub_key
count_certificate cert q = elim (get_by_pub_key q.includers cert.msg.id.signer) [
  | none ↦ none
  | some includer ↦
      some (ok true, cert, record q { active_stake = safe_add_clip q.active_stake includer.stake })
]

-- The middle of `addSignature`: is the certificate complete now?
complete : Certificate → Quorum → Option (Result Error Bool × Certificate × Quorum)
unfolding stake_required count_certificate
complete cert q = elim (stake_required q.includers) [
  | none ↦ none
  | some (required, incl) ↦
      let q' = record q { includers = incl } in
      if leb_ℤ required cert.active_stake
      then count_certificate (record cert { completed = true }) q'
      else some (ok false, record cert { completed = false }, q')
]

-- `Quorum.addSignature`
pub add_signature :
    Signature → Certificate → Quorum → Option (Result Error Bool × Certificate × Quorum)
unfolding get_by_pub_key has_signer complete
add_signature s cert q = elim (get_by_pub_key q.includers s.signer) [
  | none ↦ some (err signer_unknown, cert, q)
  | some signer ↦
      if has_signer s.signer cert.signatures
      then some (err signature_duplicate, cert, q)
      else let cert' = record cert {
        signatures = cert.signatures ++ s ∷ [];
        active_stake = safe_add_clip cert.active_stake signer.stake;
      } in
        if cert.completed then some (ok true, cert', q) else complete cert' q
]

-- `certificate.AddSignature` on the certificate that the map holds under `key`: the write goes to
-- the map's certificate, since both are one pointer.
pub sign : Bytes → Signature → Certificate → Quorum → Option (Result Error Bool × Quorum)
unfolding add_signature insert
sign key s cert q = elim (add_signature s cert q) [
  | none ↦ none
  | some (r, cert', q') ↦ some (r, record q' { certificates = insert key cert' q'.certificates })
]
