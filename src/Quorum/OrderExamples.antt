-- ===== src/Quorum/OrderExamples.antt =====
-- Two signatures on a certificate, in either order.
use unison.Base.{◌*◌, ◌≡◌, refl, false, some, List, [], ◌∷◌, length, arith}
use unison.Base.Int.{pos, add64, sub64, mul64, div64, wrap64}
use unison.Base.Key.{bytes_key, bytes_discrete}
use unison.Base.Map.{insert}
use unison.Base.Result.{ok}
use unison.Messages.{Signature, equals}
use unison.Quorum.{
  Certificate, Quorum, get, has_signer, stake_required, total_stake_of, safe_add_clip,
  add_signature, sign,
}
use unison.Quorum.Total.{filled}
use unison.Quorum.Agreement.{SameSigners}
use unison.Quorum.Examples.{members, block, block_id, fresh, signature_of}

-- The block in a new quorum, with what is on it, none of it complete.
abbrev pub unsigned : Quorum
unsigned = record {
  includers = members;
  certificates = (55 ∷ [], fresh) ∷ [];
  active_stake = pos 0;
}

abbrev pub cert_with : List Signature → Certificate
cert_with ss = record {
  msg = block;
  signatures = ss;
  active_stake = pos (10 * length ss);
  completed = false;
}

abbrev pub quorum_with : List Signature → Quorum
quorum_with ss = record {
  includers = filled members;
  certificates = (55 ∷ [], cert_with ss) ∷ [];
  active_stake = pos 0;
}

pub unsigned_get : get block_id unsigned ≡ some fresh
unfolding get bytes_discrete
unsigned_get = refl

pub with_get : (ss : List Signature) → get block_id (quorum_with ss) ≡ some (cert_with ss)
unfolding get bytes_discrete
with_get ss = refl

pub signs_first_one :
    sign (55 ∷ []) (signature_of 1) fresh unsigned
    ≡ some (ok false, quorum_with (signature_of 1 ∷ []))
unfolding sign add_signature safe_add_clip stake_required total_stake_of insert bytes_discrete
    equals add64 sub64 mul64 div64 wrap64
signs_first_one = refl

pub signs_first_two :
    sign (55 ∷ []) (signature_of 2) fresh unsigned
    ≡ some (ok false, quorum_with (signature_of 2 ∷ []))
unfolding sign add_signature safe_add_clip stake_required total_stake_of insert bytes_discrete
    equals add64 sub64 mul64 div64 wrap64
signs_first_two = refl

pub signs_then_two :
    sign
      (55 ∷ [])
      (signature_of 2)
      (cert_with (signature_of 1 ∷ []))
      (quorum_with (signature_of 1 ∷ []))
    ≡ some (ok false, quorum_with (signature_of 1 ∷ signature_of 2 ∷ []))
unfolding sign add_signature safe_add_clip stake_required total_stake_of insert bytes_discrete
    equals add64 sub64 mul64 div64 wrap64 has_signer
signs_then_two = refl

pub signs_then_one :
    sign
      (55 ∷ [])
      (signature_of 1)
      (cert_with (signature_of 2 ∷ []))
      (quorum_with (signature_of 2 ∷ []))
    ≡ some (ok false, quorum_with (signature_of 2 ∷ signature_of 1 ∷ []))
unfolding sign add_signature safe_add_clip stake_required total_stake_of insert bytes_discrete
    equals add64 sub64 mul64 div64 wrap64 has_signer
signs_then_one = refl

-- The signers are the same.
pub same_signers :
    SameSigners
      (cert_with (signature_of 1 ∷ signature_of 2 ∷ []))
      (cert_with (signature_of 2 ∷ signature_of 1 ∷ []))
unfolding has_signer
same_signers = (refl, λ j. ground arith)
