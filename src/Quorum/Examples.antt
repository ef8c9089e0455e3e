-- ===== src/Quorum/Examples.antt =====
-- Four includers with equal stakes, a certificate and its signatures: runs of the quorum.
use unison.Base.{ℕ, zero, suc, ◌≡◌, refl, inl, inr, true, false, some, List, [], ◌∷◌, arith}
use unison.Base.Int.{pos, add64, sub64, mul64, div64, wrap64}
use unison.Base.Key.{Bytes, bytes_key, bytes_discrete}
use unison.Base.Map.{lookup, insert}
use unison.Base.Result.{ok}
use unison.Messages.{Signature, MessageId, Message, equals}
use unison.Quorum.{
  Includer, Includers, Certificate, Quorum, safe_add_clip, find_includer, total_stake_of,
  stake_required, new_quorum, new_certificate, add, get, list, finalize, has_signer, add_signature,
  sign,
}
use unison.Quorum.Stake.{Distinct}
use unison.Quorum.Total.{IsValidSet, filled}
use unison.Quorum.Signing.{IsValidCert}
use unison.Quorum.Invariant.{IsValid}

-- A key of 32 bytes.
abbrev pub fill : ℕ → ℕ → Bytes
fill zero b = []
fill (suc n) b = b ∷ fill n b

abbrev pub key : ℕ → Bytes
key = fill 32

abbrev pub member : ℕ → Includer
member b = record { pub_key = key b; stake = pos 10 }

abbrev pub members : Includers
members = record { includers = member 1 ∷ member 2 ∷ member 3 ∷ member 4 ∷ []; total_stake = pos 0 }

abbrev pub block_id : MessageId
block_id = record { round = 1; signer = key 1; hash = 7 ∷ []; string = 55 ∷ [] }

abbrev pub block : Message
block = record { id = block_id; payload = 9 ∷ [] }

abbrev pub signature_of : ℕ → Signature
signature_of b = record { body = b ∷ []; signer = key b }

abbrev pub fresh : Certificate
fresh = record { msg = block; signatures = []; active_stake = pos 0; completed = false }

abbrev started : Quorum
started = record { includers = members; certificates = (55 ∷ [], fresh) ∷ []; active_stake = pos 0 }

-- A certificate one signature short of completion, in its quorum.
abbrev pub almost : Certificate
almost = record {
  msg = block;
  signatures = signature_of 1 ∷ signature_of 2 ∷ [];
  active_stake = pos 20;
  completed = false;
}

abbrev pub nearly : Quorum
nearly = record started { certificates = (55 ∷ [], almost) ∷ [] }

abbrev whole : Certificate
whole = record {
  msg = block;
  signatures = signature_of 1 ∷ signature_of 2 ∷ signature_of 3 ∷ [];
  active_stake = pos 30;
  completed = true;
}

abbrev pub final : Quorum
final = record {
  includers = filled members;
  certificates = (55 ∷ [], whole) ∷ [];
  active_stake = pos 10;
}

pub members-IsValidSet : IsValidSet members
members-IsValidSet = record { stakes = omega arith; bounded = omega arith; cached = inl refl }

filled-members-IsValidSet : IsValidSet (filled members)
filled-members-IsValidSet = record {
  stakes = omega arith;
  bounded = omega arith;
  cached = inr (refl, omega arith);
}

started-IsValid : IsValid 0 started
unfolding find_includer bytes_discrete equals lookup
started-IsValid = record {
  set = members-IsValidSet;
  entries = (
    (refl, record { proposed = λ e. cc; distinct = tt; known = tt; staked = refl; decided = refl }),
    tt,
  );
  unique = (refl, tt);
  counted = refl;
}

pub almost-IsValidCert : IsValidCert members.includers almost
unfolding find_includer bytes_discrete equals has_signer
almost-IsValidCert = record {
  proposed = λ e. cc;
  distinct = (refl, (refl, tt));
  known = (λ e. cc, (λ e. cc, tt));
  staked = refl;
  decided = refl;
}

pub nearly-IsValid : IsValid 0 nearly
unfolding lookup
nearly-IsValid = record {
  set = members-IsValidSet;
  entries = ((refl, almost-IsValidCert), tt);
  unique = (refl, tt);
  counted = refl;
}

pub final-IsValid : IsValid 0 final
unfolding find_includer bytes_discrete equals has_signer lookup
final-IsValid = record {
  set = filled-members-IsValidSet;
  entries = (
    (
      refl,
      record {
        proposed = λ e. cc;
        distinct = (refl, (refl, (refl, tt)));
        known = (λ e. cc, (λ e. cc, (λ e. cc, tt)));
        staked = refl;
        decided = refl;
      },
    ),
    tt,
  );
  unique = (refl, tt);
  counted = refl;
}

add_block : add block (new_quorum members) ≡ (ok tt, started)
unfolding add new_quorum new_certificate bytes_discrete equals
add_block = refl

third_signature : sign (55 ∷ []) (signature_of 3) almost nearly ≡ some (ok true, final)
unfolding sign add_signature safe_add_clip stake_required insert bytes_discrete equals add64 sub64
    mul64 div64 wrap64
third_signature = refl

listed : list final ≡ whole ∷ []
unfolding list
listed = refl

get_final : get block_id final ≡ some whole
unfolding get bytes_discrete
get_final = refl

pub nearly_holds : lookup (55 ∷ []) nearly.certificates ≡ some almost
unfolding lookup bytes_discrete
nearly_holds = refl

pub known_third : find_includer members.includers (key 3) ≡ some (member 3)
unfolding find_includer bytes_discrete equals
known_third = refl

pub known_first : find_includer members.includers (key 1) ≡ some (member 1)
unfolding find_includer bytes_discrete equals
known_first = refl

pub known_second : find_includer members.includers (key 2) ≡ some (member 2)
unfolding find_includer bytes_discrete equals
known_second = refl

-- Signatures of three of the four.
abbrev pub three : List Signature
three = signature_of 1 ∷ signature_of 2 ∷ signature_of 3 ∷ []

pub three-Distinct : Distinct three
unfolding has_signer bytes_discrete
three-Distinct = (refl, (refl, (refl, tt)))

pub third_is_new : has_signer (key 3) almost.signatures ≡ false
unfolding has_signer bytes_discrete
third_is_new = refl

-- One includer, whose signature completes the certificate and makes the quorum final.
abbrev pub solo : Includers
solo = record { includers = member 1 ∷ []; total_stake = pos 10 }

pub solo-IsValidSet : IsValidSet solo
solo-IsValidSet = record {
  stakes = omega arith;
  bounded = omega arith;
  cached = inr (refl, omega arith);
}

pub solo_known : find_includer solo.includers (key 1) ≡ some (member 1)
unfolding find_includer bytes_discrete equals
solo_known = refl

pub solo-Distinct : Distinct (signature_of 1 ∷ [])
unfolding has_signer
solo-Distinct = (refl, tt)

abbrev pub solo_proposed : Quorum
solo_proposed = record {
  includers = solo;
  certificates = (55 ∷ [], fresh) ∷ [];
  active_stake = pos 0;
}

abbrev pub solo_whole : Certificate
solo_whole = record {
  msg = block;
  signatures = signature_of 1 ∷ [];
  active_stake = pos 10;
  completed = true;
}

abbrev pub solo_final : Quorum
solo_final = record {
  includers = solo;
  certificates = (55 ∷ [], solo_whole) ∷ [];
  active_stake = pos 10;
}

pub solo_listed : list solo_final ≡ solo_whole ∷ []
unfolding list
solo_listed = refl

pub solo_final-IsValid : IsValid 0 solo_final
unfolding find_includer bytes_discrete equals has_signer lookup
solo_final-IsValid = record {
  set = solo-IsValidSet;
  entries = (
    (
      refl,
      record {
        proposed = λ e. cc;
        distinct = (refl, tt);
        known = (λ e. cc, tt);
        staked = refl;
        decided = refl;
      },
    ),
    tt,
  );
  unique = (refl, tt);
  counted = refl;
}

pub solo_get : get block_id solo_proposed ≡ some fresh
unfolding get bytes_discrete
solo_get = refl

pub solo_signed : sign (55 ∷ []) (signature_of 1) fresh solo_proposed ≡ some (ok true, solo_final)
unfolding sign add_signature safe_add_clip stake_required total_stake_of insert bytes_discrete
    equals add64 sub64 mul64 div64 wrap64
solo_signed = refl

pub solo_is_final : finalize solo_final ≡ some (true, solo_final)
unfolding finalize stake_required total_stake_of wrap64
solo_is_final = refl
