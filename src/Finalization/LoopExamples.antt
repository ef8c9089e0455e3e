-- ===== src/Finalization/LoopExamples.antt =====
-- The goroutine of a round of one includer comes to be final.
use unison.Base.{◌≡◌, refl, true, none, [], ◌∷◌, All, inl, arith}
use unison.Base.Key.{bytes_key}
use unison.Quorum.{Certificate, Error, Quorum}
use unison.Quorum.Contract.{quorum_certificate}
use unison.Quorum.Examples.{key, signature_of, solo, solo_known, solo-IsValidSet, solo-Distinct}
use unison.Quorum.Proposals.{Proposal}
use unison.Round.{set_error}
use unison.Round.Loop.{Loop, started, taken, submit, take, Reach, here, next}
use unison.Round.Examples.{proposal, proposed, settled, last_signature, becomes_final, solo_adds}
use unison.Finalization.Prompt.{fresh_round}
use unison.Finalization.Settled.{IsBacked, loop-becomes_final}

-- The goroutine of a round of one includer, which takes its block and then its signature.
abbrev from : Loop Quorum Certificate Error
from = started (fresh_round 1 solo)

abbrev sent_block : Loop Quorum Certificate Error
sent_block = record from { channel = proposal 2 ∷ []; accepted = proposal 2 ∷ [] }

abbrev took_block : Loop Quorum Certificate Error
took_block = taken quorum_certificate (proposal 2) [] proposed ((2, set_error none) ∷ []) sent_block

abbrev sent_signature : Loop Quorum Certificate Error
sent_signature = record took_block {
  channel = last_signature ∷ [];
  accepted = proposal 2 ∷ last_signature ∷ [];
}

abbrev took_signature : Loop Quorum Certificate Error
took_signature =
    taken quorum_certificate last_signature [] settled ((4, set_error none) ∷ []) sent_signature

to_settled : Reach quorum_certificate from took_signature
unfolding started
to_settled =
    next
      (next
        (next (next here (submit (proposal 2) sent_block (omega arith) refl)) (
          take (proposal 2) [] proposed ((2, set_error none) ∷ []) took_block refl refl solo_adds
            refl))
        (submit last_signature sent_signature (omega arith) refl))
      (take last_signature [] settled ((4, set_error none) ∷ []) took_signature refl refl
        becomes_final refl)

abbrev pub solo_proposal : Proposal
solo_proposal = record { key = 55 ∷ []; proposer = key 1; signatures = signature_of 1 ∷ [] }

pub solo-IsBacked : All (IsBacked solo.includers) (solo_proposal ∷ [])
solo-IsBacked = (
  record {
    known = λ e. ground (arith, solo_known);
    signers_known = (λ e. ground (arith, solo_known), tt);
    distinct = solo-Distinct;
    enough = ground (arith, solo_known);
  },
  tt,
)

goroutine_finalizes : settled.finalized ≡ true
unfolding started
goroutine_finalizes =
    loop-becomes_final 1 solo solo-IsValidSet took_signature (solo_proposal ∷ []) to_settled
      (tt, tt) (ground (arith, solo_known)) solo-IsBacked
      ((inl ((refl, refl), (inl (refl, refl), tt)), ((λ e. refl), (tt, tt))), tt)
