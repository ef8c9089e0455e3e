-- ===== src/Chain/ProgressExamples.antt =====
-- A chain with one includer goes on to its next height.
use unison.Base.{◌≡◌, refl, true, some, List, [], ◌∷◌, All, inl, arith}
use unison.Base.Key.{bytes_key, bytes_discrete}
use unison.Messages.{Message}
use unison.MemPool.{list_by_signer, batches_of}
use unison.Quorum.{Certificate}
use unison.Quorum.Examples.{solo, solo-IsValidSet, solo_known}
use unison.Quorum.Proposals.{IsListed}
use unison.Block.Examples.{toy, digest, batch}
use unison.Chain.{finishes, start_round}
use unison.Chain.Broadcasting.{round_broadcast}
use unison.Chain.Examples.{includers, at_start, cleaned, assembled, nothing_to_clean}
use unison.Chain.Examples.{first_message}
use unison.Chain.Progress.{IsSettling, start_round-progresses}
use unison.Finalization.LoopExamples.{solo_proposal, solo-IsBacked}
use unison.Round.{StateOp}
use unison.Round.Examples.{proposal, last_signature}

abbrev ops : Message → List StateOp
ops _ = proposal 2 ∷ last_signature ∷ []

settling : IsSettling solo (ops first_message) (solo_proposal ∷ [])
settling = record {
  once = λ a. ground arith;
  different = (tt, tt);
  enough = ground (arith, solo_known);
  backed = solo-IsBacked;
  carried = ((inl ((refl, refl), (inl (refl, refl), tt)), ((λ e. refl), (tt, tt))), tt);
}

own : list_by_signer (1 ∷ []) cleaned ≡ some (batch ∷ [])
unfolding list_by_signer batches_of bytes_discrete
own = refl

start_round-progresses_example :
    (certs : List Certificate) × (start_round toy digest includers
        (round_broadcast ops (λ _. true))
        (1 ∷ [])
        at_start
        cleaned
      ≡ finishes first_message (record { height = 4; last_certs = certs }) cleaned)
    × All (IsListed certs) (solo_proposal ∷ [])
start_round-progresses_example =
    start_round-progresses ops (λ _. true) toy digest includers (1 ∷ []) at_start cleaned cleaned []
      (batch ∷ []) first_message solo (solo_proposal ∷ []) nothing_to_clean own assembled refl
      solo-IsValidSet settling refl
