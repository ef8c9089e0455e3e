-- ===== src/Finalization/OrderExamples.antt =====
-- Two nodes that took two signatures in different orders.
use unison.Base.{◌≡◌, [], ◌∷◌, List}
use unison.Base.Key.{Bytes, bytes_key, ◌≟◌}
use unison.Base.Map.{lookup}
use mathlib.Core.Logic.{if_pos, if_neg}
use unison.Messages.{Signature}
use unison.Quorum.Agreement.{Matches}
use unison.Quorum.Examples.{members, members-IsValidSet, signature_of}
use unison.Quorum.OrderExamples.{quorum_with, same_signers}
use unison.Round.OrderExamples.{after, signature_op, all_done, one_two, two_one}
use unison.Round.Examples.{proposal}
use unison.Finalization.Convergence.{same_signers-same_final}

abbrev forth : List Signature
forth = signature_of 1 ∷ signature_of 2 ∷ []

abbrev back : List Signature
back = signature_of 2 ∷ signature_of 1 ∷ []

matches :
    (k : Bytes)
    → Matches (lookup k (quorum_with forth).certificates) (lookup k (quorum_with back).certificates)
unfolding lookup
matches k = elim ((55 ∷ []) ≟ k) [
  | yes e ↦ rw (if_pos _ e, if_pos _ e) same_signers
  | no n ↦ rw (if_neg _ n, if_neg _ n) tt
]

same_signers-same_final_example : (after forth).finalized ≡ (after back).finalized
same_signers-same_final_example =
    same_signers-same_final 1 members members-IsValidSet
      (proposal 2 ∷ signature_op 3 1 ∷ signature_op 4 2 ∷ [])
      (proposal 2 ∷ signature_op 3 2 ∷ signature_op 4 1 ∷ []) (after forth) (after back) all_done
      all_done (tt, (tt, (tt, tt))) (tt, (tt, (tt, tt))) one_two two_one matches
