-- ===== src/Finalization/Examples.antt =====
-- Three blocks that three of four includers sign: by three proposers, and by one.
use unison.Base.{
  ℕ, ◌+◌, ◌*◌, length, ◌≤◌, ◌≡◌, ◌≢◌, refl, true, none, some, List, [], ◌∷◌, All, leb, inl, inr,
  arith,
}
use unison.Base.Key.{bytes_key}
use unison.Messages.{MessageId}
use unison.Quorum.{Certificate, Error, Quorum, find_includer}
use unison.Quorum.Total.{threshold}
use unison.Quorum.Stake.{weight}
use unison.Quorum.Invariant.{IsValid, completed_stake}
use unison.Quorum.Contract.{quorum_certificate}
use unison.Quorum.Examples.{
  members, members-IsValidSet, key, signature_of, three, three-Distinct, known_first, known_second,
  known_third,
}
use unison.Quorum.Proposals.{Proposal, ByDifferent, DistinctKeys, proposed_stake}
use unison.Round.{Round, StateOp, add_op, get_op, add_sign_op, Answers, run}
use unison.Round.Run.{requested}
use unison.Finalization.Deleted.{deleted_by}
use unison.Finalization.Prompt.{fresh_round, run-final_iff}
use unison.Finalization.Arrival.{Spares, Supports}
use unison.Finalization.Settled.{IsBacked, Carries, run-becomes_final, sole_proposer_finalizes}

three_known : All (λ s. find_includer members.includers s.signer ≢ none) three
three_known = (
  λ e. ground (arith, known_first),
  (λ e. ground (arith, known_second), (λ e. ground (arith, known_third), tt)),
)

module _ (by : ℕ → ℕ) where
  -- A block of the member `by b`, under a string of its own.
  abbrev id_of : ℕ → MessageId
  id_of b = record { round = 1; signer = key (by b); hash = b ∷ []; string = b ∷ [] }

  abbrev adds : ℕ → ℕ → StateOp
  adds op b = record { pointer = op; kind = add_op (record { id = id_of b; payload = 9 ∷ [] }) }

  abbrev signs : ℕ → ℕ → ℕ → StateOp
  signs op b v = record { pointer = op; kind = add_sign_op (id_of b) (signature_of v) }

  abbrev asks : ℕ → ℕ → StateOp
  asks op b = record { pointer = op; kind = get_op (id_of b) }

  -- A request for the third block comes first, and the signatures in no order.
  abbrev sequence : List StateOp
  sequence =
      asks 1 3
      ∷ adds 2 1
      ∷ adds 3 2
      ∷ signs 4 2 1
      ∷ signs 5 1 1
      ∷ signs 6 2 3
      ∷ adds 7 3
      ∷ signs 8 3 2
      ∷ signs 9 1 3
      ∷ signs 10 3 3
      ∷ signs 11 2 2
      ∷ signs 12 1 2
      ∷ signs 13 3 1
      ∷ []

  abbrev proposal_of : ℕ → Proposal
  proposal_of b = record { key = b ∷ []; proposer = key (by b); signatures = three }

  abbrev proposals : List Proposal
  proposals = proposal_of 1 ∷ proposal_of 2 ∷ proposal_of 3 ∷ []

  once : (a : ℕ) → requested a sequence ≤ 1
  once a = ground arith

  proposal_of-IsBacked :
      (b : ℕ)
      → find_includer members.includers (key (by b)) ≢ none
      → IsBacked members.includers (proposal_of b)
  proposal_of-IsBacked b known = record {
    known = known;
    signers_known = three_known;
    distinct = three-Distinct;
    enough = ground (arith, known_first, known_second, known_third);
  }

  first-Supports : Supports (proposal_of 1) sequence
  first-Supports = inr (
      inl (
        (refl, refl),
        (
          inr (inr (inl (refl, refl))),
          (
            inr (inr (inr (inr (inr (inr (inr (inr (inr (inl (refl, refl)))))))))),
            (inr (inr (inr (inr (inr (inr (inl (refl, refl))))))), tt),
          ),
        ),
      ))

  second-Supports : Supports (proposal_of 2) sequence
  second-Supports = inr (
      inr (
        inl (
          (refl, refl),
          (
            inl (refl, refl),
            (
              inr (inr (inr (inr (inr (inr (inr (inl (refl, refl)))))))),
              (inr (inr (inl (refl, refl))), tt),
            ),
          ),
        )))

  third-Supports : Supports (proposal_of 3) sequence
  third-Supports = inr (
      inr (
        inr (
          inr (
            inr (
              inr (
                inl (
                  (refl, refl),
                  (
                    inr (inr (inr (inr (inr (inl (refl, refl)))))),
                    (inl (refl, refl), (inr (inr (inl (refl, refl))), tt)),
                  ),
                )))))))

  first-Spares : All (λ (o : StateOp). Spares (proposal_of 1) o.kind) sequence
  first-Spares = (
    tt,
    (λ e. refl, (λ e. cc, (tt, (tt, (tt, (λ e. cc, (tt, (tt, (tt, (tt, (tt, (tt, tt)))))))))))),
  )

  second-Spares : All (λ (o : StateOp). Spares (proposal_of 2) o.kind) sequence
  second-Spares = (
    tt,
    (λ e. cc, (λ e. refl, (tt, (tt, (tt, (λ e. cc, (tt, (tt, (tt, (tt, (tt, (tt, tt)))))))))))),
  )

  third-Spares : All (λ (o : StateOp). Spares (proposal_of 3) o.kind) sequence
  third-Spares = (
    tt,
    (λ e. cc, (λ e. cc, (tt, (tt, (tt, (λ e. refl, (tt, (tt, (tt, (tt, (tt, (tt, tt)))))))))))),
  )

  carried : All (Carries sequence) proposals
  carried = (
    (first-Supports, first-Spares),
    ((second-Supports, second-Spares), ((third-Supports, third-Spares), tt)),
  )

abbrev each : ℕ → ℕ
each b = b

abbrev only_first : ℕ → ℕ
only_first b = 1

different : ByDifferent (proposals each)
different = ((λ e. cc, (λ e. cc, tt)), ((λ e. cc, tt), (tt, tt)))

keys_differ : DistinctKeys (proposals only_first)
keys_differ = ((λ e. cc, (λ e. cc, tt)), ((λ e. cc, tt), (tt, tt)))

each-IsBacked : All (IsBacked members.includers) (proposals each)
each-IsBacked = (
  proposal_of-IsBacked each 1 three_known.0,
  (
    proposal_of-IsBacked each 2 three_known.1.0,
    (proposal_of-IsBacked each 3 three_known.1.1.0, tt),
  ),
)

sole-IsBacked : All (IsBacked members.includers) (proposals only_first)
sole-IsBacked = (
  proposal_of-IsBacked only_first 1 three_known.0,
  (
    proposal_of-IsBacked only_first 2 three_known.0,
    (proposal_of-IsBacked only_first 3 three_known.0, tt),
  ),
)

proposed_enough : threshold members ≤ proposed_stake members.includers (proposals each)
proposed_enough = ground (arith, known_first, known_second, known_third)

sole_enough : threshold members ≤ length (proposals only_first) * weight members.includers (key 1)
sole_enough = ground (arith, known_first)

run-becomes_final_example :
    (r : Round Quorum) × (ans : Answers Certificate Error) × (run quorum_certificate
        (sequence each)
        (fresh_round 1 members)
      ≡ some (r, ans))
    × (r.finalized ≡ true)
run-becomes_final_example =
    run-becomes_final 1 members members-IsValidSet (sequence each) (proposals each) (once each)
      different proposed_enough each-IsBacked (carried each)

sole_proposer_finalizes_example :
    (r : Round Quorum) × (ans : Answers Certificate Error) × (run quorum_certificate
        (sequence only_first)
        (fresh_round 1 members)
      ≡ some (r, ans))
    × (r.finalized ≡ true)
sole_proposer_finalizes_example =
    sole_proposer_finalizes 1 members members-IsValidSet (sequence only_first) (key 1)
      (proposals only_first) (once only_first) (refl, (refl, (refl, tt))) keys_differ sole_enough
      sole-IsBacked (carried only_first)

run-final_iff_example :
    (r : Round Quorum) × (ans : Answers Certificate Error) × (run quorum_certificate
        (sequence each)
        (fresh_round 1 members)
      ≡ some (r, ans))
    × IsValid (deleted_by (sequence each) (fresh_round 1 members)) r.quorum
    × (r.finalized
        ≡ leb
            (threshold members)
            (completed_stake r.quorum + deleted_by (sequence each) (fresh_round 1 members)))
run-final_iff_example = run-final_iff 1 members members-IsValidSet (sequence each) (once each)
