-- ===== src/Manager/Lifecycle.antt =====
-- The life of a round number in the manager: waited for, started once, removed.
use unison.Base.{
  ℕ, ◌≤◌, ◌<◌, ◌≡◌, ◌≢◌, refl, true, false, none, some, List, [], ◌∷◌, ◌++◌, All, All-append, arith,
  Option-cases, inl, inr, ite,
}
use unison.Base.Key.{nat_key, ◌≟◌}
use unison.Base.Map.{lookup, lookup-insert, lookup-insert_self, lookup-delete}
use unison.Subs.{waiting, release, subscribe}
use unison.Subs.Laws.{release-waiting, waiting-release}
use unison.Manager.{
  Manager, got, got_waits, send_round, start_round, get_round, cancel_get, remove_round,
}

-- The critical sections of the manager. `removes` is the end of `StopRound`, which runs only for a
-- registered round.
pub data Call (R : Type 0) : Type 0 where
  starts : ℕ → R → Call R
  gets removes : ℕ → Call R
  cancels : (n ref sub : ℕ) → Call R

-- The channels that are answered, by a round or by being closed, with their round numbers.
abbrev pub tag : ℕ → List ℕ → List (ℕ × ℕ)
tag n [] = []
tag n (sub ∷ subs) = (n, sub) ∷ tag n subs

-- No answer is for the number.
abbrev pub NoneOf : ℕ → List (ℕ × ℕ) → Type 0
NoneOf n = All (λ (a : ℕ × ℕ). a.0 ≢ n)

tag-NoneOf : (n m : ℕ) (subs : List ℕ) → m ≢ n → NoneOf n (tag m subs)
tag-NoneOf n m [] h = tt
tag-NoneOf n m (s ∷ subs) h = (h, tag-NoneOf n m subs h)

module _ {R : Type 0} where
  abbrev pub subs_of : List (ℕ × R) → List ℕ
  subs_of [] = []
  subs_of ((sub, _) ∷ rs) = sub ∷ subs_of rs

  pub step : Call R → Manager R → List (ℕ × ℕ) × Manager R
  unfolding lookup
  step (starts n r) rm = let (_, sent, rm') = start_round n r rm in (tag n (subs_of sent), rm')
  step (gets n) rm = ([], (get_round n rm).1)
  step (removes n) rm = elim (lookup n rm.rounds) [
    | none ↦ ([], rm)
    | some _ ↦ let (closed, rm') = remove_round n rm in (tag n closed, rm')
  ]
  step (cancels n ref sub) rm = ([], cancel_get n ref sub rm)

  pub run : List (Call R) → Manager R → List (ℕ × ℕ) × Manager R
  unfolding step
  run [] rm = ([], rm)
  run (call ∷ calls) rm =
      let (now, rm') = step call rm in let (later, rm'') = run calls rm' in (now ++ later, rm'')

  -- The number has been passed, and no round stands under it.
  abbrev pub IsGone : ℕ → Manager R → Type 0
  IsGone n rm = (n ≤ rm.latest_round) × (lookup n rm.rounds ≡ none)

  starts-IsGone :
      (n m : ℕ) (r : R) (rm : Manager R)
      → IsGone n rm
      → let (answers, rm') = step (starts m r) rm in NoneOf n answers × IsGone n rm'
  unfolding step start_round
  starts-IsGone n m r rm g = ground (
    arith,
    tag-NoneOf n m (subs_of (send_round r (release m rm.round_subs).0)),
    lookup-insert m n r rm.rounds,
  )

  removes-IsGone :
      (n m : ℕ) (rm : Manager R)
      → IsGone n rm
      → let (answers, rm') = step (removes m) rm in NoneOf n answers × IsGone n rm'
  unfolding step remove_round
  removes-IsGone n m rm g = elim (Option-cases (lookup m rm.rounds)) [
    | inl e ↦ rw (e, step) (tt, g)
    | inr (r, e) ↦
        rw (e, step)
          (
            tag-NoneOf n m _ (λ same. absurd (ground (arith, same, e, g.1))),
            (g.0, ground (arith, g.1, lookup-delete m n rm.rounds)),
          )
  ]

  step-IsGone :
      (n : ℕ) (call : Call R) (rm : Manager R)
      → IsGone n rm
      → let (answers, rm') = step call rm in NoneOf n answers × IsGone n rm'
  unfolding step
  step-IsGone n (starts m r) rm g = starts-IsGone n m r rm g
  step-IsGone n (removes m) rm g = removes-IsGone n m rm g
  step-IsGone n (gets m) rm g = unfold get_round in ground arith
  step-IsGone n (cancels m ref sub) rm g = unfold cancel_get in (tt, g)

  run-IsGone :
      (n : ℕ) (calls : List (Call R)) (rm : Manager R)
      → IsGone n rm
      → let (answers, rm') = run calls rm in NoneOf n answers × IsGone n rm'
  unfolding run
  run-IsGone n [] rm g = (tt, g)
  run-IsGone n (call ∷ calls) rm g =
      let h = step-IsGone n call rm g in
      let h' = run-IsGone n calls (step call rm).1 h.1 in
      (All-append (λ (a : ℕ × ℕ). a.0 ≢ n) _ _ h.0 h'.0, h'.1)

  -- The round that was started last and has been stopped: `GetRound` of it does not answer
  -- `ErrElapsedRound` but waits, and whatever calls follow, no answer ever comes for that number,
  -- neither a round nor a closed channel.
  pub stopped_round_starves :
      (n : ℕ) (calls : List (Call R)) (rm : Manager R)
      → rm.latest_round ≡ n
      → lookup n rm.rounds ≡ none
      → let (answer, rm') = get_round n rm in
        ((ref : ℕ) × (sub : ℕ) × (answer ≡ got_waits ref sub)) × NoneOf n (run calls rm').0
  unfolding get_round
  stopped_round_starves n calls rm last gone =
      let waits : get_round n rm ≡ (
        got_waits (subscribe n rm.round_subs).0.0 (subscribe n rm.round_subs).0.1,
        record rm { round_subs = (subscribe n rm.round_subs).1 },
      ) =
        ground (arith, last, gone) in
      rw waits ((_, _, refl), (run-IsGone n calls _ (omega (arith, last), gone)).0)

  -- `StartRound` of a number above the latest: everybody who waits for it is sent the round and
  -- nobody waits for it afterwards, `GetRound` finds it, and other numbers are as before.
  pub start_round-serves :
      (n : ℕ) (r : R) (rm : Manager R)
      → rm.latest_round < n
      → let (started, sent, rm') = start_round n r rm in
        (started ≡ true)
        × (sent ≡ send_round r (waiting n rm.round_subs))
        × (rm'.latest_round ≡ n)
        × ((get_round n rm').0 ≡ got r)
        × ((m : ℕ) → lookup m rm'.rounds ≡ ite (n ≟ m) (some r) (lookup m rm.rounds))
        × ((m : ℕ) → waiting m rm'.round_subs ≡ ite (n ≟ m) [] (waiting m rm.round_subs))
  unfolding start_round get_round
  start_round-serves n r rm h = (
    ground arith,
    ground (arith, release-waiting n rm.round_subs),
    ground arith,
    ground (arith, lookup-insert_self n r rm.rounds),
    λ m. ground (arith, lookup-insert n m r rm.rounds),
    λ m. ground (arith, waiting-release n m rm.round_subs),
  )

  step-latest : (call : Call R) (rm : Manager R) → rm.latest_round ≤ (step call rm).1.latest_round
  unfolding step start_round get_round remove_round cancel_get
  step-latest (starts n r) rm = ground arith
  step-latest (gets n) rm = ground arith
  step-latest (removes n) rm = ground arith
  step-latest (cancels n ref sub) rm = omega arith

  run-latest :
      (calls : List (Call R)) (rm : Manager R) → rm.latest_round ≤ (run calls rm).1.latest_round
  unfolding run
  run-latest [] rm = omega arith
  run-latest (call ∷ calls) rm =
      omega (arith, step-latest call rm, run-latest calls (step call rm).1)

  -- A round number is started at most once, and none below it is started after it: whatever calls
  -- come in between, a later `StartRound` of it or of a lower number is refused.
  pub started_once :
      (n m : ℕ) (r r' : R) (calls : List (Call R)) (rm : Manager R)
      → (start_round n r rm).0 ≡ true
      → m ≤ n
      → (start_round m r' (run calls (start_round n r rm).2).1).0 ≡ false
  unfolding start_round
  started_once n m r r' calls rm started below =
      ground (arith, run-latest calls (start_round n r rm).2)
