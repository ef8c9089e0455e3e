-- ===== src/Round/Termination.antt =====
-- The end of a round's goroutine: how many steps it can take, and that `Stop` brings it to its end.
use unison.Base.{
  ℕ, suc, ◌+◌, ◌≤◌, ◌≡◌, ◌≢◌, ◌⊎◌, refl, sym, ap, ◌∙◌, Bool, true, false, List, [], ◌∷◌, ◌++◌,
  length, length-append, arith, inl, inr,
}
use mathlib.Core.List.{append-nil, append_assoc}
use unison.Certificates.{QuorumCertificate, Contract}
use unison.Round.{Round, StateOp}
use unison.Round.Order.{pending, IsOrderly}
use unison.Round.Settle.{do_op-Settles}
use unison.Round.Run.{requested, unit_self, run-Runs}
use unison.Round.Loop.{
  Mode, looping, draining, stopped, Loop, started, taken, submit, take, stop, leave, drain, finish,
  Reach, here, next, IsServed, started-IsServed_always,
}

mode_cases : (m : Mode) → (m ≡ looping) ⊎ (m ≡ draining) ⊎ (m ≡ stopped)
mode_cases looping = inl refl
mode_cases draining = inr (inl refl)
mode_cases stopped = inr (inr refl)

requested-append :
    (a : ℕ) (xs ys : List StateOp) → requested a (xs ++ ys) ≡ requested a xs + requested a ys
requested-append a [] ys = omega arith
requested-append a (x ∷ xs) ys = omega (arith, requested-append a xs ys)

-- What is left to do for a loop to which nothing more is submitted: the operations in its channel,
-- the closing of `closeCh`, and its way out.
abbrev pub ahead : Mode → ℕ
ahead looping = 2
ahead draining = 1
ahead stopped = 0

abbrev pub unclosed : Bool → ℕ
unclosed true = 0
unclosed false = 1

abbrev pub work : {Q C E : Type 0} → Loop Q C E → ℕ
work s = length s.channel + unclosed s.closing + ahead s.mode

module _ {Q C E : Type 0} (i : QuorumCertificate Q C E) where
  -- The submissions on a path, and its other steps.
  abbrev pub submissions : {s t : Loop Q C E} → Reach i s t → ℕ
  submissions here = 0
  submissions (next p (submit op t room e)) = suc (submissions p)
  submissions (next p (take op rest r' ans t m first d e)) = submissions p
  submissions (next p (stop t still e)) = submissions p
  submissions (next p (leave t m closed e)) = submissions p
  submissions (next p (drain op rest r' ans t m first d e)) = submissions p
  submissions (next p (finish t m none_left e)) = submissions p

  abbrev pub own_steps : {s t : Loop Q C E} → Reach i s t → ℕ
  own_steps here = 0
  own_steps (next p (submit op t room e)) = own_steps p
  own_steps (next p (take op rest r' ans t m first d e)) = suc (own_steps p)
  own_steps (next p (stop t still e)) = suc (own_steps p)
  own_steps (next p (leave t m closed e)) = suc (own_steps p)
  own_steps (next p (drain op rest r' ans t m first d e)) = suc (own_steps p)
  own_steps (next p (finish t m none_left e)) = suc (own_steps p)

  -- The loop with `Stop` takes one step for every operation that is submitted, and three more at
  -- most: on every schedule its own steps and the work that is left are the work that there was and
  -- the submissions since.
  pub own_steps-work :
      {s t : Loop Q C E} (p : Reach i s t) → own_steps p + work t ≡ work s + submissions p
  own_steps-work here = omega arith
  own_steps-work {s} (next {t = m} p (submit op t room e)) =
      omega (arith, own_steps-work p, ap work e, length-append m.channel (op ∷ []))
  own_steps-work {s} (next {t = m} p (take op rest r' ans t mode first d e)) =
      omega (arith, own_steps-work p, ap work e, ap length first)
  own_steps-work {s} (next {t = m} p (stop t still e)) =
      omega (arith, own_steps-work p, ap work e, ap unclosed still)
  own_steps-work {s} (next {t = m} p (leave t mode closed e)) =
      omega (arith, own_steps-work p, ap work e, ap ahead mode)
  own_steps-work {s} (next {t = m} p (drain op rest r' ans t mode first d e)) =
      omega (arith, own_steps-work p, ap work e, ap length first)
  own_steps-work {s} (next {t = m} p (finish t mode none_left e)) =
      omega (arith, own_steps-work p, ap work e, ap ahead mode)

  Reach-append : {s t u : Loop Q C E} → Reach i s t → Reach i t u → Reach i s u
  Reach-append p here = p
  Reach-append p (next q st) = next (Reach-append p q) st

  module _ (c : Contract i) where
    -- The loop ends with these operations handled in addition.
    abbrev Ends : Loop Q C E → List StateOp → Type 0
    Ends s ops =
        (t : Loop Q C E) × Reach i s t
        × (t.mode ≡ stopped)
        × (t.accepted ≡ s.accepted)
        × (t.handled ≡ s.handled ++ ops)

    drain-Ends :
        (ops : List StateOp) (s : Loop Q C E)
        → s.mode ≡ draining
        → s.channel ≡ ops
        → IsOrderly i c s.round
        → ((a : ℕ) → pending a s.round + requested a ops ≤ 1)
        → Ends s ops
    drain-Ends [] s m none_left o once =
        (_, next here (finish _ m none_left refl), refl, refl, sym (append-nil s.handled))
    drain-Ends (op ∷ rest) s m first o once =
        let (r', ans, e, o', h) =
          do_op-Settles i c op s.round o (omega (arith, once op.pointer, unit_self op.pointer)) in
        let (t, path, over, kept, handled) =
          drain-Ends rest (taken i op rest r' ans s) m refl o' (λ a. omega (arith, h a, once a)) in
        (
          t,
          Reach-append (next here (drain op rest r' ans _ m first e refl)) path,
          over,
          kept,
          handled ∙ append_assoc s.handled (op ∷ []) rest,
        )

    -- The round after what was handled is orderly, and what is in the channel can be carried out.
    served-IsOrderly :
        (r : Round Q) (s : Loop Q C E)
        → IsOrderly i c r
        → IsServed i r s
        → ((a : ℕ) → pending a r + requested a s.accepted ≤ 1)
        → IsOrderly i c s.round × ((a : ℕ) → pending a s.round + requested a s.channel ≤ 1)
    served-IsOrderly r s o v once =
        let total = λ (a : ℕ). (requested-append a s.handled s.channel) in
        let whole = λ (a : ℕ). (ap (requested a) v.in_order) in
        let (r', ans, e, o', h) =
          run-Runs i c s.handled r o (λ a. omega (arith, once a, total a, whole a)) in
        let same_round : r' ≡ s.round = cc (v.served) in
        rw (← same_round) (o', λ a. omega (arith, h a, once a, total a, whole a))

    -- After `Stop` a round reaches its end with every operation that was accepted handled: from any
    -- state that its goroutine, callers and `Stop` have brought it to, with `closeCh` closed, it can go
    -- on without a panic until `closedCh` is closed, if its quorum keeps its contract and no operation
    -- was submitted twice.
    pub closing_ends :
        (r : Round Q) (s : Loop Q C E)
        → IsOrderly i c r
        → Reach i (started r) s
        → s.closing ≡ true
        → s.mode ≢ stopped
        → ((a : ℕ) → pending a r + requested a s.accepted ≤ 1)
        → (t : Loop Q C E) × Reach i s t
          × (t.mode ≡ stopped)
          × (t.accepted ≡ s.accepted)
          × (t.handled ≡ s.accepted)
    closing_ends r s o p closed up once =
        let v = started-IsServed_always i r s p in
        let (o', once') = served-IsOrderly r s o v once in
        elim (mode_cases s.mode) [
          | inl m ↦
              let (t, path, over, kept, handled) =
                drain-Ends s.channel (record s { mode = draining }) refl refl o' once' in
              (
                t,
                Reach-append (next here (leave _ m closed refl)) path,
                over,
                kept,
                handled ∙ sym v.in_order,
              )
          | inr (inl m) ↦
              let (t, path, over, kept, handled) = drain-Ends s.channel s m refl o' once' in
              (t, path, over, kept, handled ∙ sym v.in_order)
          | inr (inr m) ↦ absurd (up m)
        ]
