-- ===== src/Round/Loop.antt =====
-- The goroutine of a round with its channel: `stateLoop`, `execOp` and `Stop` as steps that
-- interleave in any order. `stateOpCh` holds 32 operations; `closeCh` and `closedCh` are closed or
-- not.
use unison.Base.{
  ℕ, ◌≤◌, ◌<◌, ◌≡◌, ◌≢◌, refl, sym, ap, ◌∙◌, Bool, true, false, some, List, [], ◌∷◌, ◌++◌, length,
  length-append, arith, Option-cases, inl, inr,
}
use mathlib.Core.List.{append-nil, append_assoc}
use unison.Certificates.{QuorumCertificate}
use unison.Round.{Round, StateOp, Answers, do_op, run}

-- `stateOperationsChannelSize`
abbrev pub channel_size : ℕ
channel_size = 32

-- Where `stateLoop` is: in its loop, in the deferred drain, or past `close(r.closedCh)`.
pub data Mode : Type 0 where
  looping draining stopped : Mode

-- `closing` says that `closeCh` is closed, and `stopped` that `closedCh` is. `accepted` and
-- `handled` record what was sent to the channel and what the loop took from it, in order.
pub record Loop (Q C E : Type 0) : Type 0 where
  pub round : Round Q
  pub answers : Answers C E
  pub channel : List StateOp
  pub mode : Mode
  pub closing : Bool
  pub accepted : List StateOp
  pub handled : List StateOp

unfoldable pub started : {Q C E : Type 0} → Round Q → Loop Q C E
started r = record {
  round = r;
  answers = [];
  channel = [];
  mode = looping;
  closing = false;
  accepted = [];
  handled = [];
}

module _ {Q C E : Type 0} (i : QuorumCertificate Q C E) where
  -- One operation taken from the channel and carried out.
  abbrev pub taken : StateOp → List StateOp → Round Q → Answers C E → Loop Q C E → Loop Q C E
  taken op rest r' ans s = record s {
    round = r';
    answers = s.answers ++ ans;
    channel = rest;
    handled = s.handled ++ op ∷ [];
  }

  -- `submit` is the first `select` of `execOp`, which may still choose the channel when `closedCh`
  -- is closed; `take` and `leave` are the loop, `drain` and `finish` its deferred function; `stop`
  -- is `close(r.closeCh)` in `Stop`, alone: the check before it takes no step here.
  pub data Step (s : Loop Q C E) : Loop Q C E → Type 0 where
    submit :
        (op : StateOp) (t : Loop Q C E)
        → length s.channel < channel_size
        → t ≡ record s { channel = s.channel ++ op ∷ []; accepted = s.accepted ++ op ∷ [] }
        → Step s t
    take :
        (op : StateOp) (rest : List StateOp) (r' : Round Q) (ans : Answers C E) (t : Loop Q C E)
        → s.mode ≡ looping
        → s.channel ≡ op ∷ rest
        → do_op i op s.round ≡ some (r', ans)
        → t ≡ taken op rest r' ans s
        → Step s t
    stop : (t : Loop Q C E) → s.closing ≡ false → t ≡ record s { closing = true } → Step s t
    leave :
        (t : Loop Q C E)
        → s.mode ≡ looping
        → s.closing ≡ true
        → t ≡ record s { mode = draining }
        → Step s t
    drain :
        (op : StateOp) (rest : List StateOp) (r' : Round Q) (ans : Answers C E) (t : Loop Q C E)
        → s.mode ≡ draining
        → s.channel ≡ op ∷ rest
        → do_op i op s.round ≡ some (r', ans)
        → t ≡ taken op rest r' ans s
        → Step s t
    finish :
        (t : Loop Q C E)
        → s.mode ≡ draining
        → s.channel ≡ []
        → t ≡ record s { mode = stopped }
        → Step s t

  pub data Reach (s : Loop Q C E) : Loop Q C E → Type 0 where
    here : Reach s s
    next : {t u : Loop Q C E} → Reach s t → Step t u → Reach s u

  -- What was accepted was handled in order or is still in the channel, the round and its answers
  -- are those of a run over what was handled, and the loop stops only after `Stop`.
  pub record IsServed (r : Round Q) (s : Loop Q C E) : Type 0 where
    pub in_order : s.accepted ≡ s.handled ++ s.channel
    pub served : run i s.handled r ≡ some (s.round, s.answers)
    pub bounded : length s.channel ≤ channel_size
    pub asked : s.mode ≢ looping → s.closing ≡ true

  pub run-append :
      (ops : List StateOp) (op : StateOp) (r r' r'' : Round Q) (ans now : Answers C E)
      → run i ops r ≡ some (r', ans)
      → do_op i op r' ≡ some (r'', now)
      → run i (ops ++ op ∷ []) r ≡ some (r'', ans ++ now)
  unfolding run
  run-append [] op r r' r'' ans now e f =
      let same_round : r ≡ r' = cc in
      let no_answers : [] ≡ ans = cc in ground (arith, same_round, no_answers, append-nil now)
  run-append (x ∷ ops) op r r' r'' ans now e f = elim (Option-cases (do_op i x r)) [
    | inl n ↦ absurd (ground (arith, n))
    | inr ((r₁, a₁), g) ↦ elim (Option-cases (run i ops r₁)) [
      | inl n ↦ absurd (ground (arith, n, g))
      | inr ((r₂, a₂), h) ↦
          let same_round : r₂ ≡ r' = ground (arith, g, h) in
          let same_answers : a₁ ++ a₂ ≡ ans = ground (arith, g, h) in
          ground (
            arith,
            g,
            run-append ops op r₁ r' r'' a₂ now (rw (← same_round) h) f,
            append_assoc a₁ a₂ now,
            same_answers,
          )
    ]
  ]

  taken-IsServed :
      (r : Round Q) (s : Loop Q C E) (op : StateOp) (rest : List StateOp) (r' : Round Q)
      (ans : Answers C E)
      → IsServed r s
      → s.channel ≡ op ∷ rest
      → do_op i op s.round ≡ some (r', ans)
      → IsServed r (taken op rest r' ans s)
  taken-IsServed r s op rest r' ans v first e = record {
    in_order = v.in_order ∙ ap (◌++◌ s.handled) first ∙ sym (append_assoc s.handled (op ∷ []) rest);
    served = run-append s.handled op r s.round r' s.answers ans v.served e;
    bounded = omega (arith, v.bounded, ap length first);
    asked = v.asked;
  }

  Step-IsServed : (r : Round Q) {s t : Loop Q C E} → IsServed r s → Step s t → IsServed r t
  Step-IsServed r {s} v (submit op t room e) = rw e (record {
    in_order =
        ap (λ (l : List StateOp). l ++ op ∷ []) v.in_order
        ∙ append_assoc s.handled s.channel (op ∷ []);
    served = v.served;
    bounded = omega (arith, room, length-append s.channel (op ∷ []));
    asked = v.asked;
  })
  Step-IsServed r {s} v (take op rest r' ans t m first d e) =
      rw e (taken-IsServed r s op rest r' ans v first d)
  Step-IsServed r {s} v (stop t open_still e) =
      rw e (record {
        in_order = v.in_order;
        served = v.served;
        bounded = v.bounded;
        asked = λ _. refl;
      })
  Step-IsServed r {s} v (leave t m closed_now e) = rw e (record {
    in_order = v.in_order;
    served = v.served;
    bounded = v.bounded;
    asked = λ _. closed_now;
  })
  Step-IsServed r {s} v (drain op rest r' ans t m first d e) =
      rw e (taken-IsServed r s op rest r' ans v first d)
  Step-IsServed r {s} v (finish t m none_left e) = rw e (record {
    in_order = v.in_order;
    served = v.served;
    bounded = v.bounded;
    asked = λ _. v.asked (λ n. cc);
  })

  started-IsServed : (r : Round Q) → IsServed r (started r)
  unfolding started run
  started-IsServed r = record {
    in_order = refl;
    served = refl;
    bounded = omega arith;
    asked = λ n. absurd (n refl);
  }

  Reach-IsServed : (r : Round Q) {s t : Loop Q C E} → IsServed r s → Reach s t → IsServed r t
  Reach-IsServed r v here = v
  Reach-IsServed r v (next p st) = Step-IsServed r (Reach-IsServed r v p) st

  -- However callers, the loop and `Stop` interleave from the start of a round, what the loop has
  -- done is a run over the operations it took, in the order in which they were accepted; the rest
  -- is still in the channel, which never holds more than its size; and the loop has left only
  -- after `Stop`.
  pub started-IsServed_always : (r : Round Q) (s : Loop Q C E) → Reach (started r) s → IsServed r s
  started-IsServed_always r s p = Reach-IsServed r (started-IsServed r) p

  -- When `closedCh` is closed, every operation that was accepted until then has been handled.
  pub finish-drained :
      (r : Round Q) (s t : Loop Q C E)
      → Reach (started r) s
      → Step s t
      → s.mode ≢ stopped
      → t.mode ≡ stopped
      → (t.handled ≡ t.accepted) × (t.closing ≡ true)
  finish-drained r s t p (submit op _ room e) before after = absurd (before (cc))
  finish-drained r s t p (take op rest r' ans _ m first d e) before after = absurd (before (cc))
  finish-drained r s t p (stop _ open_still e) before after = absurd (before (cc))
  finish-drained r s t p (leave _ m closed_now e) before after = absurd (ground arith)
  finish-drained r s t p (drain op rest r' ans _ m first d e) before after = absurd (before (cc))
  finish-drained r s t p (finish _ m none_left e) before after =
      let v = Reach-IsServed r (started-IsServed r) p in
      rw e
        (sym (v.in_order ∙ ap (◌++◌ s.handled) none_left ∙ append-nil s.handled), v.asked (λ n. cc))
