-- ===== src/Round/Run.antt =====
-- A whole run of the loop, and the cancellation of a subscription.
use unison.Base.{
  ℕ, ◌+◌, ◌≤◌, ◌≡◌, ◌≢◌, refl, true, false, none, some, List, [], ◌∷◌, ◌++◌, arith, inl, inr,
  Option-cases, ap,
}
use unison.Base.Key.{Bytes, bytes_key}
use unison.Base.Map.{lookup, insert, delete, lookup-delete}
use unison.Base.Entries.{All-delete, delete-Unique, sum_by-delete}
use unison.Messages.{MessageId}
use unison.Certificates.{QuorumCertificate, Contract, holds}
use unison.Round.{
  Round, StateOp, Answers, Outcome, new_round, contains, remove, set_error, subscribe, state_get,
  run,
}
use unison.Round.Order.{
  unit, count, pending, answered, answered-append, count-remove, IsOrderly, subs-IsOrderly,
  insert-pending,
}
use unison.Round.Settle.{do_op-Settles}

-- How often a pointer stands in a sequence of operations.
abbrev pub requested : ℕ → List StateOp → ℕ
requested a [] = 0
requested a (op ∷ ops) = unit op.pointer a + requested a ops

pub unit_self : (a : ℕ) → unit a a ≡ 1
unit_self a = ground arith

module _ {Q C E : Type 0} (i : QuorumCertificate Q C E) (c : Contract i) where
  -- A new round over a valid quorum is orderly.
  pub new_round-IsOrderly : (n : ℕ) (q : Q) → c.Valid q → IsOrderly i c (new_round n q)
  unfolding new_round lookup
  new_round-IsOrderly n q v = record { valid = v; quiet = λ id h. refl; nonempty = tt; unique = tt }

  -- The run does not panic, and accounts for every operation.
  abbrev pub Runs : List StateOp → Round Q → Outcome i → Type 0
  Runs ops r out =
      (r' : Round Q) × (ans : Answers C E) × (out ≡ some (r', ans))
      × IsOrderly i c r'
      × ((a : ℕ) → pending a r' + answered a ans ≡ pending a r + requested a ops)

  -- From an orderly round, operations that are each requested once and not already waiting are all
  -- carried out, without a panic: in the end each is answered exactly once or still waits, and
  -- nobody waits for a certificate that is there.
  pub run-Runs :
      (ops : List StateOp) (r : Round Q)
      → IsOrderly i c r
      → ((a : ℕ) → pending a r + requested a ops ≤ 1)
      → Runs ops r (run i ops r)
  unfolding run
  run-Runs [] r o once = (r, [], refl, o, λ a. omega arith)
  run-Runs (op ∷ ops) r o once =
      let (r', now, e, o', h) =
        do_op-Settles i c op r o (omega (arith, once op.pointer, unit_self op.pointer)) in
      let (r'', later, e', o'', h') = run-Runs ops r' o' (λ a. omega (arith, h a, once a)) in
      (
        r'',
        now ++ later,
        rw (e, e', run) refl,
        o'',
        λ a. omega (arith, h a, h' a, answered-append a now later),
      )

  emptied-IsOrderly :
      (id : MessageId) (r : Round Q)
      → IsOrderly i c r
      → IsOrderly i c (record r { get_op_subs = delete id.string r.get_op_subs })
  emptied-IsOrderly id r o = record {
    valid = o.valid;
    quiet = λ k h. ground (arith, o.quiet k h, lookup-delete id.string k.string r.get_op_subs);
    nonempty = All-delete (λ (e : Bytes × List ℕ). e.1 ≢ []) id.string r.get_op_subs o.nonempty;
    unique = delete-Unique id.string r.get_op_subs o.unique;
  }

  -- What the second execution of a waiting operation leaves.
  abbrev pub Cancels : ℕ → Round Q → Outcome i → Type 0
  Cancels op r out =
      (r' : Round Q) × (out ≡ some (r', (op, set_error none) ∷ []))
      × IsOrderly i c r'
      × ((a : ℕ) → pending a r' + unit op a ≡ pending a r)

  unsubscribe-Cancels :
      (op : ℕ) (id : MessageId) (inner left : List ℕ) (r : Round Q)
      → IsOrderly i c r
      → holds i id r.quorum ≡ false
      → lookup id.string r.get_op_subs ≡ some inner
      → contains op inner ≡ true
      → remove op inner ≡ left
      → Cancels op r (subscribe i op id inner r)
  unfolding subscribe
  unsubscribe-Cancels op id inner [] r o absent f mem e = (
    record r { get_op_subs = delete id.string r.get_op_subs },
    rw (mem, e, subscribe) refl,
    emptied-IsOrderly id r o,
    λ a. omega (
      arith,
      sum_by-delete (count a) id.string inner r.get_op_subs o.unique f,
      count-remove op a inner mem,
      ap (count a) e,
    ),
  )
  unsubscribe-Cancels op id inner (x ∷ xs) r o absent f mem e = (
    record r { get_op_subs = insert id.string (x ∷ xs) r.get_op_subs },
    rw (mem, e, subscribe) refl,
    subs-IsOrderly i c id x xs r o absent,
    λ a.
        ground (
          arith,
          f,
          insert-pending i c a id (x ∷ xs) r,
          count-remove op a inner mem,
          ap (count a) e,
        ),
  )

  -- `GetCertificate` cancels by executing its operation again: the waiting operation is answered
  -- with nil and waits no more, every other one waits as before, and the round stays orderly.
  pub state_get-Cancels :
      (op : ℕ) (id : MessageId) (inner : List ℕ) (r : Round Q)
      → IsOrderly i c r
      → lookup id.string r.get_op_subs ≡ some inner
      → contains op inner ≡ true
      → Cancels op r (state_get i op id r)
  unfolding state_get
  state_get-Cancels op id inner r o f mem = elim (Option-cases (i.get id r.quorum)) [
    | inr (comm, e) ↦ absurd (ground (arith, o.quiet id))
    | inl e ↦
        rw (e, f, state_get) (unsubscribe-Cancels op id inner _ r o (ground (arith, e)) f mem refl)
  ]
