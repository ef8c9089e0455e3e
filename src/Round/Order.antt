-- ===== src/Round/Order.antt =====
-- What the loop of a round keeps true, whatever quorum it drives, as long as the quorum keeps its
-- contract: nobody waits for a certificate that is there, and every operation is answered once.
use unison.Base.{
  ℕ, ◌+◌, ◌≤◌, ◌≡◌, ◌≢◌, refl, ap, true, false, Option, none, some, List, [], ◌∷◌, ◌++◌, All, ite,
  ℕ_discrete, arith, Option-cases, Bool-cases, inl, inr,
}
use unison.Base.Key.{Bytes, bytes_key}
use unison.Base.Map.{lookup, insert, delete, lookup-insert, lookup-delete}
use unison.Base.Entries.{
  Unique, All-lookup, All-insert, All-delete, insert-Unique, delete-Unique, sum_by, sum_by-insert,
  sum_by-insert_new, sum_by-delete, le-sum_by,
}
use unison.Messages.{MessageId}
use unison.Certificates.{QuorumCertificate, Contract, holds}
use unison.Round.{
  Round, OpError, Answers, notify, Outcome, finish, set_error, contains, remove, notify_added,
  subscribe, state_get, state_delete,
}

-- How often a pointer stands in a list.
abbrev pub unit : ℕ → ℕ → ℕ
unit x a = ite (ℕ_discrete x a) 1 0

abbrev pub count : ℕ → List ℕ → ℕ
count a [] = 0
count a (x ∷ xs) = unit x a + count a xs

-- How often an operation waits, and how often it is answered.
abbrev pub pending : {Q : Type 0} → ℕ → Round Q → ℕ
pending a r = sum_by (count a) r.get_op_subs

abbrev pub answered : {C E : Type 0} → ℕ → Answers C E → ℕ
answered a [] = 0
answered a ((op, _) ∷ ops) = unit op a + answered a ops

pub answered-append :
    {C E : Type 0} (a : ℕ) (xs ys : Answers C E)
    → answered a (xs ++ ys) ≡ answered a xs + answered a ys
answered-append a [] ys = omega arith
answered-append a ((op, x) ∷ xs) ys = omega (arith, answered-append a xs ys)

answered-notify :
    {C : Type 0} (E : Type 0) (a : ℕ) (comm : C) (ops : List ℕ)
    → answered a (notify {E = E} comm ops) ≡ count a ops
answered-notify E a comm [] = refl
answered-notify E a comm (op ∷ ops) = omega (arith, answered-notify E a comm ops)

contains-count : (op : ℕ) (xs : List ℕ) → count op xs ≡ 0 → contains op xs ≡ false
unfolding contains
contains-count op [] h = refl
contains-count op (x ∷ xs) h = ground (arith, contains-count op xs)

pub count-remove :
    (op a : ℕ) (xs : List ℕ)
    → contains op xs ≡ true
    → count a (remove op xs) + unit op a ≡ count a xs
unfolding contains remove
count-remove op a [] h = cc
count-remove op a (x ∷ xs) h = ground (arith, count-remove op a xs)

module _ {Q C E : Type 0} (i : QuorumCertificate Q C E) (c : Contract i) where
  -- The quorum is valid; nobody waits for a certificate that is there; no empty set is kept.
  pub record IsOrderly (r : Round Q) : Type 0 where
    pub valid : c.Valid r.quorum
    pub quiet :
        (id : MessageId) → holds i id r.quorum ≡ true → lookup id.string r.get_op_subs ≡ none
    pub nonempty : All (λ (e : Bytes × List ℕ). e.1 ≢ []) r.get_op_subs
    pub unique : Unique r.get_op_subs

  -- An operation is carried out without a panic, the round stays orderly, and the operation and
  -- those that waited before are each answered once or left waiting.
  abbrev pub Settles : ℕ → Round Q → Outcome i → Type 0
  Settles op r out =
      (r' : Round Q) × (ans : Answers C E) × (out ≡ some (r', ans))
      × IsOrderly r'
      × ((a : ℕ) → pending a r' + answered a ans ≡ pending a r + unit op a)

  pub finish-Settles :
      (op : ℕ) (e : Option (OpError E)) (r r' : Round Q)
      → IsOrderly r'
      → r'.get_op_subs ≡ r.get_op_subs
      → Settles op r (finish i op e r')
  finish-Settles op e r r' o same_subs =
      (r', (op, set_error e) ∷ [], refl, o, λ a. rw same_subs (omega arith))

  -- A change of the quorum that brings no new certificate.
  pub quorum-IsOrderly :
      (r : Round Q) (q : Q)
      → IsOrderly r
      → c.Valid q
      → ((id : MessageId) → holds i id q ≡ true → lookup id.string r.get_op_subs ≡ none)
      → IsOrderly (record r { quorum = q })
  quorum-IsOrderly r q o v h = record {
    valid = v;
    quiet = h;
    nonempty = o.nonempty;
    unique = o.unique;
  }

  pub state_delete-Settles :
      (op : ℕ) (id : MessageId) (r : Round Q) → IsOrderly r → Settles op r (state_delete i op id r)
  unfolding state_delete
  state_delete-Settles op id r o =
      let q = (i.delete id r.quorum).1 in
      let o' : IsOrderly (record r { quorum = q }) =
        quorum-IsOrderly r q o (c.delete_valid id r.quorum o.valid)
          (λ k h. o.quiet k (ground (arith, c.delete_holds id k r.quorum))) in
      elim (Bool-cases (i.delete id r.quorum).0) [
        | inl e ↦ rw (e, state_delete) (finish-Settles op _ r _ o' refl)
        | inr e ↦ rw (e, state_delete) (finish-Settles op _ r _ o' refl)
      ]

  -- A change of the set under one id that has no certificate, to a set that is not empty.
  pub subs-IsOrderly :
      (id : MessageId) (x : ℕ) (xs : List ℕ) (r : Round Q)
      → IsOrderly r
      → holds i id r.quorum ≡ false
      → IsOrderly (record r { get_op_subs = insert id.string (x ∷ xs) r.get_op_subs })
  subs-IsOrderly id x xs r o absent = record {
    valid = o.valid;
    quiet = λ k h. ground (
      arith,
      o.quiet k h,
      c.get_string id k r.quorum,
      lookup-insert id.string k.string (x ∷ xs) r.get_op_subs,
    );
    nonempty =
        All-insert (λ (e : Bytes × List ℕ). e.1 ≢ []) id.string (x ∷ xs) r.get_op_subs o.nonempty
          (λ e. cc);
    unique = insert-Unique id.string (x ∷ xs) r.get_op_subs o.unique;
  }

  -- The set of an id that `stateGet` works on: nil and missing are both empty.
  abbrev pub inner_of : MessageId → Round Q → List ℕ
  inner_of id r = elim (lookup id.string r.get_op_subs) [ none ↦ [] | some inner ↦ inner ]

  pub insert-pending :
      (a : ℕ) (id : MessageId) (ws : List ℕ) (r : Round Q)
      → sum_by (count a) (insert id.string ws r.get_op_subs) + count a (inner_of id r)
        ≡ pending a r + count a ws
  insert-pending a id ws r = elim (Option-cases (lookup id.string r.get_op_subs)) [
    | inl e ↦ ground (arith, e, sum_by-insert_new (count a) id.string ws r.get_op_subs)
    | inr (v, e) ↦ ground (arith, e, sum_by-insert (count a) id.string ws v r.get_op_subs)
  ]

  inner-le-pending : (a : ℕ) (id : MessageId) (r : Round Q) → count a (inner_of id r) ≤ pending a r
  inner-le-pending a id r = elim (Option-cases (lookup id.string r.get_op_subs)) [
    | inl e ↦ ground (arith, e)
    | inr (v, e) ↦ ground (arith, e, le-sum_by (count a) id.string v r.get_op_subs)
  ]

  subscribe-Settles :
      (op : ℕ) (id : MessageId) (ws : List ℕ) (r : Round Q)
      → IsOrderly r
      → holds i id r.quorum ≡ false
      → inner_of id r ≡ ws
      → contains op ws ≡ false
      → Settles op r (subscribe i op id ws r)
  unfolding subscribe
  subscribe-Settles op id ws r o absent same_set fresh = (
    record r { get_op_subs = insert id.string (op ∷ ws) r.get_op_subs },
    [],
    rw (fresh, subscribe) refl,
    subs-IsOrderly id op ws r o absent,
    λ a. omega (arith, insert-pending a id (op ∷ ws) r, ap (count a) same_set),
  )

  pub state_get-Settles :
      (op : ℕ) (id : MessageId) (r : Round Q)
      → IsOrderly r
      → pending op r ≡ 0
      → Settles op r (state_get i op id r)
  unfolding state_get
  state_get-Settles op id r o fresh =
      let unseen : contains op (inner_of id r) ≡ false =
        contains-count op (inner_of id r) (omega (arith, inner-le-pending op id r)) in
      elim (Option-cases (i.get id r.quorum)) [
        | inr (comm, e) ↦ rw (e, state_get) (r, _, refl, o, λ a. omega arith)
        | inl e ↦ elim (Option-cases (lookup id.string r.get_op_subs)) [
          | inl f ↦
              rw (e, f, state_get)
                (subscribe-Settles op id [] r o (ground (arith, e)) (ground (arith, f)) refl)
          | inr (inner, f) ↦
              rw (e, f, state_get)
                (subscribe-Settles op id inner r o (ground (arith, e)) (ground (arith, f))
                  (ground (arith, f, unseen)))
        ]
      ]

  -- The quorum took a message: whoever waits for its certificate is notified.
  notify-Settles :
      (op : ℕ) (id : MessageId) (r : Round Q) (w : ℕ) (ws : List ℕ) (comm : C)
      → c.Valid r.quorum
      → ((k : MessageId)
          → holds i k r.quorum ≡ true
          → id.string ≢ k.string
          → lookup k.string r.get_op_subs ≡ none)
      → All (λ (e : Bytes × List ℕ). e.1 ≢ []) r.get_op_subs
      → Unique r.get_op_subs
      → lookup id.string r.get_op_subs ≡ some (w ∷ ws)
      → i.get id r.quorum ≡ some comm
      → Settles op r (notify_added i op id r)
  unfolding notify_added
  notify-Settles op id r w ws comm v quiet ne u f e = (
    record r { get_op_subs = delete id.string r.get_op_subs },
    notify comm (w ∷ ws) ++ (op, set_error none) ∷ [],
    rw (f, e, notify_added) refl,
    record {
      valid = v;
      quiet = λ k h. ground (arith, quiet k h, lookup-delete id.string k.string r.get_op_subs);
      nonempty = All-delete (λ (e : Bytes × List ℕ). e.1 ≢ []) id.string r.get_op_subs ne;
      unique = delete-Unique id.string r.get_op_subs u;
    },
    λ a. omega (
      arith,
      sum_by-delete (count a) id.string (w ∷ ws) r.get_op_subs u f,
      answered-append a (notify {E = E} comm (w ∷ ws)) ((op, set_error none) ∷ []),
      answered-notify E a comm (w ∷ ws),
    ),
  )

  pub notify_added-Settles :
      (op : ℕ) (id : MessageId) (r : Round Q)
      → c.Valid r.quorum
      → ((k : MessageId)
          → holds i k r.quorum ≡ true
          → id.string ≢ k.string
          → lookup k.string r.get_op_subs ≡ none)
      → All (λ (e : Bytes × List ℕ). e.1 ≢ []) r.get_op_subs
      → Unique r.get_op_subs
      → holds i id r.quorum ≡ true
      → Settles op r (notify_added i op id r)
  unfolding notify_added
  notify_added-Settles op id r v quiet ne u held =
      elim (Option-cases (lookup id.string r.get_op_subs)) [
        | inl f ↦
            let o : IsOrderly r = record {
              valid = v;
              quiet = λ k h. elim (bytes_key.dec id.string k.string) [
                | yes p ↦ rw (← p) f
                | no n ↦ quiet k h n
              ];
              nonempty = ne;
              unique = u;
            } in
            rw (f, notify_added) (finish-Settles op none r r o refl)
        | inr ([], f) ↦
            absurd
              (All-lookup (λ (e : Bytes × List ℕ). e.1 ≢ []) id.string [] r.get_op_subs ne f refl)
        | inr (w ∷ ws, f) ↦ elim (Option-cases (i.get id r.quorum)) [
          | inl e ↦ absurd (ground (arith, e))
          | inr (comm, e) ↦ notify-Settles op id r w ws comm v quiet ne u f e
        ]
      ]
