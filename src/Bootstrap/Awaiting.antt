-- ===== src/Bootstrap/Awaiting.antt =====
-- When a bootstrapper answers the nodes that ask it for peers.
use unison.Base.{
  ℕ, ◌≡◌, ◌≢◌, ◌⊎◌, refl, true, false, some, List, [], ◌∷◌, ◌++◌, arith, inl, inr, Bool-cases, ◌∙◌,
}
use unison.Base.Int.{ℤ, pos, pos_part, ◌-ℤ◌, ltb_ℤ, ◌≤ℤ◌}
use unison.Bootstrap.{
  Service, awaiting_peers, returned, Serving, serve, lacks_peers, Step, counts, gives_up, opens,
  ends, cancels, requests, answers, resets, Reach, here, next,
}

-- `dn` is closed, and a stream is answered, only when a positive number of nodes is expected and all
-- but this one are connected.
abbrev pub IsPatient : Serving → Type 0
IsPatient s =
    (s.phase ≡ awaiting_peers → ltb_ℤ (pos 0) s.network_size ≡ true)
    × (s.dn ≡ true → (ltb_ℤ (pos 0) s.network_size ≡ true) × (lacks_peers s ≡ false))
    × (s.phase ≡ awaiting_peers → s.dn ≡ false)
    × (s.answered ≢ [] → s.dn ≡ true)

serve-IsPatient : (serv : Service) → IsPatient (serve serv)
unfolding serve
serve-IsPatient serv = (λ h. ground arith, λ h. ground arith, λ h. refl, λ h. absurd (h refl))

step-IsPatient : (s t : Serving) → Step s t → IsPatient s → IsPatient t
step-IsPatient s t (counts n w l) (a, b, c, d) = (λ h. a w, λ h. ground (arith, c w), λ h. c w, d)
step-IsPatient s t (gives_up w l x) (a, b, c, d) = (λ h. a w, b, λ h. c w, d)
step-IsPatient s t (opens w l) (a, b, c, d) = (λ h. a w, λ h. (a w, l), λ h. cc, λ h. refl)
step-IsPatient s t (ends w e) (a, b, c, d) = (λ h. cc, b, λ h. cc, d)
step-IsPatient s t cancels i = i
step-IsPatient s t (requests stream) i = i
step-IsPatient s t (answers stream before after e o) (a, b, c, d) = (a, b, c, λ h. o)
step-IsPatient s t (resets stream before after e x) i = i

reach-IsPatient : (s t : Serving) → Reach s t → IsPatient s → IsPatient t
reach-IsPatient s t here i = i
reach-IsPatient s u (next {t = t} r st) i = step-IsPatient t u st (reach-IsPatient s t r i)

step-size : (s t : Serving) → Step s t → t.network_size ≡ s.network_size
step-size s t (counts n w l) = refl
step-size s t (gives_up w l x) = refl
step-size s t (opens w l) = refl
step-size s t (ends w e) = refl
step-size s t cancels = refl
step-size s t (requests stream) = refl
step-size s t (answers stream before after e o) = refl
step-size s t (resets stream before after e x) = refl

reach-size : (s t : Serving) → Reach s t → t.network_size ≡ s.network_size
reach-size s t here = refl
reach-size s u (next {t = t} r st) = step-size t u st ∙ reach-size s t r

-- Whatever a bootstrapper goes through, it has answered a request only if the expected size of the
-- network is positive and all the expected nodes but itself were connected when it last counted. With
-- the expected size 0, or below, it answers nobody.
pub answered-enough_peers :
    (serv : Service) (t : Serving)
    → Reach (serve serv) t
    → (t.answered ≡ [])
      ⊎ ((ltb_ℤ (pos 0) serv.network_size ≡ true) × ((serv.network_size -ℤ pos 1) ≤ℤ pos t.have))
unfolding serve
answered-enough_peers serv t r =
    let (a, b, c, d) = reach-IsPatient (serve serv) t r (serve-IsPatient serv) in
    let size : t.network_size ≡ serv.network_size = reach-size (serve serv) t r in
    elim (answered_cases t.answered) [
      | inl e ↦ inl e
      | inr n ↦
          let (positive, full) = b (d n) in
          inr (rw (← size) (positive, reached t.have t.network_size full))
    ]
  where
    answered_cases : (xs : List ℕ) → (xs ≡ []) ⊎ (xs ≢ [])
    answered_cases [] = inl refl
    answered_cases (x ∷ xs) = inr (λ h. cc)

    reached : (n : ℕ) (size : ℤ) → ltb_ℤ (pos n) (size -ℤ pos 1) ≡ false → (size -ℤ pos 1) ≤ℤ pos n
    reached n size h = ground arith

-- Where a `Serve` call of a positive size stands.
abbrev Stands : Serving → Type 0
Stands s =
    (s.phase ≡ awaiting_peers)
    ⊎ (((s.dn ≡ true) × (s.phase ≢ awaiting_peers)) ⊎ (s.phase ≡ returned (some tt)))

step-Stands : (s t : Serving) → Step s t → Stands s → Stands t
step-Stands s t (counts n w l) i = i
step-Stands s t (gives_up w l x) i = inr (inr refl)
step-Stands s t (opens w l) i = inr (inl (refl, λ h. cc))
step-Stands s t (ends w e) (inl p) = absurd cc
step-Stands s t (ends w e) (inr (inl (o, n))) = inr (inl (o, λ h. cc))
step-Stands s t (ends w e) (inr (inr p)) = absurd cc
step-Stands s t cancels i = i
step-Stands s t (requests stream) i = i
step-Stands s t (answers stream before after e o) i = i
step-Stands s t (resets stream before after e x) i = i

reach-Stands : (s t : Serving) → Reach s t → Stands s → Stands t
reach-Stands s t here i = i
reach-Stands s u (next {t = t} r st) i = step-Stands t u st (reach-Stands s t r i)

module _ (t : Serving) (stream : ℕ) (before after : List ℕ)
    (w : t.waiting ≡ before ++ stream ∷ after) where
  abbrev Answered : Type 0
  Answered = (u : Serving) × Reach t u × (u.answered ≡ stream ∷ t.answered)

  open_answers : t.dn ≡ true → Answered
  open_answers o = (_, next here (answers stream before after w o), refl)

  full_answers : t.phase ≡ awaiting_peers → lacks_peers t ≡ false → Answered
  full_answers p l = (_, next (next here (opens p l)) (answers stream before after w refl), refl)

  enough : (size : ℤ) → ltb_ℤ (pos (pos_part size)) (size -ℤ pos 1) ≡ false
  enough size = ground arith

  awaiting_answers : t.phase ≡ awaiting_peers → Answered
  awaiting_answers p = elim (Bool-cases (lacks_peers t)) [
    | inr l ↦ full_answers p l
    | inl l ↦ (
      _,
      next
          (next (next here (counts (pos_part t.network_size) p l))
            (opens p (enough t.network_size)))
          (answers stream before after w refl),
      refl,
    )
  ]

-- When a positive size is expected and `Serve` has not given up, every request that waits can still be
-- answered: once all the nodes are connected `dn` is closed, and its handler goes on.
pub request_answered :
    (serv : Service) (t : Serving) (stream : ℕ) (before after : List ℕ)
    → Reach (serve serv) t
    → ltb_ℤ (pos 0) serv.network_size ≡ true
    → t.phase ≢ returned (some tt)
    → t.waiting ≡ before ++ stream ∷ after
    → (u : Serving) × Reach t u × (u.answered ≡ stream ∷ t.answered)
unfolding serve
request_answered serv t stream before after r positive n w =
    elim (reach-Stands (serve serv) t r (inl (ground (arith, positive)))) [
      | inl p ↦ awaiting_answers t stream before after w p
      | inr (inl (o, _)) ↦ open_answers t stream before after w o
      | inr (inr p) ↦ absurd (n p)
    ]
