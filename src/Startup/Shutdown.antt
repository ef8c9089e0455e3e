-- ===== src/Startup/Shutdown.antt =====
-- The order in which `run` stops the parts whose stops it defers.
use unison.Base.{
  ℕ, ◌≡◌, refl, Bool, true, false, Option, none, some, List, [], ◌∷◌, ◌++◌, ap, sym, arith, ◌∙◌,
  ◌==◌, if◌then◌else◌,
}
use unison.Startup.{
  Part, host, pool, mcast_pool, broadcaster, chain, Action, starts, stops, sets_up, produces, idles,
  Opening, BroadcasterStart, not_joined, left_joined, broadcasting, set_up, serve,
  start_broadcaster, stream_handler, Outcomes, Trace, RunError, check, deferred, produce, run,
}

-- The place of a part in the order in which it is started.
abbrev pub place : Part → ℕ
place host = 0
place pool = 1
place mcast_pool = 2
place broadcaster = 3
place chain = 4

-- What runs after the actions, the part that was started last first; `none` when a part is stopped
-- that is not the last one started.
abbrev pub running : List Action → List Part → Option (List Part)
running [] up = some up
running (starts p ∷ acts) up = running acts (p ∷ up)
running (produces ∷ acts) up = running acts up
running (idles ∷ acts) up = running acts up
running (sets_up x ∷ acts) up = running acts up
running (stops p ∷ acts) [] = none
running (stops p ∷ acts) (q ∷ up) = if place p == place q then running acts up else none

-- Whatever runs before the actions runs after them.
record IsBalanced (t : Trace) : Type 0 where
  keeps : (bs : List Action) (up : List Part) → running (t.0 ++ bs) up ≡ running bs up

append_assoc : {A : Type 0} (xs ys zs : List A) → (xs ++ ys) ++ zs ≡ xs ++ (ys ++ zs)
append_assoc [] ys zs = refl
append_assoc (x ∷ xs) ys zs = ap (◌∷◌ x) (append_assoc xs ys zs)

append_nil : {A : Type 0} (xs : List A) → xs ++ [] ≡ xs
append_nil [] = refl
append_nil (x ∷ xs) = ap (◌∷◌ x) (append_nil xs)

check-IsBalanced : (b : Bool) (e : RunError) (t : Trace) → IsBalanced t → IsBalanced (check b e t)
check-IsBalanced true e t h = h
check-IsBalanced false e t h = record { keeps = λ bs up. refl }

deferred-IsBalanced : (p : Part) (t : Trace) → IsBalanced t → IsBalanced (deferred p t)
deferred-IsBalanced p t h = record {
  keeps = λ bs up.
      ap (λ acts. running acts (p ∷ up)) (append_assoc t.0 (stops p ∷ []) bs)
      ∙ h.keeps (stops p ∷ bs) (p ∷ up)
      ∙ ground arith;
}

set_up-IsBalanced : (x : Opening) (t : Trace) → IsBalanced t → IsBalanced (set_up x t)
set_up-IsBalanced x t h = record { keeps = λ bs up. h.keeps bs up }

serve-IsBalanced : (b : Bool) (t : Trace) → IsBalanced t → IsBalanced (serve b t)
serve-IsBalanced true t h = set_up-IsBalanced stream_handler t h
serve-IsBalanced false t h = h

start_broadcaster-IsBalanced :
    (b : BroadcasterStart) (t : Trace) → IsBalanced t → IsBalanced (start_broadcaster b t)
start_broadcaster-IsBalanced not_joined t h = record { keeps = λ bs up. refl }
start_broadcaster-IsBalanced left_joined t h = record { keeps = λ bs up. refl }
start_broadcaster-IsBalanced broadcasting t h = deferred-IsBalanced broadcaster t h

produce-IsBalanced : (o : Outcomes) → IsBalanced (produce o)
unfolding produce
produce-IsBalanced o = record { keeps = λ bs up. ground arith }

-- However `run` ends, every part that it started is stopped, the last one first. What it only set up
-- is not among them.
run-running : (o : Outcomes) → running (run o).0 [] ≡ some []
unfolding run
run-running o =
    let whole : IsBalanced (run o) =
      search
        (
          deferred-IsBalanced, check-IsBalanced, set_up-IsBalanced, serve-IsBalanced,
          start_broadcaster-IsBalanced, produce-IsBalanced,
        )
        depth 24 in
    ap (λ acts. running acts []) (sym (append_nil (run o).0)) ∙ whole.keeps [] []
