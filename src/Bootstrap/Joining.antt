-- ===== src/Bootstrap/Joining.antt =====
-- What a node that joins gets from the bootstrapper.
use unison.Base.{
  ◌≡◌, ◌↔◌, refl, true, Option, none, some, List, ◌∷◌, arith, keep_if, Option-cases, inl, inr,
}
use unison.Base.Key.{Bytes}
use unison.Bootstrap.{reply, Host, start}

-- A node that joins reads what the bootstrapper's handler wrote, with json as documented: it ends
-- connected to the bootstrapper and to all the peers that the handler knew, but for those that it
-- cannot connect to, and only the stream's close can still make it fail.
pub start-reply :
    {P : Type 0} (marshal : List P → Option Bytes) (host : Host P) (bootstrapper : P)
    (peers : List P) (bytes : Bytes)
    → ((ps : List P) (bs : Bytes) → marshal ps ≡ some bs → host.unmarshal bs ≡ some ps)
    → reply marshal true peers ≡ some bytes
    → host.read_all ≡ some bytes
    → host.connects bootstrapper ≡ true
    → host.opens_stream ≡ true
    → ((start host bootstrapper).0 ≡ bootstrapper ∷ keep_if host.connects peers)
      × ((start host bootstrapper).1 ≡ none ↔ host.closes ≡ true)
unfolding reply start
start-reply marshal host bootstrapper peers bytes json replied read c o =
    elim (Option-cases (marshal peers)) [
      | inl e ↦ absurd (ground (arith, e))
      | inr (bs, e) ↦
          let whole : bs ≡ bytes = ground (arith, e) in
          let decoded : host.unmarshal bytes ≡ some peers = json peers bytes (rw (← whole) e) in
          rw (c, start, o, read, decoded) (refl, (λ h. ground arith, λ h. ground arith))
    ]
