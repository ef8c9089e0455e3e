-- ===== src/Multicast/Serving.antt =====
-- `Start` and `Stop` of a multicast pool (bapl/multicast.go), and the streams that come to its host.
use unison.Base.{ℕ, ◌≡◌, refl, Bool, true, false, Option, none, some, List, [], ◌∷◌, if◌then◌else◌}
use unison.Base.Key.{Bytes}
use unison.Crypto.{Ed25519}
use unison.MemPool.{MemPool}
use unison.Multicast.{Wire, rcv_ok, rcv_err, rcv_panic, rcv_batch}

-- A node's batch pool, and whether its host has the handler of the protocol.
pub record Served : Type 0 where
  pub handler : Bool
  pub pool : MemPool

-- `Start` and `Stop`
pub start : Served → Served
start s = record s { handler = true }

pub stop : Served → Served
stop s = record s { handler = false }

module _ (e : Ed25519) (sha256 : Bytes → Bytes) where
  -- A stream of the protocol: the handler logs the errors of `rcvBatch`; `none` is a panic, which brings
  -- the node down. Without a handler the host refuses the stream.
  pub incoming : Wire → ℕ → Served → Option Served
  incoming w now s =
      if s.handler
      then elim (rcv_batch e sha256 w now s.pool) [
        | rcv_ok (sent, p) ↦ some (record s { pool = p })
        | rcv_err x ↦ some s
        | rcv_panic ↦ none
      ]
      else some s

  -- Streams one after the other.
  pub serve : List (Wire × ℕ) → Served → Option Served
  unfolding incoming
  serve [] s = some s
  serve ((w, now) ∷ ws) s = elim (incoming w now s) [ none ↦ none | some s' ↦ serve ws s' ]

  -- A pool that was stopped is not changed by any streams, and none of them brings the node down.
  pub serve-stop : (ws : List (Wire × ℕ)) (s : Served) → serve ws (stop s) ≡ some (stop s)
  unfolding serve incoming stop
  serve-stop [] s = refl
  serve-stop ((w, now) ∷ ws) s = serve-stop ws s
