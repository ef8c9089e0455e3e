-- ===== src/Gossip/Broadcast.antt =====
-- `Broadcast` of rebro/gossip/broadcaster.go: a node broadcasts its own message of a round. The
-- rounds and the network are the answers of an environment; the trace lists the calls of them.
use unison.Base.{
  ℕ, ◌≡◌, ◌≢◌, refl, Bool, true, false, Option, none, some, List, [], ◌∷◌, All, if◌then◌else◌,
  Option-cases, Bool-cases, inl, inr, ◌⊎◌,
}
use unison.Base.Key.{Bytes}
use unison.Messages.{MessageId, Message}

-- The calls, each listed when it is made, whether or not it succeeds.
pub data BroadcastEvent : Type 0 where
  starts : ℕ → BroadcastEvent
  publishes : (canonical_id payload : Bytes) → BroadcastEvent
  awaits stops : ℕ → BroadcastEvent

pub data BroadcastError : Type 0 where
  start_failed id_failed publish_failed finalize_failed stop_failed : BroadcastError

-- Which of the calls succeed: `StartRound`, `MarshalBinary` of the id, the topic's `Publish`, the
-- round's `Finalize`, and `StopRound`.
pub record BroadcastEnv : Type 0 where
  pub start_round : ℕ → Bool
  pub marshal_id : MessageId → Option Bytes
  pub publish : Bytes → Bytes → Bool
  pub finalize : ℕ → Bool
  pub stop_round : ℕ → Bool

module _ (env : BroadcastEnv) (msg : Message) where
  -- `Broadcast` after the message was published.
  await_and_stop : Bytes → List BroadcastEvent × Option BroadcastError
  await_and_stop canonical_id =
      let n = msg.id.round in
      let sent = starts n ∷ publishes canonical_id msg.payload ∷ awaits n ∷ [] in
      if env.finalize n
      then (
        starts n ∷ publishes canonical_id msg.payload ∷ awaits n ∷ stops n ∷ [],
        if env.stop_round n then none else some stop_failed,
      )
      else (sent, some finalize_failed)

  -- `broadcastGossip` with the setter of `Broadcast`, and what follows it.
  publish_data : List BroadcastEvent × Option BroadcastError
  unfolding await_and_stop
  publish_data = elim (env.marshal_id msg.id) [
    | none ↦ (starts msg.id.round ∷ [], some id_failed)
    | some canonical_id ↦
        if env.publish canonical_id msg.payload
        then await_and_stop canonical_id
        else (starts msg.id.round ∷ publishes canonical_id msg.payload ∷ [], some publish_failed)
  ]

  unfoldable pub broadcast : List BroadcastEvent × Option BroadcastError
  unfolding publish_data
  broadcast =
      if env.start_round msg.id.round
      then publish_data
      else (starts msg.id.round ∷ [], some start_failed)

  -- No round is stopped in the trace.
  abbrev pub NeverStops : List BroadcastEvent → Type 0
  NeverStops = All (λ (e : BroadcastEvent). e ≢ stops msg.id.round)

  -- How a broadcast ends.
  abbrev pub Ends : List BroadcastEvent × Option BroadcastError → Type 0
  Ends (trace, e) =
      ((env.start_round msg.id.round ≡ false)
        × (trace ≡ starts msg.id.round ∷ [])
        × (e ≡ some start_failed))
      ⊎ ((env.start_round msg.id.round ≡ true) × NeverStops trace × (e ≢ none))
      ⊎ ((canonical_id : Bytes) × (env.marshal_id msg.id ≡ some canonical_id)
          × (env.publish canonical_id msg.payload ≡ true)
          × (env.finalize msg.id.round ≡ true)
          × (trace
              ≡ starts msg.id.round
                ∷ publishes canonical_id msg.payload
                ∷ awaits msg.id.round
                ∷ stops msg.id.round
                ∷ [])
          × (e ≡ (if env.stop_round msg.id.round then none else some stop_failed)))

  -- A broadcast is refused because the round cannot be started; or it ends in an error with its
  -- round started and never stopped; or `Publish` of the message under its id succeeded, it saw
  -- the round become final, and then stopped it, and its result is that of the stop.
  pub broadcast-Ends : Ends broadcast
  unfolding broadcast publish_data await_and_stop
  broadcast-Ends = elim (Bool-cases (env.start_round msg.id.round)) [
    | inr f ↦ rw (f, broadcast) (inl (refl, refl, refl))
    | inl t ↦ elim (Option-cases (env.marshal_id msg.id)) [
      | inl n ↦ rw (t, n, broadcast, publish_data) (inr (inl (refl, (λ e. cc, tt), λ e. cc)))
      | inr (cid, m) ↦ elim (Bool-cases (env.publish cid msg.payload)) [
        | inr f ↦
            rw (t, m, f, broadcast, publish_data)
              (inr (inl (refl, (λ e. cc, (λ e. cc, tt)), λ e. cc)))
        | inl p ↦ elim (Bool-cases (env.finalize msg.id.round)) [
          | inr f ↦
              rw (t, m, p, f, broadcast, publish_data, await_and_stop)
                (inr (inl (refl, (λ e. cc, (λ e. cc, (λ e. cc, tt))), λ e. cc)))
          | inl f ↦
              rw (t, m, p, f, broadcast, publish_data, await_and_stop)
                (inr (inr (cid, refl, p, refl, refl, refl)))
        ]
      ]
    ]
  ]
