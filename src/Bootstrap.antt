-- ===== src/Bootstrap.antt =====
-- unison-poc/bootstrap/bootstrap.go: how the nodes of a network find one another, and the includers
-- that each makes of its peers. libp2p, json and `sort.Sort` are arguments.
pub mod Members
pub mod Awaiting
pub mod Joining
mod Examples
use unison.Base.{
  ℕ, ◌≡◌, Bool, true, false, Option, none, some, List, [], ◌∷◌, ◌++◌, if◌then◌else◌, keep_if,
}
use unison.Base.Int.{ℤ, pos, ◌-ℤ◌, ltb_ℤ}
use unison.Base.Key.{Bytes}
use unison.Messages.{PublicKey}
use unison.Crypto.{bytes_to_pub_key}
use unison.Quorum.{Includer, Includers}
use unison.Quorum.IncluderSet.{new_includer, new_includers_set}

pub record Service : Type 0 where
  pub self_public_key : PublicKey
  pub network_size : ℤ

-- `NewService`; `none` is its panic.
unfoldable pub new_service : Bytes → ℤ → Option Service
new_service local_public_key network_size = elim (bytes_to_pub_key local_public_key) [
  | none ↦ none
  | some key ↦ some (record { self_public_key = key; network_size = network_size })
]

-- `defaultStake`
abbrev pub default_stake : ℤ
default_stake = pos 1000

-- What the peer store has for a peer: nil, a key whose `Raw` fails, or the raw bytes of a key.
pub data StoredKey : Type 0 where
  no_key unreadable : StoredKey
  raw : Bytes → StoredKey

pub data MembersError : Type 0 where
  raw_failed wrong_key_size : MembersError

-- How `GetMembers` ends; a method call on a nil key panics.
pub data Gathered (A : Type 0) : Type 0 where
  gathered : A → Gathered A
  failed : MembersError → Gathered A
  panicked : Gathered A

-- The loop of `GetMembers`.
unfoldable pub collect : List Includer → List StoredKey → Gathered (List Includer)
collect incls [] = gathered incls
collect incls (no_key ∷ peers) = panicked
collect incls (unreadable ∷ peers) = failed raw_failed
collect incls (raw key_bytes ∷ peers) = elim (bytes_to_pub_key key_bytes) [
  | none ↦ failed wrong_key_size
  | some key ↦ collect (incls ++ new_includer key default_stake ∷ []) peers
]

module _ (sort : (Includer → Includer → Bool) → List Includer → List Includer) where
  -- `GetMembers`
  unfoldable pub get_members : Service → List StoredKey → Gathered Includers
  get_members serv peers =
      elim (collect (new_includer serv.self_public_key default_stake ∷ []) peers) [
        | gathered incls ↦ gathered (new_includers_set sort incls)
        | failed e ↦ failed e
        | panicked ↦ panicked
      ]

-- `Serve` waits for peers, then for its handlers, or has returned; `some tt` is the context's error.
pub data Phase : Type 0 where
  awaiting_peers awaiting_handlers : Phase
  returned : Option (Unit {0}) → Phase

-- A `Serve` call: its `have`, whether `dn` is closed, whether the context is done, the streams whose
-- handlers wait, and the streams whose handlers went on to answer.
pub record Serving : Type 0 where
  pub network_size : ℤ
  pub phase : Phase
  pub have : ℕ
  pub dn : Bool
  pub cancelled : Bool
  pub waiting : List ℕ
  pub answered : List ℕ

-- `Serve` up to its loop.
unfoldable pub serve : Service → Serving
serve serv = record {
  network_size = serv.network_size;
  phase = if ltb_ℤ (pos 0) serv.network_size then awaiting_peers else returned none;
  have = 0;
  dn = false;
  cancelled = false;
  waiting = [];
  answered = [];
}

-- The condition of the loop; `want` does not wrap, since the size is positive where it is computed.
abbrev pub lacks_peers : Serving → Bool
lacks_peers s = ltb_ℤ (pos s.have) (s.network_size -ℤ pos 1)

pub data Step (s : Serving) : Serving → Type 0 where
  -- a second passes, and the host has `n` peers
  counts :
      (n : ℕ) → s.phase ≡ awaiting_peers → lacks_peers s ≡ true → Step s (record s { have = n })
  gives_up :
      s.phase ≡ awaiting_peers
      → lacks_peers s ≡ true
      → s.cancelled ≡ true
      → Step s (record s { phase = returned (some tt) })
  -- the loop ends, and `dn` is closed
  opens :
      s.phase ≡ awaiting_peers
      → lacks_peers s ≡ false
      → Step s (record s { phase = awaiting_handlers; dn = true })
  ends : s.phase ≡ awaiting_handlers → s.waiting ≡ [] → Step s (record s { phase = returned none })
  cancels : Step s (record s { cancelled = true })
  -- a stream comes in, and its handler waits
  requests : (stream : ℕ) → Step s (record s { waiting = stream ∷ s.waiting })
  -- the handler of a stream goes on once `dn` is closed
  answers :
      (stream : ℕ) (before after : List ℕ)
      → s.waiting ≡ before ++ stream ∷ after
      → s.dn ≡ true
      → Step s (record s { waiting = before ++ after; answered = stream ∷ s.answered })
  -- or resets the stream once the context is done
  resets :
      (stream : ℕ) (before after : List ℕ)
      → s.waiting ≡ before ++ stream ∷ after
      → s.cancelled ≡ true
      → Step s (record s { waiting = before ++ after })

pub data Reach (s : Serving) : Serving → Type 0 where
  here : Reach s s
  next : {t u : Serving} → Reach s t → Step t u → Reach s u

-- The handler after its `select`: what it writes, where `marshal` is json and `writes` says whether
-- the write succeeds. What it does after that changes nothing.
unfoldable pub reply :
    {P : Type 0} → (marshal : List P → Option Bytes) → (writes : Bool) → List P → Option Bytes
reply marshal writes peers = elim (marshal peers) [
  | none ↦ none
  | some bytes ↦ if writes then some bytes else none
]

pub data StartError : Type 0 where
  connect_failed stream_failed read_failed unmarshal_failed close_failed : StartError

-- What `Start` uses of the host, the stream and json.
pub record Host (P : Type 0) : Type 0 where
  pub connects : P → Bool
  pub opens_stream : Bool
  pub read_all : Option Bytes
  pub unmarshal : Bytes → Option (List P)
  pub closes : Bool

-- `Start`: the peers that it is connected to, and its error; `none` is nil. A peer that it cannot
-- connect to is logged.
unfoldable pub start : {P : Type 0} → Host P → P → List P × Option StartError
start host bootstrapper =
    if host.connects bootstrapper
    then if host.opens_stream
      then elim host.read_all [
        | none ↦ (bootstrapper ∷ [], some read_failed)
        | some bytes ↦ elim (host.unmarshal bytes) [
          | none ↦ (bootstrapper ∷ [], some unmarshal_failed)
          | some peers ↦ (
            bootstrapper ∷ keep_if host.connects peers,
            if host.closes then none else some close_failed,
          )
        ]
      ]
      else (bootstrapper ∷ [], some stream_failed)
    else ([], some connect_failed)
