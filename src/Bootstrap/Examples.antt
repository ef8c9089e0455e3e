-- ===== src/Bootstrap/Examples.antt =====
-- A network of two nodes, and nodes that cannot join one.
use mathlib.Core.List.Perm
use unison.Base.{ℕ, ◌≡◌, ◌≢◌, ◌⊎◌, refl, true, false, not, none, some, [], ◌∷◌, ◌==◌}
use unison.Base.Int.{ℤ, pos, ltb_ℤ, ◌-ℤ◌, ◌≤ℤ◌}
use unison.Base.Key.{Bytes}
use unison.Crypto.{fit, bytes_to_pub_key}
use unison.Quorum.{Includer, Includers}
use unison.Quorum.IncluderSet.{new_includer, new_includers_set}
use unison.Quorum.IncluderSet.Examples.{insertion_sort, insertion_sort-IsSort}
use unison.Bootstrap.{
  Service, new_service, no_key, unreadable, raw, raw_failed, wrong_key_size, gathered, failed,
  panicked, collect, get_members, awaiting_handlers, returned, Serving, serve, counts, opens,
  answers, requests, Reach, here, next, reply, Host, start, stream_failed,
}
use unison.Bootstrap.Members.{get_members_agree}
use unison.Bootstrap.Awaiting.{answered-enough_peers}

abbrev key : ℕ → Bytes
key n = fit 32 (n ∷ [])

abbrev node : ℕ → ℤ → Service
node n size = record { self_public_key = key n; network_size = size }

bad_key_panics : new_service (1 ∷ []) (pos 3) ≡ none
unfolding new_service bytes_to_pub_key
bad_key_panics = refl

made : new_service (key 1) (pos 3) ≡ some (node 1 (pos 3))
unfolding new_service bytes_to_pub_key fit
made = refl

unknown_peer_panics :
    get_members insertion_sort (node 1 (pos 3)) (raw (key 2) ∷ no_key ∷ []) ≡ panicked
unfolding get_members collect bytes_to_pub_key fit
unknown_peer_panics = refl

unreadable_key :
    get_members insertion_sort (node 1 (pos 3)) (unreadable ∷ no_key ∷ []) ≡ failed raw_failed
unfolding get_members collect
unreadable_key = refl

-- A peer whose identity is a key of another scheme.
other_scheme :
    get_members insertion_sort (node 1 (pos 3)) (raw (1 ∷ 2 ∷ []) ∷ []) ≡ failed wrong_key_size
unfolding get_members collect bytes_to_pub_key
other_scheme = refl

no_answer_without_stream :
    start {P = ℕ}
      (record {
        connects = λ _. true;
        opens_stream = false;
        read_all = none;
        unmarshal = λ _. none;
        closes = true;
      })
      4
    ≡ (4 ∷ [], some stream_failed)
unfolding start
no_answer_without_stream = refl

abbrev includer : ℕ → Includer
includer n = record { pub_key = key n; stake = pos 1000 }

-- What node `n` makes of its one peer `m`.
abbrev pair : ℕ → ℕ → Includers
pair n m = new_includers_set insertion_sort (includer n ∷ includer m ∷ [])

sees :
    (n m : ℕ) → get_members insertion_sort (node n (pos 2)) (raw (key m) ∷ []) ≡ gathered (pair n m)
unfolding get_members collect new_includer bytes_to_pub_key fit
sees n m = refl

-- The size is 2: `Serve` waits for one peer, and a request waits too.
abbrev asked : Serving
asked = record (serve (node 1 (pos 2))) { waiting = 9 ∷ [] }

asked_reached : Reach (serve (node 1 (pos 2))) asked
unfolding serve
asked_reached = next here (requests 9)

abbrev answered_once : Serving
answered_once = record (serve (node 1 (pos 2))) {
  phase = awaiting_handlers;
  have = 1;
  dn = true;
  waiting = [];
  answered = 9 ∷ [];
}

answer_reached : Reach (serve (node 1 (pos 2))) answered_once
unfolding serve
answer_reached =
    next (next (next asked_reached (counts 1 refl refl)) (opens refl refl))
      (answers 9 [] [] refl refl)

-- The witnesses.
get_members_agree_example : pair 1 2 ≡ pair 2 1
get_members_agree_example =
    get_members_agree insertion_sort insertion_sort-IsSort (node 1 (pos 2)) (node 2 (pos 2))
      (raw (key 2) ∷ []) (raw (key 1) ∷ []) (pair 1 2) (pair 2 1) (sees 1 2) (sees 2 1)
      (Perm.swap (raw (key 2)) (raw (key 1)) [])

answered-enough_peers_example :
    (answered_once.answered ≡ []) ⊎ ((ltb_ℤ (pos 0) (pos 2) ≡ true) × ((pos 2 -ℤ pos 1) ≤ℤ pos 1))
answered-enough_peers_example = answered-enough_peers (node 1 (pos 2)) answered_once answer_reached

still_waits : asked.phase ≢ returned (some tt)
unfolding serve
still_waits h = cc

positive : ltb_ℤ (pos 0) (pos 2) ≡ true
positive = refl

-- A host of whose peers one is gone; what stands for json writes the peers' numbers.
abbrev host : Host ℕ
host = record {
  connects = λ n. not (n == 3);
  opens_stream = true;
  read_all = some (2 ∷ 3 ∷ []);
  unmarshal = λ bs. some bs;
  closes = true;
}

written : reply (λ ps. some ps) true (2 ∷ 3 ∷ []) ≡ some (2 ∷ 3 ∷ [])
unfolding reply
written = refl

joined : start host 1 ≡ (1 ∷ 2 ∷ [], none)
unfolding start
joined = refl
