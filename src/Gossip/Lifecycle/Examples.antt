-- ===== src/Gossip/Lifecycle/Examples.antt =====
-- A broadcaster that starts and stops, and one that cannot stop.
use unison.Base.{ℕ, ◌≡◌, refl, true, false, none, some, [], ◌∷◌}
use unison.Manager.{new_manager}
use unison.Gossip.Lifecycle.{
  PubSub, subscribe_failed, Broadcaster, new_broadcaster, new_started, start, stop_all,
}

abbrev willing : PubSub
willing = record {
  joins = true;
  subscribes = true;
  registers = true;
  closes = true;
  unregisters = true;
}

-- A round is named by its number; all are final, and all stop.
abbrev busy : Broadcaster ℕ
busy = record (new_broadcaster) {
  rounds = record new_manager { rounds = (3, 3) ∷ []; latest_round = 3 };
}

half_started :
    start {R = ℕ} {E = ℕ} (record willing { subscribes = false }) busy
    ≡ (some subscribe_failed, record busy { topic = true })
unfolding start
half_started = refl

busy_starts : (start {R = ℕ} {E = ℕ} willing busy).0 ≡ none
unfolding start
busy_starts = refl

never_subscribed : stop_all {R = ℕ} {E = ℕ} (λ _. none) (λ _. none) willing busy ≡ none
unfolding stop_all new_broadcaster
never_subscribed = refl

orchestrated :
    new_started {R = ℕ} {E = ℕ} willing
    ≡ (none, record (new_broadcaster) { topic = true; sub = true; validator = true })
unfolding new_started start
orchestrated = refl
