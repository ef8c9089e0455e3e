-- ===== src/Gossip/Examples.antt =====
-- Gossips handled by a node whose parts all succeed, and by one whose certifier refuses.
use unison.Base.{◌≡◌, refl, true, false, some, none, [], ◌∷◌}
use unison.Base.Key.{bytes_key, bytes_discrete}
use unison.Base.Result.{err}
use unison.Messages.{Signature, MessageId, Message}
use unison.Gossip.{
  Which, which_data, which_signature, which_unknown, Gossip, Env, round_got, op_done, op_closed,
  adds_certificate, certifies, deletes_certificate, signs, publishes_signature, adds_signature,
  certify_failed, flow, check_data, certify_or_delete, certify_data, process_data,
  process_signature, process, process_gossip, validation_accept, validation_reject, deliver_gossip,
}
use unison.Gossip.Broadcast.{
  BroadcastEnv, starts, publishes, awaits, stops, publish_failed, broadcast, Ends, broadcast-Ends,
}
use unison.Gossip.Trace.{DataTrace, process_data-DataTrace}

abbrev block_id : MessageId
block_id = record { round = 1; signer = 2 ∷ []; hash = 7 ∷ []; string = 55 ∷ [] }

abbrev block : Message
block = record { id = block_id; payload = 9 ∷ [] }

abbrev signature : Signature
signature = record { body = 3 ∷ []; signer = 4 ∷ [] }

abbrev env : Env
env = record {
  decode = λ _. some block_id;
  is_valid = λ _. true;
  hash = λ _. some (7 ∷ []);
  get_round = λ _. round_got;
  add_certificate = λ _. op_done;
  delete_certificate = λ _. op_done;
  get_certificate = λ _. op_done;
  add_signature = λ _ _. op_closed;
  certify = λ _. true;
  sign = λ _. some signature;
  verify = λ _ _. true;
  publish = λ _ _. true;
}

abbrev gossip_of : Which → Gossip
gossip_of w = record {
  which = w;
  id = some (1 ∷ []);
  payload = some (9 ∷ []);
  signature = some (3 ∷ []);
  signer = some (4 ∷ []);
}

data_gossip : deliver_gossip env (λ _. some (gossip_of which_data)) [] ≡ (
  validation_accept,
  adds_certificate block
      ∷ certifies block
      ∷ signs (1 ∷ [])
      ∷ publishes_signature (1 ∷ []) signature
      ∷ [],
)
unfolding deliver_gossip process_gossip process process_data check_data certify_data
    certify_or_delete bytes_discrete
data_gossip = refl

uncertified :
    process_data (record env { certify = λ _. false }) (gossip_of which_data)
    ≡ flow
        (adds_certificate block ∷ certifies block ∷ deletes_certificate block_id ∷ [])
        (err (some (certify_failed op_done)))
unfolding process_data check_data certify_data certify_or_delete bytes_discrete
uncertified = refl

closed_meanwhile :
    deliver_gossip env (λ _. some (gossip_of which_signature)) []
    ≡ (validation_accept, adds_signature block_id signature ∷ [])
unfolding deliver_gossip process_gossip process process_signature
closed_meanwhile = refl

unknown_gossip :
    deliver_gossip env (λ _. some (gossip_of which_unknown)) [] ≡ (validation_reject, [])
unfolding deliver_gossip process_gossip process
unknown_gossip = refl

garbled : deliver_gossip env (λ _. none) [] ≡ (validation_reject, [])
unfolding deliver_gossip
garbled = refl

abbrev broadcasts : BroadcastEnv
broadcasts = record {
  start_round = λ _. true;
  marshal_id = λ _. some (1 ∷ []);
  publish = λ _ _. true;
  finalize = λ _. true;
  stop_round = λ _. true;
}

all_well :
    broadcast broadcasts block
    ≡ (starts 1 ∷ publishes (1 ∷ []) (9 ∷ []) ∷ awaits 1 ∷ stops 1 ∷ [], none)
unfolding broadcast
all_well = refl

never_stopped :
    broadcast (record broadcasts { publish = λ _ _. false }) block
    ≡ (starts 1 ∷ publishes (1 ∷ []) (9 ∷ []) ∷ [], some publish_failed)
unfolding broadcast
never_stopped = refl

-- The witnesses.
broadcast-Ends_example : Ends broadcasts block (broadcast broadcasts block)
broadcast-Ends_example = broadcast-Ends broadcasts block

process_data-DataTrace_example :
    DataTrace env (gossip_of which_data) (process_data env (gossip_of which_data))
process_data-DataTrace_example = process_data-DataTrace env (gossip_of which_data)
