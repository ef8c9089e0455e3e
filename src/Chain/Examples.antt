-- ===== src/Chain/Examples.antt =====
-- A round of a chain with one includer: it cleans up, proposes and goes on to the next height.
use unison.Base.{ℕ, ◌≡◌, ◌↔◌, refl, arith, subst, List, Bool, true, Option, none, some, [], ◌∷◌}
use unison.Base.Key.{bytes_key, bytes_discrete}
use unison.Base.Map.{lookup, delete}
use unison.Messages.{Message}
use unison.Subs.{no_subs, release}
use unison.MemPool.{MemPool, delete_batch, batches_of, list_by_signer, hash}
use unison.Quorum.{Includers, Quorum, Certificate, new_quorum}
use unison.Quorum.Examples.{solo, solo_final, solo_whole, solo_listed, solo_final-IsValid, block}
use unison.Block.{BlockId, is_valid_id, hex, message_id, unmarshal, marshal, new_block, hash_block}
use unison.Block.Examples.{toy, toy-IsDocumented, digest, batch}
use unison.Chain.{
  hash_message, pull_got, pull_deleted, pull_failed, pull_all, batch_missing, certify, Chain,
  new_chain, waits, fails, finishes, includers_failed, delete_all, clean, assemble, propose,
  start_round, list_and_propose,
}
use unison.Chain.Certify.{IsCertifiable, certify-none_iff}
use unison.Chain.Assembly.{IsProposal, assemble-IsProposal, IsCleaned, clean-IsCleaned}
use unison.Chain.Running.{Running, between, begun, begins, completes, Reach, here, next, IsBuilt}
use unison.Chain.Broadcasting.{round_broadcast, begun-IsBuilt_on_rounds}
use unison.Round.{StateOp, run}
use unison.Round.Examples.{proposal, last_signature, solo_adds, becomes_final}
use unison.Quorum.Total.{IsValidSet}

-- The certificate of the last height, over a block with one batch.
abbrev last : Certificate
last = record solo_whole { msg = record block { payload = 2 ∷ 171 ∷ 1 ∷ [] } }

abbrev at_three : Chain
at_three = record { height = 3; last_certs = last ∷ [] }

-- The batch of the last height and a new one.
abbrev pool : MemPool
pool = record {
  batches =
      (171 ∷ [], record { batch = batch; time = 7 })
      ∷ (172 ∷ [], record { batch = batch; time = 8 })
      ∷ [];
  batches_subs = no_subs;
}

abbrev pub cleaned : MemPool
cleaned = record pool { batches = (172 ∷ [], record { batch = batch; time = 8 }) ∷ [] }

abbrev pub includers : ℕ → Option Includers
includers _ = some solo

abbrev broadcast : Message → Quorum → Bool × Quorum
broadcast _ _ = (true, solo_final)

-- The block of height 3 over one batch and no parents, as a message.
abbrev pub first_message : Message
first_message = record {
  id = record { round = 3; signer = 1 ∷ []; hash = 171 ∷ []; string = 65 ∷ 66 ∷ [] };
  payload = 3 ∷ 171 ∷ 1 ∷ [];
}

abbrev pub at_start : Chain
at_start = record { height = 3; last_certs = [] }

abbrev at_next : Chain
at_next = record { height = 4; last_certs = solo_whole ∷ [] }

starts : new_chain ≡ record { height = 1; last_certs = [] }
unfolding new_chain
starts = refl

cleans : clean toy (last ∷ []) pool ≡ some ((7 ∷ []) ∷ [], cleaned)
unfolding clean delete_all delete_batch release delete bytes_discrete unmarshal no_subs lookup
cleans = refl

pub assembled : assemble toy digest 3 (1 ∷ []) (batch ∷ []) [] ≡ some (some first_message)
unfolding assemble hash_block marshal new_block message_id hash hex
assembled = refl

finished :
    start_round toy digest includers broadcast (1 ∷ []) at_start cleaned
    ≡ finishes first_message at_next cleaned
unfolding start_round list_and_propose clean assemble propose hash_block marshal new_block
    message_id hash hex list_by_signer batches_of bytes_discrete
finished = rw solo_listed refl

no_includers :
    start_round toy digest (λ _. none) broadcast (1 ∷ []) at_start cleaned
    ≡ fails includers_failed at_start cleaned
unfolding start_round list_and_propose clean assemble propose hash_block marshal new_block
    list_by_signer batches_of bytes_discrete hash
no_includers = refl

idle : start_round toy digest includers broadcast (2 ∷ []) at_start cleaned ≡ waits cleaned
unfolding start_round list_and_propose clean list_by_signer batches_of bytes_discrete
idle = refl

-- An id with a hash of 32 bytes.
abbrev full_id : BlockId
full_id = record {
  round = 3;
  signer = 1 ∷ [];
  hash = some (
      0 ∷ 1 ∷ 2 ∷ 3 ∷ 4 ∷ 5 ∷ 6 ∷ 7 ∷ 0 ∷ 1 ∷ 2 ∷ 3 ∷ 4 ∷ 5 ∷ 6 ∷ 7 ∷ 0 ∷ 1 ∷ 2 ∷ 3 ∷ 4 ∷ 5 ∷ 6 ∷ 7
      ∷ 0 ∷ 1 ∷ 2 ∷ 3 ∷ 4 ∷ 5 ∷ 6 ∷ 7 ∷ []);
}

certified : certify toy (λ _. pull_deleted) full_id (some (3 ∷ 171 ∷ 1 ∷ [])) ≡ none
unfolding certify pull_all is_valid_id unmarshal
certified = refl

missing : certify toy (λ _. pull_failed) full_id (some (3 ∷ 171 ∷ 1 ∷ [])) ≡ some batch_missing
unfolding certify pull_all is_valid_id unmarshal
missing = refl

hashes : hash_message digest first_message ≡ 171 ∷ []
unfolding hash_message
hashes = refl

-- The witnesses.
certify-none_iff_example :
    (certify toy (λ _. pull_got) full_id (some (3 ∷ 171 ∷ 1 ∷ [])) ≡ none)
    ↔ IsCertifiable toy (λ _. pull_got) full_id (some (3 ∷ 171 ∷ 1 ∷ []))
certify-none_iff_example = certify-none_iff toy (λ _. pull_got) full_id (some (3 ∷ 171 ∷ 1 ∷ []))

assemble-IsProposal_example : IsProposal toy digest 3 (1 ∷ []) (batch ∷ []) [] first_message
assemble-IsProposal_example =
    assemble-IsProposal toy digest 3 (1 ∷ []) (batch ∷ []) [] first_message toy-IsDocumented
      assembled

clean-IsCleaned_example : IsCleaned toy (last ∷ []) pool ((7 ∷ []) ∷ []) cleaned
clean-IsCleaned_example = clean-IsCleaned toy (last ∷ []) pool cleaned ((7 ∷ []) ∷ []) cleans

-- The goroutine from its start to its second height.
abbrev message_one : Message
message_one = record first_message {
  id = record { round = 1; signer = 1 ∷ []; hash = 171 ∷ []; string = 65 ∷ 66 ∷ [] };
  payload = 1 ∷ 171 ∷ 1 ∷ [];
}

abbrev second_height : Running
second_height = record {
  chain = record { height = 2; last_certs = solo_whole ∷ [] };
  pool = cleaned;
  stage = between;
}

-- The loop of the round takes the node's own proposal and the signature that makes it final.
abbrev round_ops : ℕ → Message → List StateOp
round_ops _ _ = proposal 2 ∷ last_signature ∷ []

abbrev on_round : ℕ → Message → Quorum → Bool × Quorum
on_round k = round_broadcast (round_ops k) (λ _. true)

round_finishes : on_round 0 message_one (new_quorum solo) ≡ (true, solo_final)
unfolding round_broadcast run
round_finishes = ground (arith, solo_adds, becomes_final)

first_finished :
    list_and_propose toy digest includers (on_round 0) (1 ∷ []) [] new_chain cleaned
    ≡ finishes message_one second_height.chain cleaned
unfolding new_chain list_and_propose assemble propose hash_block marshal new_block message_id hash
    hex list_by_signer batches_of bytes_discrete
first_finished = rw (round_finishes, solo_listed) refl

pub nothing_to_clean : clean toy [] cleaned ≡ some ([], cleaned)
unfolding clean
nothing_to_clean = refl

to_second_height : Reach toy digest includers on_round (1 ∷ []) (begun cleaned) second_height
unfolding begun new_chain
to_second_height =
    next (next here (begins [] cleaned refl nothing_to_clean))
      (completes 0 [] message_one second_height.chain cleaned refl first_finished)

valid_sets : (n : ℕ) (incl : Includers) → includers n ≡ some incl → IsValidSet incl
valid_sets n incl e = let same : solo ≡ incl = cc in subst IsValidSet same solo_final-IsValid.set

begun-IsBuilt_on_rounds_example : IsBuilt toy digest includers on_round (1 ∷ []) second_height.chain
begun-IsBuilt_on_rounds_example =
    begun-IsBuilt_on_rounds toy digest includers round_ops (λ _ _. true) (1 ∷ []) cleaned
      second_height valid_sets to_second_height
