-- ===== src/Startup.antt =====
-- unison-poc/main.go: the identity that a node keeps in a file, and what `run` starts and stops. The
-- operating system, libp2p and the network are arguments: `Disk` and `Outcomes` say what each of
-- their calls does.
pub mod Identity
pub mod Shutdown
mod Examples
use unison.Base.{
  ℕ, zero, suc, ◌≡◌, Bool, true, false, Option, none, some, List, [], ◌∷◌, ◌++◌, if◌then◌else◌,
}
use unison.Base.Int.{ℤ, pos, leb_ℤ}
use unison.Base.Key.{Bytes}
use unison.Base.Result.{Result, ok, err}
use unison.Messages.{Batch}
use unison.Crypto.{fit}

-- The user's home directory: whether the node's directory is there, and the contents of the key file.
pub record Home : Type 0 where
  pub has_dir : Bool
  pub key_file : Option Bytes

pub data IdentityError : Type 0 where
  no_home mkdir_failed create_failed generate_failed marshal_failed : IdentityError
  write_failed sync_failed read_failed unmarshal_failed raw_failed : IdentityError

-- What the calls of one `getIdentity` do.
pub record Disk : Type 0 where
  pub has_home : Bool
  -- `Mkdir` of a directory that is not there, and `Open` of a file that is
  pub makes_dir : Bool
  pub opens : Bool
  pub creates : Bool
  -- the key that is generated, marshalled; `none` are the errors
  pub generated : Option (Option Bytes)
  -- how many bytes a `Write` that fails has written; `none` is one that succeeds
  pub write_stops : Option ℕ
  pub syncs : Bool
  pub reads : Bool

-- The first bytes.
abbrev first_bytes : ℕ → Bytes → Bytes
first_bytes zero bs = []
first_bytes (suc n) [] = []
first_bytes (suc n) (b ∷ bs) = b ∷ first_bytes n bs

-- libp2p's keys: `UnmarshalPrivateKey` and `Raw`.
pub record KeyFormat (K : Type 0) : Type 0 where
  pub unmarshal : Bytes → Option K
  pub raw : K → Option Bytes

-- `getIdentity` where the file cannot be opened: the bytes of the new key, and the home after it.
pub create_key : Disk → Home → Result IdentityError Bytes × Home
create_key d home =
    if d.creates
    then elim d.generated [
      | none ↦ (err generate_failed, record home { key_file = some [] })
      | some none ↦ (err marshal_failed, record home { key_file = some [] })
      | some (some key_bytes) ↦ elim d.write_stops [
        | some n ↦ (err write_failed, record home { key_file = some (first_bytes n key_bytes) })
        | none ↦ (
          if d.syncs then ok key_bytes else err sync_failed,
          record home { key_file = some key_bytes },
        )
      ]
    ]
    else (err create_failed, home)

-- `getIdentity` after the directory is there: the bytes of the key, and the home after it.
pub load_key : Disk → Home → Result IdentityError Bytes × Home
unfolding create_key
load_key d home = elim home.key_file [
  | none ↦ create_key d home
  | some key_bytes ↦
      if d.opens
      then (if d.reads then ok key_bytes else err read_failed, home)
      else create_key d home
]

-- `getIdentity` after the bytes are known.
pub decode_key : {K : Type 0} → KeyFormat K → Bytes → Result IdentityError (K × Bytes)
decode_key f key_bytes = elim (f.unmarshal key_bytes) [
  | none ↦ err unmarshal_failed
  | some p2p_key ↦ elim (f.raw p2p_key) [ none ↦ err raw_failed | some key ↦ ok (p2p_key, key) ]
]

abbrev decoded :
    {K : Type 0} → KeyFormat K → Result IdentityError Bytes → Result IdentityError (K × Bytes)
decoded f (ok key_bytes) = decode_key f key_bytes
decoded f (err e) = err e

-- `getIdentity` where the directory is there.
abbrev identity_in :
    {K : Type 0} → KeyFormat K → Disk → Home → Result IdentityError (K × Bytes) × Home
identity_in f d home = (decoded f (load_key d home).0, (load_key d home).1)

-- `getIdentity`: the libp2p key and the node's key, or the error, and the home after it.
pub get_identity :
    {K : Type 0} → KeyFormat K → Disk → Home → Result IdentityError (K × Bytes) × Home
get_identity f d home =
    if d.has_home
    then if home.has_dir
      then identity_in f d home
      else if d.makes_dir
      then identity_in f d (record home { has_dir = true })
      else (err mkdir_failed, home)
    else (err no_home, home)

-- What `run` starts and, in a `defer`, stops.
pub data Part : Type 0 where
  host pool mcast_pool broadcaster chain : Part

-- What `run` and the parts set up and, where they fail or return, leave as it is: the pubsub, the
-- bootstrap service's stream handler, and the topic that a broadcaster whose start fails has joined.
pub data Opening : Type 0 where
  flood_sub stream_handler topic : Opening

-- How `Broadcaster.Start` ends: `Join` fails; `Subscribe` or `RegisterTopicValidator` fails, with the
-- topic joined; or it succeeds.
pub data BroadcasterStart : Type 0 where
  not_joined left_joined broadcasting : BroadcasterStart

pub data Action : Type 0 where
  starts stops : Part → Action
  sets_up : Opening → Action
  -- random batches are produced, or the node just waits, until the context is done
  produces idles : Action

pub data RunError : Type 0 where
  identity_failed signer_failed address_failed host_failed pubsub_failed : RunError
  bootstrap_failed broadcaster_failed members_failed context_done : RunError

-- Which of the calls of `run` succeed, in their order, and the `is-bootstrapper` and `batch-size`
-- flags.
pub record Outcomes : Type 0 where
  pub identity : Bool
  pub signer : Bool
  pub addresses : Bool
  pub host : Bool
  pub host_addresses : Bool
  pub pubsub : Bool
  pub is_bootstrapper : Bool
  pub bootstrap : Bool
  pub broadcaster : BroadcasterStart
  pub kicks_off : Bool
  pub members : Bool
  pub batch_size : ℤ

-- What a part of `run` did, and how it ended; `none` is nil.
abbrev pub Trace : Type 0
Trace = List Action × Option RunError

-- A call that fails ends the function.
abbrev pub check : Bool → RunError → Trace → Trace
check true e rest = rest
check false e rest = ([], some e)

-- A part is started, and stopped when the function returns.
abbrev pub deferred : Part → Trace → Trace
deferred p (actions, e) = (starts p ∷ (actions ++ stops p ∷ []), e)

-- Something is set up that nothing takes down.
abbrev pub set_up : Opening → Trace → Trace
set_up x (actions, e) = (sets_up x ∷ actions, e)

-- A bootstrapper's `Serve` sets its stream handler before anything in it can fail; `Start`, of the
-- other nodes, sets none.
abbrev pub serve : Bool → Trace → Trace
serve true rest = set_up stream_handler rest
serve false rest = rest

-- `broadcaster.Start` and its deferred `Stop`, which `run` reaches only where the start succeeds.
abbrev pub start_broadcaster : BroadcasterStart → Trace → Trace
start_broadcaster not_joined rest = ([], some broadcaster_failed)
start_broadcaster left_joined rest = set_up topic ([], some broadcaster_failed)
start_broadcaster broadcasting rest = deferred broadcaster rest

-- The end of `run`, once the chain runs.
pub produce : Outcomes → Trace
produce o =
    if leb_ℤ o.batch_size (pos 0)
    then if leb_ℤ (pos 0) o.batch_size
      then (idles ∷ [], some context_done)
      else (produces ∷ [], none)
    else (produces ∷ [], none)

-- `run`
pub run : Outcomes → Trace
unfolding produce
run o = check o.identity identity_failed (
    check o.signer signer_failed (
      check o.addresses address_failed (
        check o.host host_failed (
          deferred host (
            check o.host_addresses address_failed (
              check o.pubsub pubsub_failed (
                set_up flood_sub (
                  serve o.is_bootstrapper (
                    check o.bootstrap bootstrap_failed (
                      deferred pool (
                        deferred mcast_pool (
                          start_broadcaster o.broadcaster (
                            check o.kicks_off context_done (
                              check o.members members_failed
                                (deferred chain (produce o))))))))))))))))

-- `main`: the exit status.
pub main : Outcomes → ℕ
unfolding run
main o = elim (run o).1 [ none ↦ 0 | some e ↦ 1 ]

-- `batchVerifier.Verify`; `none` is an error.
pub verify_batch : Batch → Option Bool
verify_batch batch = some true

-- What the `select` of `RandomBatches` takes: the ticker, with what `rand.Read` writes, or the context.
pub data Tick : Type 0 where
  ticks : Bytes → Tick
  done : Tick

-- `RandomBatches`: the batches that it pushes; a batch without a signature has a nil body.
pub random_batches : (batch_size : ℕ) → List Tick → List Batch
unfolding fit
random_batches batch_size [] = []
random_batches batch_size (done ∷ events) = []
random_batches batch_size (ticks random ∷ events) =
    record { contents = fit batch_size random; signature = record { body = []; signer = [] } }
    ∷ random_batches batch_size events
