-- ===== src/Lib.antt =====
-- A model of unison, a DAG of blocks over quorum-based reliable broadcast (Go).
--
-- How the program is put together. A node proposes a block per round and broadcasts it
-- (rebro/gossip). Every node that gets a proposal checks and certifies it, adds it to the round's
-- quorum, and broadcasts its signature; a certificate is complete when signers with more than two
-- thirds of the stake have signed, and a round is final when the proposers of its complete
-- certificates have more than two thirds of the stake (dag/quorum). The batches that blocks name
-- are multicast separately and kept in a pool (bapl). Signatures are ed25519 (crypto).
--
-- Which file models what.
--   Base, Base/*     shared: byte strings and keys, maps as association lists, int64, results.
--   Messages         crypto/api_sign.go, rebro/api_message.go, bapl/api.go: the values passed on.
--   Quorum           dag/quorum/includer.go, quorum.go, certificate.go. `safe_add` is `safeAdd`,
--                    `find_includer` the loop of `GetByPubKey`, `total_stake_of` `TotalStake` with
--                    its cache, `add_signature` with `complete` and `count_certificate`
--                    `addSignature`, `sign` a certificate's `AddSignature`. Quorum/* are the
--                    proofs: SafeAdd and Total on int64, Signing and Invariant on certificates and
--                    the quorum, Intersection and Finality on what a complete certificate means.
--                    Quorum/IncluderSet has `NewIncludersSet`, `Less` and `Validate`.
--   Certificates     rebro/api_certificate.go: the interface `QuorumCertificate` as a record, and the
--                    contract that a round relies on; Quorum/Contract is the quorum as one.
--   Round            rebro/gossip/internal/round/round.go and state_op.go. `state_add`, `state_get`,
--                    `state_delete` and `state_add_sign` are the methods of those names, `do_op` is
--                    `doOp` and `run` the loop over a sequence of operations. Round/Loop has the
--                    goroutine with its channels as a step relation, Round/Delivery `execOp`,
--                    `GetCertificate` and the channels of the answers, Round/Waiting `Stop` and
--                    `Finalize`.
--   Subs             the maps of waiting channels of bapl/mem.go and manager.go, with the inner maps
--                    in a store, since a caller keeps hold of the one that it subscribed in.
--   Manager          rebro/gossip/internal/round/manager.go, one function per critical section.
--   MemPool          bapl/mem.go, one function per critical section.
--   Gossip           rebro/gossip/process.go and broadcaster.go: `process_gossip`, `deliver_gossip`,
--                    Gossip/Broadcast for `Broadcast`, Gossip/Lifecycle for `Start` and `Stop`
--                    and for orchestrator.go, Gossip/Sending for `broadcastGossip` and the
--                    accessors of rebro/gossip/gossipmsg/gossip.capnp.go.
--   Crypto           crypto/ed25519/ed25519.go and crypto/local/signer.go.
--   Multicast        bapl/multicast.go: receiving and pushing batches; Multicast/Sending has the sending,
--                    Multicast/Serving `Start` and `Stop`.
--   Block            dag/block/block.go and id.go: blocks, ids, their bytes over capnp, the hash that a
--                    block keeps, and `hex` for the `%X` of an id's `String`.
--   Chain            dag/chain.go, certifier.go and hasher.go: `start_round` is `startRound`, with `clean`
--                    for its loop over the last certificates, `assemble` for the block, and
--                    `propose` for the broadcast; `certify` is `Certify`. Chain/Running has the
--                    goroutine of `run`, Chain/Broadcasting the chain over the rounds of Round,
--                    Chain/Progress when it goes on to the next height.
--   Node             the composition: a node's rounds over their quorums and the operations of its gossip
--                    handlers, as a step relation. Node/Projection leads a node's rounds back to
--                    runs of Round, Node/Attesting a gossip from node to node.
--   Bootstrap        unison-poc/bootstrap/bootstrap.go: `get_members` is `GetMembers`, `serve` and the
--                    steps of `Serving` are `Serve` with its handlers, `start` is `Start`.
--   Startup          unison-poc/main.go and randomizer.go: `get_identity` is `getIdentity` over the state
--                    of the home directory, `run` the parts that are started and stopped, and what
--                    is only set up.
--   Finalization     a round of Round over the quorum of Quorum, as every node runs them: when
--                    `finalCh` is closed, and what proposals and signatures it takes.
-- Each component has an Examples module with runs at concrete inputs (and Quorum/Witnesses).
--
-- Conventions. A Go panic, or a wait that never ends, is `none` of the result; an error is a value.
-- `int64` is an integer with every operation wrapped to 64 bits. A Go map is an association list; the
-- order in which Go visits a map is the list's. The code holds a mutex, or runs on one goroutine, for
-- each critical section, so a section is a function and interleavings are sequences of sections; a
-- round's `Stop` has no mutex, so its check and its close are two steps. No definition needs fuel: a
-- loop of the code runs over a list, or it is a relation of steps.
--
-- What is not modelled. capnp (with the generated files of blocks and batches), libp2p, pubsub, sha256 and
-- ed25519 are arguments; the documented behaviour of ed25519, capnp and `sort.Sort` is a named
-- hypothesis where a theorem relies on it. Contexts and timeouts are modelled where they change shared
-- state, as the step that the cancelled caller takes.
-- The flags, the addresses and the logging of the executable (unison-poc/main.go) are I/O.
pub mod Base
pub mod Messages
pub mod Quorum
pub mod Certificates
pub mod Round
pub mod Subs
pub mod MemPool
pub mod Block
pub mod Chain
pub mod Node
pub mod Bootstrap
pub mod Startup
pub mod Manager
pub mod Finalization
pub mod Gossip
pub mod Crypto
pub mod Multicast
