-- ===== src/Finalization.antt =====
-- A round of rebro/gossip/internal/round over the quorum of dag/quorum, as every node runs them:
-- when the one closes `finalCh` and what certificates and signatures it takes to get there.
pub mod Valid
pub mod Deleted
pub mod Prompt
pub mod Arrival
pub mod Settled
mod Examples
pub mod LoopExamples
pub mod Convergence
mod OrderExamples
