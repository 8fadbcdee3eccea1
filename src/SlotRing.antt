-- ===== src/SlotRing.antt =====
-- packages/platform/host/call.ts and respond.ts: a slot of the ring, between the worker that calls and the host
-- that answers. System has one slot, where a step is one access that the other side can tell apart: loads that
-- are followed by no such access, and the stores in front of the one that publishes, go with it, and a payload
-- is one piece that stands in the slot in place of the pooled buffer that carries it. Pieces has one call whose
-- payload and answer travel in pieces, and Ring the search for a free slot.
pub mod Slot
pub mod Worker
pub mod Host
pub mod System
pub mod Inv
pub mod WorkerInv
pub mod HostInv
pub mod AnswerInv
pub mod Generations
pub mod Answers
pub mod Ring
pub mod Shutdown
pub mod Pieces
pub mod PieceLaws
pub mod Whole
pub mod Races
mod Examples
