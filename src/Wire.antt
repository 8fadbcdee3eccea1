-- ===== src/Wire.antt =====
-- packages/platform/host/provider.ts, and the payloads that it exchanges with the hosts (children.ts, child.ts,
-- deno.ts and the integers of call.ts): what a capability's arguments and answers are as bytes.
pub mod Bits
pub mod Bytes
pub mod Requests
pub mod Unpack
pub mod Spawning
pub mod Pushing
pub mod Answers
pub mod Told
pub mod Ticket
mod Examples
