-- ===== src/Tests.antt =====
-- The theorems at concrete inputs: frames on the wire, and the hub's state.
mod Wire
mod State
mod Store
mod Hub
mod Tasks
mod Files
mod Calls
mod Presence
mod Reader
