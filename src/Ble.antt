-- ===== src/Ble.antt =====
-- slimhub/ble: the sessions, their registry, and the central that makes them. A session is a mutable
-- object that the registry refers to, so it stands in a heap, and the registry holds its number.
pub mod Registry
pub mod Session
pub mod Central
pub mod Notify
pub mod Worker
pub mod Task
