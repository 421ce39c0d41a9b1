-- ===== src/Realtime.antt =====
-- apps/realtime/src: the service that keeps a board's document and its connections.
pub mod Keys
pub mod Stores
pub mod Compactor
pub mod Presence
pub mod Room
pub mod OwnerLock
