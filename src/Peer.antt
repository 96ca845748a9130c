-- ===== src/Peer.antt =====
-- src/shared/session: the state that a session has on both sides, and how it sends and receives.
pub mod State
