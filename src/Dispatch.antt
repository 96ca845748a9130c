-- ===== src/Dispatch.antt =====
-- src/server/session/session.cpp and src/client/session/session.cpp: Session::Update, which takes the
-- packets that have arrived to their handlers.
pub mod Server
pub mod Batches
pub mod Guards
pub mod Host
pub mod Outsiders
