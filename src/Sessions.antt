-- ===== src/Sessions.antt =====
-- The session manager of the server (src/server/session): `Manager` has the sessions and those that
-- wait, `Limit` what the limit of active ones means for
-- each change, `Runs` for all of them.
pub mod Manager
pub mod Limit
pub mod Runs
