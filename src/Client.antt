-- ===== src/Client.antt =====
-- src/client/session/session.cpp and src/client/client-core.cpp: the client of one user. `Screen` has
-- what the user is shown, `Session` the handlers of what the server sends, `Update` the loop that calls
-- them, `Core` what the user types.
-- `Toy` has a vasprintf that satisfies what is assumed of the C library's.
pub mod Screen
pub mod Session
pub mod Update
pub mod Sending
pub mod Core
pub mod Stuck
pub mod Formats
pub mod Injection
pub mod Conversation
pub mod Users
pub mod Toy
