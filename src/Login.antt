-- ===== src/Login.antt =====
-- The login and the exchange of keys, on the server (src/server/session/session.cpp) and on the client
-- (src/client/session/session.cpp).
pub mod Run
pub mod Server
pub mod Client
pub mod Parts
pub mod Greeting
pub mod Accepting
pub mod Checking
pub mod Closing
pub mod Turns
pub mod Handshake
pub mod Refresh
pub mod Renewal
pub mod Admission
pub mod Kept
