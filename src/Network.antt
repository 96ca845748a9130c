-- ===== src/Network.antt =====
-- src/server/networking: the requests of the network manager and the threads that serve them.
pub mod System
pub mod Threads
