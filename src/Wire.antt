-- ===== src/Wire.antt =====
-- The packets of a session on the socket (src/shared/session/sessionbase.cpp): `Params` has what the
-- ciphers are given, `Socket` the sending and the receiving, `Arrival` the way from one to the other,
-- `Stream` a frame that has come whole or in part, `Delivery` a packet that is sent and then read off the
-- stream.
-- `Hybrid` has when Encrypt returns in the hybrid mode, and `Sealed` what SendPacketToSocket does for a session
-- that can encrypt.
pub mod Params
pub mod Socket
pub mod Arrival
pub mod Kept
pub mod Stream
pub mod Delivery
pub mod Sealed
pub mod Hybrid
