-- ===== src/Packet.antt =====
-- src/shared/networking/packet.h and packet.cpp: the packets that sessions exchange.
-- `Defs` has the class Packet, the frame header and the two ways through it; the laws are in the
-- other children.
pub mod Defs
pub mod Writing
pub mod Frame
pub mod Replay
pub mod Transfer
pub mod Seal
pub mod Unseal
pub mod Sealing
