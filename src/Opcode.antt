-- ===== src/Opcode.antt =====
-- src/shared/networking/opcode.h and the two tables of handlers, server/networking/packet/opcode.cpp
-- and client/networking/opcode.cpp. `Filter` has the server's packet filters, `Laws` what the tables
-- guarantee.
pub mod Defs
pub mod Filter
pub mod Laws
