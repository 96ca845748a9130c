-- ===== src/Tests.antt =====
-- The theorems at concrete inputs.
mod Buffer
mod Packet
mod Opcode
mod Crypto
mod Rsa
mod Xml
mod Server
mod World
mod Login
mod Wire
mod Scheduling
mod Sessions
mod Commands
mod Client
mod Dispatch
mod Network
