-- ===== src/Buffer.antt =====
-- src/shared/utility/bytebuffer.h and byteconverter.h: the buffer that every packet is built on.
-- `Defs` has the class, `Words` the layout of integers; the laws are in the other children.
pub mod Words
pub mod Defs
pub mod Append
pub mod Read
pub mod Text
pub mod Bounds
pub mod Fields
pub mod Containers
pub mod Codecs
pub mod Maps
