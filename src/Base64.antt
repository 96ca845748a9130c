-- ===== src/Base64.antt =====
-- src/shared/crypto/base64.cpp: the text form of the names and messages inside XML.
pub mod Defs
pub mod Roundtrip
