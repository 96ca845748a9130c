-- ===== src/Crypto.antt =====
-- src/shared/crypto/crypto.cpp: keys, the Xor that derives them, and AES and RSA over OpenSSL.
pub mod Keys
pub mod OpenSsl
pub mod Random
pub mod Rsa
pub mod Aes
pub mod Toy
