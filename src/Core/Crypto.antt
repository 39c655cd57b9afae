-- ===== src/Core/Crypto.antt =====
-- core/src/crypto: SHA-256 and the storage of passwords.
pub mod Sha256
pub mod Kdf
