-- ===== src/Security.antt =====
-- security/: password hashes, access tokens and content hashes.
pub mod Crypto
pub mod Password
pub mod Jwt
pub mod Sha256
