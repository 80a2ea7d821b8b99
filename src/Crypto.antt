-- ===== src/Crypto.antt =====
-- Signatures, envelopes, keys and fingerprints (crates/crypto/src).
pub mod Signing
pub mod Envelope
pub mod ApiKey
pub mod Fingerprint
