-- ===== src/Agent.antt =====
-- src/agent: the operation catalogue and the signed instruction envelopes.
pub mod Utf8
pub mod Bytes
pub mod Catalogue
pub mod Envelope
pub mod Validation
pub mod Signing
