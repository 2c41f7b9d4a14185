-- ===== src/Totp.antt =====
-- src/auth/totp.ts: the shared secret as text, the code of a step and its verification, and the
-- recovery codes.
pub mod Base32
pub mod Code
pub mod Verification
pub mod Recovery
