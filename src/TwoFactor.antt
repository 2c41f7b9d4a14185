-- ===== src/TwoFactor.antt =====
-- src/repo/two_factor.ts and src/auth/two_factor.ts: enrolments, recovery codes and challenges.
pub mod Statements
pub mod Redemption
pub mod Laws
pub mod Verification
pub mod Changes
