-- ===== src/Sessions.antt =====
-- src/repo/sessions.ts and src/auth/sessions.ts: the table of sessions with its statements, and
-- sign-in, rotation and revocation above them.
pub mod Table
pub mod Statements
pub mod SignIn
pub mod Ending
pub mod Rows
