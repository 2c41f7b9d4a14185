-- ===== src/Authz.antt =====
-- src/authz and src/repo/authorization.ts: actions, roles, grants and the decision.
pub mod Catalogue
pub mod Roles
pub mod Grants
pub mod Can
