-- ===== src/Tests.antt =====
-- Runs of the definitions at concrete inputs, and the theorems at inputs that meet their hypotheses.
mod Agent
mod Authz
mod RateLimits
mod Totp
mod Sessions
mod TwoFactor
mod Bootstrap
mod Csrf
