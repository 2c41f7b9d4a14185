-- ===== src/Lib.antt =====
-- Ratline, a control plane for hosts and sites: the parts that decide and that sign.
--
-- Parts and files
--   Prelude      names, Boolean tests, lists and texts that the other modules share. A JavaScript
--                string is the list of its UTF-16 code units (Prelude/Text); identifiers that are
--                only compared are native strings.
--   Regex        the regular expressions that the source writes, tested by derivatives.
--   Agent        src/agent: the catalogue of operations (Agent/Catalogue, with the patterns of
--                src/agent/catalogue.ts in Agent/Catalogue/Patterns), TextEncoder (Agent/Utf8), the
--                big-endian integers (Agent/Bytes), canonicalBytes (Agent/Envelope),
--                assertArgumentsMatch (Agent/Validation), signInstruction and verifyEnvelope
--                (Agent/Signing).
--   Database     the tables of src/db/migrations that the decision reads, and the rows that a
--                transaction of a tenant sees (scoped of src/db/internal/handle.ts).
--   Authz        src/authz and src/repo/authorization.ts: the actions (Authz/Catalogue), the default
--                roles (Authz/Roles), live_grants, effective_grants and grant_decision of
--                src/db/migrations (Authz/Grants), can and require, with checkFreshness of
--                src/repo/reauthentication.ts (Authz/Can).
--   RateLimits   src/repo/rate_limits.ts and src/auth/rate_limit.ts: the table and its statements
--                (RateLimits), transactions over several buckets (RateLimits/Transactions), the order
--                of their locks (RateLimits/Locks), and checkAuthRateLimit, recordAuthAttempt and
--                resetAuthRateLimit (RateLimits/Policy).
--   Bootstrap    src/api/bootstrap_token.ts: the token that claims an installation, on the two files
--                of the secrets directory.
--   Csrf         checkCsrf of src/api/csrf.ts, and isSafeMethod of src/api/routes.ts.
--   Totp         src/auth/totp.ts: base32 (Totp/Base32), the code of a step (Totp/Code), its
--                verification in a window (Totp/Verification) and recovery codes (Totp/Recovery).
--   Sessions     src/repo/sessions.ts and src/auth/sessions.ts: the tables of accounts (Sessions/Table),
--                the transactions on sessions (Sessions/Statements), signIn with the demand for a
--                second factor (Sessions/SignIn), rotateSession, signOut, revokeSession and the changes
--                of a password (Sessions/Ending).
--   TwoFactor    src/repo/two_factor.ts: policies, challenges and enrolments (TwoFactor/Statements),
--                confirmEnrolment, clearSecondFactor and redeemChallenge (TwoFactor/Redemption); and
--                src/auth/two_factor.ts: verifySecondFactor (TwoFactor/Verification), the enrolment,
--                its reset and the policy (TwoFactor/Changes).
--   Runs         sequences of these transactions, in the order in which they commit.
--   Tests        runs at concrete inputs, and the theorems at inputs that meet their hypotheses.
--
-- How they interact
--   require calls can and then checkFreshness; can calls the queries of Authz/Grants on the view of
--   the tenant. signInstruction looks the operation up in the catalogue, validates the arguments and
--   signs the canonical bytes. A function of RateLimits/Policy makes the buckets of an attempt and runs
--   one transaction of RateLimits/Transactions, which runs the statements of RateLimits in the order of
--   their locks. signIn reads the account, ends the presented session, reads what the second factor
--   demands and starts a session or a challenge; redeemChallenge spends a factor and the challenge.
--
-- Conventions
--   A function that throws returns a result (Result, Outcome, Required). A store is passed and returned.
--   The instants are arguments in milliseconds: statement_timestamp() is a field of the database or a
--   function of the statement's place in its transaction. No definition runs on fuel: all recursion is
--   on lists, numbers and regular expressions; a code is printed with the ten digits that hold any
--   number below 2 ^ 31, and what is printed is shown to be the number (Totp/Code/Digits). Lengths and times are natural numbers, and where the
--   source writes 4 or 8 bytes the value wraps at 2 ^ 32 or 2 ^ 64. The counting statement casts a limit
--   and a length to PostgreSQL's integer: from 2 ^ 31 on it fails, and the transaction with it.
--
-- Parameters
--   Ed25519 with its keys, HMAC, scrypt, citext, the keyed digest of a CSRF token, SHA-256, Unicode
--   normalisation, lower and upper case, and the parsers of URLs and of query strings are code that
--   the source only calls, and stand as parameters; a theorem that relies on them names what it relies
--   on. What the platform's generator gives is an argument. In Sessions and TwoFactor so is the answer
--   of require, and the opening of a sealed secret.
--
-- Not modelled
--   Input and output, HTTP, the rendering of messages, the web pages, the Go agent, and the database's
--   concurrency beyond the order of statements; a transaction that fails in the middle leaves the table
--   as it was, and a failure of the commit itself is not told apart from one before it.
--   Key rotation, the sealing of secrets, and the chain and the metadata of the audit log are not
--   modelled.
pub mod Prelude
pub mod Regex
pub mod Agent
pub mod Database
pub mod Authz
pub mod RateLimits
pub mod Bootstrap
pub mod Csrf
pub mod Totp
pub mod Sessions
pub mod TwoFactor
pub mod Runs
pub mod Tests
