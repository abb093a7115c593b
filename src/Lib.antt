-- ===== src/Lib.antt =====
-- The authentication crate of this repository: what its parts compute, and what holds of them.
--
-- A request passes the JWT middleware (src/middleware.rs), which puts the user of a verified token
-- into the request's extensions, and then the guards (src/guard.rs), which read that user
-- (src/user.rs) and answer with errors (src/error.rs). Users are known by a password
-- (src/password.rs, behind src/strategy.rs and src/lib.rs), an API key (src/api_key.rs), a magic
-- link (src/passwordless.rs), a second factor (src/two_factor.rs), a provider of OAuth2 or OpenID
-- Connect (src/oauth2.rs, with the settings of each in src/providers/) or a SAML assertion
-- (src/saml.rs).
--
-- Error: `AuthError`. User: `UserContext`, `AuthUser`. Guard: the guards; Guard/Laws says which
-- requests pass, Guard/Denials what the framework answers. Middleware: `JwtAuthMiddleware`, with
-- Header for the `Authorization` header, Forwarded for the requests that it hands on, Identity for
-- the user that is attached, and Access for a guard behind it. ApiKey: the data, Limiter for `check_rate_limit` and `sweep_expired_windows`,
-- Manager for the other operations of `ApiKeyManager`; Window, Quota, Validation, Lifecycle and
-- Scopes have proofs. Passwordless: `MagicLinkToken` and `redeem_magic_link`, with Redemption,
-- SingleUse for concurrent calls, and Progress, Kept and Served for calls that are scheduled to
-- their end, and WebAuthn for `WebAuthnManager`. TwoFactor: `TotpSecret` and `BackupCodes`, with
-- Codes, Replay, Writings and Backup. Password: `PasswordHasher`, with Laws. Strategy: the two strategies,
-- with Local and Jwt. Service: `AuthService`. OAuth2: settings and `PendingAuth`, with Jwks for the
-- cache of keys, IdToken for `verify_id_token`, Flow for `OAuth2Provider`, and the proofs in Cache,
-- Template, Verified, Claims and Exchange. Saml: `SamlConfig`, with Schema for what is read of the `samael` crate, Cache
-- for `InMemoryReplayCache`, Response for `validate_response_verified`, Provider for
-- `validate_response`, Request for `create_auth_request` and Metadata for `get_metadata`; the proofs
-- are in Replay, Interleaved (concurrent calls of the cache), Verified, Accepted, Login, Pem,
-- Attributes and Signed. Providers: one file for each OpenID provider, Social for the four others,
-- Hostname for `validate_hostname`; the proofs are in Authority, Endpoints, Pool, Tenant, Identity
-- and Emails. Samples and Examples run the theorems on concrete inputs.
--
-- Operations on shared state are functions from a state to an answer and a state; concurrent
-- redemption is a schedule of steps. Instants are integers, in nanoseconds, or seconds where the
-- code compares seconds. `u64` and `u32` arithmetic wraps or saturates as written in the source.
-- Random bytes, clock readings, network answers and blocking-pool failures are arguments. What the
-- crate calls of others is an interface: Crypto for the hash functions, Http for `armature_core`,
-- Json for `serde_json`, `Codecs` for TOTP and QR codes, `Kdf` for bcrypt and argon2, `JwtLibrary`
-- for `jsonwebtoken`, `Samael` for `samael`, `WebauthnRs` for `webauthn-rs`, and `Table` for
-- `DashMap`. The SAML model is that of the crate's `saml` feature. Texts that the code walks are
-- lists of code points; `decimal` prints at most twenty digits, which is enough for 64 bits. All
-- loops are recursions on their lists.
--
-- Left out: the HTTP client, which only converts between two crates, and the implementations of
-- `Debug` and of serialization.
mod Prelude
pub mod Error
pub mod User
pub mod Crypto
pub mod Http
pub mod Json
pub mod Guard
pub mod Middleware
pub mod ApiKey
pub mod Passwordless
pub mod TwoFactor
pub mod Password
pub mod Strategy
pub mod Service
pub mod OAuth2
pub mod Saml
pub mod Providers
mod Samples
mod Examples
