-- ===== src/Lib.antt =====
-- A verification library for rss-identity, the identity component that a Rust product embeds: local
-- accounts, sessions inside one instance, and federation with the OpenID Connect providers of
-- tenants. It models the crate identity-core (crates/identity-core/src), which holds every decision
-- that does not need the database, the network or HTTP, and of identity-postgres, which calls it in
-- transactions under the lock of a tenant, the limits of attempts, the check of candidates and the
-- deadlines of session proofs.
--
-- Parts, in the order of the dependencies, with the module here and the code it is about, each file
-- of the code under crates/identity-core/src, those of Storage and Attempts under
-- crates/identity-postgres/src (the text of scopes is made in its platform/enterprise.rs):
--   Common               Rust's `Result`, `str`, `i64` and list operations; Common.Text holds a text
--                        as its Unicode scalar values, `bytes` and `len` are its UTF-8 bytes;
--                        Common.Int has `i64` as an integer with checked and saturating operations
--   Identity             lib.rs: PrincipalId, SessionId, InstanceId, IssuerId, ClientId
--   Account.Policy       account/policy.rs: AccountState and its transitions, which bump the epoch
--   Account.Kdf, Login   account.rs: PasswordKdf (at most 4 computations at once), LoginKey, encodings
--   Session              session.rs: SessionSecret, SessionPolicy, SessionLifetime
--   Facts                facts.rs: lifetimes and observation windows, shared by groups and departments
--   Assurance            assurance.rs, step_up.rs: ACR, AMR, Assurance::check, StepUpContext
--   Groups               groups.rs: Groups, UpstreamGroups, GroupFactsMaxAge
--   Department           department.rs: DepartmentSnapshot::new and its tree
--   Profile              profile.rs: the bounded walk over JSON (Profile.Json), Profile, LocalProfile
--   Directory            directory.rs: fields, lists of names, the filter parser (Directory.Filter)
--                        and AccountQuery::parse (Directory.Query)
--   Entra                entra.rs: ExternalSubject, EntraTokenProfile, EntraTokenClaims
--   Enterprise           enterprise.rs: EnterpriseTarget, and the text of its scopes
--   Federation.Errors    federation.rs: FederationError and its diagnostics
--   Federation.Settings  federation.rs, federation/credentials.rs: provider settings and credentials
--   Federation.State     federation.rs: Purpose and StateSigner, the signed state of a flow
--   Federation.Upstream  federation.rs: UpstreamClaims, where subject, groups and profile meet
--   Storage              types.rs, storage.rs: AuthorityError, load, and current, which checks a candidate
--   Storage.Clock        session_storage.rs: TimeSample, touch and the part of by_id on times;
--                        session_checks.rs; checked_expiry and check_live of sessions.rs
--   Attempts             attempts.rs: the tables of a tenant, attempt, consume, cleanup;
--                        Attempts.Reserve is Authority::reserve; Attempts.Passwords is
--                        password_attempts.rs: claim_password, settle_password, clear;
--                        Attempts.Operations are these transactions as values, for lists
--                        of them in any order; Attempts.Steps is their reachability
--   Oidc                 assurance.rs of crates/identity-oidc/src: normalize; Oidc.Egress is egress.rs:
--                        allowed and VettedResolver::resolve
--
-- Correspondence. A function of the code that can fail returns `Result` with the code's error; a
-- method on `&mut self` returns the new state; a record has the fields of the struct. Private
-- constructors are functions here, and only what they accept counts as a value of the type. A
-- counter that is passed by `&mut` (the members of Profile.Json) is passed and returned. The
-- asynchronous PasswordKdf is a state with the steps admit, finish and close, in any order, and
-- what an await waits for is a test of that state. A `BTreeMap` is a list of its entries, looked up
-- by key, and a `BTreeSet` of things already seen is a list. Texts in `format!` are written out.
--
-- The database. A table is the list of a tenant's rows, and a statement is a function on it, with NULL
-- as none. A transaction takes the stored state and returns what it commits with its value, which can
-- itself be an error, or an error that rolls it back; the lock of the tenant makes transactions run one
-- after the other. In Attempts each call of `clock_timestamp()` has a reading of its own, in
-- microseconds, since the clock moves inside a statement; a statement that deletes has one for all
-- rows.
--
-- Bounds. Loops recurse on the list or on the number that bounds them: the climb of a department
-- tree on its 16 levels, the walk over JSON on the value, the filter parser on its 17 depths and, in a
-- set, on the 64 values that it may have. One loop runs on fuel: the items of a conjunction or an
-- alternative, each of which follows a separator, so that one more than the characters left is enough,
-- as Directory.Filter.Bounds proves. `i64` values are integers and each addition is the checked or
-- saturating one of the code; `usize` counts that are compared with small limits are natural numbers,
-- and the one checked addition on `usize` is at 64 bits. Instants have a latest one as a
-- parameter. The 32-bit length in a state's message wraps.
--
-- Parameters. SHA-256, HMAC, base64, Argon2, the semaphore and the task tracker of tokio, the parser
-- of the url crate, the texts and bytes of UUIDs and tenants, the networks of the ipnet crate, and the length
-- of serde_json's output are arguments of the definitions that use them. What is relied on of them is
-- a record of named laws, in Account.Kdf, Entra.StorageKeys, Federation.State.Wire and
-- Oidc.Egress.Vetted.
--
-- Not modelled: the enterprise claims; the derived serde code, Debug output and zeroizing; random
-- identifiers; the traits of the adapters; of identity-postgres all but the above, among it the rows of
-- sessions and the federation flows; of identity-oidc all but assurance.rs and egress.rs; the crate
-- identity-http-axum and the application app/identity, which are HTTP around it.
pub mod Common
pub mod Account
pub mod Session
pub mod Federation
pub mod Facts
pub mod Assurance
pub mod Groups
pub mod Department
pub mod Directory
pub mod Identity
pub mod Entra
pub mod Enterprise
pub mod Profile
pub mod Attempts
pub mod Storage
pub mod Oidc
