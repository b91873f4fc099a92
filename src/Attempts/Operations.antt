-- ===== src/Attempts/Operations.antt =====
-- The transactions on the tables of attempts as values, so that they can follow one another in any
-- order.
pub mod Rows
pub mod Tokens
pub mod Fresh
use rss_identity.Common.{ℕ, List, [], ◌∷◌, Result}
use rss_identity.Common.Text.{Text}
use rss_identity.Common.Ids.{Uuid, TenantId}
use rss_identity.Storage.{AuthorityError, Store, AuthenticationCandidate}
use rss_identity.Attempts.{Clock, Tables}
use rss_identity.Attempts.Reserve.{reserve}
use rss_identity.Attempts.Passwords.{PasswordClaim, claim_password, settle_password, clear}
use rss_identity.Attempts.Passwords.Guesses.{left_by}

pub data Operation : Type 0 where
  reserving : Store → Clock → Uuid → Text → Text → Operation
  claiming : Store → Clock → TenantId → Text → Text → Uuid → ℕ → Operation
  settling :
      Store → Clock → ℕ → PasswordClaim → Result AuthenticationCandidate AuthorityError → Operation
  clearing : List Text → Operation

-- What is then stored. A transaction that rolls back changes nothing.
abbrev pub perform : Operation → Tables → Tables
perform (reserving store t tenant scope source) tables =
    left_by tables (reserve store t tenant scope source tables)
perform (claiming store t tenant digest source token timeout) tables =
    left_by tables (claim_password store t tenant digest source token timeout tables)
perform (settling store t instant claim outcome) tables =
    left_by tables (settle_password store t instant claim outcome tables)
perform (clearing digests) tables = clear digests tables

unfoldable pub perform_all : List Operation → Tables → Tables
perform_all [] tables = tables
perform_all (o ∷ os) tables = perform_all os (perform o tables)
