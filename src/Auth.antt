-- ===== src/Auth.antt =====
-- server/src/auth.rs: who a request comes from, and what it may do. A request holds what the
-- functions read of it; the rows that the SQL queries return, the clock, the environment, SHA-256
-- and the comparison of bytes are parameters.
pub mod Routes
pub mod Require
pub mod Roles
pub mod Access
mod Tests
use checkgate.Common.{ℕ, ◌≡◌, ◌↔◌, String, Bool, Option, none, some, List}
use checkgate.Types.{ℤ}
use checkgate.Status.{Fetch}

pub record SessionClaims : Type 0 where
  pub user_id : ℤ
  pub expires_at : ℤ
  pub email : String
  pub name : String
  pub role : String

pub record PatIdentity : Type 0 where
  pub claims : SessionClaims
  pub scope : String

-- `SdkKeyEntry` of server/src/state.rs
pub record SdkKeyEntry : Type 0 where
  pub id : ℤ
  pub name : String
  pub value : String
  pub environment_id : Option String

-- The identities that `require_auth` puts in the request's extensions, and `AuthContext` takes.
pub record AuthContext : Type 0 where
  pub session : Option SessionClaims
  pub pat : Option PatIdentity
  pub sdk_key : Option SdkKeyEntry

pub data Method : Type 0 where
  get post put patch delete other : Method

-- `authorization` is the header, if it is text; `cookie` is what the private cookie `lg_session`
-- decrypts and deserializes to.
pub record Request : Type 0 where
  pub method : Method
  pub path : String
  pub query : Option String
  pub authorization : Option String
  pub cookie : Option SessionClaims

-- A row of `users`, without its id.
pub record UserRow : Type 0 where
  pub email : String
  pub name : String
  pub role : String

-- A row of `sdk_keys`.
pub record SdkKeyRow : Type 0 where
  pub id : ℤ
  pub name : String
  pub value : String
  pub environment_id : String

-- A row of `personal_access_tokens`, joined with its user.
pub record PatRow : Type 0 where
  pub id : ℤ
  pub expires_at : Option ℤ
  pub scope : String
  pub user_id : ℤ
  pub email : String
  pub name : String
  pub role : String

-- What the authentication takes from outside. The hash of a token is unique in its table, so there is at
-- most one row with it. `now` is the clock of the process, in seconds, `db_now` the one of the database.
pub record AuthWorld : Type 0 where
  pub user_by_id : ℤ → Fetch UserRow
  pub sdk_key_by_value : String → Fetch SdkKeyRow
  pub pat_by_hash : String → Fetch PatRow
  -- the role in the project that owns the environment
  pub project_role : String → ℤ → Fetch String
  pub now : ℤ
  pub db_now : ℤ
  pub env_sdk_key : Option String
  pub sha256 : List ℕ → List ℕ
  pub constant_time_eq : List ℕ → List ℕ → Bool
