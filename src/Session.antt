-- ===== src/Session.antt =====
-- server/src/api/session.rs: the login with its lockout, and the first-run setup. Times are whole seconds
-- since 1970; the database and the process read one clock. Queries succeed.
pub mod Laws
pub mod Counts
pub mod Guesses
pub mod Setup
mod Tests
use checkgate.Common.{
  ℕ, suc, ◌+◌, ◌-◌, ◌*◌, String, Bool, true, false, not, ◌&&◌, ◌||◌, Option, none, some, List, [],
  ◌∷◌, ◌++◌, map, length, lookup, ltb, leb, ◌==◌, str_eq, unwrap_or, if◌then◌else◌,
}
use checkgate.Types.{ℤ, pos}
use checkgate.Status.{unauthorized, Result, ok, err, ok_or, ◌>>=◌}
use checkgate.Text.{trim}
use checkgate.Text.Bytes.{as_bytes}
use checkgate.Auth.{SessionClaims, Request, AuthWorld}
use checkgate.Auth.Require.{resolve_session}

-- `MAX_ATTEMPTS`, `WINDOW_MINUTES` and `LOCKOUT_MINUTES`
abbrev pub max_attempts : ℕ
max_attempts = 5

abbrev pub window_minutes : ℕ
window_minutes = 10

abbrev pub lockout_minutes : ℕ
lockout_minutes = 15

-- A row of `users`.
pub record User : Type 0 where
  pub id : ℤ
  pub email : String
  pub name : String
  pub role : String
  pub password_hash : Option String

-- A row of `login_attempts`, without its address.
pub record Attempt : Type 0 where
  pub email : String
  pub attempted_at : ℕ

-- The tables; a project is its slug and its name, `next_user` is the sequence of the ids.
pub record Accounts : Type 0 where
  pub users : List User
  pub attempts : List Attempt
  pub settings : List (String × String)
  pub projects : List (String × String)
  pub next_user : ℕ

pub record UserInfo : Type 0 where
  pub email : String
  pub name : String
  pub role : String
  pub workspace_name : String
  pub is_setup_complete : Bool

pub record LoginRequest : Type 0 where
  pub email : String
  pub password : String

pub record SetupRequest : Type 0 where
  pub workspace_name : String
  pub project_name : String
  pub name : String
  pub email : String
  pub password : String

-- The refusals of a login: the fields are missing; the account is locked; the password is wrong, with the
-- attempts that remain; the password is wrong and the account is now locked.
pub data Refusal : Type 0 where
  required : Refusal
  locked : ℕ → Refusal
  incorrect : ℕ → Refusal
  now_locked : ℕ → Refusal

-- The answer of a login: the session in the cookie, with what is shown of the user.
pub data LoginAnswer : Type 0 where
  welcome : SessionClaims → UserInfo → LoginAnswer
  refuse : Refusal → LoginAnswer

pub record LoggedIn : Type 0 where
  pub answer : LoginAnswer
  pub accounts : Accounts

-- What the handlers take from outside: `to_lowercase`, the verification of a password against the text of
-- a hash, which is false for a text that is no hash, and the hash of a password.
pub record Passwords : Type 0 where
  pub to_lowercase : String → String
  pub verify_password : String → String → Bool
  pub hash_password : String → Option String

-- `attempted_at > NOW() - 10 minutes`, of the email
abbrev pub is_recent : ℕ → String → Attempt → Bool
is_recent now email attempt =
    str_eq attempt.email email && ltb now (attempt.attempted_at + window_minutes * 60)

-- `SELECT COUNT(*) FROM login_attempts WHERE …`
unfoldable pub recent_failures : ℕ → String → List Attempt → ℕ
recent_failures now email [] = 0
recent_failures now email (attempt ∷ attempts) =
    let rest = recent_failures now email attempts in
    if is_recent now email attempt then suc rest else rest

abbrev pub earliest : ℕ → Option ℕ → ℕ
earliest time none = time
earliest time (some other) = if leb time other then time else other

-- `SELECT attempted_at … ORDER BY attempted_at ASC LIMIT 1`
unfoldable pub oldest_in_window : ℕ → String → List Attempt → Option ℕ
oldest_in_window now email [] = none
oldest_in_window now email (attempt ∷ attempts) =
    let rest = oldest_in_window now email attempts in
    if is_recent now email attempt then some (earliest attempt.attempted_at rest) else rest

-- `max(1)`
abbrev pub at_least_1 : ℕ → ℕ
at_least_1 n = if leb 1 n then n else 1

-- the seconds until the lock should end; an attempt in the window is less than 15 minutes old
abbrev pub retry_after : ℕ → Option ℕ → ℕ
retry_after now none = lockout_minutes * 60
retry_after now (some oldest) = at_least_1 ((oldest + lockout_minutes * 60) - now)

unfoldable pub check_lockout : ℕ → String → List Attempt → Option ℕ
unfolding recent_failures oldest_in_window
check_lockout now email attempts =
    if ltb (recent_failures now email attempts) max_attempts
    then none
    else some (retry_after now (oldest_in_window now email attempts))

-- `DELETE FROM login_attempts WHERE …`
unfoldable pub delete_attempts : (Attempt → Bool) → List Attempt → List Attempt
delete_attempts condition [] = []
delete_attempts condition (attempt ∷ attempts) =
    let rest = delete_attempts condition attempts in
    if condition attempt then rest else attempt ∷ rest

unfoldable pub record_failure : ℕ → String → List Attempt → List Attempt
unfolding delete_attempts
record_failure now email attempts =
    delete_attempts (λ a. ltb (a.attempted_at + window_minutes * 2 * 60) now)
      (attempts ++ record { email = email; attempted_at = now } ∷ [])

unfoldable pub clear_attempts : String → List Attempt → List Attempt
unfolding delete_attempts
clear_attempts email attempts = delete_attempts (λ a. str_eq a.email email) attempts

abbrev pub get_workspace_name : Accounts → String
get_workspace_name t = unwrap_or (lookup "workspace_name" t.settings) ""

abbrev pub is_true : Option String → Bool
is_true none = false
is_true (some value) = str_eq value "true"

abbrev pub get_is_setup_complete : Accounts → Bool
get_is_setup_complete t = is_true (lookup "setup_complete" t.settings)

-- what anybody may see
abbrev pub workspace_info : Accounts → String × Bool
workspace_info t = (get_workspace_name t, get_is_setup_complete t)

-- `SELECT … FROM users WHERE email = $1`
unfoldable pub find_user : String → List User → Option User
find_user email [] = none
find_user email (user ∷ users) =
    let rest = find_user email users in if str_eq user.email email then some user else rest

module _ (passwords : Passwords) where
  -- `trim().to_lowercase()`
  unfoldable pub email_of : String → String
  unfolding trim
  email_of text = passwords.to_lowercase (trim text)

  -- the user whose password it is
  abbrev pub has_password : String → Option String → Bool
  has_password password none = false
  has_password password (some hash) = passwords.verify_password password hash

  abbrev pub authenticated : String → Option User → Option User
  authenticated password none = none
  authenticated password (some user) =
      if has_password password user.password_hash then some user else none

  -- a login that the password does not pass
  unfoldable pub fail : ℕ → String → Accounts → LoggedIn
  unfolding record_failure recent_failures
  fail now email t =
      let attempts = record_failure now email t.attempts in
      let remaining = max_attempts - recent_failures now email attempts in
      record {
        answer =
            refuse
              (if remaining == 0 then now_locked (lockout_minutes * 60) else incorrect remaining);
        accounts = record t { attempts = attempts };
      }

  abbrev pub session_of : ℕ → String → User → SessionClaims
  session_of now email user = record {
    user_id = user.id;
    expires_at = pos (now + 7 * 24 * 60 * 60);
    email = email;
    name = user.name;
    role = user.role;
  }

  unfoldable pub succeed : ℕ → String → User → Accounts → LoggedIn
  unfolding clear_attempts
  succeed now email user t = record {
    answer = welcome (session_of now email user) (record {
      email = email;
      name = user.name;
      role = user.role;
      workspace_name = get_workspace_name t;
      is_setup_complete = get_is_setup_complete t;
    });
    accounts = record t { attempts = clear_attempts email t.attempts };
  }

  -- a login that the lockout lets through
  unfoldable pub try_password : ℕ → String → String → Accounts → LoggedIn
  unfolding fail succeed find_user
  try_password now email password t = elim (authenticated password (find_user email t.users)) [
    | none ↦ fail now email t
    | some user ↦ succeed now email user t
  ]

  unfoldable pub login : ℕ → LoginRequest → Accounts → LoggedIn
  unfolding email_of check_lockout try_password
  login now req t =
      if str_eq (email_of req.email) "" || str_eq req.password ""
      then record { answer = refuse required; accounts = t }
      else elim (check_lockout now (email_of req.email) t.attempts) [
        | some seconds ↦ record { answer = refuse (locked seconds); accounts = t }
        | none ↦ try_password now (email_of req.email) req.password t
      ]

module _ (world : AuthWorld) where
  -- the user of the request's session
  unfoldable pub me : Request → Accounts → Result UserInfo
  unfolding resolve_session
  me req t = do
    found ← resolve_session world req
    claims ← ok_or found unauthorized
    ok (record {
      email = claims.email;
      name = claims.name;
      role = claims.role;
      workspace_name = get_workspace_name t;
      is_setup_complete = get_is_setup_complete t;
    })
