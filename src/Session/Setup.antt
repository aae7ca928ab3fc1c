-- ===== src/Session/Setup.antt =====
-- The first-run setup, and what the later calls find.
pub mod Laws
use checkgate.Common.{
  ℕ, suc, ◌+◌, ◌*◌, String, Bool, true, false, not, ◌&&◌, ◌||◌, Option, none, some, List, [], ◌∷◌,
  ◌++◌, map, length, lookup, ltb, str_eq, if◌then◌else◌,
}
use checkgate.Types.{ℤ, pos}
use checkgate.Status.{
  StatusCode, not_found, unprocessable_entity, internal_server_error, Result, ok, err, ok_or, ◌>>=◌,
}
use checkgate.Text.{trim}
use checkgate.Text.Bytes.{as_bytes}
use checkgate.Auth.{SessionClaims}
use checkgate.Session.{
  User, Accounts, UserInfo, SetupRequest, Passwords, get_is_setup_complete, get_workspace_name,
  find_user, email_of, session_of,
}

-- `INSERT INTO settings … ON CONFLICT (key) DO UPDATE`
unfoldable pub put_setting : String → String → List (String × String) → List (String × String)
put_setting key value [] = (key, value) ∷ []
put_setting key value ((k, v) ∷ settings) =
    let rest = put_setting key value settings in
    if str_eq k key then (key, value) ∷ settings else (k, v) ∷ rest

-- `INSERT INTO users … ON CONFLICT (email) DO UPDATE …`, with the id that a new row has
unfoldable pub put_admin : String → String → String → ℕ → List User → List User
put_admin name email hash next_user [] =
    record {
      id = pos next_user;
      email = email;
      name = name;
      role = "admin";
      password_hash = some hash;
    }
    ∷ []
put_admin name email hash next_user (user ∷ users) =
    let rest = put_admin name email hash next_user users in
    if str_eq user.email email
    then record user { name = name; role = "admin"; password_hash = some hash } ∷ users
    else user ∷ rest

-- `UPDATE projects SET name = $1 WHERE slug = 'default'`, for a name that is not empty
abbrev pub rename_default : String → List (String × String) → List (String × String)
rename_default name projects =
    if str_eq name ""
    then projects
    else map (λ project. if str_eq project.0 "default" then (project.0, name) else project) projects

abbrev pub is_too_short : String → Bool
is_too_short password = ltb (length (as_bytes password)) 8

pub record SetUp : Type 0 where
  pub response : Result (SessionClaims × UserInfo)
  pub accounts : Accounts

-- the id that the transaction returns, of the row that it has put
abbrev pub id_of : Option User → ℤ
id_of none = pos 0
id_of (some user) = user.id

module _ (passwords : Passwords) where
  -- a field that the setup needs is empty
  abbrev pub lacks_field : SetupRequest → Bool
  lacks_field req =
      str_eq (trim req.workspace_name) ""
      || str_eq (trim req.name) ""
      || str_eq (email_of passwords req.email) ""
      || str_eq req.password ""

  -- the checks before the transaction; the hash
  unfoldable pub may_set_up : SetupRequest → Accounts → Result String
  unfolding trim email_of as_bytes
  may_set_up req t =
      if get_is_setup_complete t
      then err not_found
      else if lacks_field req
      then err unprocessable_entity
      else if is_too_short req.password
      then err unprocessable_entity
      else ok_or (passwords.hash_password req.password) internal_server_error

  -- The transaction.
  unfoldable pub set_up : SetupRequest → String → Accounts → Accounts
  unfolding put_setting put_admin trim email_of
  set_up req hash t = record t {
    users = put_admin (trim req.name) (email_of passwords req.email) hash t.next_user t.users;
    settings =
        put_setting "setup_complete" "true"
          (put_setting "workspace_name" (trim req.workspace_name) t.settings);
    projects = rename_default (trim req.project_name) t.projects;
    next_user = suc t.next_user;
  }

  unfoldable pub setup_complete : ℕ → SetupRequest → Accounts → SetUp
  unfolding may_set_up set_up find_user
  setup_complete now req t = elim (may_set_up req t) [
    | err status ↦ record { response = err status; accounts = t }
    | ok hash ↦
        let email = email_of passwords req.email in
        let after = set_up req hash t in
        record {
          response = ok (
            record {
              user_id = id_of (find_user email after.users);
              expires_at = pos (now + 7 * 24 * 60 * 60);
              email = email;
              name = trim req.name;
              role = "admin";
            },
            record {
              email = email;
              name = trim req.name;
              role = "admin";
              workspace_name = trim req.workspace_name;
              is_setup_complete = true;
            },
          );
          accounts = after;
        }
  ]
