-- ===== src/Session/Tests.antt =====
-- Ada, who sets the workspace up, and somebody who guesses her password.
use checkgate.Common.{
  ℕ, ◌≡◌, ◌≤◌, ◌<◌, ◌+◌, refl, arith, String, true, false, none, some, List, [], ◌∷◌, str_eq,
  eq_iff,
}
use checkgate.Types.{pos}
use checkgate.Status.{ok, some_injective}
use checkgate.Auth.{SessionClaims}
use checkgate.Text.{trim}
use checkgate.Text.Bytes.{as_bytes}
use checkgate.Session.{
  Attempt, Accounts, UserInfo, LoginRequest, SetupRequest, Passwords, welcome, recent_failures,
  check_lockout, find_user, email_of, login, try_password, fail, succeed,
}
use checkgate.Session.Laws.{IsEarned, login-IsEarned, check_lockout-expires}
use checkgate.Session.Guesses.{guesses, guesses-bound}
use checkgate.Session.Setup.{setup_complete, may_set_up, set_up, put_admin}
use checkgate.Session.Setup.Laws.{logs_in, sets_up, setups, setups-once, login-setup_complete}

-- a hash that is the password itself
abbrev passwords : Passwords
passwords = record {
  to_lowercase = λ s. s;
  verify_password = λ password hash. str_eq password hash;
  hash_password = λ password. some password;
}

abbrev empty : Accounts
empty = record { users = []; attempts = []; settings = []; projects = []; next_user = 1 }

abbrev accounts : List Attempt → Accounts
accounts attempts = record empty {
  users =
      record {
        id = pos 1;
        email = "ada@x";
        name = "Ada";
        role = "admin";
        password_hash = some "analytical";
      }
      ∷ [];
  attempts = attempts;
}

abbrev request : String → LoginRequest
request password = record { email = "ada@x"; password = password }

abbrev session : SessionClaims
session = record {
  user_id = pos 1;
  expires_at = pos 604900;
  email = "ada@x";
  name = "Ada";
  role = "admin";
}

abbrev info : UserInfo
info = record {
  email = "ada@x";
  name = "Ada";
  role = "admin";
  workspace_name = "";
  is_setup_complete = false;
}

abbrev missed : ℕ → Attempt
missed time = record { email = "ada@x"; attempted_at = time }

is_let_in :
    (login passwords 100 (request "analytical") (accounts (missed 90 ∷ []))).answer
    ≡ welcome session info
unfolding login email_of trim check_lockout recent_failures try_password find_user succeed
is_let_in = refl

login-IsEarned_example :
    IsEarned passwords 100 (request "analytical") (accounts (missed 90 ∷ [])) session
    × ((later : ℕ)
        → recent_failures later
            (email_of passwords "ada@x")
            (login passwords 100
              (request "analytical")
              (accounts (missed 90 ∷ []))).accounts.attempts
          ≡ 0)
login-IsEarned_example =
    login-IsEarned passwords 100 (request "analytical") (accounts (missed 90 ∷ [])) session info
      is_let_in

abbrev five : List Attempt
five = missed 90 ∷ missed 91 ∷ missed 92 ∷ missed 93 ∷ missed 94 ∷ []

soon_after : 94 + 600 ≤ 694
soon_after = omega arith

check_lockout-expires_example : check_lockout 694 "ada@x" five ≡ none
check_lockout-expires_example = check_lockout-expires 694 94 "ada@x" five soon_after refl

abbrev logins : List (ℕ × LoginRequest)
logins =
    (100, request "a")
    ∷ (101, request "b")
    ∷ (102, request "c")
    ∷ (103, request "d")
    ∷ (104, request "e")
    ∷ (105, request "f")
    ∷ []

five_of_six : guesses passwords "ada@x" logins (accounts []) ≡ 5
unfolding guesses login email_of trim check_lockout recent_failures try_password find_user fail
five_of_six = refl

guesses-bound_example : guesses passwords "ada@x" logins (accounts []) ≤ 5
guesses-bound_example = guesses-bound passwords 100 "ada@x" logins (accounts []) refl

abbrev setup : SetupRequest
setup = record {
  workspace_name = "Engines";
  project_name = "";
  name = "Ada";
  email = "ada@x";
  password = "analytical";
}

setups-once_example :
    setups passwords (sets_up 10 setup ∷ logs_in 20 (request "a") ∷ sets_up 30 setup ∷ []) empty ≤ 1
setups-once_example =
    setups-once passwords (sets_up 10 setup ∷ logs_in 20 (request "a") ∷ sets_up 30 setup ∷ [])
      empty

abbrev answer : SessionClaims × UserInfo
answer = (
  record session { expires_at = pos 604810 },
  record info { workspace_name = "Engines"; is_setup_complete = true },
)

verifies :
    (password hash : String)
    → passwords.hash_password password ≡ some hash
    → passwords.verify_password password hash ≡ true
verifies password hash h = (eq_iff password hash).1 (some_injective h)

is_set_up : (setup_complete passwords 10 setup empty).response ≡ ok answer
unfolding setup_complete may_set_up set_up email_of trim find_user put_admin as_bytes
is_set_up = refl

no_failures : recent_failures 100 (email_of passwords "ada@x") [] < 5
unfolding recent_failures
no_failures = omega arith

login-setup_complete_example :
    (shown : UserInfo) × ((login passwords 100
        (request "analytical")
        (setup_complete passwords 10 setup empty).accounts).answer
      ≡ welcome (record session { expires_at = pos 604900 }) shown)
login-setup_complete_example =
    login-setup_complete passwords 10 100 setup empty answer verifies is_set_up no_failures
