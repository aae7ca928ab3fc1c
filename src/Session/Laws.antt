-- ===== src/Session/Laws.antt =====
-- What a login that is answered with a session has passed, and when a lock ends.
use mathlib.Core.Path.{subst}
use checkgate.Common.{
  ℕ, ◌+◌, ◌≤◌, ◌<◌, ◌≡◌, refl, ap, sym, inl, inr, arith, String, Bool, true, false, not, ◌||◌,
  Option, none, some, List, [], ◌∷◌, all, ltb, leb, str_eq, Bool-cases, Option-cases,
}
use checkgate.Status.{some_injective, none-absurd}
use checkgate.Auth.{SessionClaims}
use checkgate.Session.{
  User, Attempt, Accounts, UserInfo, LoginRequest, Refusal, welcome, refuse, Passwords, is_recent,
  recent_failures, check_lockout, delete_attempts, clear_attempts, max_attempts, find_user,
  email_of, has_password, authenticated, session_of, fail, succeed, try_password, login,
}

pub refuse-absurd :
    {B : Type 0} {r : Refusal} {s : SessionClaims} {i : UserInfo} → refuse r ≡ welcome s i → B
refuse-absurd h = cc

welcome_injective : {s u : SessionClaims} {i j : UserInfo} → welcome s i ≡ welcome u j → s ≡ u
welcome_injective h = cc

-- No failure of an email is left after they are cleared.
pub recent_failures-clear :
    (now : ℕ) (email : String) (attempts : List Attempt)
    → recent_failures now email (clear_attempts email attempts) ≡ 0
unfolding recent_failures clear_attempts delete_attempts
recent_failures-clear now email [] = refl
recent_failures-clear now email (attempt ∷ attempts) =
    let rest = recent_failures-clear now email attempts in
    elim (Bool-cases (str_eq attempt.email email)) [ inl e ↦ rw e rest | inr e ↦ rw (e, e) rest ]

-- What a session needs: too few failures for a lock, a user of the email, and the password of the user;
-- it is the user's own.
abbrev pub IsEarned : Passwords → ℕ → LoginRequest → Accounts → SessionClaims → Type 0
IsEarned passwords now req t session =
    (user : User) × (recent_failures now (email_of passwords req.email) t.attempts < 5)
    × (find_user (email_of passwords req.email) t.users ≡ some user)
    × (has_password passwords req.password user.password_hash ≡ true)
    × (session ≡ session_of passwords now (email_of passwords req.email) user)

pub check_lockout_lem :
    (now : ℕ) (email : String) (attempts : List Attempt)
    → check_lockout now email attempts ≡ none
    → recent_failures now email attempts < 5
unfolding check_lockout
check_lockout_lem now email attempts h =
    elim (Bool-cases (ltb (recent_failures now email attempts) max_attempts)) [
      | inl e ↦ ground arith
      | inr e ↦ none-absurd (sym (rw (e, check_lockout) at h))
    ]

-- Few failures are no lock, and five are one.
pub check_lockout-few :
    (now : ℕ) (email : String) (attempts : List Attempt)
    → recent_failures now email attempts < 5
    → check_lockout now email attempts ≡ none
unfolding check_lockout
check_lockout-few now email attempts h =
    let few : ltb (recent_failures now email attempts) max_attempts ≡ true = ground arith in
    rw (few, check_lockout) refl

-- no failure of the email is later than the time
abbrev pub are_before : ℕ → String → Attempt → Bool
are_before time email attempt = not (str_eq attempt.email email) || leb attempt.attempted_at time

recent_failures-old :
    (now time : ℕ) (email : String) (attempts : List Attempt)
    → time + 600 ≤ now
    → all (are_before time email) attempts ≡ true
    → recent_failures now email attempts ≡ 0
unfolding recent_failures
recent_failures-old now time email [] h a = refl
recent_failures-old now time email (attempt ∷ attempts) h a =
    let rest = recent_failures-old now time email attempts h (ground arith) in
    let old : is_recent now email attempt ≡ false = ground arith in rw old rest

-- Ten minutes after the last failure of an email the account is not locked, however many there were.
pub check_lockout-expires :
    (now time : ℕ) (email : String) (attempts : List Attempt)
    → time + 600 ≤ now
    → all (are_before time email) attempts ≡ true
    → check_lockout now email attempts ≡ none
check_lockout-expires now time email attempts h a =
    let no_failures = recent_failures-old now time email attempts h a in
    check_lockout-few now email attempts (omega arith)

module _ (passwords : Passwords) where
  authenticated_lem :
      (password : String) (found : Option User) (user : User)
      → authenticated passwords password found ≡ some user
      → (found ≡ some user) × (has_password passwords password user.password_hash ≡ true)
  authenticated_lem password none user h = none-absurd h
  authenticated_lem password (some other) user h =
      elim (Bool-cases (has_password passwords password other.password_hash)) [
        | inl e ↦
            let same = some_injective (rw e at h) in
            (
              ap some same,
              subst (λ u. has_password passwords password u.password_hash ≡ true) same e,
            )
        | inr e ↦ none-absurd (rw e at h)
      ]

  -- A login that is answered with a session has earned it, and no failure of its email is left.
  pub login-IsEarned :
      (now : ℕ) (req : LoginRequest) (t : Accounts) (session : SessionClaims) (info : UserInfo)
      → (login passwords now req t).answer ≡ welcome session info
      → IsEarned passwords now req t session
        × ((later : ℕ)
            → recent_failures later
                (email_of passwords req.email)
                (login passwords now req t).accounts.attempts
              ≡ 0)
  unfolding login try_password succeed fail
  login-IsEarned now req t session info h =
      let email = email_of passwords req.email in
      elim (Bool-cases (str_eq email "" || str_eq req.password "")) [
        | inl e ↦ refuse-absurd (rw (e, login) at h)
        | inr e ↦ elim (Option-cases (check_lockout now email t.attempts)) [
          | inr (seconds, l) ↦ refuse-absurd (rw (e, login, l) at h)
          | inl l ↦
              elim (Option-cases (authenticated passwords req.password (find_user email t.users))) [
                | inl a ↦ refuse-absurd (rw (e, login, l, try_password, a) at h)
                | inr (user, a) ↦
                    let (found, right) =
                      authenticated_lem req.password (find_user email t.users) user a in
                    let same = welcome_injective (rw (e, login, l, try_password, a) at h) in
                    (
                      (user, check_lockout_lem now email t.attempts l, found, right, sym same),
                      rw (e, login, l, try_password, a)
                          (λ later. recent_failures-clear later email t.attempts),
                    )
              ]
        ]
      ]
