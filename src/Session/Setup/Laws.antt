-- ===== src/Session/Setup/Laws.antt =====
-- How often the setup happens, and the login of its admin.
use mathlib.Core.Path.{subst}
use checkgate.Common.{
  ℕ, suc, ◌+◌, ◌*◌, ◌≤◌, ◌<◌, ◌≡◌, refl, ap, sym, ◌∙◌, inl, inr, arith, String, true, false, ◌||◌,
  none, some, List, [], ◌∷◌, lookup, str_eq, eq_iff, Bool-cases, if◌then◌else◌,
}
use checkgate.Status.{
  is_ok, internal_server_error, not_found, ok, err, Result-cases, err-absurd, ok_injective,
  ok_or_lem,
}
use checkgate.Text.{trim}
use checkgate.Auth.{SessionClaims}
use checkgate.Session.{
  User, Accounts, UserInfo, LoginRequest, SetupRequest, Passwords, welcome, get_is_setup_complete,
  get_workspace_name, is_true, find_user, email_of, check_lockout, recent_failures, authenticated,
  session_of, fail, succeed, try_password, login,
}
use checkgate.Session.Laws.{check_lockout-few}
use checkgate.Session.Guesses.{login_ind}
use checkgate.Types.{ℤ, pos}
use checkgate.Session.Setup.{
  put_setting, put_admin, may_set_up, set_up, setup_complete, lacks_field, is_too_short,
}

lookup-put_setting :
    (key value : String) (settings : List (String × String))
    → lookup key (put_setting key value settings) ≡ some value
unfolding put_setting
lookup-put_setting key value [] = let same = (eq_iff key key).1 refl in rw same refl
lookup-put_setting key value ((k, v) ∷ settings) =
    let same = (eq_iff key key).1 refl in
    elim (Bool-cases (str_eq k key)) [
      | inl e ↦ rw e (rw same refl)
      | inr e ↦ rw (e, e) (lookup-put_setting key value settings)
    ]

-- The user of the email after the setup is an admin with the hash.
find_user-put_admin :
    (name email hash : String) (next_user : ℕ) (users : List User)
    → (id : ℤ) × (own_email : String) × (find_user email (put_admin name email hash next_user users)
        ≡ some (record {
          id = id;
          email = own_email;
          name = name;
          role = "admin";
          password_hash = some hash;
        }))
unfolding put_admin find_user
find_user-put_admin name email hash next_user [] =
    let same = (eq_iff email email).1 refl in (pos next_user, email, rw same refl)
find_user-put_admin name email hash next_user (user ∷ users) =
    elim (Bool-cases (str_eq user.email email)) [
      | inl e ↦ (user.id, user.email, rw e (rw e refl))
      | inr e ↦
          let (id, own_email, f) = find_user-put_admin name email hash next_user users in
          (id, own_email, rw (e, e) f)
    ]

-- A call of the two handlers that write accounts.
pub data Call : Type 0 where
  logs_in : ℕ → LoginRequest → Call
  sets_up : ℕ → SetupRequest → Call

module _ (passwords : Passwords) where
  -- A setup that succeeds is recorded, and a recorded setup is refused with no change.
  is_complete-setup_complete :
      (now : ℕ) (req : SetupRequest) (t : Accounts) (answer : SessionClaims × UserInfo)
      → (setup_complete passwords now req t).response ≡ ok answer
      → get_is_setup_complete (setup_complete passwords now req t).accounts ≡ true
  unfolding setup_complete set_up
  is_complete-setup_complete now req t answer h = elim (Result-cases (may_set_up passwords req t)) [
    | inl (s, e) ↦ err-absurd (rw (e, setup_complete) at h)
    | inr (hash, e) ↦
        rw (e, setup_complete)
          (ap is_true (
            lookup-put_setting "setup_complete" "true"
              (put_setting "workspace_name" (trim req.workspace_name) t.settings)))
  ]

  setup_complete-refused :
      (now : ℕ) (req : SetupRequest) (t : Accounts)
      → get_is_setup_complete t ≡ true
      → setup_complete passwords now req t ≡ record { response = err not_found; accounts = t }
  unfolding setup_complete may_set_up
  setup_complete-refused now req t h = rw (setup_complete, may_set_up, h) refl

  may_set_up_lem :
      (req : SetupRequest) (t : Accounts) (hash : String)
      → may_set_up passwords req t ≡ ok hash
      → (lacks_field passwords req ≡ false) × (passwords.hash_password req.password ≡ some hash)
  unfolding may_set_up
  may_set_up_lem req t hash h = elim (Bool-cases (get_is_setup_complete t)) [
    | inl c ↦ err-absurd (rw (c, may_set_up) at h)
    | inr c ↦ elim (Bool-cases (lacks_field passwords req)) [
      | inl l ↦ err-absurd (rw (c, may_set_up, l) at h)
      | inr l ↦ elim (Bool-cases (is_too_short req.password)) [
        | inl s ↦ err-absurd (rw (c, may_set_up, l, s) at h)
        | inr s ↦ (
          l,
          ok_or_lem (passwords.hash_password req.password) internal_server_error
              (rw (c, may_set_up, l, s) at h),
        )
      ]
    ]
  ]

  -- the setups that succeed in a sequence of calls
  unfoldable pub setups : List Call → Accounts → ℕ
  unfolding login setup_complete
  setups [] t = 0
  setups (logs_in now req ∷ calls) t = setups calls (login passwords now req t).accounts
  setups (sets_up now req ∷ calls) t =
      let left = setup_complete passwords now req t in
      let rest = setups calls left.accounts in if is_ok left.response then suc rest else rest

  login-is_complete :
      (now : ℕ) (req : LoginRequest) (t : Accounts)
      → get_is_setup_complete (login passwords now req t).accounts ≡ get_is_setup_complete t
  unfolding fail succeed
  login-is_complete now req t =
      login_ind passwords (λ left. get_is_setup_complete left.accounts ≡ get_is_setup_complete t)
        now req t (λ r g. refl) (λ few. refl) (λ user. refl)

  setups_complete :
      (calls : List Call) (t : Accounts) → get_is_setup_complete t ≡ true → setups calls t ≡ 0
  unfolding setups
  setups_complete [] t h = refl
  setups_complete (logs_in now req ∷ calls) t h =
      setups_complete calls (login passwords now req t).accounts (login-is_complete now req t ∙ h)
  setups_complete (sets_up now req ∷ calls) t h =
      rw (setup_complete-refused now req t h) (setups_complete calls t h)

  -- In any sequence of logins and setups, at most one setup succeeds.
  pub setups-once : (calls : List Call) (t : Accounts) → setups calls t ≤ 1
  unfolding setups
  setups-once [] t = omega arith
  setups-once (logs_in now req ∷ calls) t = setups-once calls (login passwords now req t).accounts
  setups-once (sets_up now req ∷ calls) t =
      elim (Result-cases (setup_complete passwords now req t).response) [
        | inl (s, e) ↦
            let rest = setups-once calls (setup_complete passwords now req t).accounts in rw e rest
        | inr (answer, e) ↦
            let none_more =
              setups_complete calls (setup_complete passwords now req t).accounts
                (is_complete-setup_complete now req t answer e) in
            rw (e, none_more) (omega arith)
      ]

  login-right :
      (now : ℕ) (req : LoginRequest) (t : Accounts) (user : User)
      → (str_eq (email_of passwords req.email) "" || str_eq req.password "") ≡ false
      → check_lockout now (email_of passwords req.email) t.attempts ≡ none
      → authenticated passwords req.password (find_user (email_of passwords req.email) t.users)
        ≡ some user
      → (info : UserInfo) × ((login passwords now req t).answer
          ≡ welcome (session_of passwords now (email_of passwords req.email) user) info)
  unfolding login try_password succeed
  login-right now req t user filled free right = (
    record {
      email = email_of passwords req.email;
      name = user.name;
      role = user.role;
      workspace_name = get_workspace_name t;
      is_setup_complete = get_is_setup_complete t;
    },
    rw (filled, login, free, try_password, right) refl,
  )

  -- The admin that a setup makes logs in with the same email and password, for hashes that verify the
  -- password that they are of, unless the account is locked: the session is that of the setup, with its own
  -- expiry.
  pub login-setup_complete :
      (now later : ℕ) (req : SetupRequest) (t : Accounts) (answer : SessionClaims × UserInfo)
      → ((password hash : String)
          → passwords.hash_password password ≡ some hash
          → passwords.verify_password password hash ≡ true)
      → (setup_complete passwords now req t).response ≡ ok answer
      → recent_failures later (email_of passwords req.email) t.attempts < 5
      → (info : UserInfo) × ((login passwords later
            (record { email = req.email; password = req.password })
            (setup_complete passwords now req t).accounts).answer
          ≡ welcome (record answer.0 { expires_at = pos (later + 7 * 24 * 60 * 60) }) info)
  unfolding setup_complete set_up
  login-setup_complete now later req t answer verified h few =
      elim (Result-cases (may_set_up passwords req t)) [
        | inl (s, e) ↦ err-absurd (rw (e, setup_complete) at h)
        | inr (hash, e) ↦
            let email = email_of passwords req.email in
            let (fields, hashed) = may_set_up_lem req t hash e in
            let filled : (str_eq email "" || str_eq req.password "") ≡ false = ground arith in
            let free = check_lockout-few later email t.attempts few in
            let (id, own_email, found) =
              find_user-put_admin (trim req.name) email hash t.next_user t.users in
            let admin : User = record {
              id = id;
              email = own_email;
              name = trim req.name;
              role = "admin";
              password_hash = some hash;
            } in
            let right = verified req.password hash hashed in
            let after : (setup_complete passwords now req t).accounts
                ≡ set_up passwords req hash t =
              rw (e, setup_complete) refl in
            let own : authenticated passwords req.password
                  (find_user email (set_up passwords req hash t).users)
                ≡ some admin =
              rw (found, right) refl in
            let (info, answered) =
              login-right later (record { email = req.email; password = req.password })
                (set_up passwords req hash t) admin filled free own in
            let same = ok_injective (rw (e, setup_complete) at h) in
            let renew : SessionClaims × UserInfo → SessionClaims =
              λ a. record a.0 { expires_at = pos (later + 7 * 24 * 60 * 60) } in
            let session : session_of passwords later email admin ≡ renew answer =
              subst (λ a. session_of passwords later email admin ≡ renew a) same (rw found refl) in
            (
              info,
              subst
                  (λ a.
                    (login passwords later (record { email = req.email; password = req.password })
                      a).answer
                    ≡ welcome (renew answer) info)
                  (sym after) (answered ∙ ap (λ s. welcome s info) session),
            )
      ]
