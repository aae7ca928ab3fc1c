-- ===== src/Session/Guesses.antt =====
-- The wrong passwords for one email that the lockout lets through in a stretch of time.
use mathlib.Core.Path.{subst}
use checkgate.Common.{
  ℕ, suc, ◌+◌, ◌-◌, ◌≤◌, ◌<◌, ◌≡◌, refl, sym, ◌∙◌, inl, inr, ◌⊎◌, arith, String, Bool, true, false,
  ◌&&◌, ◌||◌, List, [], ◌∷◌, all, ltb, leb, str_eq, eq_iff, Bool-cases, false-absurd, Option-cases,
  if◌then◌else◌,
}
use checkgate.Session.{
  User, Accounts, LoginRequest, Refusal, required, locked, incorrect, now_locked, LoginAnswer,
  welcome, refuse, LoggedIn, Passwords, recent_failures, check_lockout, record_failure, find_user,
  email_of, authenticated, fail, succeed, try_password, login,
}
use checkgate.Session.Laws.{check_lockout_lem}
use checkgate.Session.Counts.{
  count_since, count_since-recent, count_since-record_failure, count_since-clear,
}

abbrev pub is_guess : LoginAnswer → Bool
is_guess (refuse (incorrect n)) = true
is_guess (refuse (now_locked n)) = true
is_guess _ = false

abbrev pub is_welcome : LoginAnswer → Bool
is_welcome (welcome session info) = true
is_welcome _ = false

bit≤1 : (b : Bool) → (if b then 1 else 0) ≤ 1
bit≤1 true = omega arith
bit≤1 false = omega arith

module _ (passwords : Passwords) where
  -- The wrong passwords that are tried for an email, up to its first success, in a sequence of logins to any
  -- accounts.
  unfoldable pub guesses : String → List (ℕ × LoginRequest) → Accounts → ℕ
  unfolding login email_of
  guesses email [] t = 0
  guesses email ((now, req) ∷ logins) t =
      let left = login passwords now req t in
      let rest = guesses email logins left.accounts in
      if str_eq (email_of passwords req.email) email
      then (if is_welcome left.answer then 0 else if is_guess left.answer then suc rest else rest)
      else rest

  -- A proof rule for a login: it is refused and changes nothing, or it fails when there are few failures, or
  -- it succeeds.
  pub login_ind :
      (P : LoggedIn → Type 0) (now : ℕ) (req : LoginRequest) (t : Accounts)
      → ((r : Refusal)
          → is_guess (refuse r) ≡ false
          → P (record { answer = refuse r; accounts = t }))
      → (recent_failures now (email_of passwords req.email) t.attempts < 5
          → P (fail passwords now (email_of passwords req.email) t))
      → ((user : User) → P (succeed passwords now (email_of passwords req.email) user t))
      → P (login passwords now req t)
  unfolding login try_password
  login_ind P now req t refused failed succeeded =
      let email = email_of passwords req.email in
      elim (Bool-cases (str_eq email "" || str_eq req.password "")) [
        | inl e ↦ rw (e, login) (refused required refl)
        | inr e ↦ elim (Option-cases (check_lockout now email t.attempts)) [
          | inr (seconds, l) ↦ rw (e, login, l) (refused (locked seconds) refl)
          | inl l ↦
              elim (Option-cases (authenticated passwords req.password (find_user email t.users))) [
                | inl a ↦
                    rw (e, login, l, try_password, a)
                      (failed (check_lockout_lem now email t.attempts l))
                | inr (user, a) ↦ rw (e, login, l, try_password, a) (succeeded user)
              ]
        ]
      ]

  -- what a login leaves of the bound
  abbrev IsCounted : ℕ → String → ℕ → LoggedIn → Type 0
  IsCounted since email counted left =
      (is_welcome left.answer ≡ true)
      ⊎ (((if is_guess left.answer then 1 else 0) + counted
            ≤ count_since since email left.accounts.attempts)
          × ((is_guess left.answer ≡ true) → counted < 5))

  login-IsCounted :
      (since now : ℕ) (req : LoginRequest) (t : Accounts)
      → since ≤ now
      → now < since + 600
      → IsCounted since
          (email_of passwords req.email)
          (count_since since (email_of passwords req.email) t.attempts)
          (login passwords now req t)
  unfolding fail succeed
  login-IsCounted since now req t h k =
      let email = email_of passwords req.email in
      login_ind (IsCounted since email (count_since since email t.attempts)) now req t
        (λ r g. inr (rw g (omega arith), λ bad. false-absurd (sym g ∙ bad)))
        (λ few.
          let recent = count_since-recent since now email t.attempts k in
          let counted = count_since-record_failure since now email email t.attempts h k in
          let same : str_eq email email ≡ true = (eq_iff email email).1 refl in
          let one = bit≤1 (is_guess (fail passwords now email t).answer) in
          let more : suc (count_since since email t.attempts)
              ≤ count_since since email (record_failure now email t.attempts) =
            rw counted (rw same (omega arith)) in
          inr (omega arith, λ g. omega arith))
        (λ user. inl refl)

  -- A login to another account leaves the count.
  login-count_since :
      (since now : ℕ) (email : String) (req : LoginRequest) (t : Accounts)
      → since ≤ now
      → now < since + 600
      → str_eq (email_of passwords req.email) email ≡ false
      → count_since since email (login passwords now req t).accounts.attempts
        ≡ count_since since email t.attempts
  unfolding fail succeed
  login-count_since since now email req t h k other =
      login_ind
        (λ left.
          count_since since email left.accounts.attempts ≡ count_since since email t.attempts)
        now req t (λ r g. refl)
        (λ few.
          let counted =
            count_since-record_failure since now email (email_of passwords req.email) t.attempts h
              k in
          counted ∙ rw other (omega arith))
        (λ user. count_since-clear since email (email_of passwords req.email) t.attempts other)

  -- the time of a login is in the ten minutes from `since` on
  abbrev pub is_within : ℕ → ℕ × LoginRequest → Bool
  is_within since login = leb since login.0 && ltb login.0 (since + 600)

  guesses-remaining :
      (since : ℕ) (email : String) (logins : List (ℕ × LoginRequest)) (t : Accounts)
      → all (is_within since) logins ≡ true
      → guesses email logins t ≤ 5 - count_since since email t.attempts
  unfolding guesses
  guesses-remaining since email [] t h = omega arith
  guesses-remaining since email ((now, req) ∷ logins) t h =
      let after = (login passwords now req t).accounts in
      let rest = guesses-remaining since email logins after (ground arith) in
      let late : since ≤ now = ground arith in
      let early : now < since + 600 = ground arith in
      elim (Bool-cases (str_eq (email_of passwords req.email) email)) [
        | inr other ↦
            let same = login-count_since since now email req t late early other in
            rw other (omega arith)
        | inl mine ↦
            let e = (eq_iff (email_of passwords req.email) email).0 mine in
            elim (subst
              (λ m. IsCounted since m (count_since since m t.attempts) (login passwords now req t))
              e (login-IsCounted since now req t late early)) [
                | inl w ↦ rw (mine, w) (omega arith)
                | inr (counted, few) ↦
                    elim (Bool-cases (is_welcome (login passwords now req t).answer)) [
                      | inl w ↦ rw (mine, w) (omega arith)
                      | inr w ↦ elim (Bool-cases (is_guess (login passwords now req t).answer)) [
                        | inl g ↦
                            let counted₁ : 1 + count_since since email t.attempts
                                ≤ count_since since email after.attempts =
                              rw g at counted in
                            let less = few g in rw (mine, w, g) (omega arith)
                        | inr g ↦
                            let counted₁ : 0 + count_since since email t.attempts
                                ≤ count_since since email after.attempts =
                              rw g at counted in
                            rw (mine, w, g) (omega arith)
                      ]
                    ]
              ]
      ]

  -- In any ten minutes, in any sequence of logins to any accounts, at most five wrong passwords are tried for an
  -- email up to its first success.
  pub guesses-bound :
      (since : ℕ) (email : String) (logins : List (ℕ × LoginRequest)) (t : Accounts)
      → all (is_within since) logins ≡ true
      → guesses email logins t ≤ 5
  guesses-bound since email logins t h =
      let remaining = guesses-remaining since email logins t h in omega arith
