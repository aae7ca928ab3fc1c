-- ===== src/Session/Counts.antt =====
-- The failures of an email since a time, through the writes of the log of logins.
use checkgate.Common.{
  ℕ, suc, ◌+◌, ◌*◌, ◌≤◌, ◌<◌, ◌≡◌, refl, ap, sym, ◌∙◌, inl, inr, arith, String, Bool, true, false,
  ◌&&◌, List, [], ◌∷◌, ◌++◌, ltb, leb, str_eq, eq_iff, Bool-cases, false-absurd, if◌then◌else◌,
}
use checkgate.Session.{Attempt, recent_failures, delete_attempts, record_failure, clear_attempts}

-- a failure of the email at this time or later
abbrev pub is_since : ℕ → String → Attempt → Bool
is_since since email attempt = str_eq attempt.email email && leb since attempt.attempted_at

unfoldable pub count_since : ℕ → String → List Attempt → ℕ
count_since since email [] = 0
count_since since email (attempt ∷ attempts) =
    let rest = count_since since email attempts in
    if is_since since email attempt then suc rest else rest

pub count_since-recent :
    (since now : ℕ) (email : String) (attempts : List Attempt)
    → now < since + 600
    → count_since since email attempts ≤ recent_failures now email attempts
unfolding count_since recent_failures
count_since-recent since now email [] h = omega arith
count_since-recent since now email (attempt ∷ attempts) h =
    let rest = count_since-recent since now email attempts h in ground arith

count_since-delete :
    (since : ℕ) (email : String) (condition : Attempt → Bool) (attempts : List Attempt)
    → ((a : Attempt) → is_since since email a ≡ true → condition a ≡ false)
    → count_since since email (delete_attempts condition attempts)
      ≡ count_since since email attempts
unfolding count_since delete_attempts
count_since-delete since email condition [] keeps = refl
count_since-delete since email condition (attempt ∷ attempts) keeps =
    let rest = count_since-delete since email condition attempts keeps in
    elim (Bool-cases (is_since since email attempt)) [
      | inl e ↦ rw (keeps attempt e, e) (ap suc rest)
      | inr e ↦ elim (Bool-cases (condition attempt)) [
        | inl c ↦ rw (c, e) rest
        | inr c ↦ rw (c, e) rest
      ]
    ]

count_since-append :
    (since : ℕ) (email : String) (attempts : List Attempt) (attempt : Attempt)
    → count_since since email (attempts ++ attempt ∷ [])
      ≡ count_since since email attempts + (if is_since since email attempt then 1 else 0)
unfolding count_since
count_since-append since email [] attempt = ground arith
count_since-append since email (a ∷ attempts) attempt =
    let rest = count_since-append since email attempts attempt in ground arith

-- A recorded failure is counted, and the purge removes none that is counted.
pub count_since-record_failure :
    (since now : ℕ) (email other : String) (attempts : List Attempt)
    → since ≤ now
    → now < since + 600
    → count_since since email (record_failure now other attempts)
      ≡ count_since since email attempts + (if str_eq other email then 1 else 0)
unfolding record_failure
count_since-record_failure since now email other attempts h k =
    let new : Attempt = record { email = other; attempted_at = now } in
    let late : leb since now ≡ true = ground arith in
    let kept =
      count_since-delete since email (λ a. ltb (a.attempted_at + 10 * 2 * 60) now)
        (attempts ++ new ∷ []) (λ a s. ground arith) in
    let added = count_since-append since email attempts new in kept ∙ added ∙ rw late (ground arith)

pub count_since-clear :
    (since : ℕ) (email other : String) (attempts : List Attempt)
    → str_eq other email ≡ false
    → count_since since email (clear_attempts other attempts) ≡ count_since since email attempts
unfolding clear_attempts
count_since-clear since email other attempts n =
    count_since-delete since email (λ a. str_eq a.email other) attempts
      (λ a s. elim (Bool-cases (str_eq a.email other)) [
        | inr e ↦ e
        | inl e ↦
            let mine = (eq_iff a.email email).0 (ground arith) in
            false-absurd (sym n ∙ (eq_iff other email).1 (sym ((eq_iff a.email other).0 e) ∙ mine))
      ])
