-- ===== src/Status.antt =====
-- Results of the server's functions: a value, or the HTTP status of an error.
use checkgate.Common.{Bool, true, false, ◌≡◌, refl, Option, none, some, ◌⊎◌, inl, inr}

pub data StatusCode : Type 0 where
  bad_request unauthorized forbidden not_found conflict unprocessable_entity : StatusCode
  internal_server_error service_unavailable : StatusCode

pub data Result (A : Type 0) : Type 0 where
  ok : A → Result A
  err : StatusCode → Result A

-- the `?` operator, as `and_then` of a result
abbrev pub and_then : {A B : Type 0} → (A → Result B) → Result A → Result B
and_then next (err status) = err status
and_then next (ok value) = next value

infixl 5 ◌>>◌ ◌>>=◌
abbrev pub ◌>>=◌ : {A B : Type 0} → Result A → (A → Result B) → Result B
◌>>=◌ result next = and_then next result

abbrev pub ◌>>◌ : {B : Type 0} → Result (Unit {0}) → Result B → Result B
◌>>◌ check result = and_then (λ done. result) check

-- `ok_or`
abbrev pub ok_or : {A : Type 0} → Option A → StatusCode → Result A
ok_or none e = err e
ok_or (some a) e = ok a

abbrev pub is_ok : {A : Type 0} → Result A → Bool
is_ok (ok a) = true
is_ok (err status) = false

-- What `fetch_optional` returns: a row, no row, or a failure of the database.
pub data Fetch (A : Type 0) : Type 0 where
  failed : Fetch A
  fetched : Option A → Fetch A

-- `map_err`
abbrev pub or_status : {A : Type 0} → Fetch A → StatusCode → Result (Option A)
or_status failed e = err e
or_status (fetched row) e = ok row

pub Fetch-cases :
    {A : Type 0} (f : Fetch A)
    → (f ≡ failed) ⊎ (f ≡ fetched none) ⊎ (a : A) × (f ≡ fetched (some a))
Fetch-cases failed = inl refl
Fetch-cases (fetched none) = inr (inl refl)
Fetch-cases (fetched (some a)) = inr (inr (a, refl))

pub ok_injective : {A : Type 0} {a b : A} → ok a ≡ ok b → a ≡ b
ok_injective h = cc

pub err-absurd : {A B : Type 0} {e : StatusCode} {a : A} → err e ≡ ok a → B
err-absurd h = cc

pub some_injective : {A : Type 0} {a b : A} → some a ≡ some b → a ≡ b
some_injective h = cc

pub none-absurd : {A B : Type 0} {a : A} → none ≡ some a → B
none-absurd h = cc

pub Result-cases :
    {A : Type 0} (result : Result A)
    → ((status : StatusCode) × (result ≡ err status)) ⊎ (value : A) × (result ≡ ok value)
Result-cases (err status) = inl (status, refl)
Result-cases (ok value) = inr (value, refl)

-- What holds of every value that the next step gives holds of the chain's.
pub chain_lem :
    {A B : Type 0} (P : B → Type 0) (result : Result A) (next : A → Result B)
    → ((a : A) (b : B) → result ≡ ok a → next a ≡ ok b → P b)
    → (b : B) → and_then next result ≡ ok b
    → P b
chain_lem P (err status) next step b h = err-absurd h
chain_lem P (ok a) next step b h = step a b refl h

pub ok_or_lem :
    {A : Type 0} (found : Option A) (status : StatusCode) {a : A}
    → ok_or found status ≡ ok a
    → found ≡ some a
ok_or_lem none status h = err-absurd h
ok_or_lem (some a) status h = cc
