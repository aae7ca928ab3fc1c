-- ===== src/Notify/Laws.antt =====
-- What the tables of integrations hold after any calls of their handlers, and which events they hear.
use checkgate.Common.{
  select, All-append, ℕ, ◌≡◌, refl, ap, sym, ◌∙◌, inl, inr, String, Bool, true, false, not, Option,
  none, some, List, [], ◌∷◌, All, any, is_empty, str_eq, eq_iff, arith, Bool-cases, false-absurd,
  unwrap_or,
}
use checkgate.Status.{ok, Result-cases, err-absurd}
use checkgate.Auth.{AuthContext, AuthWorld}
use checkgate.Auth.Access.{check_env_access}
use checkgate.Server.{FlagJson, Db, Effect, notified}
use checkgate.Flags.Write.{AppliedPatch, emit_patch}
use checkgate.Notify.{
  validate, is_good_url, are_supported, supported_events, valid_kinds, has_text, wants_event,
}
use checkgate.Notify.Deliver.{IntegrationRow}
use checkgate.Notify.Api.{
  NewIntegration, IntegrationPatch, update_where, is_integration, patched_integration,
  new_integration, has_good_url, has_good_events, may_patch_integration, create_integration,
  patch_integration, delete_integration,
}

-- A call of a handler that writes integrations.
pub data Call : Type 0 where
  create : ℕ → NewIntegration → Call
  patch : ℕ → IntegrationPatch → Call
  delete : ℕ → Call

-- the row passes the checks of the handlers
abbrev pub IsValid : IntegrationRow → Type 0
IsValid row =
    (has_text valid_kinds row.kind ≡ true)
    × (is_good_url row.webhook_url ≡ true)
    × (are_supported row.events ≡ true)

All-select :
    {R : Type 0} (P : R → Type 0) (condition : R → Bool) (rows : List R)
    → All P rows
    → All P (select condition rows)
All-select P condition [] h = tt
All-select P condition (row ∷ rows) (p, h) = elim (Bool-cases (condition row)) [
  | inl e ↦ rw e (p, All-select P condition rows h)
  | inr e ↦ rw e (All-select P condition rows h)
]

All-update_where :
    {R : Type 0} (P : R → Type 0) (condition : R → Bool) (change : R → R)
    → ((row : R) → P row → P (change row))
    → (rows : List R) → All P rows
    → All P (update_where condition change rows)
All-update_where P condition change keeps [] h = tt
All-update_where P condition change keeps (row ∷ rows) (p, h) =
    let rest = All-update_where P condition change keeps rows h in
    elim (Bool-cases (condition row)) [ inl e ↦ rw e (keeps row p, rest) | inr e ↦ rw e (p, rest) ]

validate_iff :
    (kind url : String) (events : List String)
    → validate kind url events ≡ ok tt
    → (has_text valid_kinds kind ≡ true) × (is_good_url url ≡ true) × (are_supported events ≡ true)
unfolding validate
validate_iff kind url events h = elim (Bool-cases (has_text valid_kinds kind)) [
  | inr k ↦ err-absurd (rw (k, validate) at h)
  | inl k ↦ elim (Bool-cases (is_good_url url)) [
    | inr u ↦ err-absurd (rw (k, validate, u) at h)
    | inl u ↦ elim (Bool-cases (are_supported events)) [
      | inr e ↦ err-absurd (rw (k, validate, u, e) at h)
      | inl e ↦ (k, u, e)
    ]
  ]
]

may_patch_lem :
    (body : IntegrationPatch)
    → may_patch_integration body ≡ ok tt
    → (has_good_url body.webhook_url ≡ true) × (has_good_events body.events ≡ true)
may_patch_lem body h = elim (Bool-cases (has_good_url body.webhook_url)) [
  | inr u ↦ err-absurd (rw (u, may_patch_integration) at h)
  | inl u ↦ elim (Bool-cases (has_good_events body.events)) [
    | inr e ↦ err-absurd (rw (u, may_patch_integration, e) at h)
    | inl e ↦ (u, e)
  ]
]

good_url-unwrap_or :
    (o : Option String) (url : String)
    → has_good_url o ≡ true
    → is_good_url url ≡ true
    → is_good_url (unwrap_or o url) ≡ true
good_url-unwrap_or none url h k = k
good_url-unwrap_or (some u) url h k = h

are_supported-unwrap_or :
    (o : Option (List String)) (events : List String)
    → has_good_events o ≡ true
    → are_supported events ≡ true
    → are_supported (unwrap_or o events) ≡ true
are_supported-unwrap_or none events h k = k
are_supported-unwrap_or (some es) events h k = h

patched-IsValid :
    (body : IntegrationPatch) (row : IntegrationRow)
    → may_patch_integration body ≡ ok tt
    → IsValid row
    → IsValid (patched_integration body row)
patched-IsValid body row h (k, u, e) =
    let (url, events) = may_patch_lem body h in
    (
      k,
      good_url-unwrap_or body.webhook_url row.webhook_url url u,
      are_supported-unwrap_or body.events row.events events e,
    )

module _ (world : AuthWorld) where
  -- The table after a call of a user.
  unfoldable pub after : AuthContext × String × Call → List IntegrationRow → List IntegrationRow
  unfolding create_integration patch_integration delete_integration
  after (jar, env_id, create id body) rows = (create_integration world jar env_id id body rows).rows
  after (jar, env_id, patch id body) rows = (patch_integration world jar env_id id body rows).rows
  after (jar, env_id, delete id) rows = (delete_integration world jar env_id id rows).rows

  -- The table after calls, the first of them the head.
  unfoldable pub run :
      List (AuthContext × String × Call) → List IntegrationRow → List IntegrationRow
  unfolding after
  run [] rows = rows
  run (call ∷ calls) rows = run calls (after call rows)

  after-IsValid :
      (call : AuthContext × String × Call) (rows : List IntegrationRow)
      → All IsValid rows
      → All IsValid (after call rows)
  unfolding after create_integration patch_integration delete_integration
  after-IsValid (jar, env_id, create id body) rows h =
      elim (Result-cases (check_env_access world jar env_id)) [
        | inl (s, c) ↦ rw (c, All, after, create_integration) h
        | inr (u, c) ↦ elim (Result-cases (validate body.kind body.webhook_url body.events)) [
          | inl (s, v) ↦ rw (c, All, after, create_integration, v) h
          | inr (done, v) ↦
              rw (c, All, after, create_integration, v)
                (All-append IsValid rows (new_integration world jar env_id id body ∷ []) h
                  (validate_iff body.kind body.webhook_url body.events v, tt))
        ]
      ]
  after-IsValid (jar, env_id, patch id body) rows h =
      elim (Result-cases (check_env_access world jar env_id)) [
        | inl (s, c) ↦ rw (c, All, after, patch_integration) h
        | inr (u, c) ↦ elim (Result-cases (may_patch_integration body)) [
          | inl (s, v) ↦ rw (c, All, after, patch_integration, v) h
          | inr (done, v) ↦
              rw (c, All, after, patch_integration, v)
                (All-update_where IsValid (is_integration env_id id) (patched_integration body)
                  (λ row p. patched-IsValid body row v p) rows h)
        ]
      ]
  after-IsValid (jar, env_id, delete id) rows h =
      elim (Result-cases (check_env_access world jar env_id)) [
        | inl (s, c) ↦ rw (c, All, after, delete_integration) h
        | inr (u, c) ↦
            rw (c, All, after, delete_integration)
              (All-select IsValid (λ row. not (is_integration env_id id row)) rows h)
      ]

  -- After any calls of any users, each integration of a table that was valid has a known kind, an allowed
  -- url and supported events.
  pub run-IsValid :
      (calls : List (AuthContext × String × Call)) (rows : List IntegrationRow)
      → All IsValid rows
      → All IsValid (run calls rows)
  unfolding run
  run-IsValid [] rows h = h
  run-IsValid (call ∷ calls) rows h =
      run-IsValid calls (after call rows) (after-IsValid call rows h)

-- An event that is not supported is heard only by an integration that hears all.
unheard :
    (events : List String) (event : String)
    → are_supported events ≡ true
    → has_text supported_events event ≡ false
    → has_text events event ≡ false
unheard [] event h n = refl
unheard (e ∷ events) event h n = elim (Bool-cases (str_eq e event)) [
  | inl same ↦
      let first : has_text supported_events e ≡ true = ground arith in
      false-absurd (sym n ∙ ap (has_text supported_events) (sym ((eq_iff e event).0 same)) ∙ first)
  | inr other ↦ let rest = unheard events event (ground arith) n in rw other rest
]

-- what an integration hears of an effect
abbrev pub is_heard : {V : Type 0} → IntegrationRow → Effect V → Bool
is_heard row (notified event env_id key flag actor metadata) = wants_event row.events event
is_heard row _ = false

-- No valid integration with a list of events hears of a change that the scheduler has applied.
pub emit_patch-unheard :
    {V : Type 0} (json : FlagJson V) (db : Db V) (env_id key : String) (applied : AppliedPatch V)
    (actor : Option String) (id : String) (row : IntegrationRow)
    → IsValid row
    → is_empty row.events ≡ false
    → any (is_heard row) (emit_patch json db env_id key applied actor (some id)) ≡ false
unfolding emit_patch
emit_patch-unheard json db env_id key applied actor id row (k, u, e) n =
    let no_event = unheard row.events "flag.scheduled_change_applied" e refl in ground arith
