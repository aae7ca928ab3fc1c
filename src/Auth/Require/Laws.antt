-- ===== src/Auth/Require/Laws.antt =====
-- Identities that the database, or the variable `SDK_KEY`, vouches for, and the requests that are admitted.
use checkgate.Common.{
  String, ◌≡◌, ◌≢◌, inl, inr, true, false, Option, none, some, str_eq, eq_iff, Bool-cases,
  Option-cases, sym, ap, ◌∙◌, arith,
}
use mathlib.Core.Path.{subst}
use checkgate.Text.Bytes.{as_bytes}
use checkgate.Types.{ℤ}
use checkgate.Status.{
  ok, fetched, Fetch-cases, ok_injective, err-absurd, some_injective, none-absurd,
}
use checkgate.Auth.{
  SessionClaims, SdkKeyEntry, AuthContext, Request, UserRow, SdkKeyRow, PatRow, AuthWorld,
}
use checkgate.Auth.Routes.{path_segments, sdk_key_route_allowed}
use checkgate.Auth.Routes.Laws.{SdkRoute, sdk_key_route_allowed_iff}
use checkgate.Auth.Require.{
  le_int, is_unexpired, extract_bearer, extract_sdk_key, with_account, key_entry, env_entry,
  pat_identity, by_session, by_pat, by_sdk_key, hash_token, resolve_pat, resolve_session, env_key,
  admit_or_pat, require_pat, admit_sdk_key, require_key, require_auth,
}

-- A time that has not come, of those that have one.
abbrev pub IsAhead : Option ℤ → ℤ → Type 0
IsAhead none now = Unit
IsAhead (some t) now = le_int t now ≡ false

IsAhead-is_unexpired :
    (expires_at : Option ℤ) (now : ℤ) → is_unexpired expires_at now ≡ true → IsAhead expires_at now
IsAhead-is_unexpired none now h = tt
IsAhead-is_unexpired (some t) now h = ground arith

module _ (world : AuthWorld) (req : Request) where
  -- The ways to be authenticated.
  pub data Authentic : AuthContext → Type 0 where
    session :
        (claims : SessionClaims) (row : UserRow)
        → req.cookie ≡ some claims
        → le_int claims.expires_at world.now ≡ false
        → world.user_by_id claims.user_id ≡ fetched (some row)
        → Authentic (by_session (with_account claims row))
    bound_key :
        (key : String) (row : SdkKeyRow)
        → extract_sdk_key req ≡ some key
        → world.sdk_key_by_value key ≡ fetched (some row)
        → SdkRoute (some row.environment_id) req.method (path_segments req.path)
        → Authentic (by_sdk_key (key_entry row))
    legacy_key :
        (key expected : String)
        → extract_sdk_key req ≡ some key
        → world.env_sdk_key ≡ some expected
        → expected ≢ ""
        → world.constant_time_eq (as_bytes key) (as_bytes expected) ≡ true
        → SdkRoute none req.method (path_segments req.path)
        → Authentic (by_sdk_key (env_entry expected))
    token :
        (bearer : String) (row : PatRow)
        → extract_bearer req ≡ some bearer
        → world.pat_by_hash (hash_token world bearer) ≡ fetched (some row)
        → IsAhead row.expires_at world.db_now
        → Authentic (by_pat (pat_identity row))

  pub require_pat_lem : (ctx : AuthContext) → require_pat world req ≡ ok ctx → Authentic ctx
  unfolding require_pat resolve_pat
  require_pat_lem ctx h = elim (Option-cases (extract_bearer req)) [
    | inl e ↦ err-absurd (rw (e, require_pat) at h)
    | inr (bearer, e) ↦ elim (Fetch-cases (world.pat_by_hash (hash_token world bearer))) [
      | inl f ↦ err-absurd (rw (e, require_pat, f, resolve_pat) at h)
      | inr (inl f) ↦ err-absurd (rw (e, require_pat, f, resolve_pat) at h)
      | inr (inr (row, f)) ↦ elim (Bool-cases (is_unexpired row.expires_at world.db_now)) [
        | inl live ↦
            subst Authentic (ok_injective (rw (e, require_pat, f, resolve_pat, live) at h))
              (token bearer row e f (IsAhead-is_unexpired row.expires_at world.db_now live))
        | inr late ↦ err-absurd (rw (e, require_pat, f, resolve_pat, late) at h)
      ]
    ]
  ]

  admit_sdk_key_lem :
      (entry : SdkKeyEntry) (ctx : AuthContext)
      → admit_sdk_key world req entry ≡ ok ctx
      → (by_sdk_key entry ≡ ctx) × SdkRoute entry.environment_id req.method (path_segments req.path)
  unfolding admit_sdk_key
  admit_sdk_key_lem entry ctx h =
      elim (Bool-cases (sdk_key_route_allowed req.method req.path entry.environment_id)) [
        | inl e ↦ (
          ok_injective (rw (e, admit_sdk_key) at h),
          (sdk_key_route_allowed_iff req.method req.path entry.environment_id).0 e,
        )
        | inr e ↦ err-absurd (rw (e, admit_sdk_key) at h)
      ]

  env_key_lem :
      (key : String) (entry : SdkKeyEntry)
      → env_key world key ≡ some entry
      → (expected : String) × (world.env_sdk_key ≡ some expected)
        × (expected ≢ "")
        × (world.constant_time_eq (as_bytes key) (as_bytes expected) ≡ true)
        × (entry ≡ env_entry expected)
  unfolding env_key
  env_key_lem key entry h = elim (Option-cases world.env_sdk_key) [
    | inl e ↦ none-absurd (rw (e, env_key) at h)
    | inr (expected, e) ↦ elim (Bool-cases (str_eq expected "")) [
      | inl empty ↦ none-absurd (rw (e, env_key, empty) at h)
      | inr full ↦ elim (Bool-cases (world.constant_time_eq (as_bytes key) (as_bytes expected))) [
        | inl same ↦ (
          expected,
          e,
          λ q. cc ((eq_iff expected "").1 q, full),
          same,
          sym (some_injective (rw (e, env_key, full, same) at h)),
        )
        | inr apart ↦ none-absurd (rw (e, env_key, full, apart) at h)
      ]
    ]
  ]

  require_key_lem : (ctx : AuthContext) → require_key world req ≡ ok ctx → Authentic ctx
  unfolding require_key
  require_key_lem ctx h = elim (Option-cases (extract_sdk_key req)) [
    | inl e ↦ require_pat_lem ctx (rw (e, require_key) at h)
    | inr (key, e) ↦ elim (Fetch-cases (world.sdk_key_by_value key)) [
      | inl f ↦ err-absurd (rw (e, require_key, f) at h)
      | inr (inl f) ↦
          let Admitted = λ (found : Option SdkKeyEntry). admit_or_pat world req found ≡ ok ctx in
          elim (Option-cases (env_key world key)) [
            | inl g ↦ require_pat_lem ctx (subst Admitted g (rw (e, require_key, f) at h))
            | inr (entry, g) ↦
                let (expected, set, full, same, is_env) = env_key_lem key entry g in
                let (is_ctx, route) =
                  admit_sdk_key_lem entry ctx (subst Admitted g (rw (e, require_key, f) at h)) in
                subst Authentic (sym (ap by_sdk_key is_env) ∙ is_ctx) (
                  legacy_key key expected e set full same (
                    subst
                      (λ (x : SdkKeyEntry).
                        SdkRoute x.environment_id req.method (path_segments req.path))
                      is_env route))
          ]
      | inr (inr (row, f)) ↦
          let (is_ctx, route) =
            admit_sdk_key_lem (key_entry row) ctx (rw (e, require_key, f) at h) in
          subst Authentic is_ctx (bound_key key row e f route)
    ]
  ]

  -- Whoever is admitted is authentic: a session that has not expired, of a user that still exists,
  -- with that user's current role; a key of the table, or the one of the variable `SDK_KEY` when
  -- that is not empty, on a route of its environment; or a personal access token of the table that does
  -- not expire, or whose expiry lies ahead of the clock of the database.
  pub require_auth-Authentic : (ctx : AuthContext) → require_auth world req ≡ ok ctx → Authentic ctx
  unfolding require_auth resolve_session
  require_auth-Authentic ctx h = elim (Option-cases req.cookie) [
    | inl e ↦ require_key_lem ctx (rw (e, require_auth, resolve_session) at h)
    | inr (claims, e) ↦ elim (Bool-cases (le_int claims.expires_at world.now)) [
      | inl late ↦ require_key_lem ctx (rw (e, require_auth, resolve_session, late) at h)
      | inr live ↦ elim (Fetch-cases (world.user_by_id claims.user_id)) [
        | inl f ↦ err-absurd (rw (e, require_auth, resolve_session, live, f) at h)
        | inr (inl f) ↦ require_key_lem ctx (rw (e, require_auth, resolve_session, live, f) at h)
        | inr (inr (row, f)) ↦
            subst Authentic (ok_injective (rw (e, require_auth, resolve_session, live, f) at h))
              (session claims row e live f)
      ]
    ]
  ]
