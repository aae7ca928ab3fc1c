-- ===== src/Auth/Access/Laws.antt =====
-- What the checks admit together: who reaches a route for admins, and who may report for an environment.
use checkgate.Common.{
  String, ◌≡◌, ◌↔◌, refl, inl, inr, ap, ◌∙◌, true, false, Option, none, some, str_eq, eq_iff,
  Bool-cases, Option-cases,
}
use checkgate.Status.{Result, ok, err, fetched, ◌>>◌, err-absurd, some_injective}
use checkgate.Auth.{SessionClaims, AuthContext, Request, UserRow, PatRow, AuthWorld}
use checkgate.Auth.Routes.Laws.{InScope}
use checkgate.Auth.Require.{extract_bearer, hash_token, le_int, require_auth}
use checkgate.Auth.Require.Laws.{
  IsAhead, Authentic, session, bound_key, legacy_key, token, require_auth-Authentic,
}
use checkgate.Auth.Roles.{
  get_session_claims, pat_scope, is_read_only, check_write_scope_ctx, check_env_role, require_admin,
}
use checkgate.Auth.Roles.Laws.{EnvRole, check_env_role_iff, require_admin_iff}
use checkgate.Auth.Access.{
  bound_environment, check_bound, check_sdk_key_env, check_env_access, check_env_write_access,
  check_ingest_access,
}

-- The scope, if there is one, may write.
abbrev pub Writable : Option String → Type 0
Writable none = Unit
Writable (some scope) = scope ≡ "read_write"

Writable-iff : (scope : Option String) → (is_read_only scope ≡ false) ↔ Writable scope
Writable-iff none = (λ h. tt, λ h. refl)
Writable-iff (some scope) = elim (Bool-cases (str_eq scope "read_write")) [
  | inl s ↦ (λ h. (eq_iff scope "read_write").0 s, λ h. rw s)
  | inr s ↦ (λ h. cc, λ h. rw ((eq_iff scope "read_write").1 h))
]

check_bound_iff :
    (bound : Option String) (env_id : String)
    → (check_bound bound env_id ≡ ok tt) ↔ InScope bound env_id
check_bound_iff none env_id = (λ h. tt, λ h. refl)
check_bound_iff (some bound) env_id = elim (Bool-cases (str_eq bound env_id)) [
  | inl s ↦ (λ h. (eq_iff bound env_id).0 s, λ h. rw s)
  | inr s ↦ (λ h. err-absurd (rw s at h), λ h. cc ((eq_iff bound env_id).1 h, s))
]

then_ok : (m : Result (Unit {0})) → ((m >> ok tt) ≡ ok tt) ↔ (m ≡ ok tt)
then_ok (ok tt) = (λ h. refl, λ h. refl)
then_ok (err e) = (λ h. err-absurd h, λ h. err-absurd h)

module _ (world : AuthWorld) where
  -- Who reaches a route for admins: a live session of a user whose role is now admin, or a live
  -- token of such a user with the scope `read_write`.
  pub data ReachesAdmin (req : Request) : Type 0 where
    by_session :
        (claims : SessionClaims) (row : UserRow)
        → req.cookie ≡ some claims
        → le_int claims.expires_at world.now ≡ false
        → world.user_by_id claims.user_id ≡ fetched (some row)
        → row.role ≡ "admin"
        → ReachesAdmin req
    by_token :
        (bearer : String) (row : PatRow)
        → extract_bearer req ≡ some bearer
        → world.pat_by_hash (hash_token world bearer) ≡ fetched (some row)
        → IsAhead row.expires_at world.db_now
        → row.role ≡ "admin"
        → row.scope ≡ "read_write"
        → ReachesAdmin req

  reaches :
      (req : Request) (ctx : AuthContext)
      → Authentic world req ctx
      → require_admin ctx ≡ ok tt
      → ReachesAdmin req
  unfolding get_session_claims
  reaches req ctx (session claims row c l u) h =
      let (z, (d, e, r), w) = (require_admin_iff _).0 h in
      by_session claims row c l u (ap SessionClaims.role (some_injective e) ∙ r)
  reaches req ctx (bound_key key row k d r) h = cc ((require_admin_iff _).0 h).0
  reaches req ctx (legacy_key key expected k s n c r) h = cc ((require_admin_iff _).0 h).0
  reaches req ctx (token bearer row b p l) h =
      let (z, (d, e, r), w) = (require_admin_iff _).0 h in
      by_token bearer row b p l (ap SessionClaims.role (some_injective e) ∙ r) w

  -- A request that passes `require_auth` and then `require_admin` has a live session of a user whose role
  -- in the database is admin at that moment, or a token of such a user with the scope `read_write` that has not
  -- expired:
  -- no SDK key and no token that only reads gets there.
  pub require_admin-ReachesAdmin :
      (req : Request) (ctx : AuthContext)
      → require_auth world req ≡ ok ctx
      → require_admin ctx ≡ ok tt
      → ReachesAdmin req
  require_admin-ReachesAdmin req ctx h a =
      reaches req ctx (require_auth-Authentic world req ctx h) a

  check_env_write_access_iff :
      (jar : AuthContext) (env_id : String) (claims : SessionClaims)
      → get_session_claims jar ≡ some claims
      → (check_env_write_access world jar env_id ≡ ok tt) ↔ EnvRole world claims env_id true
  unfolding check_env_write_access
  check_env_write_access_iff jar env_id claims e =
      let (sound, complete) = check_env_role_iff world claims env_id true in
      let (drop, add) = then_ok (check_env_role world claims env_id true) in
      rw (e, check_env_write_access) (λ h. sound (drop h), λ r. add (complete r))

  -- Who may report impressions and events: users with a role that writes, whose token may write,
  -- and else the SDK keys of the environment.
  abbrev pub MayIngest : AuthContext → String → Option SessionClaims → Type 0
  MayIngest jar env_id (some claims) = Writable (pat_scope jar) × EnvRole world claims env_id true
  MayIngest jar env_id none = InScope (bound_environment jar.sdk_key) env_id

  -- `check_ingest_access` admits a user exactly when the user's role in the project of the environment
  -- (or in the workspace) may write and the token, if there is one, has the scope `read_write`; and what
  -- is not a user, exactly when its key is bound to this environment or to none.
  pub check_ingest_access_iff :
      (jar : AuthContext) (env_id : String)
      → (check_ingest_access world jar env_id ≡ ok tt)
        ↔ MayIngest jar env_id (get_session_claims jar)
  unfolding check_ingest_access check_write_scope_ctx check_env_write_access check_sdk_key_env
  check_ingest_access_iff jar env_id = elim (Option-cases (get_session_claims jar)) [
    | inl n ↦
        rw (n, check_ingest_access, check_sdk_key_env)
          (check_bound_iff (bound_environment jar.sdk_key) env_id)
    | inr (claims, e) ↦ elim (Bool-cases (is_read_only (pat_scope jar))) [
      | inl reads ↦ rw e (
        λ h. err-absurd (rw (reads, check_write_scope_ctx) at h),
        λ (w, r). cc ((Writable-iff (pat_scope jar)).1 w, reads),
      )
      | inr writes ↦
          let (sound, complete) = check_env_write_access_iff jar env_id claims e in
          rw e (
            λ h. (
              (Writable-iff (pat_scope jar)).0 writes,
              sound (rw (writes, check_write_scope_ctx) at h),
            ),
            λ (w, r). rw (writes, check_write_scope_ctx) (complete r),
          )
    ]
  ]

  abbrev pub MayRead : AuthContext → String → Option SessionClaims → Type 0
  MayRead jar env_id (some claims) = EnvRole world claims env_id false
  MayRead jar env_id none = InScope (bound_environment jar.sdk_key) env_id

  -- `check_env_access` admits a user exactly by the role, for reading, in the project of the
  -- environment (or in the workspace), and what is not a user, exactly when its key is bound to this
  -- environment or to none.
  pub check_env_access_iff :
      (jar : AuthContext) (env_id : String)
      → (check_env_access world jar env_id ≡ ok tt) ↔ MayRead jar env_id (get_session_claims jar)
  unfolding check_env_access check_sdk_key_env
  check_env_access_iff jar env_id = elim (Option-cases (get_session_claims jar)) [
    | inl n ↦
        let (sound, complete) = check_bound_iff (bound_environment jar.sdk_key) env_id in
        let (drop, add) = then_ok (check_bound (bound_environment jar.sdk_key) env_id) in
        rw (n, check_env_access, check_sdk_key_env) (λ h. sound (drop h), λ r. add (complete r))
    | inr (claims, e) ↦
        let (sound, complete) = check_env_role_iff world claims env_id false in
        let (drop, add) = then_ok (check_env_role world claims env_id false) in
        rw (e, check_env_access) (λ h. sound (drop h), λ r. add (complete r))
  ]
