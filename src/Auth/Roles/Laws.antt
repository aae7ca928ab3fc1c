-- ===== src/Auth/Roles/Laws.antt =====
-- What the role checks admit.
use checkgate.Common.{
  String, ◌≡◌, ◌↔◌, ◌⊎◌, refl, inl, inr, ap, sym, ◌∙◌, Bool, true, false, Option, none, some,
  str_eq, eq_iff, arith, or_else, Bool-cases, Option-cases,
}
use mathlib.Core.Path.{subst}
use checkgate.Text.Split.{split}
use checkgate.Status.{ok, fetched, Fetch-cases, err-absurd, some_injective}
use checkgate.Auth.{SessionClaims, PatIdentity, AuthContext, Request, AuthWorld}
use checkgate.Auth.Roles.{
  pat_claims, get_session_claims, request_claims, scope_of, is_read_only, check_write_scope,
  require_admin, member_may, after_environments, check_env_role, check_editor, require_editor,
}

-- The token, if there is one, may write.
abbrev pub MayWrite : Option PatIdentity → Type 0
MayWrite none = Unit
MayWrite (some pat) = pat.scope ≡ "read_write"

-- The claims of the request: the session's, else the token's.
abbrev pub Claims : AuthContext → SessionClaims → Type 0
Claims ext claims = get_session_claims ext ≡ some claims

scope_iff : (pat : Option PatIdentity) → (is_read_only (scope_of pat) ≡ false) ↔ MayWrite pat
scope_iff none = (λ h. tt, λ h. refl)
scope_iff (some pat) = ground (arith, eq_iff pat.scope "read_write")

-- `require_admin` admits exactly the requests with no SDK key, whose session (or else token) belongs
-- to a workspace admin, and whose token, if any, has the scope `read_write`.
pub require_admin_iff :
    (ext : AuthContext)
    → (require_admin ext ≡ ok tt) ↔ (
        (ext.sdk_key ≡ none)
        × ((claims : SessionClaims) × (get_session_claims ext ≡ some claims)
            × (claims.role ≡ "admin"))
        × MayWrite ext.pat)
unfolding require_admin get_session_claims request_claims check_write_scope
require_admin_iff ext = elim (Option-cases ext.sdk_key) [
  | inr (key, k) ↦ (λ h. err-absurd (rw (k, require_admin) at h), λ (n, h, w). cc)
  | inl k ↦ elim (Option-cases (or_else ext.session (pat_claims ext.pat))) [
    | inl n ↦
        (λ h. err-absurd (rw (k, require_admin, request_claims, n) at h), λ (z, (c, e, r), w). cc)
    | inr (claims, e) ↦ elim (Bool-cases (str_eq claims.role "admin")) [
      | inr other ↦ (
        λ h. err-absurd (rw (k, require_admin, request_claims, e, other) at h),
        λ (z, (c, f, r), w). cc (
          (eq_iff claims.role "admin").1 (ap SessionClaims.role (some_injective (sym e ∙ f)) ∙ r),
          other,
        ),
      )
      | inl is_admin ↦ elim (Bool-cases (is_read_only (scope_of ext.pat))) [
        | inl reads ↦ (
          λ h.
              err-absurd
                (rw (k, require_admin, request_claims, e, is_admin, check_write_scope, reads) at h),
          λ (z, c, w). cc ((scope_iff ext.pat).1 w, reads),
        )
        | inr writes ↦ (
          λ h. (
            k,
            (claims, e, (eq_iff claims.role "admin").0 is_admin),
            (scope_iff ext.pat).0 writes,
          ),
          λ h. rw (k, require_admin, request_claims, e, is_admin, check_write_scope, writes),
        )
      ]
    ]
  ]
]

-- Membership in the project, in a role that may read, or may also write.
abbrev pub MemberMay : String → Bool → Type 0
MemberMay role write = (role ≡ "admin") ⊎ (role ≡ "editor") ⊎ ((role ≡ "viewer") × (write ≡ false))

member_may_iff :
    (role : String) (write : Bool) → (member_may (some role) write ≡ true) ↔ MemberMay role write
member_may_iff role write = elim (Bool-cases (str_eq role "admin")) [
  | inl a ↦ (λ h. inl ((eq_iff role "admin").0 a), λ h. ground arith)
  | inr a ↦ elim (Bool-cases (str_eq role "editor")) [
    | inl b ↦ (λ h. inr (inl ((eq_iff role "editor").0 b)), λ h. ground arith)
    | inr b ↦ (
      λ h. ground (arith, eq_iff role "viewer"),
      λ h. ground (arith, eq_iff role "admin", eq_iff role "editor", eq_iff role "viewer"),
    )
  ]
]

module _ (world : AuthWorld) where
  -- Who may act on an environment: the workspace admins, and the members of its project as admin or editor,
  -- or as viewer for what does not write.
  abbrev pub EnvRole : SessionClaims → String → Bool → Type 0
  EnvRole claims env_id write =
      (claims.role ≡ "admin")
      ⊎ (role : String) × (world.project_role env_id claims.user_id ≡ fetched (some role))
        × MemberMay role write

  EnvRole-complete :
      (claims : SessionClaims) (env_id : String) (write : Bool)
      → EnvRole claims env_id write
      → check_env_role world claims env_id write ≡ ok tt
  unfolding check_env_role
  EnvRole-complete claims env_id write (inl a) =
      rw ((eq_iff claims.role "admin").1 a, check_env_role)
  EnvRole-complete claims env_id write (inr (role, f, m)) =
      elim (Bool-cases (str_eq claims.role "admin")) [
        | inl a ↦ rw (a, check_env_role)
        | inr a ↦ rw (a, check_env_role, f, (member_may_iff role write).1 m)
      ]

  EnvRole-sound :
      (claims : SessionClaims) (env_id : String) (write : Bool)
      → check_env_role world claims env_id write ≡ ok tt
      → EnvRole claims env_id write
  unfolding check_env_role
  EnvRole-sound claims env_id write h = elim (Bool-cases (str_eq claims.role "admin")) [
    | inl a ↦ inl ((eq_iff claims.role "admin").0 a)
    | inr a ↦ elim (Fetch-cases (world.project_role env_id claims.user_id)) [
      | inl f ↦ err-absurd (rw (a, check_env_role, f) at h)
      | inr (inl f) ↦ err-absurd (rw (a, check_env_role, f) at h)
      | inr (inr (role, f)) ↦ elim (Bool-cases (member_may (some role) write)) [
        | inl may ↦ inr (role, f, (member_may_iff role write).0 may)
        | inr not_may ↦ err-absurd (rw (a, check_env_role, f, not_may) at h)
      ]
    ]
  ]

  -- `check_env_role` admits exactly the workspace admins and the members of the environment's project
  -- as admin or editor, or as viewer for what does not write; it refuses when the database fails.
  pub check_env_role_iff :
      (claims : SessionClaims) (env_id : String) (write : Bool)
      → (check_env_role world claims env_id write ≡ ok tt) ↔ EnvRole claims env_id write
  check_env_role_iff claims env_id write =
      (EnvRole-sound claims env_id write, EnvRole-complete claims env_id write)

  -- Who may edit: by the environment that the path names, else by the role in the workspace.
  abbrev pub Editor : SessionClaims → Option String → Type 0
  Editor claims (some env_id) = EnvRole claims env_id true
  Editor claims none = (claims.role ≡ "admin") ⊎ (claims.role ≡ "editor")

  check_editor_iff :
      (claims : SessionClaims) (env : Option String)
      → (check_editor world claims env ≡ ok tt) ↔ Editor claims env
  unfolding check_editor
  check_editor_iff claims (some env_id) = check_env_role_iff claims env_id true
  check_editor_iff claims none = elim (Bool-cases (str_eq claims.role "admin")) [
    | inl a ↦ (λ h. inl ((eq_iff claims.role "admin").0 a), λ h. rw (a, check_editor))
    | inr a ↦ elim (Bool-cases (str_eq claims.role "editor")) [
      | inl b ↦ (λ h. inr ((eq_iff claims.role "editor").0 b), λ h. rw (a, check_editor, b))
      | inr b ↦ (
        λ h. err-absurd (rw (a, check_editor, b) at h),
        λ h. ground (arith, eq_iff claims.role "admin", eq_iff claims.role "editor"),
      )
    ]
  ]

  -- `require_editor` admits exactly the requests with no SDK key, whose token, if any, has the scope
  -- `read_write`, and whose claims have the role: that of a writing member of the project that owns the
  -- environment named in the path, or, where the path names none, that of an admin or editor of the workspace.
  pub require_editor_iff :
      (req : Request) (ext : AuthContext)
      → (require_editor world req ext ≡ ok tt) ↔ (
          (ext.sdk_key ≡ none)
          × MayWrite ext.pat
          × ((claims : SessionClaims) × (get_session_claims ext ≡ some claims)
              × Editor claims (after_environments (split req.path b'/'))))
  unfolding require_editor get_session_claims request_claims check_write_scope
  require_editor_iff req ext = elim (Option-cases ext.sdk_key) [
    | inr (key, k) ↦ (λ h. err-absurd (rw (k, require_editor) at h), λ (n, w, h). cc)
    | inl k ↦ elim (Bool-cases (is_read_only (scope_of ext.pat))) [
      | inl reads ↦ (
        λ h. err-absurd (rw (k, require_editor, check_write_scope, reads) at h),
        λ (z, w, c). cc ((scope_iff ext.pat).1 w, reads),
      )
      | inr writes ↦ elim (Option-cases (or_else ext.session (pat_claims ext.pat))) [
        | inl n ↦ (
          λ h.
              err-absurd
                (rw (k, require_editor, check_write_scope, writes, request_claims, n) at h),
          λ (z, w, (c, e, r)). cc,
        )
        | inr (claims, e) ↦
            let env = after_environments (split req.path b'/') in
            (
              λ h. (
                k,
                (scope_iff ext.pat).0 writes,
                (
                  claims,
                  e,
                  (check_editor_iff claims env).0
                      (rw (k, require_editor, check_write_scope, writes, request_claims, e) at h),
                ),
              ),
              λ (z, w, (c, f, r)).
                  rw (k, require_editor, check_write_scope, writes, request_claims, e)
                    ((check_editor_iff claims env).1
                      (subst (λ d. Editor d env) (some_injective (sym f ∙ e)) r)),
            )
      ]
    ]
  ]
