-- ===== src/Stream/Sent.antt =====
-- Of which environments the updates are that a client of the stream is sent.
use mathlib.Core.Path.{subst}
use checkgate.Common.{
  select, ◌≡◌, ◌⊎◌, ap, ◌∙◌, inl, inr, String, Bool, true, none, some, List, [], ◌∷◌, In,
  Bool-cases, Option-cases,
}
use checkgate.Auth.{AuthContext, SessionClaims}
use checkgate.Auth.Roles.{get_session_claims}
use checkgate.Stream.{
  upserted, deleted, resync, unreadable, SseEvent, connected, update, ready, Snapshot,
  key_environment, is_member, ids_of, env_ids,
}

In-ids_of :
    (condition : String × String → Bool) (environments : List (String × String)) (env : String)
    → In env (ids_of (select condition environments))
    → (project : String) × In (env, project) environments × (condition (env, project) ≡ true)
In-ids_of condition [] env m = elim m [ ]
In-ids_of condition ((e, project) ∷ rest) env m = elim (Bool-cases (condition (e, project))) [
  | inl c ↦ elim (rw c at m) [
    | inl same ↦ (
      project,
      inl (ap (λ x. (x, project)) same),
      subst (λ x. condition (x, project) ≡ true) same c,
    )
    | inr later ↦
        let (found, place, holds) = In-ids_of condition rest env later in (found, inr place, holds)
  ]
  | inr c ↦
      let (found, place, holds) = In-ids_of condition rest env (rw c at m) in
      (found, inr place, holds)
]

In-ids :
    (environments : List (String × String)) (env : String)
    → In env (ids_of environments)
    → (project : String) × In (env, project) environments
In-ids [] env m = elim m [ ]
In-ids ((e, project) ∷ rest) env (inl same) = (project, inl (ap (λ x. (x, project)) same))
In-ids ((e, project) ∷ rest) env (inr m) =
    let (found, place) = In-ids rest env m in (found, inr place)

module _ {V : Type 0} where
  -- Who may be sent updates of an environment: the SDK key of it; without one, a session that is an admin's
  -- or a member's of its project; the key that is bound to no environment, where there is no session.
  abbrev pub IsEntitled : AuthContext → Snapshot V → String → Type 0
  IsEntitled ctx t env =
      (key_environment ctx.sdk_key ≡ some env)
      ⊎ ((key_environment ctx.sdk_key ≡ none)
          × (project : String) × In (env, project) t.environments
          × ((get_session_claims ctx ≡ none)
              ⊎ ((claims : SessionClaims) × (get_session_claims ctx ≡ some claims)
                  × (is_member t.members claims project ≡ true))))

  -- What an update may be of; no other message is sent as one.
  abbrev pub IsFor : (String → Type 0) → SseEvent V → Type 0
  IsFor P (update (upserted env flag revision)) = P env
  IsFor P (update (deleted env key revision)) = P env
  IsFor P (update resync) = ⊥
  IsFor P (update unreadable) = ⊥
  IsFor P (connected env) = Unit
  IsFor P (ready n) = Unit

  -- An environment of the list is one that the client is entitled to.
  pub env_ids-IsEntitled :
      (ctx : AuthContext) (t : Snapshot V) (env : String)
      → In env (env_ids ctx t)
      → IsEntitled ctx t env
  unfolding env_ids
  env_ids-IsEntitled ctx t env m = elim (Option-cases (key_environment ctx.sdk_key)) [
    | inr (own, k) ↦ elim (rw (k, env_ids) at m) [
      | inl same ↦ inl (k ∙ ap some same)
      | inr other ↦ elim other [ ]
    ]
    | inl k ↦ elim (Option-cases (get_session_claims ctx)) [
      | inl c ↦
          let (project, place) = In-ids t.environments env (rw (k, env_ids, c) at m) in
          inr (k, project, place, inl c)
      | inr (claims, c) ↦
          let (project, place, member) =
            In-ids_of (λ e. is_member t.members claims e.1) t.environments env
              (rw (k, env_ids, c) at m) in
          inr (k, project, place, inr (claims, c, member))
    ]
  ]
