-- ===== src/Changes/Protected.antt =====
-- Environments with `require_approval`.
use checkgate.Common.{String, ◌≡◌, refl, inl, inr, true, some, lookup, All}
use checkgate.Status.{Result-cases}
use checkgate.Auth.{AuthContext, AuthWorld}
use checkgate.Auth.Access.{check_env_access}
use checkgate.Server.{FlagJson, Db, Effect}
use checkgate.Flags.Write.{may_queue, patch_later, patch_flag, create_change_request}

-- An effect that only tells of a change request.
abbrev pub IsNotice : {V : Type 0} → Effect V → Type 0
IsNotice (Effect.notified_request kind env_id key id who reason) = Unit
IsNotice _ = ⊥

module _ {V : Type 0} (json : FlagJson V) (world : AuthWorld) where
  -- In an environment that requires approval, a patch changes no flag, and nothing of it is stored, published or
  -- audited: at most it is queued.
  pub patch_flag-protected :
      (db : Db V) (jar : AuthContext) (env_id key : String) (patch : V)
      → lookup env_id db.environments ≡ some true
      → ((patch_flag json world db jar env_id key patch).db.flags ≡ db.flags)
        × All IsNotice (patch_flag json world db jar env_id key patch).effects
  unfolding patch_flag patch_later create_change_request
  patch_flag-protected db jar env_id key patch p =
      elim (Result-cases (check_env_access world jar env_id)) [
        | inl (s, c) ↦ rw (c, patch_flag) (refl, tt)
        | inr (u, c) ↦ elim (Result-cases (may_queue json world db jar env_id key patch)) [
          | inl (s, q) ↦ rw (c, patch_flag, p, q, patch_later) (refl, tt)
          | inr (email, q) ↦ rw (c, patch_flag, p, q, patch_later) (refl, (tt, tt))
        ]
      ]
