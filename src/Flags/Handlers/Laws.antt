-- ===== src/Flags/Handlers/Laws.antt =====
-- The flags of an environment that requires approval.
use checkgate.Common.{
  String, ◌≡◌, ◌≢◌, refl, sym, ap, ◌∙◌, inl, inr, true, false, some, lookup, Option-cases,
}
use checkgate.Status.{Result-cases}
use checkgate.Auth.{AuthContext, AuthWorld}
use checkgate.Auth.Access.{check_env_access}
use checkgate.Server.{FlagJson, FlagRow, Db, find_row}
use checkgate.Flags.Write.{
  apply_patch_in_tx, may_queue, create_change_request, patch_now, patch_later, patch_flag,
}
use checkgate.Flags.Handlers.{
  upsert_row, CreateFlagRequest, may_create, create_flag, may_delete, delete_flag, may_promote,
  promote_flag,
}
use checkgate.Flags.Handlers.Checks.{may_create_lem, may_promote_lem, apply_patch_in_tx-flags}
use checkgate.Flags.Handlers.Rows.{
  find_row-place, find_row-append, find_row-update_other, find_row-delete_other,
}

-- A call of the handlers that write the value of a flag.
pub data Call (V : Type 0) : Type 0 where
  create : String → CreateFlagRequest V → Call V
  delete : String → String → Call V
  promote : String → String → V → Call V
  patch : String → String → V → Call V

module _ {V : Type 0} (json : FlagJson V) (world : AuthWorld) where
  -- The tables after a call.
  unfoldable pub after : Db V → AuthContext → Call V → Db V
  unfolding create_flag delete_flag promote_flag patch_flag
  after db jar (create env_id req) = (create_flag json world db jar env_id req).db
  after db jar (delete env_id key) = (delete_flag json world db jar env_id key).db
  after db jar (promote env_id key body) = (promote_flag json world db jar env_id key body).db
  after db jar (patch env_id key p) = (patch_flag json world db jar env_id key p).db

  module _ (db : Db V) (jar : AuthContext) (e k : String) (row : FlagRow V)
      (locked : lookup e db.environments ≡ some true)
      (found : find_row e k db.flags ≡ some row) where
    abbrev Untouched : Db V → Type 0
    Untouched d = find_row e k d.flags ≡ some row

    elsewhere : (env_id : String) → lookup env_id db.environments ≡ some false → env_id ≢ e
    elsewhere env_id h q = cc (ap (λ x. lookup x db.environments) q, h, locked)

    -- An upsert in an environment that is not protected, or of a flag that is not there.
    upsert-Untouched :
        (new : FlagRow V) (change : FlagRow V → FlagRow V)
        → ((r : FlagRow V) → (change r).environment_id ≡ r.environment_id)
        → ((r : FlagRow V)
            → find_row new.environment_id new.key db.flags ≡ some r
            → new.environment_id ≢ e)
        → Untouched (upsert_row new change db)
    unfolding upsert_row
    upsert-Untouched new change same other =
        elim (Option-cases (find_row new.environment_id new.key db.flags)) [
          | inl n ↦ rw (n, upsert_row) (find_row-append db.flags _ e k row found)
          | inr (r, f) ↦
              rw (f, upsert_row)
                (find_row-update_other db.flags _ e k (λ q.
                    other r f
                      (sym (same r ∙ find_row-place db.flags new.environment_id new.key r f) ∙ q))
                  ∙ found)
        ]

    delete-Untouched :
        (env_id key : String) → Untouched (delete_flag json world db jar env_id key).db
    unfolding delete_flag may_delete
    delete-Untouched env_id key = elim (Result-cases (check_env_access world jar env_id)) [
      | inl (s, c) ↦ rw (c, delete_flag, may_delete) found
      | inr (u, c) ↦ elim (Option-cases (lookup env_id db.environments)) [
        | inl n ↦ rw (c, delete_flag, may_delete, n) found
        | inr (true, l) ↦ rw (c, delete_flag, may_delete, l) found
        | inr (false, l) ↦ elim (Option-cases (find_row env_id key db.flags)) [
          | inl f ↦ rw (c, delete_flag, may_delete, l, f) found
          | inr (r, f) ↦
              rw (c, delete_flag, may_delete, l, f)
                (find_row-delete_other db.flags env_id key e k (elsewhere env_id l) ∙ found)
        ]
      ]
    ]

    create-Untouched :
        (env_id : String) (req : CreateFlagRequest V)
        → Untouched (create_flag json world db jar env_id req).db
    unfolding create_flag may_create
    create-Untouched env_id req = elim (Result-cases (may_create json world db jar env_id req)) [
      | inl (s, c) ↦ rw (c, create_flag) found
      | inr (value, c) ↦
          rw (c, create_flag)
            (upsert-Untouched _
              (λ r. record r { value = value; tags = req.tags; owner_email = req.owner_email })
              (λ r. refl)
              (λ r f. elsewhere env_id (may_create_lem json world db jar env_id req value r c f)))
    ]

    patch-Untouched :
        (env_id key : String) (p : V) → Untouched (patch_flag json world db jar env_id key p).db
    unfolding patch_flag patch_now patch_later create_change_request
    patch-Untouched env_id key p = elim (Result-cases (check_env_access world jar env_id)) [
      | inl (s, c) ↦ rw (c, patch_flag) found
      | inr (u, c) ↦ elim (Option-cases (lookup env_id db.environments)) [
        | inl n ↦ rw (c, patch_flag, n) found
        | inr (true, l) ↦ elim (Result-cases (may_queue json world db jar env_id key p)) [
          | inl (s, q) ↦ rw (c, patch_flag, l, q, patch_later) found
          | inr (email, q) ↦ rw (c, patch_flag, l, q, patch_later, create_change_request) found
        ]
        | inr (false, l) ↦ elim (Result-cases (apply_patch_in_tx json db env_id key p)) [
          | inl (s, q) ↦ rw (c, patch_flag, l, q, patch_now) found
          | inr (w, q) ↦
              let (new, place, flags) = apply_patch_in_tx-flags json world db env_id key p w q in
              rw (c, patch_flag, l, q, patch_now)
                (ap (find_row e k) flags
                  ∙ find_row-update_other db.flags new e k (λ z. elsewhere env_id l (sym place ∙ z))
                  ∙ found)
        ]
      ]
    ]

    promote-Untouched :
        (env_id key : String) (body : V)
        → Untouched (promote_flag json world db jar env_id key body).db
    unfolding promote_flag
    promote-Untouched env_id key body =
        elim (Result-cases (may_promote json world db jar env_id key body)) [
          | inl (s, c) ↦ rw (c, promote_flag) found
          | inr (p, c) ↦
              rw (c, promote_flag)
                (upsert-Untouched _ (λ r. record r { value = p.value }) (λ r. refl)
                  (λ r f.
                    elsewhere p.target (may_promote_lem json world db jar env_id key body p c)))
        ]

  -- A flag of an environment that requires approval stays as it is under every call that creates,
  -- deletes, promotes or patches a flag, by whomever and in whatever environment.
  pub after-protected :
      (db : Db V) (jar : AuthContext) (call : Call V) (env_id key : String) (row : FlagRow V)
      → lookup env_id db.environments ≡ some true
      → find_row env_id key db.flags ≡ some row
      → find_row env_id key (after db jar call).flags ≡ some row
  unfolding after
  after-protected db jar (create e req) env_id key row l f =
      create-Untouched db jar env_id key row l f e req
  after-protected db jar (delete e k) env_id key row l f =
      delete-Untouched db jar env_id key row l f e k
  after-protected db jar (promote e k body) env_id key row l f =
      promote-Untouched db jar env_id key row l f e k body
  after-protected db jar (patch e k p) env_id key row l f =
      patch-Untouched db jar env_id key row l f e k p
