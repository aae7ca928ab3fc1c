-- ===== src/Flags/Handlers/Checks.antt =====
-- What the checks of `create_flag` and `promote_flag` let through, and what a patch writes.
use checkgate.Common.{
  String, ◌≡◌, sym, ap, ◌∙◌, inl, inr, true, false, some, lookup, Bool-cases, Option-cases,
  if◌then◌else◌,
}
use checkgate.Status.{
  conflict, not_found, unprocessable_entity, internal_server_error, ok, err, ok_or, ◌>>=◌,
  Result-cases, chain_lem, ok_or_lem, ok_injective, err-absurd,
}
use checkgate.Auth.{AuthContext, AuthWorld}
use checkgate.Auth.Access.{check_env_access, check_env_write_access}
use checkgate.Server.{FlagJson, FlagRow, Db, find_row, lock_environment}
use checkgate.Flags.{is_valid_flag_key}
use checkgate.Flags.Patch.{is_over, merge_and_validate}
use checkgate.Flags.Write.{Written, update_row, apply_patch_in_tx}
use checkgate.Flags.Handlers.{
  CreateFlagRequest, may_create, Promotion, may_promote, target_of, text_of,
}
use checkgate.Flags.Handlers.Rows.{find_row-place}

module _ {V : Type 0} (json : FlagJson V) (world : AuthWorld) where
  pub may_create_lem :
      (db : Db V) (jar : AuthContext) (env_id : String) (req : CreateFlagRequest V) (value : V)
      (r : FlagRow V)
      → may_create json world db jar env_id req ≡ ok value
      → find_row env_id req.flag.key db.flags ≡ some r
      → lookup env_id db.environments ≡ some false
  unfolding may_create
  may_create_lem db jar env_id req value r h f =
      elim (Result-cases (check_env_access world jar env_id)) [
        | inl (s, c) ↦ err-absurd (rw (c, may_create) at h)
        | inr (u, c) ↦
            let h₁ = rw (c, may_create) at h in
            elim (Bool-cases (is_valid_flag_key req.flag.key)) [
              | inr v ↦ err-absurd (rw v at h₁)
              | inl v ↦ elim (Bool-cases (is_over req.flag.rollout_percentage)) [
                | inl o ↦ err-absurd (rw (v, o) at h₁)
                | inr o ↦ elim (Option-cases (json.to_json req.flag)) [
                  | inl j ↦ err-absurd (rw (v, o, j) at h₁)
                  | inr (x, j) ↦ elim (Option-cases (lookup env_id db.environments)) [
                    | inl n ↦ err-absurd (rw (v, o, j, n) at h₁)
                    | inr (false, l) ↦ l
                    | inr (true, l) ↦ err-absurd (rw (v, o, j, l, f) at h₁)
                  ]
                ]
              ]
            ]
      ]

  promote_free :
      (db : Db V) (env_id key target : String) (p : Promotion json world)
      → (lock_environment db target >>= λ protected. if protected then err conflict else (do
        row ← ok_or (find_row env_id key db.flags) not_found
        flag ← ok_or (json.of_json row.value) internal_server_error
        ok (record { target = target; value = row.value; flag = flag })))
        ≡ ok p
      → lookup p.target db.environments ≡ some false
  promote_free db env_id key target p h = elim (Option-cases (lookup target db.environments)) [
    | inl n ↦ err-absurd (rw n at h)
    | inr (true, l) ↦ err-absurd (rw l at h)
    | inr (false, l) ↦
        let h₁ = rw l at h in
        elim (Option-cases (find_row env_id key db.flags)) [
          | inl n ↦ err-absurd (rw n at h₁)
          | inr (row, f) ↦
              let h₂ = rw f at h₁ in
              elim (Option-cases (json.of_json row.value)) [
                | inl n ↦ err-absurd (rw n at h₂)
                | inr (flag, g) ↦
                    ap (λ (x : Promotion json world). lookup x.target db.environments)
                      (sym (ok_injective (rw g at h₂)))
                    ∙ l
              ]
        ]
  ]

  pub may_promote_lem :
      (db : Db V) (jar : AuthContext) (env_id key : String) (body : V) (p : Promotion json world)
      → may_promote json world db jar env_id key body ≡ ok p
      → lookup p.target db.environments ≡ some false
  unfolding may_promote
  may_promote_lem db jar env_id key body p h =
      let Free = λ (x : Promotion json world). lookup x.target db.environments ≡ some false in
      chain_lem Free (check_env_access world jar env_id) _
        (λ u a e₁ h₁.
          chain_lem Free
            (ok_or (text_of json world (target_of json world (json.as_object body)))
              unprocessable_entity)
            _
            (λ target b e₂ h₂.
              chain_lem Free (check_env_write_access world jar target) _
                (λ v c e₃ h₃. promote_free db env_id key target c h₃) b h₂)
            a h₁)
        p h

  pub apply_patch_in_tx-flags :
      (db : Db V) (env_id key : String) (change : V) (w : Written V)
      → apply_patch_in_tx json db env_id key change ≡ ok w
      → (new : FlagRow V) × (new.environment_id ≡ env_id) × (w.db.flags ≡ update_row new db.flags)
  unfolding apply_patch_in_tx
  apply_patch_in_tx-flags db env_id key change w h =
      let Wrote = λ (x : Written V).
        (new : FlagRow V) × (new.environment_id ≡ env_id)
        × (x.db.flags ≡ update_row new db.flags) in
      chain_lem Wrote (lock_environment db env_id) _
        (λ p x e₁ h₁.
          chain_lem Wrote (ok_or (find_row env_id key db.flags) not_found) _
            (λ row y e₂ h₂.
              chain_lem Wrote (merge_and_validate json db.flags env_id key change) _
                (λ m z e₃ h₃.
                  let r : find_row env_id key db.flags ≡ some row =
                    ok_or_lem (find_row env_id key db.flags) not_found e₂ in
                  (
                    _,
                    find_row-place db.flags env_id key row r,
                    sym (ap (λ (x : Written V). x.db.flags) (ok_injective h₃)),
                  ))
                y h₂)
            x h₁)
        w h
