-- ===== src/Flags/Handlers/Rows.antt =====
-- The rows of the table of flags that a write leaves alone.
use checkgate.Common.{
  String, ◌≡◌, ◌≢◌, refl, sym, ap, ◌∙◌, inl, inr, ◌&&◌, some, List, [], ◌∷◌, ◌++◌, arith, str_eq,
  eq_iff, Bool-cases,
}
use checkgate.Status.{some_injective, none-absurd}
use checkgate.Server.{FlagRow, find_row}
use checkgate.Flags.Write.{update_row}
use checkgate.Flags.Handlers.{delete_row}

module _ {V : Type 0} where
  pub find_row-place :
      (rows : List (FlagRow V)) (env_id key : String) (row : FlagRow V)
      → find_row env_id key rows ≡ some row
      → row.environment_id ≡ env_id
  unfolding find_row
  find_row-place [] env_id key row h = none-absurd h
  find_row-place (r ∷ rows) env_id key row h =
      elim (Bool-cases (str_eq r.key key && str_eq r.environment_id env_id)) [
        | inl e ↦
            ap (λ (x : FlagRow V). x.environment_id) (sym (some_injective (rw e at h)))
            ∙ (eq_iff r.environment_id env_id).0 (ground arith)
        | inr e ↦ find_row-place rows env_id key row (rw e at h)
      ]

  pub find_row-append :
      (rows more : List (FlagRow V)) (env_id key : String) (row : FlagRow V)
      → find_row env_id key rows ≡ some row
      → find_row env_id key (rows ++ more) ≡ some row
  unfolding find_row
  find_row-append [] more env_id key row h = none-absurd h
  find_row-append (r ∷ rows) more env_id key row h =
      ground (arith, find_row-append rows more env_id key row)

  pub find_row-update_other :
      (rows : List (FlagRow V)) (new : FlagRow V) (env_id key : String)
      → new.environment_id ≢ env_id
      → find_row env_id key (update_row new rows) ≡ find_row env_id key rows
  unfolding find_row update_row
  find_row-update_other [] new env_id key h = refl
  find_row-update_other (r ∷ rows) new env_id key h = ground (
    arith,
    find_row-update_other rows new env_id key h,
    eq_iff r.environment_id env_id,
    eq_iff r.environment_id new.environment_id,
    eq_iff new.environment_id env_id,
  )

  pub find_row-delete_other :
      (rows : List (FlagRow V)) (place name env_id key : String)
      → place ≢ env_id
      → find_row env_id key (delete_row place name rows) ≡ find_row env_id key rows
  unfolding find_row delete_row
  find_row-delete_other [] place name env_id key h = refl
  find_row-delete_other (r ∷ rows) place name env_id key h = ground (
    arith,
    find_row-delete_other rows place name env_id key h,
    eq_iff r.environment_id env_id,
    eq_iff r.environment_id place,
  )
