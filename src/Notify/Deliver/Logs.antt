-- ===== src/Notify/Deliver/Logs.antt =====
-- The rows of one hook in the log of deliveries, and its pruning.
use mathlib.Core.Path.{subst}
use checkgate.Common.{
  ℕ, zero, suc, ◌≤◌, ◌≡◌, ◌≢◌, refl, inl, inr, arith, false, List, [], ◌∷◌, ◌==◌, ==_iff,
  if◌then◌else◌, Bool-cases,
}
use checkgate.Notify.Deliver.{Delivery, prune, log_delivery}

module _ {V : Type 0} where
  -- how many rows of a hook the log has
  unfoldable pub count_rows : ℕ → List (Delivery V) → ℕ
  count_rows hook_id [] = 0
  count_rows hook_id (row ∷ rows) =
      let rest = count_rows hook_id rows in if row.hook_id == hook_id then suc rest else rest

  pub count_rows-prune :
      (room hook_id : ℕ) (rows : List (Delivery V))
      → count_rows hook_id (prune room hook_id rows) ≤ room
  unfolding count_rows prune
  count_rows-prune room hook_id [] = omega arith
  count_rows-prune zero hook_id (row ∷ rows) =
      let rest = count_rows-prune zero hook_id rows in
      elim (Bool-cases (row.hook_id == hook_id)) [ inl e ↦ rw e rest | inr e ↦ rw (e, e) rest ]
  count_rows-prune (suc n) hook_id (row ∷ rows) = elim (Bool-cases (row.hook_id == hook_id)) [
    | inl e ↦ let rest = count_rows-prune n hook_id rows in rw e (rw e (omega arith))
    | inr e ↦ let rest = count_rows-prune (suc n) hook_id rows in rw e (rw e rest)
  ]

  -- The rows of another hook stay.
  pub count_rows-prune_other :
      (room hook_id other : ℕ) (rows : List (Delivery V))
      → hook_id ≢ other
      → count_rows other (prune room hook_id rows) ≡ count_rows other rows
  unfolding count_rows prune
  count_rows-prune_other room hook_id other [] h = refl
  count_rows-prune_other zero hook_id other (row ∷ rows) h =
      let rest = count_rows-prune_other zero hook_id other rows h in ground arith
  count_rows-prune_other (suc n) hook_id other (row ∷ rows) h =
      let fewer = count_rows-prune_other n hook_id other rows h in
      let rest = count_rows-prune_other (suc n) hook_id other rows h in ground arith

  count_rows-skip :
      (row : Delivery V) (rows : List (Delivery V)) (hook_id : ℕ)
      → (row.hook_id == hook_id) ≡ false
      → count_rows hook_id (row ∷ rows) ≡ count_rows hook_id rows
  unfolding count_rows
  count_rows-skip row rows hook_id e = rw e refl

  -- No hook has more than 200 rows in the log.
  abbrev pub IsBounded : List (Delivery V) → Type 0
  IsBounded log = (hook_id : ℕ) → count_rows hook_id log ≤ 200

  pub log_delivery-IsBounded :
      (row : Delivery V) (log : List (Delivery V))
      → IsBounded log
      → IsBounded (log_delivery row log)
  unfolding log_delivery
  log_delivery-IsBounded row log h hook_id = elim (Bool-cases (row.hook_id == hook_id)) [
    | inl e ↦
        subst (λ k. count_rows k (prune 200 row.hook_id (row ∷ log)) ≤ 200)
          ((==_iff row.hook_id hook_id).0 e) (count_rows-prune 200 row.hook_id (row ∷ log))
    | inr e ↦
        let other : row.hook_id ≢ hook_id = ground (arith, ==_iff row.hook_id hook_id) in
        let same = count_rows-prune_other 200 row.hook_id hook_id (row ∷ log) other in
        let before = h hook_id in
        let skip : count_rows hook_id (row ∷ log) ≡ count_rows hook_id log =
          count_rows-skip row log hook_id e in
        omega arith
  ]
