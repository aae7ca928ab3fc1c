-- ===== src/Stream/Rows.antt =====
-- The rows of one environment that the bootstrap of server/src/stream.rs reads, and its tombstones: their
-- keys, through the filter and the order of the queries.
use mathlib.Core.Path.{subst}
use checkgate.Common.{
  ◌≡◌, ◌≢◌, sym, inl, inr, arith, String, Bool, true, not, ◌&&◌, none, List, [], ◌∷◌, select, All,
  is_some, str_eq, eq_iff, Bool-cases, Option-cases, false-absurd,
}
use checkgate.Status.{none-absurd}
use checkgate.Server.{FlagRow, find_row}
use checkgate.Stream.{Tombstone, Snapshot, insert_sorted, sorted, flag_rows, tombstones_of}

module _ {A : Type 0} where
  select-All :
      (condition : A → Bool) (P : A → Type 0)
      → ((a : A) → condition a ≡ true → P a)
      → (xs : List A) → All P (select condition xs)
  select-All condition P holds [] = tt
  select-All condition P holds (x ∷ xs) = elim (Bool-cases (condition x)) [
    | inl e ↦ rw e (holds x e, select-All condition P holds xs)
    | inr e ↦ rw e (select-All condition P holds xs)
  ]

  pub select-keeps :
      (P : A → Type 0) (condition : A → Bool) (xs : List A) → All P xs → All P (select condition xs)
  select-keeps P condition [] h = tt
  select-keeps P condition (x ∷ xs) (p, h) = elim (Bool-cases (condition x)) [
    | inl e ↦ rw e (p, select-keeps P condition xs h)
    | inr e ↦ rw e (select-keeps P condition xs h)
  ]

  insert_sorted-All :
      (key_of : A → String) (before : String → String → Bool) (P : A → Type 0) (a : A) (xs : List A)
      → P a
      → All P xs
      → All P (insert_sorted key_of before a xs)
  unfolding insert_sorted
  insert_sorted-All key_of before P a [] p h = (p, h)
  insert_sorted-All key_of before P a (x ∷ xs) p (q, h) =
      elim (Bool-cases (before (key_of x) (key_of a))) [
        | inl e ↦ rw e (q, insert_sorted-All key_of before P a xs p h)
        | inr e ↦ rw e (p, (q, h))
      ]

  pub sorted-All :
      (key_of : A → String) (before : String → String → Bool) (P : A → Type 0) (xs : List A)
      → All P xs
      → All P (sorted key_of before xs)
  unfolding sorted
  sorted-All key_of before P [] h = h
  sorted-All key_of before P (x ∷ xs) (p, h) =
      insert_sorted-All key_of before P x _ p (sorted-All key_of before P xs h)

module _ {V : Type 0} where
  -- The rows have other keys than this one.
  abbrev pub OtherKeys : String → List (FlagRow V) → Type 0
  OtherKeys key rows = All (λ r. r.key ≢ key) rows

  abbrev pub HaveDistinctKeys : List (FlagRow V) → Type 0
  HaveDistinctKeys [] = Unit
  HaveDistinctKeys (row ∷ rows) = OtherKeys row.key rows × HaveDistinctKeys rows

  -- The primary key of the table of flags: at most one row of an environment and a key.
  abbrev pub HasPrimaryKey : List (FlagRow V) → Type 0
  HasPrimaryKey [] = Unit
  HasPrimaryKey (row ∷ rows) =
      (find_row row.environment_id row.key rows ≡ none) × HasPrimaryKey rows

  rows_of : String → List (FlagRow V) → List (FlagRow V)
  rows_of env_id rows = select (λ row. str_eq row.environment_id env_id) rows

  find_row-OtherKeys :
      (env_id key : String) (rows : List (FlagRow V))
      → find_row env_id key rows ≡ none
      → OtherKeys key (rows_of env_id rows)
  unfolding find_row rows_of
  find_row-OtherKeys env_id key [] h = tt
  find_row-OtherKeys env_id key (row ∷ rows) h =
      elim (Bool-cases (str_eq row.environment_id env_id)) [
        | inl e ↦ elim (Bool-cases (str_eq row.key key)) [
          | inl k ↦ none-absurd (sym (rw (k, e) at h))
          | inr k ↦ rw e (
            λ same. cc ((eq_iff row.key key).1 same, k),
            find_row-OtherKeys env_id key rows (rw k at h),
          )
        ]
        | inr e ↦ rw e (find_row-OtherKeys env_id key rows (ground arith))
      ]

  HasPrimaryKey-rows_of :
      (env_id : String) (rows : List (FlagRow V))
      → HasPrimaryKey rows
      → HaveDistinctKeys (rows_of env_id rows)
  unfolding rows_of
  HasPrimaryKey-rows_of env_id [] h = tt
  HasPrimaryKey-rows_of env_id (row ∷ rows) (n, h) =
      elim (Bool-cases (str_eq row.environment_id env_id)) [
        | inl e ↦ rw e (
          subst (λ env. OtherKeys row.key (rows_of env rows))
              ((eq_iff row.environment_id env_id).0 e)
              (find_row-OtherKeys row.environment_id row.key rows n),
          HasPrimaryKey-rows_of env_id rows h,
        )
        | inr e ↦ rw e (HasPrimaryKey-rows_of env_id rows h)
      ]

  module _ (before : String → String → Bool) where
    insert_sorted-HaveDistinctKeys :
        (row : FlagRow V) (rows : List (FlagRow V))
        → OtherKeys row.key rows
        → HaveDistinctKeys rows
        → HaveDistinctKeys (insert_sorted (λ r. r.key) before row rows)
    unfolding insert_sorted
    insert_sorted-HaveDistinctKeys row [] o h = (o, h)
    insert_sorted-HaveDistinctKeys row (r ∷ rows) (o, os) (q, h) =
        elim (Bool-cases (before r.key row.key)) [
          | inl e ↦ rw e (
            insert_sorted-All (λ x. x.key) before (λ x. x.key ≢ r.key) row rows
                (λ same. o (sym same)) q,
            insert_sorted-HaveDistinctKeys row rows os h,
          )
          | inr e ↦ rw e ((o, os), (q, h))
        ]

    sorted-HaveDistinctKeys :
        (rows : List (FlagRow V))
        → HaveDistinctKeys rows
        → HaveDistinctKeys (sorted (λ r. r.key) before rows)
    unfolding sorted
    sorted-HaveDistinctKeys [] h = h
    sorted-HaveDistinctKeys (row ∷ rows) (o, h) =
        insert_sorted-HaveDistinctKeys row _
          (sorted-All (λ r. r.key) before (λ r. r.key ≢ row.key) rows o)
          (sorted-HaveDistinctKeys rows h)

  pub flag_rows-HaveDistinctKeys :
      (t : Snapshot V) (env_id : String)
      → HasPrimaryKey t.db.flags
      → HaveDistinctKeys (flag_rows t env_id)
  unfolding rows_of
  flag_rows-HaveDistinctKeys t env_id h =
      sorted-HaveDistinctKeys t.sorts_before _ (HasPrimaryKey-rows_of env_id t.db.flags h)

  unreplaced :
      (t : Snapshot V) (env_id : String) (s : Tombstone)
      → (str_eq s.environment_id env_id
          && not (is_some (find_row s.environment_id s.key t.db.flags)))
        ≡ true
      → OtherKeys s.key (flag_rows t env_id)
  unfolding rows_of
  unreplaced t env_id s h = elim (Bool-cases (str_eq s.environment_id env_id)) [
    | inr e ↦ false-absurd (rw e at h)
    | inl e ↦ elim (Option-cases (find_row s.environment_id s.key t.db.flags)) [
      | inr (r, f) ↦ false-absurd (rw (e, f) at h)
      | inl f ↦
          sorted-All (λ r. r.key) t.sorts_before (λ r. r.key ≢ s.key) _
            (subst (λ env. OtherKeys s.key (rows_of env t.db.flags))
              ((eq_iff s.environment_id env_id).0 e)
              (find_row-OtherKeys s.environment_id s.key t.db.flags f))
    ]
  ]

  -- A tombstone of the environment has the key of none of its flags.
  pub tombstones_of-OtherKeys :
      (t : Snapshot V) (env_id : String)
      → All (λ s. OtherKeys s.key (flag_rows t env_id)) (tombstones_of t env_id)
  unfolding sorted insert_sorted
  tombstones_of-OtherKeys t env_id =
      sorted-All (λ s. s.key) t.sorts_before (λ s. OtherKeys s.key (flag_rows t env_id)) _
        (select-All
          (λ s.
            str_eq s.environment_id env_id
            && not (is_some (find_row s.environment_id s.key t.db.flags)))
          (λ s. OtherKeys s.key (flag_rows t env_id)) (unreplaced t env_id) t.tombstones)
