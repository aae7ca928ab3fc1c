-- ===== src/Stream/Held.antt =====
-- What a client of server/src/stream.rs holds, which applies each update to its store as it comes.
use mathlib.Core.Path.{subst}
use checkgate.Common.{
  ◌≡◌, ◌≢◌, refl, ap, sym, ◌∙◌, inl, inr, arith, String, not, Option, none, some, List, [], ◌∷◌,
  ◌++◌, select, All, str_eq, eq_iff, Bool-cases, Option-cases, ℕ, suc, map, length, All-append,
}
use checkgate.Types.{Flag}
use checkgate.Status.{ok, Result-cases, ok_injective, err-absurd}
use checkgate.Server.{FlagJson, FlagRow, Db}
use checkgate.Segments.{expand_flag_with_segments}
use checkgate.Flags.Handlers.{expanded}
use checkgate.Stream.{
  upserted, deleted, SseEvent, update, ready, Tombstone, Snapshot, flag_rows, flags_of, Update,
  upserts, deletes,
}
use checkgate.Stream.Rows.{select-keeps, sorted-All, OtherKeys, HaveDistinctKeys}

module _ {V : Type 0} where
  -- the flags without the one of this key
  abbrev pub remove_key : String → List (Flag V) → List (Flag V)
  remove_key key flags = select (λ f. not (str_eq f.key key)) flags

  -- The flags that a client holds when it is told that it is ready, if it has held these before: an upsert
  -- replaces the flag of its key, a deletion removes it.
  unfoldable pub held : List (Flag V) → List (SseEvent V) → List (Flag V)
  held flags [] = flags
  held flags (update (upserted env flag revision) ∷ events) =
      held (remove_key flag.key flags ++ flag ∷ []) events
  held flags (update (deleted env key revision) ∷ events) = held (remove_key key flags) events
  held flags (ready n ∷ events) = flags
  held flags (_ ∷ events) = held flags events

  -- No flag has this key.
  abbrev pub Lacks : String → List (Flag V) → Type 0
  Lacks key flags = All (λ f. f.key ≢ key) flags

  pub remove_key-Lacks :
      (key : String) (flags : List (Flag V)) → Lacks key flags → remove_key key flags ≡ flags
  remove_key-Lacks key [] h = refl
  remove_key-Lacks key (f ∷ flags) (h, rest) =
      let same = remove_key-Lacks key flags rest in
      elim (Bool-cases (str_eq f.key key)) [
        | inl e ↦ elim (h ((eq_iff f.key key).0 e)) [ ]
        | inr e ↦ rw e (ap (λ fs. f ∷ fs) same)
      ]

module _ {V : Type 0} (json : FlagJson V) where
  -- A value that is a flag has the key of its row.
  abbrev pub HasKey : String → Option (Flag V) → Type 0
  HasKey key none = Unit
  HasKey key (some flag) = flag.key ≡ key

  abbrev pub IsKeyed : FlagRow V → Type 0
  IsKeyed row = HasKey row.key (json.of_json row.value)

  pub expanded-key :
      (db : Db V) (env_id : String) (flag : Flag V) → (expanded db env_id flag).key ≡ flag.key
  unfolding expand_flag_with_segments
  expanded-key db env_id flag = ground arith

  pub flag_rows-IsKeyed :
      (t : Snapshot V) (env_id : String) → All IsKeyed t.db.flags → All IsKeyed (flag_rows t env_id)
  flag_rows-IsKeyed t env_id h =
      sorted-All (λ r. r.key) t.sorts_before IsKeyed _ (select-keeps IsKeyed _ t.db.flags h)

  -- The flags of the rows have their keys.
  pub flags_of-Lacks :
      (db : Db V) (env_id key : String) (rows : List (FlagRow V))
      → All IsKeyed rows
      → OtherKeys key rows
      → Lacks key (flags_of json db env_id rows)
  unfolding flags_of
  flags_of-Lacks db env_id key [] k o = tt
  flags_of-Lacks db env_id key (row ∷ rows) (k, ks) (o, os) =
      let rest = flags_of-Lacks db env_id key rows ks os in
      elim (Option-cases (json.of_json row.value)) [
        | inl n ↦ rw (n, flags_of) rest
        | inr (flag, f) ↦
            rw (f, flags_of)
              (λ same. o (sym (rw f at k) ∙ sym (expanded-key db env_id flag) ∙ same), rest)
      ]

  append_nil : {A : Type 0} (xs : List A) → xs ++ [] ≡ xs
  append_nil [] = refl
  append_nil (x ∷ xs) = ap (λ ys. x ∷ ys) (append_nil xs)

  append_assoc :
      {A : Type 0} (xs : List A) (y : A) (ys : List A) → (xs ++ y ∷ []) ++ ys ≡ xs ++ y ∷ ys
  append_assoc [] y ys = refl
  append_assoc (x ∷ xs) y ys = ap (λ zs. x ∷ zs) (append_assoc xs y ys)

  Lacks-snoc :
      (flags : List (Flag V)) (flag : Flag V) (key : String) (rows : List (FlagRow V))
      → flag.key ≡ key
      → OtherKeys key rows
      → All (λ r. Lacks r.key flags) rows
      → All (λ r. Lacks r.key (flags ++ flag ∷ [])) rows
  Lacks-snoc flags flag key [] k o h = tt
  Lacks-snoc flags flag key (row ∷ rows) k (o, os) (h, hs) = (
    All-append (λ f. f.key ≢ row.key) flags (flag ∷ []) h ((λ same. o (sym same ∙ k)), tt),
    Lacks-snoc flags flag key rows k os hs,
  )

  -- A client that holds no flag of these rows holds them too after their upserts.
  pub held-upserts :
      (db : Db V) (env_id : String) (rows : List (FlagRow V)) (us vs : List (Update V))
      (rest : List (SseEvent V)) (flags : List (Flag V))
      → HaveDistinctKeys rows
      → All (IsKeyed) rows
      → All (λ r. Lacks r.key flags) rows
      → upserts json db env_id rows ≡ ok us
      → held flags (map (λ u. update u) (us ++ vs) ++ rest)
        ≡ held (flags ++ flags_of json db env_id rows) (map (λ u. update u) vs ++ rest)
  unfolding upserts flags_of held
  held-upserts db env_id [] us vs rest flags d k l h =
      subst
        (λ xs.
          held flags (map (λ u. update u) (xs ++ vs) ++ rest)
          ≡ held (flags ++ []) (map (λ u. update u) vs ++ rest))
        (ok_injective h)
        (ap (λ fs. held fs (map (λ u. update u) vs ++ rest)) (sym (append_nil flags)))
  held-upserts db env_id (row ∷ rows) us vs rest flags (o, d) (k, ks) (l, ls) h =
      elim (Option-cases (json.of_json row.value)) [
        | inl n ↦ err-absurd (rw (n, upserts) at h)
        | inr (flag, n) ↦ elim (Result-cases (upserts json db env_id rows)) [
          | inl (s, e) ↦ err-absurd (rw (n, e) at h)
          | inr (more, e) ↦
              let new = expanded db env_id flag in
              let key : new.key ≡ row.key = expanded-key db env_id flag ∙ rw n at k in
              let none_of_it : remove_key new.key flags ≡ flags =
                remove_key-Lacks new.key flags (subst (λ x. Lacks x flags) (sym key) l) in
              let later =
                held-upserts db env_id rows more vs rest (flags ++ new ∷ []) d ks
                  (Lacks-snoc flags new row.key rows key o ls) e in
              let last = map (λ u. update u) vs ++ rest in
              subst
                (λ xs.
                  held flags (map (λ u. update u) (xs ++ vs) ++ rest)
                  ≡ held (flags ++ flags_of json db env_id (row ∷ rows)) last)
                (ok_injective (rw (n, e) at h))
                (rw (n, flags_of)
                  (ap (λ fs. held (fs ++ new ∷ []) (map (λ u. update u) (more ++ vs) ++ rest))
                      none_of_it
                    ∙ later
                    ∙ ap (λ fs. held fs last)
                        (append_assoc flags new (flags_of json db env_id rows))))
        ]
      ]

  pub length-upserts :
      (db : Db V) (env_id : String) (rows : List (FlagRow V)) (us : List (Update V))
      → upserts json db env_id rows ≡ ok us
      → length us ≡ length (flags_of json db env_id rows)
  unfolding upserts flags_of
  length-upserts db env_id [] us h = subst (λ xs. length xs ≡ 0) (ok_injective h) refl
  length-upserts db env_id (row ∷ rows) us h = elim (Option-cases (json.of_json row.value)) [
    | inl n ↦ err-absurd (rw (n, upserts) at h)
    | inr (flag, n) ↦ elim (Result-cases (upserts json db env_id rows)) [
      | inl (s, e) ↦ err-absurd (rw (n, e) at h)
      | inr (more, e) ↦
          subst (λ xs. length xs ≡ length (flags_of json db env_id (row ∷ rows)))
            (ok_injective (rw (n, e) at h))
            (rw (n, flags_of, length) (ap suc (length-upserts db env_id rows more e)))
    ]
  ]

  -- Tombstones of keys that it does not hold change nothing.
  pub held-deletes :
      (env_id : String) (tombstones : List Tombstone) (n : ℕ) (rest : List (SseEvent V))
      (flags : List (Flag V))
      → All (λ s. Lacks s.key flags) tombstones
      → held flags (map (λ u. update u) (deletes json env_id tombstones ++ []) ++ (ready n ∷ rest))
        ≡ flags
  unfolding held
  held-deletes env_id [] n rest flags l = refl
  held-deletes env_id (s ∷ tombstones) n rest flags (l, ls) =
      ap
        (λ fs.
          held fs (map (λ u. update u) (deletes json env_id tombstones ++ []) ++ (ready n ∷ rest)))
        (remove_key-Lacks s.key flags l)
      ∙ held-deletes env_id tombstones n rest flags ls

  pub tombstones-Lacks :
      (db : Db V) (env_id : String) (rows : List (FlagRow V)) (tombstones : List Tombstone)
      → All (IsKeyed) rows
      → All (λ s. OtherKeys s.key rows) tombstones
      → All (λ s. Lacks s.key (flags_of json db env_id rows)) tombstones
  tombstones-Lacks db env_id rows [] k h = tt
  tombstones-Lacks db env_id rows (s ∷ tombstones) k (h, hs) =
      (flags_of-Lacks db env_id s.key rows k h, tombstones-Lacks db env_id rows tombstones k hs)

  pub All-Lacks-nil : (rows : List (FlagRow V)) → All (λ r. Lacks {V = V} r.key []) rows
  All-Lacks-nil [] = tt
  All-Lacks-nil (row ∷ rows) = (tt, All-Lacks-nil rows)
