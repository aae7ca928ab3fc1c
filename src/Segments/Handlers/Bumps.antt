-- ===== src/Segments/Handlers/Bumps.antt =====
-- The new revisions of the flags that refer to a segment, and what is sent of them.
use mathlib.Core.Path.{subst}
use checkgate.Common.{
  ℕ, suc, ◌≤◌, ◌≡◌, ◌⊎◌, refl, sym, inl, inr, arith, String, Bool, true, false, Option, none, some,
  List, [], ◌∷◌, In, Bool-cases, Option-cases,
}
use checkgate.Types.{Flag}
use checkgate.Server.{FlagJson, FlagRow, Effect, stored, published}
use checkgate.Segments.{SegmentMap, expand_flag_with_segments}
use checkgate.Segments.Handlers.{Rerevised, refers, bump_revisions, rebroadcast}

-- The lists are equally long, and the relation holds at each place.
abbrev pub Pairwise : {A : Type 0} → (A → A → Type 0) → List A → List A → Type 0
Pairwise R [] [] = Unit
Pairwise R (a ∷ as₁) (b ∷ bs) = R a b × Pairwise R as₁ bs
Pairwise R _ _ = ⊥

pub Pairwise-map :
    {A : Type 0} (R S : A → A → Type 0)
    → ((a b : A) → R a b → S a b)
    → (xs ys : List A) → Pairwise R xs ys
    → Pairwise S xs ys
Pairwise-map R S f [] [] h = tt
Pairwise-map R S f (a ∷ xs) (b ∷ ys) (r, h) = (f a b r, Pairwise-map R S f xs ys h)
Pairwise-map R S f [] (b ∷ ys) h = h
Pairwise-map R S f (a ∷ xs) [] h = h

module _ {V : Type 0} (json : FlagJson V) (contains_reference : V → String → Bool) where
  -- the flag of a row is stored and published as the segments expand it, at the row's revision
  abbrev pub IsSent : String → SegmentMap V → List (Effect V) → ℕ → Option (Flag V) → Type 0
  IsSent env_id segment_map effects revision none = Unit
  IsSent env_id segment_map effects revision (some flag) =
      In (stored (expand_flag_with_segments flag segment_map)) effects
      × In (published env_id (expand_flag_with_segments flag segment_map) revision) effects

  unfoldable pub IsBumped : String → String → ℕ → List (FlagRow V) → FlagRow V → FlagRow V → Type 0
  IsBumped env_id key next changed row new =
      ((refers json contains_reference env_id key row ≡ false) × (new ≡ row))
      ⊎ ((refers json contains_reference env_id key row ≡ true)
          × (revision : ℕ) × (next ≤ revision)
          × (new ≡ record row { revision = revision })
          × In new changed)

  pub bump_revisions-Pairwise :
      (env_id key : String) (next : ℕ) (rows : List (FlagRow V))
      → Pairwise
          (IsBumped env_id key next
            (bump_revisions json contains_reference env_id key next rows).changed)
          rows
          (bump_revisions json contains_reference env_id key next rows).flags
  unfolding bump_revisions IsBumped
  bump_revisions-Pairwise env_id key next [] = tt
  bump_revisions-Pairwise env_id key next (row ∷ rows) =
      let more = bump_revisions json contains_reference env_id key (suc next) rows in
      let same = bump_revisions json contains_reference env_id key next rows in
      let new : FlagRow V = record row { revision = next } in
      let holds : Rerevised V → Type 0 =
        λ left. Pairwise (IsBumped env_id key next left.changed) (row ∷ rows) left.flags in
      elim (Bool-cases (refers json contains_reference env_id key row)) [
        | inl e ↦
            let bumped : bump_revisions json contains_reference env_id key next (row ∷ rows)
                ≡ record more { flags = new ∷ more.flags; changed = new ∷ more.changed } =
              rw (e, bump_revisions) refl in
            subst holds (sym bumped) (
              inr (e, next, omega arith, refl, inl refl),
              Pairwise-map (IsBumped env_id key (suc next) more.changed)
                  (IsBumped env_id key next (new ∷ more.changed))
                  (λ a b r. elim r [
                    | inl kept ↦ inl kept
                    | inr (t, revision, later, is_new, place) ↦
                        inr (t, revision, omega arith, is_new, inr place)
                  ])
                  rows more.flags (bump_revisions-Pairwise env_id key (suc next) rows),
            )
        | inr e ↦
            let kept : bump_revisions json contains_reference env_id key next (row ∷ rows)
                ≡ record same { flags = row ∷ same.flags } =
              rw (e, bump_revisions) refl in
            subst holds (sym kept) (inl (e, refl), bump_revisions-Pairwise env_id key next rows)
      ]

  IsSent-later :
      (env_id : String) (segment_map : SegmentMap V) (a b : Effect V) (effects : List (Effect V))
      (revision : ℕ) (found : Option (Flag V))
      → IsSent env_id segment_map effects revision found
      → IsSent env_id segment_map (a ∷ b ∷ effects) revision found
  IsSent-later env_id segment_map a b effects revision none h = h
  IsSent-later env_id segment_map a b effects revision (some flag) (h, k) =
      (inr (inr h), inr (inr k))

  -- Every changed row is sent.
  pub rebroadcast-IsSent :
      (env_id : String) (segment_map : SegmentMap V) (changed : List (FlagRow V)) (row : FlagRow V)
      → In row changed
      → IsSent env_id segment_map
          (rebroadcast json contains_reference env_id segment_map changed)
          row.revision
          (json.of_json row.value)
  unfolding rebroadcast
  rebroadcast-IsSent env_id segment_map [] row m = elim m [ ]
  rebroadcast-IsSent env_id segment_map (r ∷ changed) row (inl same) =
      subst
        (λ x.
          IsSent env_id segment_map
            (rebroadcast json contains_reference env_id segment_map (r ∷ changed)) x.revision
            (json.of_json x.value))
        same
        (elim (Option-cases (json.of_json r.value)) [
          | inl n ↦
              subst
                (IsSent env_id segment_map
                  (rebroadcast json contains_reference env_id segment_map (r ∷ changed)) r.revision)
                (sym n) tt
          | inr (flag, n) ↦
              subst
                (IsSent env_id segment_map
                  (rebroadcast json contains_reference env_id segment_map (r ∷ changed)) r.revision)
                (sym n) (rw (n, rebroadcast, In) (inl refl, inr (inl refl)))
        ])
  rebroadcast-IsSent env_id segment_map (r ∷ changed) row (inr m) =
      let rest = rebroadcast-IsSent env_id segment_map changed row m in
      elim (Option-cases (json.of_json r.value)) [
        | inl n ↦
            let skipped : rebroadcast json contains_reference env_id segment_map (r ∷ changed)
                ≡ rebroadcast json contains_reference env_id segment_map changed =
              rw (n, rebroadcast) refl in
            subst (λ es. IsSent env_id segment_map es row.revision (json.of_json row.value))
              (sym skipped) rest
        | inr (flag, n) ↦
            let sent : rebroadcast json contains_reference env_id segment_map (r ∷ changed)
                ≡ stored (expand_flag_with_segments flag segment_map)
                  ∷ published env_id (expand_flag_with_segments flag segment_map) r.revision
                  ∷ rebroadcast json contains_reference env_id segment_map changed =
              rw (n, rebroadcast) refl in
            subst (λ es. IsSent env_id segment_map es row.revision (json.of_json row.value))
              (sym sent)
              (IsSent-later env_id segment_map _ _ _ row.revision (json.of_json row.value) rest)
      ]
