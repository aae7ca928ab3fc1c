-- ===== src/Flags/Patch/Laws.antt =====
-- What a patch may change, and the flag that it leaves.
use checkgate.Common.{
  ℕ, ◌≤◌, String, ◌≡◌, refl, sym, ap, ◌∙◌, inl, inr, false, ◌||◌, Option, none, some, List, [], ◌∷◌,
  lookup, arith, str_eq, eq_iff, eq_refl, or_else, Bool-cases, Option-cases, if◌then◌else◌,
}
use checkgate.External.{HasDistinctKeys}
use checkgate.External.Concrete.{without, lookup-without, without-HasDistinctKeys}
use checkgate.Status.{ok, ok_injective, err-absurd, some_injective, Result-cases}
use checkgate.Server.{FlagJson, FlagRow, find_row}
use checkgate.Flags.Patch.{
  Merged, is_over, insert_all, merge, patched_tags, patched_owner, merge_and_validate,
}

within_100 :
    (percentage : Option ℕ) (p : ℕ) → is_over percentage ≡ false → percentage ≡ some p → p ≤ 100
within_100 none p h e = cc
within_100 (some q) p h e = ground arith

module _ {V : Type 0} where
  lookup-insert_all :
      (patch fields : List (String × V)) (k : String)
      → HasDistinctKeys patch
      → lookup k (insert_all fields patch) ≡ or_else (lookup k patch) (lookup k fields)
  unfolding insert_all
  lookup-insert_all [] fields k d = refl
  lookup-insert_all ((j, v) ∷ patch) fields k d =
      let rest = lookup-insert_all patch ((j, v) ∷ without j fields) k d.1 in
      ground (arith, rest, lookup-without fields j k, eq_iff j k)

  -- What the patch says of a field that it may change.
  abbrev pub of_patch : List (String × V) → String → Option V
  of_patch patch k =
      if str_eq k "key" || str_eq k "tags" || str_eq k "owner_email" then none else lookup k patch

  insert_all-HasDistinctKeys :
      (patch fields : List (String × V))
      → HasDistinctKeys fields
      → HasDistinctKeys (insert_all fields patch)
  unfolding insert_all
  insert_all-HasDistinctKeys [] fields d = d
  insert_all-HasDistinctKeys ((j, v) ∷ patch) fields d =
      insert_all-HasDistinctKeys patch ((j, v) ∷ without j fields)
        (ground (arith, lookup-without fields j j, eq_refl j), without-HasDistinctKeys fields j d)

module _ {V : Type 0} (json : FlagJson V) (rows : List (FlagRow V)) (env_id key : String) where
  abbrev kept : List (String × V) → List (String × V)
  kept fields = without "owner_email" (without "tags" (without "key" fields))

  -- What a patch that is accepted leaves.
  pub record Accepted (fields : List (String × V)) (m : Merged V) : Type 0 where
    pub row : FlagRow V
    pub found : find_row env_id key rows ≡ some row
    pub before : m.before ≡ row.value
    pub value : m.value ≡ merge json row.value (kept fields)
    pub reads : json.of_json m.value ≡ some m.flag
    pub in_range : is_over m.flag.rollout_percentage ≡ false

  accepted :
      (patch : V) (fields : List (String × V)) (m : Merged V)
      → json.as_object patch ≡ some fields
      → merge_and_validate json rows env_id key patch ≡ ok m
      → Accepted fields m
  unfolding merge_and_validate
  accepted patch fields m o h =
      let h₁ = rw (o, merge_and_validate) at h in
      elim (Result-cases (patched_tags json (lookup "tags" (without "key" fields)))) [
        | inl (s, t) ↦ err-absurd (rw t at h₁)
        | inr (tags, t) ↦
            elim (Result-cases
              (patched_owner json (lookup "owner_email" (without "tags" (without "key" fields))))) [
                | inl (s, w) ↦ err-absurd (rw (t, w) at h₁)
                | inr (owner, w) ↦ elim (Option-cases (find_row env_id key rows)) [
                  | inl r ↦ err-absurd (rw (t, w, r) at h₁)
                  | inr (row, r) ↦
                      elim (Option-cases (json.of_json (merge json row.value (kept fields)))) [
                        | inl f ↦ err-absurd (rw (t, w, r, f) at h₁)
                        | inr (flag, f) ↦ elim (Bool-cases (is_over flag.rollout_percentage)) [
                          | inl over ↦ err-absurd (rw (t, w, r, f, over) at h₁)
                          | inr within ↦
                              let e = ok_injective (rw (t, w, r, f, within) at h₁) in
                              record {
                                row = row;
                                found = r;
                                before = sym (ap Merged.before e);
                                value = sym (ap Merged.value e);
                                reads =
                                    ap json.of_json (sym (ap Merged.value e))
                                    ∙ f
                                    ∙ ap some (ap Merged.flag e);
                                in_range =
                                    sym (ap (λ (x : Merged V). is_over x.flag.rollout_percentage) e)
                                    ∙ within;
                              }
                        ]
                      ]
                ]
              ]
      ]

  lookup-kept :
      (fields : List (String × V)) (k : String) → lookup k (kept fields) ≡ of_patch fields k
  lookup-kept fields k = ground (
    arith,
    lookup-without (without "tags" (without "key" fields)) "owner_email" k,
    lookup-without (without "key" fields) "tags" k,
    lookup-without fields "key" k,
    eq_iff "owner_email" k,
    eq_iff "tags" k,
    eq_iff "key" k,
    eq_iff k "owner_email",
    eq_iff k "tags",
    eq_iff k "key",
  )

  -- A patch that is accepted leaves a value that reads as the flag returned, with no percentage above 100.
  -- If the stored value is an object, so is the new one, and a field of it is the patch's if the patch has it,
  -- and else the stored one: the key, the tags and the owner of the stored object stay, whatever the patch
  -- says of them. An object is taken to have distinct keys, and one that is built from fields
  -- to have these fields, in any order.
  pub merge_and_validate-fields :
      ((m : List (String × V))
        → HasDistinctKeys m
        → (n : List (String × V)) × (json.as_object (json.of_object m) ≡ some n)
          × ((k : String) → lookup k n ≡ lookup k m))
      → (patch : V) (fields old : List (String × V)) (row : FlagRow V) (m : Merged V)
      → json.as_object patch ≡ some fields
      → HasDistinctKeys fields
      → find_row env_id key rows ≡ some row
      → json.as_object row.value ≡ some old
      → HasDistinctKeys old
      → merge_and_validate json rows env_id key patch ≡ ok m
      → (json.of_json m.value ≡ some m.flag)
        × ((p : ℕ) → m.flag.rollout_percentage ≡ some p → p ≤ 100)
        × ((new : List (String × V)) × (json.as_object m.value ≡ some new)
            × ((k : String) → lookup k new ≡ or_else (of_patch fields k) (lookup k old)))
  merge_and_validate-fields round patch fields old row m o d found is_old d' h =
      let a = accepted patch fields m o h in
      let same : a.row ≡ row = some_injective (sym a.found ∙ found) in
      let is_new : merge json row.value (kept fields)
          ≡ json.of_object (insert_all old (kept fields)) =
        rw (is_old, merge) in
      let distinct : HasDistinctKeys (kept fields) =
        without-HasDistinctKeys _ "owner_email"
          (without-HasDistinctKeys _ "tags" (without-HasDistinctKeys fields "key" d)) in
      let merged = insert_all old (kept fields) in
      let (new, reads_back, same_fields) =
        round merged (insert_all-HasDistinctKeys (kept fields) old d') in
      (
        a.reads,
        λ p e. within_100 _ p a.in_range e,
        (
          new,
          ap json.as_object
                (a.value ∙ ap (λ (x : FlagRow V). merge json x.value (kept fields)) same ∙ is_new)
              ∙ reads_back,
          λ k.
              same_fields k
              ∙ lookup-insert_all (kept fields) old k distinct
              ∙ ap (λ x. or_else x (lookup k old)) (lookup-kept fields k),
        ),
      )
