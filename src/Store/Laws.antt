-- ===== src/Store/Laws.antt =====
-- What the flag store keeps: each flag under its own key, the last write of each key, and the list
-- of the flags with no repetition.
use checkgate.Common.{
  String, ◌≡◌, ◌≢◌, ◌↔◌, ap, sym, ◌∙◌, inl, inr, Option, none, some, List, [], ◌∷◌, map, arith,
  str_eq, eq_iff, eq_refl, lookup, All, In, Bool-cases, if◌then◌else◌,
}
use checkgate.External.{External, DashMap, HasDistinctKeys}
use checkgate.Types.{Flag}
use checkgate.Store.{FlagStore, new, upsert_flag, get_flag, delete_flag, list_flags, clear}

-- The calls that change a store.
pub data Write (V : Type 0) : Type 0 where
  upsert : Flag V → Write V
  delete : String → Write V
  clear_all : Write V

-- What the calls, the latest first, leave under a key.
unfoldable pub last_write : {V : Type 0} → List (Write V) → String → Option (Flag V)
last_write [] k = none
last_write (upsert f ∷ ws) k = if str_eq f.key k then some f else last_write ws k
last_write (delete j ∷ ws) k = if str_eq j k then none else last_write ws k
last_write (clear_all ∷ ws) k = none

module _ (ext : External) where
  -- The store after the calls, the latest first, on a new store.
  unfoldable pub run : List (Write ext.Value) → FlagStore ext
  unfolding new upsert_flag delete_flag clear
  run [] = new ext
  run (upsert f ∷ ws) = upsert_flag ext (run ws) f
  run (delete k ∷ ws) = delete_flag ext (run ws) k
  run (clear_all ∷ ws) = clear ext (run ws)

  abbrev entries : DashMap (Flag ext.Value)
  entries = ext.dash_map (Flag ext.Value)

  -- After any sequence of upserts, deletes and clears on a new store, `get_flag` returns what the
  -- last call about the key left: the flag of an upsert, and nothing after a delete or a clear.
  pub get_flag-run :
      (ws : List (Write ext.Value)) (k : String) → get_flag ext (run ws) k ≡ last_write ws k
  unfolding run last_write get_flag new upsert_flag delete_flag clear
  get_flag-run [] k = entries.get_new k
  get_flag-run (upsert f ∷ ws) k =
      ground (arith, entries.get_insert (run ws) f.key k f, get_flag-run ws k)
  get_flag-run (delete j ∷ ws) k =
      ground (arith, entries.get_remove (run ws) j k, get_flag-run ws k)
  get_flag-run (clear_all ∷ ws) k = entries.get_clear (run ws) k

  -- Each flag stands under its own key.
  pub record IsKeyed (store : FlagStore ext) : Type 0 where
    pub at_key : (k : String) (f : Flag ext.Value) → get_flag ext store k ≡ some f → f.key ≡ k

  last_write-keyed :
      (ws : List (Write ext.Value)) (k : String) (f : Flag ext.Value)
      → last_write ws k ≡ some f
      → f.key ≡ k
  unfolding last_write
  last_write-keyed [] k f e = cc
  last_write-keyed (upsert g ∷ ws) k f e = elim (Bool-cases (str_eq g.key k)) [
    | inl same ↦ ground (arith, rw same at e, eq_iff g.key k)
    | inr other ↦ last_write-keyed ws k f (rw other at e)
  ]
  last_write-keyed (delete j ∷ ws) k f e = elim (Bool-cases (str_eq j k)) [
    | inl same ↦ cc (rw same at e)
    | inr other ↦ last_write-keyed ws k f (rw other at e)
  ]
  last_write-keyed (clear_all ∷ ws) k f e = cc

  pub run-IsKeyed : (ws : List (Write ext.Value)) → IsKeyed (run ws)
  run-IsKeyed ws = record {
    at_key = λ k f e. last_write-keyed ws k f (sym (get_flag-run ws k) ∙ e);
  }

module _ {V : Type 0} where
  -- Each entry stands under the key of its flag.
  abbrev Keyed : List (String × Flag V) → Type 0
  Keyed es = (k : String) (f : Flag V) → lookup k es ≡ some f → f.key ≡ k

  In-of_lookup :
      (es : List (String × Flag V)) (k : String) (f : Flag V)
      → lookup k es ≡ some f
      → In f (map (λ e. e.1) es)
  In-of_lookup [] k f h = cc
  In-of_lookup ((j, g) ∷ es) k f h = ground (arith, In-of_lookup es k f)

  Keyed-tail :
      (k : String) (f : Flag V) (es : List (String × Flag V))
      → HasDistinctKeys ((k, f) ∷ es)
      → Keyed ((k, f) ∷ es)
      → Keyed es
  Keyed-tail k f es d keyed j g h = keyed j g (ground (arith, eq_iff k j))

  lookup_of_In :
      (es : List (String × Flag V)) (f : Flag V)
      → HasDistinctKeys es
      → Keyed es
      → In f (map (λ e. e.1) es)
      → lookup f.key es ≡ some f
  lookup_of_In [] f d keyed h = absurd h
  lookup_of_In ((k, g) ∷ es) f d keyed (inl e) =
      ground (arith, keyed k g, eq_iff k f.key, eq_refl k, ap (λ (x : Flag V). x.key) e)
  lookup_of_In ((k, g) ∷ es) f d keyed (inr later) =
      ground (arith, lookup_of_In es f d.1 (Keyed-tail k g es d keyed) later, eq_iff k f.key)

-- No two flags of the list have one key.
abbrev pub HasDistinctFlags : {V : Type 0} → List (Flag V) → Type 0
HasDistinctFlags [] = Unit
HasDistinctFlags (f ∷ fs) = All (λ g. g.key ≢ f.key) fs × HasDistinctFlags fs

module _ {V : Type 0} where
  key-ne :
      (k : String) (es : List (String × Flag V))
      → HasDistinctKeys es
      → Keyed es
      → lookup k es ≡ none
      → All (λ g. g.key ≢ k) (map (λ e. e.1) es)
  key-ne k [] d keyed h = tt
  key-ne k ((j, g) ∷ es) d keyed h = (
    λ e. ground (arith, keyed j g, eq_refl j, eq_iff j k),
    key-ne k es d.1 (Keyed-tail j g es d keyed) (ground arith),
  )

  entries-HasDistinctFlags :
      (es : List (String × Flag V))
      → HasDistinctKeys es
      → Keyed es
      → HasDistinctFlags (map (λ e. e.1) es)
  entries-HasDistinctFlags [] d keyed = tt
  entries-HasDistinctFlags ((k, g) ∷ es) d keyed =
      let same : g.key ≡ k = keyed k g (ground (arith, eq_refl k)) in
      let rest = Keyed-tail k g es d keyed in
      (key-ne g.key es d.1 rest (rw same d.0), entries-HasDistinctFlags es d.1 rest)

module _ (ext : External) (ws : List (Write ext.Value)) where
  abbrev listed : List (String × Flag ext.Value)
  listed = (entries ext).iter (run ext ws)

  listed-Keyed : Keyed listed
  unfolding get_flag
  listed-Keyed k f h =
      (run-IsKeyed ext ws).at_key k f (sym ((entries ext).lookup_iter (run ext ws) k) ∙ h)

  -- After any calls on a new store, `list_flags` lists a flag exactly when `get_flag` returns it
  -- for its key, and no two of the listed flags have one key.
  pub list_flags-run :
      ((f : Flag ext.Value)
        → In f (list_flags ext (run ext ws)) ↔ (get_flag ext (run ext ws) f.key ≡ some f))
      × HasDistinctFlags (list_flags ext (run ext ws))
  unfolding list_flags get_flag
  list_flags-run =
      let distinct = (entries ext).iter_distinct (run ext ws) in
      let same = (entries ext).lookup_iter (run ext ws) in
      (
        λ f. (
          λ h. sym (same f.key) ∙ lookup_of_In listed f distinct listed-Keyed h,
          λ h. In-of_lookup listed f.key f (same f.key ∙ h),
        ),
        entries-HasDistinctFlags listed distinct listed-Keyed,
      )
