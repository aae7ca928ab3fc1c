-- ===== src/Segments/Handlers.antt =====
-- The handlers of server/src/api/segments.rs. The rules of a row are kept as rules, since what is written is
-- the JSON of rules; ids are numbers. Queries succeed.
pub mod Bumps
pub mod Laws
mod Tests
use checkgate.Common.{
  ℕ, suc, String, Bool, true, false, not, ◌&&◌, Option, none, some, List, [], ◌∷◌, ◌++◌, map,
  is_some, lookup, str_eq, unwrap_or, if◌then◌else◌,
}
use checkgate.Types.{TargetingRule, Flag}
use checkgate.Status.{
  StatusCode, conflict, not_found, unprocessable_entity, internal_server_error, Result, ok, err,
  ok_or, ◌>>=◌, ◌>>◌,
}
use checkgate.Auth.{AuthContext, AuthWorld}
use checkgate.Auth.Access.{check_env_access, check_env_write_access}
use checkgate.Server.{FlagJson, FlagRow, Db, Effect, stored, published, lock_environment}
use checkgate.Segments.{SegmentMap, expand_flag_with_segments}
use checkgate.Flags.{is_valid_flag_key}

-- A row of `segments`, and the `Segment` that is shown, without its time.
pub record Segment (V : Type 0) : Type 0 where
  pub id : ℕ
  pub environment_id : String
  pub name : String
  pub key : String
  pub description : Option String
  pub rules : List (TargetingRule V)

pub record CreateSegmentBody (V : Type 0) : Type 0 where
  pub name : String
  pub key : String
  pub description : Option String
  pub rules : List (TargetingRule V)

pub record PatchSegmentBody (V : Type 0) : Type 0 where
  pub name : Option String
  pub description : Option (Option String)
  pub rules : Option (List (TargetingRule V))

-- The tables that the handlers write, with the sequence of the ids.
pub record SegmentTables (V : Type 0) : Type 0 where
  pub segments : List (Segment V)
  pub flags : List (FlagRow V)
  pub next_revision : ℕ
  pub next_segment : ℕ

pub record SegmentOutcome (V A : Type 0) : Type 0 where
  pub response : Result A
  pub tables : SegmentTables V
  pub effects : List (Effect V)

-- What the update of the flags leaves: the rows, the sequence, and the rows that it has changed.
pub record Rerevised (V : Type 0) : Type 0 where
  pub flags : List (FlagRow V)
  pub next_revision : ℕ
  pub changed : List (FlagRow V)

-- the same constraints as those of a flag's key
unfoldable pub is_valid_segment_key : String → Bool
unfolding is_valid_flag_key
is_valid_segment_key key = is_valid_flag_key key

module _ {V : Type 0} where
  abbrev pub is_segment : String → String → Segment V → Bool
  is_segment env_id key segment = str_eq segment.environment_id env_id && str_eq segment.key key

  unfoldable pub load_env_segments : String → List (Segment V) → SegmentMap V
  load_env_segments env_id [] = []
  load_env_segments env_id (segment ∷ segments) =
      let rest = load_env_segments env_id segments in
      if str_eq segment.environment_id env_id then (segment.key, segment.rules) ∷ rest else rest

  unfoldable pub find_segment : String → String → List (Segment V) → Option (Segment V)
  find_segment env_id key [] = none
  find_segment env_id key (segment ∷ segments) =
      let rest = find_segment env_id key segments in
      if is_segment env_id key segment then some segment else rest

  -- `COALESCE` of the name and the rules; a description that is present replaces the stored one
  abbrev pub patched : PatchSegmentBody V → Segment V → Segment V
  patched body segment = record segment {
    name = unwrap_or body.name segment.name;
    description = unwrap_or body.description segment.description;
    rules = unwrap_or body.rules segment.rules;
  }

  -- `UPDATE segments …` and `DELETE FROM segments …`, of the unique environment and key
  abbrev pub update_segment :
      String → String → PatchSegmentBody V → List (Segment V) → List (Segment V)
  update_segment env_id key body segments =
      map (λ s. if is_segment env_id key s then patched body s else s) segments

  unfoldable pub delete_from : String → String → List (Segment V) → List (Segment V)
  delete_from env_id key [] = []
  delete_from env_id key (segment ∷ segments) =
      let rest = delete_from env_id key segments in
      if is_segment env_id key segment then rest else segment ∷ rest

-- `contains_reference` is `data->'rules' @> [{"segment_key": …}]` of the database.
module _ {V : Type 0} (json : FlagJson V) (contains_reference : V → String → Bool) where
  abbrev pub refers : String → String → FlagRow V → Bool
  refers env_id key row = str_eq row.environment_id env_id && contains_reference row.value key

  -- `UPDATE flags SET revision = revision WHERE …`, whose trigger takes the next revision for each row
  unfoldable pub bump_revisions : String → String → ℕ → List (FlagRow V) → Rerevised V
  bump_revisions env_id key next [] = record { flags = []; next_revision = next; changed = [] }
  bump_revisions env_id key next (row ∷ rows) =
      let more = bump_revisions env_id key (suc next) rows in
      let same = bump_revisions env_id key next rows in
      let new : FlagRow V = record row { revision = next } in
      if refers env_id key row
      then record more { flags = new ∷ more.flags; changed = new ∷ more.changed }
      else record same { flags = row ∷ same.flags }

  -- What is stored and published of the changed rows: those whose value is a flag.
  unfoldable pub rebroadcast : String → SegmentMap V → List (FlagRow V) → List (Effect V)
  unfolding expand_flag_with_segments
  rebroadcast env_id segment_map [] = []
  rebroadcast env_id segment_map (row ∷ rows) =
      let rest = rebroadcast env_id segment_map rows in
      elim (json.of_json row.value) [
        | none ↦ rest
        | some flag ↦
            stored (expand_flag_with_segments flag segment_map)
            ∷ published env_id (expand_flag_with_segments flag segment_map) row.revision
            ∷ rest
      ]

  -- What a write of the segments leaves: the flags with their new revisions, and the effects.
  unfoldable pub rerevision_referencing_flags :
      {A : Type 0} → String → String → SegmentTables V → A → SegmentOutcome V A
  unfolding bump_revisions rebroadcast load_env_segments
  rerevision_referencing_flags env_id key t answer =
      let bumped = bump_revisions env_id key t.next_revision t.flags in
      record {
        response = ok answer;
        tables = record t { flags = bumped.flags; next_revision = bumped.next_revision };
        effects = rebroadcast env_id (load_env_segments env_id t.segments) bumped.changed;
      }

  abbrev pub rejected : {A : Type 0} → SegmentTables V → StatusCode → SegmentOutcome V A
  rejected t status = record { response = err status; tables = t; effects = [] }

  module _ (world : AuthWorld) (environments : List (String × Bool)) (jar : AuthContext)
      (env_id : String) where
    -- the checks that the three handlers share: the access, and no approval
    unfoldable pub may_write : Result (Unit {0})
    unfolding check_env_access check_env_write_access
    may_write = do
      check_env_access world jar env_id
      check_env_write_access world jar env_id
      protected ← ok_or (lookup env_id environments) not_found
      if protected then err conflict else ok tt

    abbrev pub may_create : CreateSegmentBody V → List (Segment V) → Result (Unit {0})
    may_create body segments =
        if not (is_valid_segment_key body.key)
        then err unprocessable_entity
        else if is_some (find_segment env_id body.key segments)
        then err internal_server_error
        else ok tt

    unfoldable pub create_segment :
        CreateSegmentBody V → SegmentTables V → SegmentOutcome V (Segment V)
    unfolding may_write is_valid_segment_key find_segment rerevision_referencing_flags
    create_segment body t = elim (may_write >> may_create body t.segments) [
      | err status ↦ rejected t status
      | ok done ↦
          let segment : Segment V = record {
            id = t.next_segment;
            environment_id = env_id;
            name = body.name;
            key = body.key;
            description = body.description;
            rules = body.rules;
          } in
          rerevision_referencing_flags env_id body.key
            (record t { segments = t.segments ++ segment ∷ []; next_segment = suc t.next_segment })
            segment
    ]

    unfoldable pub patch_segment :
        String → PatchSegmentBody V → SegmentTables V → SegmentOutcome V (Segment V)
    unfolding may_write find_segment rerevision_referencing_flags
    patch_segment key body t =
        elim (may_write >> ok_or (find_segment env_id key t.segments) not_found) [
          | err status ↦ rejected t status
          | ok segment ↦
              rerevision_referencing_flags env_id key
                (record t { segments = update_segment env_id key body t.segments })
                (patched body segment)
        ]

    unfoldable pub delete_segment : String → SegmentTables V → SegmentOutcome V (Unit {0})
    unfolding may_write find_segment delete_from rerevision_referencing_flags
    delete_segment key t =
        elim (may_write >> ok_or (find_segment env_id key t.segments) not_found) [
          | err status ↦ rejected t status
          | ok segment ↦
              rerevision_referencing_flags env_id key
                (record t { segments = delete_from env_id key t.segments }) tt
        ]

    unfoldable pub get_segment : String → List (Segment V) → Result (Segment V)
    unfolding check_env_access find_segment
    get_segment key segments = do
      check_env_access world jar env_id
      ok_or (find_segment env_id key segments) not_found
