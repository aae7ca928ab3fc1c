-- ===== src/Segments/Handlers/Laws.antt =====
-- The flags that refer to a segment, after a write of it.
use checkgate.Common.{ℕ, ◌≤◌, ◌≡◌, ◌⊎◌, String, Bool, true, false, List}
use checkgate.Status.{is_ok}
use checkgate.Auth.{AuthContext, AuthWorld}
use checkgate.Server.{FlagJson, FlagRow, Effect}
use checkgate.Segments.{SegmentMap}
use checkgate.Segments.Handlers.{
  CreateSegmentBody, PatchSegmentBody, SegmentTables, SegmentOutcome, load_env_segments, refers,
  create_segment, patch_segment, delete_segment,
}
use checkgate.Segments.Handlers.Bumps.{Pairwise, IsSent}

-- A call of a handler that writes segments.
pub data Call (V : Type 0) : Type 0 where
  creates : CreateSegmentBody V → Call V
  patches : String → PatchSegmentBody V → Call V
  deletes : String → Call V

abbrev pub key_of : {V : Type 0} → Call V → String
key_of (creates body) = body.key
key_of (patches key body) = key
key_of (deletes key) = key

-- What a call leaves: whether it succeeds, the tables, and the effects.
pub record After (V : Type 0) : Type 0 where
  pub accepted : Bool
  pub tables : SegmentTables V
  pub effects : List (Effect V)

abbrev pub after_of : {V A : Type 0} → SegmentOutcome V A → After V
after_of outcome = record {
  accepted = is_ok outcome.response;
  tables = outcome.tables;
  effects = outcome.effects;
}

module _ {V : Type 0} (json : FlagJson V) (contains_reference : V → String → Bool) where
  -- What a write of the segments leaves of a row of the flags: the row as it was, if it does not refer to the
  -- segment, or else the row at a new revision, which is sent as the segments now expand it.
  abbrev pub IsCoherent :
      String → String → SegmentMap V → ℕ → List (Effect V) → FlagRow V → FlagRow V → Type 0
  IsCoherent env_id key segment_map next effects row new =
      ((refers json contains_reference env_id key row ≡ false) × (new ≡ row))
      ⊎ ((refers json contains_reference env_id key row ≡ true)
          × (revision : ℕ) × (next ≤ revision)
          × (new ≡ record row { revision = revision })
          × IsSent json contains_reference env_id segment_map effects revision
              (json.of_json row.value))

  module _ (world : AuthWorld) (environments : List (String × Bool)) (jar : AuthContext)
      (env_id : String) where
    unfoldable pub after : Call V → SegmentTables V → After V
    unfolding create_segment patch_segment delete_segment
    after (creates body) t =
        after_of (create_segment json contains_reference world environments jar env_id body t)
    after (patches key body) t =
        after_of (patch_segment json contains_reference world environments jar env_id key body t)
    after (deletes key) t =
        after_of (delete_segment json contains_reference world environments jar env_id key t)

    -- what holds after a call that succeeds
    abbrev pub AreCoherent : Call V → SegmentTables V → After V → Type 0
    AreCoherent call t left =
        Pairwise
          (IsCoherent env_id (key_of call) (load_env_segments env_id left.tables.segments)
            t.next_revision left.effects)
          t.flags left.tables.flags
