-- ===== src/Stream.antt =====
-- server/src/stream.rs: what a client of `/stream` is sent, and the snapshot that it polls instead. A payload is
-- the JSON of one of the messages of `Update`; `unreadable` stands for any other text. Queries succeed.
pub mod Rows
pub mod Held
pub mod Laws
pub mod Sent
mod Tests
use checkgate.Common.{
  select, ℕ, suc, ◌+◌, String, Bool, true, false, not, ◌&&◌, ◌||◌, Option, none, some, List, [],
  ◌∷◌, ◌++◌, map, any, length, is_some, unwrap_or, lookup, str_eq, if◌then◌else◌,
}
use checkgate.Types.{ℤ, same_int, Flag}
use checkgate.Status.{StatusCode, bad_request, internal_server_error, Result, ok, err, ok_or, ◌>>=◌}
use checkgate.Auth.{AuthContext, SessionClaims, SdkKeyEntry}
use checkgate.Auth.Roles.{get_session_claims}
use checkgate.Server.{FlagJson, FlagRow, Db, find_row}
use checkgate.Segments.{expand_flag_with_segments}
use checkgate.Flags.Handlers.{expanded}

-- `upsert_message`, `delete_message` and `RESYNC_MESSAGE`
pub data Update (V : Type 0) : Type 0 where
  upserted : String → Flag V → ℕ → Update V
  deleted : String → String → ℕ → Update V
  resync : Update V
  unreadable : Update V

-- What the broadcast channel yields.
pub data Received (V : Type 0) : Type 0 where
  message : Update V → Received V
  lagged : ℕ → Received V
  closed : Received V

-- The events of the stream.
pub data SseEvent (V : Type 0) : Type 0 where
  connected : Option String → SseEvent V
  update : Update V → SseEvent V
  ready : ℕ → SseEvent V

pub record Tombstone : Type 0 where
  pub environment_id : String
  pub key : String
  pub revision : ℕ

-- What the snapshot reads: the environments with their projects, the members of projects, the flags and
-- segments, the tombstones; `sorts_before` is the order of the database on keys.
pub record Snapshot (V : Type 0) : Type 0 where
  pub environments : List (String × String)
  pub members : List (String × ℤ)
  pub db : Db V
  pub tombstones : List Tombstone
  pub sorts_before : String → String → Bool

-- `ORDER BY key`
unfoldable pub insert_sorted :
    {A : Type 0} → (A → String) → (String → String → Bool) → A → List A → List A
insert_sorted key_of before a [] = a ∷ []
insert_sorted key_of before a (b ∷ bs) =
    let rest = insert_sorted key_of before a bs in
    if before (key_of b) (key_of a) then b ∷ rest else a ∷ b ∷ bs

unfoldable pub sorted : {A : Type 0} → (A → String) → (String → String → Bool) → List A → List A
unfolding insert_sorted
sorted key_of before [] = []
sorted key_of before (a ∷ rest) = insert_sorted key_of before a (sorted key_of before rest)

-- the environment of an SDK key
abbrev pub key_environment : Option SdkKeyEntry → Option String
key_environment none = none
key_environment (some key) = key.environment_id

-- `WHERE $2 = 'admin' OR EXISTS(SELECT 1 FROM project_members …)`
abbrev pub is_member : List (String × ℤ) → SessionClaims → String → Bool
is_member members claims project =
    str_eq claims.role "admin"
    || any (λ m. str_eq m.0 project && same_int m.1 claims.user_id) members

abbrev pub ids_of : List (String × String) → List String
ids_of environments = map (λ e. e.0) environments

module _ {V : Type 0} where
  -- The environments that the client is sent.
  unfoldable pub env_ids : AuthContext → Snapshot V → List String
  unfolding get_session_claims
  env_ids ctx t = elim (key_environment ctx.sdk_key) [
    | some env_id ↦ env_id ∷ []
    | none ↦ elim (get_session_claims ctx) [
      | some claims ↦ ids_of (select (λ e. is_member t.members claims e.1) t.environments)
      | none ↦ ids_of t.environments
    ]
  ]

  abbrev pub flag_rows : Snapshot V → String → List (FlagRow V)
  flag_rows t env_id =
      sorted (λ row. row.key) t.sorts_before
        (select (λ row. str_eq row.environment_id env_id) t.db.flags)

  -- the tombstones of the environment that no flag has replaced
  abbrev pub tombstones_of : Snapshot V → String → List Tombstone
  tombstones_of t env_id =
      sorted (λ s. s.key) t.sorts_before
        (select
          (λ s.
            str_eq s.environment_id env_id
            && not (is_some (find_row s.environment_id s.key t.db.flags)))
          t.tombstones)

  abbrev pub is_update : SseEvent V → Bool
  is_update (update u) = true
  is_update _ = false

module _ {V : Type 0} (json : FlagJson V) where
  -- the messages of the flags; a value that is no flag ends the request
  unfoldable pub upserts : Db V → String → List (FlagRow V) → Result (List (Update V))
  unfolding expand_flag_with_segments
  upserts db env_id [] = ok []
  upserts db env_id (row ∷ rows) = do
    flag ← ok_or (json.of_json row.value) internal_server_error
    rest ← upserts db env_id rows
    ok (upserted env_id (expanded db env_id flag) row.revision ∷ rest)

  abbrev pub deletes : String → List Tombstone → List (Update V)
  deletes env_id tombstones = map (λ s. deleted env_id s.key s.revision) tombstones

  -- The bootstrap of the environments, with the number of the flags.
  unfoldable pub bootstrap : Snapshot V → List String → Result (List (Update V) × ℕ)
  unfolding upserts sorted find_row
  bootstrap t [] = ok ([], 0)
  bootstrap t (env_id ∷ envs) = do
    flags ← upserts t.db env_id (flag_rows t env_id)
    rest ← bootstrap t envs
    ok (flags ++ (deletes env_id (tombstones_of t env_id) ++ rest.0), length flags + rest.1)

  -- `allowed_envs.contains(env)`, of the environment of a message
  abbrev pub should_forward : List String → Update V → Bool
  should_forward allowed_envs (upserted env flag revision) = any (λ e. str_eq e env) allowed_envs
  should_forward allowed_envs (deleted env key revision) = any (λ e. str_eq e env) allowed_envs
  should_forward allowed_envs _ = false

  abbrev pub is_resync : Update V → Bool
  is_resync resync = true
  is_resync _ = false

  -- The loop: the events that follow what the channel yields, up to a resync or an error.
  unfoldable pub live : List String → List (Received V) → List (SseEvent V)
  live allowed_envs [] = []
  live allowed_envs (message u ∷ received) =
      let rest = live allowed_envs received in
      if is_resync u then [] else if should_forward allowed_envs u then update u ∷ rest else rest
  live allowed_envs (lagged n ∷ received) = []
  live allowed_envs (closed ∷ received) = []

  -- The stream of a client, given what the channel yields while it is connected.
  unfoldable pub sse_handler :
      AuthContext → Snapshot V → List (Received V) → Result (List (SseEvent V))
  unfolding env_ids bootstrap live
  sse_handler ctx t received = do
    start ← bootstrap t (env_ids ctx t)
    ok (
        connected (key_environment ctx.sdk_key)
        ∷ (map (λ u. update u) start.0 ++ (ready start.1 ∷ live (env_ids ctx t) received)))

  -- the values that are flags
  unfoldable pub flags_of : Db V → String → List (FlagRow V) → List (Flag V)
  unfolding expand_flag_with_segments
  flags_of db env_id [] = []
  flags_of db env_id (row ∷ rows) =
      let rest = flags_of db env_id rows in
      elim (json.of_json row.value) [ none ↦ rest | some flag ↦ expanded db env_id flag ∷ rest ]

  unfoldable pub flags_snapshot_handler : AuthContext → Snapshot V → Result (String × List (Flag V))
  unfolding flags_of sorted
  flags_snapshot_handler ctx t = do
    env_id ← ok_or (key_environment ctx.sdk_key) bad_request
    ok (env_id, flags_of t.db env_id (flag_rows t env_id))
