-- ===== src/Server.antt =====
-- The tables of the server that the handlers of flags and change requests read and write, and what they
-- emit. A query and a commit are taken to succeed.
pub mod Concrete
use checkgate.Common.{
  ℕ, String, Bool, true, false, ◌&&◌, Option, none, some, List, [], ◌∷◌, lookup, str_eq,
  if◌then◌else◌,
}
use checkgate.Types.{Flag}
use checkgate.Segments.{SegmentMap}
use checkgate.Status.{StatusCode, not_found, Result, ok, err, ok_or}

-- `serde_json` at the types that the handlers use: `to_value`, `from_value`, and the parts of a value.
pub record FlagJson (V : Type 0) : Type 0 where
  pub to_json : Flag V → Option V
  pub of_json : V → Option (Flag V)
  pub tags_of : V → Option (List String)
  pub as_object : V → Option (List (String × V))
  pub of_object : List (String × V) → V
  pub as_str : V → Option String
  pub is_null : V → Bool
  pub of_str : String → V
  pub of_bool : Bool → V

-- A row of `flags`.
pub record FlagRow (V : Type 0) : Type 0 where
  pub environment_id : String
  pub key : String
  pub value : V
  pub tags : List String
  pub owner_email : Option String
  pub archived_at : Option ℕ
  pub revision : ℕ

module _ {V : Type 0} where
  abbrev pub is_row : String → String → FlagRow V → Bool
  is_row env_id key row = str_eq row.key key && str_eq row.environment_id env_id

  -- `SELECT … WHERE key = $1 AND environment_id = $2`
  unfoldable pub find_row : String → String → List (FlagRow V) → Option (FlagRow V)
  find_row env_id key [] = none
  find_row env_id key (row ∷ rows) =
      let rest = find_row env_id key rows in if is_row env_id key row then some row else rest

-- A row of `change_requests`, without its times.
pub record ChangeRow (V : Type 0) : Type 0 where
  pub id : ℕ
  pub environment_id : String
  pub flag_key : String
  pub patch : V
  pub requested_by : String
  pub status : String
  pub reviewed_by : Option String
  pub reason : Option String

-- The tables; `environments` has the column `require_approval`, `next_revision` and `next_request` are
-- the sequences.
pub record Db (V : Type 0) : Type 0 where
  pub environments : List (String × Bool)
  pub flags : List (FlagRow V)
  pub segments : List (String × SegmentMap V)
  pub change_requests : List (ChangeRow V)
  pub next_revision : ℕ
  pub next_request : ℕ

-- What a handler does after its transaction: the audit log, the store of the instance, the channel of
-- updates, and the notifications.
pub data Effect (V : Type 0) : Type 0 where
  audited : String → String → Option String → String → Option V → Option V → Option V → Effect V
  stored : Flag V → Effect V
  published : String → Flag V → ℕ → Effect V
  published_delete : String → String → ℕ → Effect V
  notified : String → String → String → Option V → Option String → Option V → Effect V
  notified_request : String → String → String → ℕ → Option String → Option String → Effect V

pub record Outcome (V A : Type 0) : Type 0 where
  pub response : Result A
  pub db : Db V
  pub effects : List (Effect V)

-- An error before the commit: the transaction is rolled back.
abbrev pub refused : {V A : Type 0} → Db V → StatusCode → Outcome V A
refused db status = record { response = err status; db = db; effects = [] }

-- `SELECT require_approval FROM environments …`
abbrev pub lock_environment : {V : Type 0} → Db V → String → Result Bool
lock_environment db env_id = ok_or (lookup env_id db.environments) not_found
