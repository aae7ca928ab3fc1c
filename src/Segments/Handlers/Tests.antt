-- ===== src/Segments/Handlers/Tests.antt =====
-- Ada patches the segment of the paying users, which one of two flags refers to.
use checkgate.Common.{String, Bool, false, none, some, [], ◌∷◌, str_eq}
use checkgate.Types.{pos}
use checkgate.Status.{fetched}
use checkgate.Auth.{AuthContext, AuthWorld}
use checkgate.Auth.Require.{by_session}
use checkgate.Server.{FlagRow}
use checkgate.Server.Concrete.{Json, text, of_fields}
use checkgate.Segments.Handlers.{PatchSegmentBody, SegmentTables}

abbrev world : AuthWorld
world = record {
  user_by_id = λ i. fetched none;
  sdk_key_by_value = λ key. fetched none;
  pat_by_hash = λ hash. fetched none;
  project_role = λ env user. fetched (some "editor");
  now = pos 0;
  db_now = pos 0;
  env_sdk_key = none;
  sha256 = λ bytes. bytes;
  constant_time_eq = λ a b. false;
}

abbrev ada : AuthContext
ada =
    by_session
      (record { user_id = pos 1; expires_at = pos 9; email = "ada"; name = "ada"; role = "editor" })

-- the values of the rows name the segment that they refer to
abbrev refers_to : Json → String → Bool
refers_to (text s) key = str_eq s key
refers_to _ key = false

abbrev row : String → Json → FlagRow Json
row key value = record {
  environment_id = "env-1";
  key = key;
  value = value;
  tags = [];
  owner_email = none;
  archived_at = none;
  revision = 1;
}

abbrev tables : SegmentTables Json
tables = record {
  segments =
      record {
        id = 1;
        environment_id = "env-1";
        name = "Paying";
        key = "paying";
        description = none;
        rules = [];
      }
      ∷ [];
  flags = row "a" (text "paying") ∷ row "b" (of_fields []) ∷ [];
  next_revision = 2;
  next_segment = 2;
}

abbrev body : PatchSegmentBody Json
body = record { name = some "Customers"; description = some none; rules = none }
