-- ===== src/Stream/Tests.antt =====
-- Two environments, a flag and a deleted flag in the first, and a client with its key.
use checkgate.Common.{◌≡◌, refl, String, false, none, some, List, [], ◌∷◌, All, length}
use checkgate.Types.{pos}
use checkgate.Status.{ok}
use checkgate.Auth.{AuthContext, SdkKeyEntry}
use checkgate.Server.{FlagRow, find_row}
use checkgate.Server.Concrete.{Json, text, of_fields, flag_at, json}
use checkgate.Stream.{
  upserted, deleted, resync, Received, message, SseEvent, connected, update, ready, Snapshot,
  env_ids, upserts, bootstrap, live, sse_handler, flags_snapshot_handler, sorted,
}
use checkgate.Stream.Rows.{HasPrimaryKey}
use checkgate.Stream.Held.{held, IsKeyed}
use checkgate.Stream.Laws.{ready_count, sse_handler-snapshot}

abbrev key : SdkKeyEntry
key = record { id = pos 1; name = "web"; value = "sk"; environment_id = some "env-1" }

abbrev client : AuthContext
client = record { session = none; pat = none; sdk_key = some key }

abbrev row : String → String → FlagRow Json
row env_id name = record {
  environment_id = env_id;
  key = name;
  value = of_fields (("key", text name) ∷ []);
  tags = [];
  owner_email = none;
  archived_at = none;
  revision = 3;
}

abbrev tables : Snapshot Json
tables = record {
  environments = ("env-1", "p") ∷ ("env-2", "p") ∷ [];
  members = [];
  db = record {
    environments = [];
    flags = row "env-1" "a" ∷ row "env-2" "a" ∷ [];
    segments = [];
    change_requests = [];
    next_revision = 5;
    next_request = 1;
  };
  tombstones =
      record { environment_id = "env-1"; key = "gone"; revision = 2 }
      ∷ record { environment_id = "env-1"; key = "a"; revision = 1 }
      ∷ [];
  sorts_before = λ a b. false;
}

abbrev received : List (Received Json)
received =
    message (upserted "env-2" (flag_at none) 4)
    ∷ message (deleted "env-1" "a" 3)
    ∷ message resync
    ∷ message (deleted "env-1" "b" 3)
    ∷ []

abbrev events : List (SseEvent Json)
events =
    connected (some "env-1")
    ∷ update (upserted "env-1" (flag_at none) 3)
    ∷ update (deleted "env-1" "gone" 2)
    ∷ ready 1
    ∷ update (deleted "env-1" "a" 3)
    ∷ []

is_sent : sse_handler json client tables received ≡ ok events
unfolding sse_handler env_ids bootstrap upserts sorted find_row live
is_sent = refl

has_primary_key : HasPrimaryKey tables.db.flags
unfolding find_row
has_primary_key = (refl, (refl, tt))

is_keyed : All (IsKeyed json) tables.db.flags
is_keyed = (refl, (refl, tt))

sse_handler-snapshot_example :
    (flags_snapshot_handler json client tables ≡ ok ("env-1", held [] events))
    × (ready_count events ≡ some (length (held [] events)))
sse_handler-snapshot_example =
    sse_handler-snapshot json client tables received "env-1" events has_primary_key is_keyed refl
      is_sent
