-- ===== src/Database/Registry.antt =====
-- The files of `DatabaseRegistry`, with `create`, `read` and `transition`. Locks, file modes and
-- failures of the disk are not modelled; `now` is the instant that the call takes.
use atenea_remote_worker_spe.Prelude.{
  ℕ, ◌+◌, String, ◌<>◌, Bool, true, false, not, ◌||◌, ◌&&◌, Option, none, some, Result, ok, err,
  Action, pure, lift, gets, refuse_if, ◌>>=◌, ◌>>◌, Dict, lookup, insert, ◌==◌, if◌then◌else◌,
}
use atenea_remote_worker_spe.Database.Names.{
  is_project, is_worker, is_allocation, is_sha256, is_slot, is_database_name, has_production_marker,
  is_supported_engine,
}
use atenea_remote_worker_spe.Database.Record.{
  State, Desired, Ownership, DatabaseRecord, Snapshot, Error, same_state, allows, same_ownership,
  container_name, protocol,
}
use atenea_remote_worker_spe.Database.Validate.{canonical_uuid, validate_record}

-- What stands at a path: a regular file with a document of the expected shape or with another
-- content, something that is no regular file, or a link to nothing.
pub data Entry (A : Type 0) : Type 0 where
  regular : A → Entry A
  malformed : Entry A
  unsafe : Entry A
  dangling : Entry A

-- A snapshot directory, a link to a directory, or a file in its place.
pub data Root : Type 0 where
  directory : Dict (Entry Snapshot) → Root
  linked : Root
  not_directory : Root

-- `records_root` and `snapshots_root`, by the names of their files without `.json`.
pub record Disk : Type 0 where
  pub records : Dict (Entry DatabaseRecord)
  pub snapshots : Dict Root

abbrev pub Registry : Type 0 → Type 0
Registry A = Action Disk Error A

-- `path.exists()`
abbrev pub exists : {A : Type 0} → Option (Entry A) → Bool
exists none = false
exists (some dangling) = false
exists (some _) = true

-- `_read_json`
abbrev pub read_json : {A : Type 0} → Entry A → Result Error A
read_json (regular a) = ok a
read_json _ = err Error.persisted_state_invalid

-- The record files of `read`: only a regular file is found.
abbrev pub find_record : Option (Entry DatabaseRecord) → Result Error DatabaseRecord
find_record (some (regular r)) = ok r
find_record (some malformed) = err Error.persisted_state_invalid
find_record _ = err Error.database_not_found

-- `read`
unfoldable pub read : String → Registry DatabaseRecord
unfolding canonical_uuid validate_record lookup
read database_id = do
  identity ← lift (canonical_uuid database_id Error.database_id_invalid)
  found ← gets (λ d. lookup identity d.records)
  document ← lift (find_record found)
  lift (validate_record document)
  pure document

-- `_write` of a record, to the path that its own identity names.
unfoldable pub write_record : DatabaseRecord → Registry (Unit {0})
unfolding insert
write_record r d =
    (ok tt, record d { records = insert r.ownership.database_id (Entry.regular r) d.records })

-- The arguments of `create`.
pub record Creation : Type 0 where
  pub database_id : String
  pub work_session_id : String
  pub project_id : String
  pub worker_id : String
  pub allocation_identity : String
  pub allocation_fingerprint : String
  pub slot : String
  pub engine : String
  pub database_name : String
  pub manifest_sha256 : String

-- The tests of `create` before it looks at the disk, in order.
unfoldable pub check_creation : Creation → Registry (Unit {0})
unfolding canonical_uuid
check_creation c = do
  lift (canonical_uuid c.database_id Error.database_id_invalid)
  lift (canonical_uuid c.work_session_id Error.worksession_id_invalid)
  lift (refuse_if (not (is_project c.project_id)) Error.project_id_invalid)
  lift (refuse_if (not (is_worker c.worker_id)) Error.worker_id_invalid)
  lift (refuse_if (not (is_allocation c.allocation_identity)) Error.allocation_identity_invalid)
  lift (refuse_if (not (is_sha256 c.allocation_fingerprint)) Error.allocation_fingerprint_invalid)
  lift (refuse_if (not (is_slot c.slot)) Error.slot_invalid)
  lift (refuse_if (not (is_supported_engine c.engine)) Error.engine_invalid)
  lift (
      refuse_if (not (is_database_name c.database_name) || has_production_marker c.database_name)
        Error.production_target_denied)
  lift (refuse_if (not (is_sha256 c.manifest_sha256)) Error.manifest_hash_invalid)

-- `immutable`
unfoldable pub immutable : Creation → Ownership
immutable c =
    let name = container_name c.work_session_id c.database_id in
    record {
      database_id = c.database_id;
      work_session_id = c.work_session_id;
      project_id = c.project_id;
      worker_id = c.worker_id;
      allocation_identity = c.allocation_identity;
      allocation_fingerprint = c.allocation_fingerprint;
      slot = c.slot;
      engine = c.engine;
      database_name = c.database_name;
      manifest_sha256 = c.manifest_sha256;
      container_identity = name;
      network_identity = name <> "-network";
      volume_identity = name <> "-data";
      synthetic_development_fixture = true;
    }

-- The record that `create` writes.
unfoldable pub initial_record : Ownership → ℕ → DatabaseRecord
initial_record o now = record {
  schema_version = 1;
  protocol_version = protocol;
  ownership = o;
  state = State.allocated;
  desired_state = Desired.stopped;
  lifecycle_revision = 1;
  pending_replacement = none;
  created_at = now;
  updated_at = now;
}

-- `create`, on a path that exists: the same owner gets the record back.
unfoldable pub adopt : Ownership → Registry (DatabaseRecord × Bool)
adopt o = do
  current ← read o.database_id
  lift (refuse_if (not (same_ownership current.ownership o)) Error.database_ownership_conflict)
  pure (current, false)

-- `create`, on a free path.
unfoldable pub allocate : Ownership → ℕ → Registry (DatabaseRecord × Bool)
allocate o now = do
  let r = initial_record o now
  lift (validate_record r)
  write_record r
  pure (r, true)

-- `create`
unfoldable pub create : Creation → ℕ → Registry (DatabaseRecord × Bool)
create c now = do
  check_creation c
  let o = immutable c
  found ← gets (λ d. lookup c.database_id d.records)
  if exists found then adopt o else allocate o now

-- The argument `desired_state` of `transition`: None, a known state, or another text.
pub data DesiredArgument : Type 0 where
  unchanged : DesiredArgument
  requested : Desired → DesiredArgument
  unsupported : DesiredArgument

abbrev pub desired_or : DesiredArgument → Desired → Desired
desired_or (requested s) old = s
desired_or _ old = old

abbrev pub is_supported : DesiredArgument → Bool
is_supported unsupported = false
is_supported _ = true

-- `record["state"] == target_state`; a target of None is a text outside STATES.
abbrev pub is_state : Option State → State → Bool
is_state none s = false
is_state (some t) s = same_state t s

-- `target_state in STATES and target_state in TRANSITIONS[record["state"]]`
abbrev pub permits : State → Option State → Bool
permits s none = false
permits s (some t) = allows s t

-- `_require_revision`
abbrev pub require_revision : DatabaseRecord → ℕ → Result Error (Unit {0})
require_revision r expected =
    refuse_if (not (r.lifecycle_revision == expected)) Error.stale_revision

abbrev target_or : Option State → State → State
target_or none old = old
target_or (some t) old = t

-- The record that `transition` writes. It is reached only with a known target.
unfoldable pub moved : DatabaseRecord → Option State → DesiredArgument → ℕ → DatabaseRecord
moved r target desired now = record r {
  state = target_or target r.state;
  desired_state = desired_or desired r.desired_state;
  lifecycle_revision = r.lifecycle_revision + 1;
  updated_at = now;
}

-- `transition`, after the retry has been recognised.
unfoldable pub advance :
    DatabaseRecord → ℕ → Option State → DesiredArgument → ℕ → Registry DatabaseRecord
advance r expected target desired now = do
  lift (require_revision r expected)
  lift (refuse_if (not (permits r.state target)) Error.database_transition_invalid)
  lift (refuse_if (not (is_supported desired)) Error.desired_state_invalid)
  let r' = moved r target desired now
  write_record r'
  pure r'

-- `transition`
unfoldable pub transition :
    String → ℕ → Option State → DesiredArgument → ℕ → Registry DatabaseRecord
transition database_id expected target desired now = do
  r ← read database_id
  if is_state target r.state && r.lifecycle_revision == expected + 1
      then pure r
      else advance r expected target desired now
