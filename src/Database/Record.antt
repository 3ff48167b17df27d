-- ===== src/Database/Record.antt =====
-- The states, documents and errors of ops/worker/database-lifecycle-state-v1.py. A timestamp is
-- the instant that it names, in microseconds since the epoch.
use atenea_remote_worker_spe.Prelude.{
  ℕ, ◌*◌, String, ◌<>◌, Bool, true, false, ◌&&◌, Option, List, [], ◌∷◌, any, str_eq, ◌==◌,
}
use mathlib.Core.Logic.{ite}
use atenea_remote_worker_spe.Database.Names.{without_dashes}

-- STATES
pub data State : Type 0 where
  allocated created migrated seeded healthy replacing restoring stopped blocked : State

unfoldable pub State-discrete : Discrete State
State-discrete = hlevel

unfoldable pub same_state : State → State → Bool
unfolding State-discrete
same_state a b = ite (State-discrete a b) true false

-- TRANSITIONS
abbrev pub transitions : State → List State
transitions State.allocated = State.created ∷ State.stopped ∷ State.blocked ∷ []
transitions State.created = State.migrated ∷ State.stopped ∷ State.blocked ∷ []
transitions State.migrated = State.seeded ∷ State.stopped ∷ State.blocked ∷ []
transitions State.seeded = State.healthy ∷ State.stopped ∷ State.blocked ∷ []
transitions State.healthy = State.replacing ∷ State.restoring ∷ State.stopped ∷ State.blocked ∷ []
transitions State.replacing = State.migrated ∷ State.blocked ∷ []
transitions State.restoring = State.healthy ∷ State.blocked ∷ []
transitions State.stopped = State.created ∷ State.blocked ∷ []
transitions State.blocked = State.stopped ∷ []

-- `target in TRANSITIONS[state]`
unfoldable pub allows : State → State → Bool
unfolding any same_state
allows s t = any (same_state t) (transitions s)

-- {"RUNNING", "STOPPED"}
pub data Desired : Type 0 where
  running stopped : Desired

-- IMMUTABLE_FIELDS
pub record Ownership : Type 0 where
  pub database_id : String
  pub work_session_id : String
  pub project_id : String
  pub worker_id : String
  pub allocation_identity : String
  pub allocation_fingerprint : String
  pub slot : String
  pub engine : String
  pub database_name : String
  pub manifest_sha256 : String
  pub container_identity : String
  pub network_identity : String
  pub volume_identity : String
  pub synthetic_development_fixture : Bool

abbrev same_flag : Bool → Bool → Bool
same_flag true b = b
same_flag false true = false
same_flag false false = true

-- No field of IMMUTABLE_FIELDS differs.
unfoldable pub same_ownership : Ownership → Ownership → Bool
same_ownership a b =
    str_eq a.database_id b.database_id
    && str_eq a.work_session_id b.work_session_id
    && str_eq a.project_id b.project_id
    && str_eq a.worker_id b.worker_id
    && str_eq a.allocation_identity b.allocation_identity
    && str_eq a.allocation_fingerprint b.allocation_fingerprint
    && str_eq a.slot b.slot
    && str_eq a.engine b.engine
    && str_eq a.database_name b.database_name
    && str_eq a.manifest_sha256 b.manifest_sha256
    && str_eq a.container_identity b.container_identity
    && str_eq a.network_identity b.network_identity
    && str_eq a.volume_identity b.volume_identity
    && same_flag a.synthetic_development_fixture b.synthetic_development_fixture

-- `pendingReplacement`
pub record Pending : Type 0 where
  pub operation_id : String
  pub confirmation_sha256 : String
  pub bound_revision : ℕ
  pub expires_at : ℕ
  pub consumed : Bool

pub record DatabaseRecord : Type 0 where
  pub schema_version : ℕ
  pub protocol_version : String
  pub ownership : Ownership
  pub state : State
  pub desired_state : Desired
  pub lifecycle_revision : ℕ
  pub pending_replacement : Option Pending
  pub created_at : ℕ
  pub updated_at : ℕ

pub record Snapshot : Type 0 where
  pub schema_version : ℕ
  pub protocol_version : String
  pub ownership : Ownership
  pub snapshot_id : String
  pub storage_identity : String
  pub content_sha256 : String
  pub size_bytes : ℕ
  pub lifecycle_revision : ℕ
  pub created_at : ℕ
  pub synthetic_snapshot : Bool

-- `current == document`
unfoldable pub same_snapshot : Snapshot → Snapshot → Bool
unfolding same_ownership
same_snapshot a b =
    a.schema_version == b.schema_version
    && str_eq a.protocol_version b.protocol_version
    && same_ownership a.ownership b.ownership
    && str_eq a.snapshot_id b.snapshot_id
    && str_eq a.storage_identity b.storage_identity
    && str_eq a.content_sha256 b.content_sha256
    && a.size_bytes == b.size_bytes
    && a.lifecycle_revision == b.lifecycle_revision
    && a.created_at == b.created_at
    && same_flag a.synthetic_snapshot b.synthetic_snapshot

-- The codes of `LifecycleError`, the `OSError` of a directory that cannot be made, and the
-- `TypeError` or `AttributeError` of a value of another type.
pub data Error : Type 0 where
  database_id_invalid worksession_id_invalid project_id_invalid worker_id_invalid : Error
  allocation_identity_invalid allocation_fingerprint_invalid slot_invalid engine_invalid : Error
  production_target_denied manifest_hash_invalid database_ownership_conflict : Error
  database_not_found persisted_state_invalid stale_revision database_transition_invalid : Error
  desired_state_invalid database_not_healthy confirmation_invalid operation_id_invalid : Error
  replacement_confirmation_conflict replacement_confirmation_expired : Error
  snapshot_id_invalid snapshot_hash_invalid snapshot_size_invalid : Error
  snapshot_ownership_conflict os_error : Error
  database_manifest_required database_manifest_invalid type_error : Error

abbrev pub protocol : String
protocol = "database-lifecycle/v1"

abbrev pub second : ℕ
second = 1000000

-- CHALLENGE_SECONDS
abbrev pub challenge_time : ℕ
challenge_time = 300 * second

-- SYNTHETIC_MAX_COPIES
abbrev pub max_copies : ℕ
max_copies = 3

-- SYNTHETIC_MAX_AGE_DAYS
abbrev pub max_age : ℕ
max_age = 7 * 86400 * second

-- The names of the container, the network and the volume.
unfoldable pub container_name : String → String → String
unfolding without_dashes
container_name session identity =
    "ws-" <> without_dashes session <> "-db-" <> without_dashes identity
