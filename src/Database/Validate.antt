-- ===== src/Database/Validate.antt =====
-- `canonical_uuid`, `_validate_record` and `_validate_snapshot`. That a document has the expected
-- keys, a known state and numbers where numbers belong is the type of a record here; a stored
-- document of another shape is `malformed` (Registry.antt).
use atenea_remote_worker_spe.Prelude.{
  String, ◌<>◌, Bool, not, ◌&&◌, Option, none, some, Result, ok, refuse_if, and_then, leb, str_eq,
  ◌==◌,
}
use atenea_remote_worker_spe.Database.Names.{
  is_uuid, is_project, is_worker, is_allocation, is_sha256, is_slot, is_database_name,
  has_production_marker, is_supported_engine,
}
use atenea_remote_worker_spe.Database.Record.{
  Ownership, Pending, DatabaseRecord, Snapshot, Error, persisted_state_invalid, container_name,
  protocol,
}

unfoldable pub canonical_uuid : String → Error → Result Error String
canonical_uuid value code = and_then (refuse_if (not (is_uuid value)) code) λ _. ok value

-- The values of `_validate_record` that are patterns or constants, in the source's order.
unfoldable pub sound_values : DatabaseRecord → Bool
sound_values r =
    r.schema_version == 1
    && str_eq r.protocol_version protocol
    && r.ownership.synthetic_development_fixture
    && is_supported_engine r.ownership.engine
    && leb 1 r.lifecycle_revision
    && is_project r.ownership.project_id
    && is_worker r.ownership.worker_id
    && is_allocation r.ownership.allocation_identity
    && is_sha256 r.ownership.allocation_fingerprint
    && is_slot r.ownership.slot
    && is_database_name r.ownership.database_name
    && not (has_production_marker r.ownership.database_name)
    && is_sha256 r.ownership.manifest_sha256

-- The resource names are those that the identities determine.
unfoldable pub sound_resources : Ownership → Bool
sound_resources o =
    let name = container_name o.work_session_id o.database_id in
    str_eq o.container_identity name
    && str_eq o.network_identity (name <> "-network")
    && str_eq o.volume_identity (name <> "-data")

unfoldable pub sound_pending : DatabaseRecord → Option Pending → Bool
sound_pending r none = Bool.true
sound_pending r (some p) =
    is_uuid p.operation_id
    && is_sha256 p.confirmation_sha256
    && leb p.bound_revision r.lifecycle_revision

unfoldable pub validate_record : DatabaseRecord → Result Error (Unit {0})
unfolding canonical_uuid
validate_record r = and_then (canonical_uuid r.ownership.database_id persisted_state_invalid) λ _.
    and_then (canonical_uuid r.ownership.work_session_id persisted_state_invalid) λ _.
      and_then (refuse_if (not (sound_values r)) persisted_state_invalid) λ _.
        and_then (refuse_if (not (sound_resources r.ownership)) persisted_state_invalid)
          λ _. refuse_if (not (sound_pending r r.pending_replacement)) persisted_state_invalid

-- Where the content of a snapshot is stored.
unfoldable pub storage_name : Ownership → String → String
storage_name o identity =
    o.work_session_id <> "/" <> o.database_id <> "/" <> identity <> ".snapshot"

unfoldable pub validate_snapshot : Snapshot → Result Error (Unit {0})
unfolding canonical_uuid
validate_snapshot d = and_then (canonical_uuid d.ownership.database_id persisted_state_invalid) λ _.
    and_then (canonical_uuid d.ownership.work_session_id persisted_state_invalid) λ _.
      and_then (canonical_uuid d.snapshot_id persisted_state_invalid) λ _.
        refuse_if
          (not (
            d.schema_version == 1
            && str_eq d.protocol_version protocol
            && d.ownership.synthetic_development_fixture
            && d.synthetic_snapshot
            && is_sha256 d.content_sha256
            && leb 1 d.size_bytes
            && leb 1 d.lifecycle_revision
            && str_eq d.storage_identity (storage_name d.ownership d.snapshot_id)))
          persisted_state_invalid
