-- ===== src/Database/Snapshots.antt =====
-- `register_snapshot`, `snapshots`, `retention_candidates` and `reconcile`.
use atenea_remote_worker_spe.Prelude.{
  ℕ, ◌<>◌, ◌+◌, ◌-◌, ◌*◌, ◌/◌, ◌%◌, String, Bool, true, false, not, ◌&&◌, ◌||◌, Option, none, some,
  List, [], ◌∷◌, Result, ok, err, pure, raise, lift, gets, refuse_if, ◌>>=◌, ◌>>◌, and_then, Dict,
  lookup, insert, ltb, ◌==◌, str_eq, any, keep_if, length, take, if◌then◌else◌,
}
use atenea_remote_worker_spe.Prelude.Pattern.{codes}
use atenea_remote_worker_spe.Prelude.Sorting.{sorted, text_before}
use atenea_remote_worker_spe.Database.Names.{is_sha256}
use atenea_remote_worker_spe.Database.Record.{
  State, Desired, Ownership, DatabaseRecord, Snapshot, Error, same_ownership, same_snapshot,
  max_copies, max_age, second, protocol,
}
use atenea_remote_worker_spe.Database.Validate.{
  canonical_uuid, validate_record, validate_snapshot, storage_name,
}
use atenea_remote_worker_spe.Database.Registry.{Entry, Root, Registry, exists, read_json, read}

-- `_directory(root)`: the directory is made if nothing stands there.
unfoldable pub make_directory : String → Registry (Dict (Entry Snapshot))
unfolding lookup insert
make_directory database_id d = elim (lookup database_id d.snapshots) [
  | none ↦ (ok [], record d { snapshots = insert database_id (Root.directory []) d.snapshots })
  | some (Root.directory files) ↦ (ok files, d)
  | some Root.linked ↦ (err Error.persisted_state_invalid, d)
  | some Root.not_directory ↦ (err Error.os_error, d)
]

-- The document of `register_snapshot`.
unfoldable pub snapshot_of : DatabaseRecord → String → String → ℕ → ℕ → Snapshot
unfolding storage_name
snapshot_of r identity content_sha256 size_bytes now = record {
  schema_version = 1;
  protocol_version = protocol;
  ownership = r.ownership;
  snapshot_id = identity;
  storage_identity = storage_name r.ownership identity;
  content_sha256 = content_sha256;
  size_bytes = size_bytes;
  lifecycle_revision = r.lifecycle_revision;
  created_at = now;
  synthetic_snapshot = true;
}

-- `_write` of a snapshot's document.
unfoldable pub write_snapshot :
    String → Dict (Entry Snapshot) → String → Snapshot → Registry (Unit {0})
unfolding insert
write_snapshot database_id files identity s d = (
  ok tt,
  record d {
    snapshots =
        insert database_id (Root.directory (insert identity (Entry.regular s) files)) d.snapshots;
  },
)

-- `register_snapshot`, where the document's path exists: only the same document is returned.
unfoldable pub confirm_snapshot : Option (Entry Snapshot) → Snapshot → Registry (Snapshot × Bool)
confirm_snapshot none document = raise Error.persisted_state_invalid
confirm_snapshot (some entry) document = do
  current ← lift (read_json entry)
  lift (validate_snapshot current)
  lift (refuse_if (not (same_snapshot current document)) Error.snapshot_ownership_conflict)
  pure (current, false)

-- `register_snapshot`
unfoldable pub register_snapshot : String → String → String → ℕ → ℕ → Registry (Snapshot × Bool)
register_snapshot database_id snapshot_id content_sha256 size_bytes now = do
  r ← read database_id
  identity ← lift (canonical_uuid snapshot_id Error.snapshot_id_invalid)
  lift (refuse_if (not (is_sha256 content_sha256)) Error.snapshot_hash_invalid)
  lift (refuse_if (size_bytes == 0) Error.snapshot_size_invalid)
  files ← make_directory r.ownership.database_id
  let document = snapshot_of r identity content_sha256 size_bytes now
  let found = lookup identity files
  if exists found then confirm_snapshot found document else do
    lift (validate_snapshot document)
    write_snapshot r.ownership.database_id files identity document
    pure (document, true)

-- `sorted(root.glob("*.json"))`
abbrev pub by_name : {A : Type 0} → String × A → String × A → Bool
by_name (j, _) (k, _) = text_before (codes (j <> ".json")) (codes (k <> ".json"))

-- The loop of `snapshots`: each document is read, validated and compared with the owner.
unfoldable pub load_snapshots : Ownership → Dict (Entry Snapshot) → Result Error (List Snapshot)
unfolding validate_snapshot same_ownership
load_snapshots owner [] = ok []
load_snapshots owner ((_, entry) ∷ files) = and_then (read_json entry) λ document.
    and_then (validate_snapshot document) λ _.
      and_then
        (refuse_if (not (same_ownership document.ownership owner))
          Error.snapshot_ownership_conflict)
        λ _. and_then (load_snapshots owner files) λ rest. ok (document ∷ rest)

-- The order of two timestamps as texts: `isoformat` leaves the fraction out where it is zero, and
-- then `Z` stands where `.` would, which is the greater of the two.
unfoldable pub stamp_order : ℕ → ℕ
stamp_order t =
    let fraction = t % second in
    (t / second) * (second + 1) + (if fraction == 0 then second else fraction)

-- `key=lambda item: (item["createdAt"], item["snapshotId"])`
unfoldable pub snapshot_before : Snapshot → Snapshot → Bool
unfolding stamp_order text_before
snapshot_before a b =
    if ltb (stamp_order a.created_at) (stamp_order b.created_at)
    then true
    else stamp_order a.created_at == stamp_order b.created_at
      && text_before (codes a.snapshot_id) (codes b.snapshot_id)

-- The files of a snapshot root; nothing is there if the directory is not.
abbrev pub root_files : Option Root → Result Error (Dict (Entry Snapshot))
root_files none = ok []
root_files (some (Root.directory files)) = ok files
root_files (some _) = err Error.persisted_state_invalid

-- `snapshots`
unfoldable pub list_snapshots : String → Registry (List Snapshot)
list_snapshots database_id = do
  r ← read database_id
  found ← gets (λ d. lookup r.ownership.database_id d.snapshots)
  files ← lift (root_files found)
  loaded ← lift (load_snapshots r.ownership (sorted by_name files))
  pure (sorted snapshot_before loaded)

-- `current_time - createdAt > timedelta(days=SYNTHETIC_MAX_AGE_DAYS)`
unfoldable pub is_expired : ℕ → Snapshot → Bool
is_expired now s = ltb (s.created_at + max_age) now

-- `snapshot_id in {item["snapshotId"] for item in items}`
unfoldable pub listed : String → List Snapshot → Bool
unfolding any
listed id items = any (λ s. str_eq id s.snapshot_id) items

-- The tests of `retention_candidates`, on the sorted snapshots.
unfoldable pub candidates : ℕ → List Snapshot → List Snapshot
unfolding is_expired listed keep_if
candidates now items =
    let expired = keep_if (is_expired now) items in
    let excess = take (length items - max_copies) items in
    keep_if (λ s. listed s.snapshot_id expired || listed s.snapshot_id excess) items

-- `retention_candidates`
unfoldable pub retention_candidates : String → ℕ → Registry (List Snapshot)
retention_candidates database_id now = do
  items ← list_snapshots database_id
  pure (candidates now items)

-- A line of `reconcile`.
pub record Summary : Type 0 where
  pub database_id : String
  pub work_session_id : String
  pub state : State
  pub desired_state : Desired
  pub lifecycle_revision : ℕ
  pub implicit_creation : Bool

abbrev pub summary : DatabaseRecord → Summary
summary r = record {
  database_id = r.ownership.database_id;
  work_session_id = r.ownership.work_session_id;
  state = r.state;
  desired_state = r.desired_state;
  lifecycle_revision = r.lifecycle_revision;
  implicit_creation = false;
}

unfoldable pub summarise : Dict (Entry DatabaseRecord) → Result Error (List Summary)
unfolding validate_record
summarise [] = ok []
summarise ((_, entry) ∷ files) = and_then (read_json entry) λ document.
    and_then (validate_record document)
      λ _. and_then (summarise files) λ rest. ok (summary document ∷ rest)

-- `reconcile`
unfoldable pub reconcile : Registry (List Summary)
reconcile = do files ← gets (λ d. d.records); lift (summarise (sorted by_name files))
