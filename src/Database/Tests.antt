-- ===== src/Database/Tests.antt =====
-- Runs of the registry on one database, and its theorems at concrete data.
use atenea_remote_worker_spe.Prelude.{
  ℕ, String, ◌≡◌, refl, subst, Result, inl, Bool, true, false, none, some, List, [], ◌∷◌, ok, err,
  lookup, insert, all, any, keep_if, leb, arith,
}
use atenea_remote_worker_spe.Prelude.Sorting.{sorted, put_in, text_before}
use atenea_remote_worker_spe.Database.Names.{
  is_uuid, is_project, is_worker, is_allocation, is_sha256, is_slot, is_database_name,
  has_production_marker, is_supported_engine, without_dashes,
}
use atenea_remote_worker_spe.Database.Record.{
  State, Desired, Ownership, DatabaseRecord, Snapshot, Error, same_state, allows, same_ownership,
  same_snapshot, container_name, State-discrete,
}
use atenea_remote_worker_spe.Database.Validate.{
  canonical_uuid, sound_values, sound_resources, sound_pending, validate_record, validate_snapshot,
  storage_name,
}
use atenea_remote_worker_spe.Database.Registry.{
  regular, Root, Disk, Creation, create, check_creation, immutable, initial_record, adopt, allocate,
  read, write_record, DesiredArgument, moved, advance, transition,
}
use atenea_remote_worker_spe.Database.Replace.{
  Challenge, challenged, prepare_replace, find_pending, consumed, consume_replace,
}
use atenea_remote_worker_spe.Database.Snapshots.{
  register_snapshot, make_directory, snapshot_of, write_snapshot, confirm_snapshot, list_snapshots,
  load_snapshots, snapshot_before, stamp_order, candidates, is_expired, listed,
  retention_candidates,
}
use atenea_remote_worker_spe.Database.Soundness.{IsSound}
use atenea_remote_worker_spe.Database.Transitions.{Effect, transition-Effect}
use atenea_remote_worker_spe.Database.Concurrency.{transition_conflict}
use atenea_remote_worker_spe.Database.Consumption.{ConsumeEffect, consume-ConsumeEffect}
use atenea_remote_worker_spe.Database.Preparation.{PrepareEffect, prepare-PrepareEffect}
use atenea_remote_worker_spe.Database.Answering.{consume-prepare}
use atenea_remote_worker_spe.Database.Creation.{
  IsAccepted, CreateEffect, create-CreateEffect, create-create,
}
use atenea_remote_worker_spe.Database.History.{
  Call, create_call, transition_call, prepare_call, consume_call, run, after-IsSound, run-IsSound,
}
use atenea_remote_worker_spe.Database.Changes.{Change, after-Change}
use atenea_remote_worker_spe.Database.Replay.{consume_once}
use atenea_remote_worker_spe.Database.Seeding.{early_at, run_unseeded}
use atenea_remote_worker_spe.Database.Enrolment.{register-register}
use atenea_remote_worker_spe.Database.Retention.{IsSelection, retention_selects}

abbrev uuid : String
uuid = "0a1b2c3d-0000-4000-8000-00000000000a"

abbrev session : String
session = "0a1b2c3d-0000-4000-8000-00000000000b"

abbrev sha : String
sha = "0123456789abcdef0123456789abcdef0123456789abcdef0123456789abcdef"

abbrev request : Creation
request = record {
  database_id = uuid;
  work_session_id = session;
  project_id = "beautips";
  worker_id = "ax42";
  allocation_identity = "ws-0123456789abcdef0123456789abcdef";
  allocation_fingerprint = sha;
  slot = "slot2";
  engine = "postgresql";
  database_name = "synthetic_beautips";
  manifest_sha256 = sha;
}

abbrev owner : Ownership
owner = record {
  database_id = uuid;
  work_session_id = session;
  project_id = "beautips";
  worker_id = "ax42";
  allocation_identity = "ws-0123456789abcdef0123456789abcdef";
  allocation_fingerprint = sha;
  slot = "slot2";
  engine = "postgresql";
  database_name = "synthetic_beautips";
  manifest_sha256 = sha;
  container_identity = "ws-0a1b2c3d00004000800000000000000b-db-0a1b2c3d00004000800000000000000a";
  network_identity =
      "ws-0a1b2c3d00004000800000000000000b-db-0a1b2c3d00004000800000000000000a-network";
  volume_identity = "ws-0a1b2c3d00004000800000000000000b-db-0a1b2c3d00004000800000000000000a-data";
  synthetic_development_fixture = true;
}

abbrev empty : Disk
empty = record { records = []; snapshots = [] }

-- The record in a state, at a revision.
abbrev at : State → ℕ → ℕ → DatabaseRecord
at s revision now = record {
  schema_version = 1;
  protocol_version = "database-lifecycle/v1";
  ownership = owner;
  state = s;
  desired_state = Desired.stopped;
  lifecycle_revision = revision;
  pending_replacement = none;
  created_at = 7;
  updated_at = now;
}

abbrev holding : DatabaseRecord → Disk
holding r = record { records = (uuid, regular r) ∷ []; snapshots = [] }

-- The first call of all, with everything that the registry computes with.
first_call : Result Error (DatabaseRecord × Bool) × Disk
unfolding create check_creation canonical_uuid is_uuid is_project is_worker is_allocation is_sha256
    is_slot is_supported_engine is_database_name has_production_marker immutable container_name
    without_dashes lookup insert allocate initial_record validate_record sound_values
    sound_resources sound_pending write_record adopt read same_ownership advance transition moved
    same_state State-discrete allows all any keep_if prepare_replace challenged find_pending
    consumed consume_replace register_snapshot make_directory snapshot_of write_snapshot
    confirm_snapshot same_snapshot validate_snapshot storage_name list_snapshots load_snapshots
    snapshot_before stamp_order sorted put_in text_before candidates is_expired listed
    retention_candidates run
first_call = create request 7 empty

create-empty :
    create request 7 empty ≡ (ok (at State.allocated 1 7, true), holding (at State.allocated 1 7))
unfolding first_call
create-empty = refl

abbrev digest : String → String
digest _ = sha

digest_hexadecimal : (t : String) → is_sha256 (digest t) ≡ true
unfolding first_call
digest_hexadecimal t = refl

holding-IsSound :
    (s : State) (revision now : ℕ) → leb 1 revision ≡ true → IsSound (holding (at s revision now))
unfolding first_call
holding-IsSound s revision now h = (
  record {
    named = refl;
    valid = record {
      identity = refl;
      session = refl;
      values = rw h refl;
      resources = refl;
      pending = refl;
    };
    open_healthy = inl refl;
  },
  tt,
)

abbrev healthy : Disk
healthy = holding (at State.healthy 5 9)

healthy-IsSound : IsSound healthy
healthy-IsSound = holding-IsSound State.healthy 5 9 refl

abbrev stopped : Disk
stopped = holding (at State.stopped 6 11)

healthy_stops :
    transition uuid 5 (some State.stopped) DesiredArgument.unchanged 11 healthy
    ≡ (ok (at State.stopped 6 11), stopped)
unfolding first_call
healthy_stops = refl

abbrev text : String
text = "a confirmation of some length"

abbrev challenge : Challenge
challenge = record {
  protocol_version = "database-lifecycle/v1";
  database_id = uuid;
  operation_id = session;
  confirmation = text;
  expected_revision = 6;
  expires_at = 300000011;
}

abbrev challenged_record : DatabaseRecord
challenged_record = record (at State.healthy 6 11) {
  pending_replacement = some (record {
    operation_id = session;
    confirmation_sha256 = sha;
    bound_revision = 6;
    expires_at = 300000011;
    consumed = false;
  });
}

healthy_prepares :
    prepare_replace digest uuid 5 (some text) none "" session 11 healthy
    ≡ (ok challenge, holding challenged_record)
unfolding first_call
healthy_prepares = refl

abbrev replacing : DatabaseRecord
replacing = record (at State.replacing 7 20) {
  pending_replacement = some (record {
    operation_id = session;
    confirmation_sha256 = sha;
    bound_revision = 6;
    expires_at = 300000011;
    consumed = true;
  });
}

challenged_consumes :
    consume_replace digest uuid 6 session text 20 (holding challenged_record)
    ≡ (ok replacing, holding replacing)
unfolding first_call
challenged_consumes = refl

challenged-IsSound : IsSound (holding challenged_record)
challenged-IsSound =
    subst (λ (x : Result Error Challenge × Disk). IsSound x.1) healthy_prepares
      (after-IsSound digest digest_hexadecimal (prepare_call uuid 5 (some text) none "" session 11)
        healthy healthy-IsSound)

-- The theorems of the registry at these data.

abbrev calls : List Call
calls =
    create_call request 7
    ∷ transition_call uuid 1 (some State.created) (DesiredArgument.requested Desired.running) 8
    ∷ transition_call uuid 1 (some State.migrated) DesiredArgument.unchanged 9
    ∷ consume_call uuid 2 session text 10
    ∷ transition_call uuid 2 (some State.stopped) DesiredArgument.unchanged 11
    ∷ []

run-IsSound_example : IsSound (run digest calls empty)
run-IsSound_example = run-IsSound digest digest_hexadecimal calls empty tt

after-Change_example :
    Change uuid
      (transition_call uuid 5 (some State.stopped) DesiredArgument.unchanged 11)
      healthy
      stopped
unfolding first_call
after-Change_example =
    after-Change digest digest_hexadecimal uuid
      (transition_call uuid 5 (some State.stopped) DesiredArgument.unchanged 11) healthy
      healthy-IsSound

transition-Effect_example :
    Effect uuid 5
      (some State.stopped)
      DesiredArgument.unchanged
      11
      healthy
      (transition uuid 5 (some State.stopped) DesiredArgument.unchanged 11 healthy)
transition-Effect_example =
    transition-Effect uuid 5 (some State.stopped) DesiredArgument.unchanged 11 healthy
      healthy-IsSound

transition_conflict_example :
    (transition uuid 5 (some State.stopped) DesiredArgument.unchanged 30 stopped
      ≡ (ok (at State.stopped 6 11), stopped))
    × (transition uuid 5 (some State.restoring) DesiredArgument.unchanged 30 stopped
        ≡ (err Error.stale_revision, stopped))
transition_conflict_example =
    transition_conflict uuid 5 State.stopped DesiredArgument.unchanged 11 healthy healthy-IsSound
      healthy_stops State.restoring DesiredArgument.unchanged 30 (ground arith)

consume-ConsumeEffect_example :
    ConsumeEffect digest uuid 6 session text 20
      (holding challenged_record)
      (consume_replace digest uuid 6 session text 20 (holding challenged_record))
consume-ConsumeEffect_example =
    consume-ConsumeEffect digest uuid 6 session text 20 (holding challenged_record)
      challenged-IsSound

prepare-PrepareEffect_example :
    PrepareEffect digest uuid 5
      (some text)
      none
      ""
      session
      11
      healthy
      (prepare_replace digest uuid 5 (some text) none "" session 11 healthy)
prepare-PrepareEffect_example =
    prepare-PrepareEffect digest digest_hexadecimal uuid 5 (some text) none "" session 11 healthy
      healthy-IsSound

consume-prepare_example :
    (r : DatabaseRecord) × (read uuid healthy ≡ (ok r, healthy))
    × (consume_replace digest uuid 6 session "another text" 400000000 (holding challenged_record)
        ≡ (err Error.replacement_confirmation_expired, holding challenged_record))
consume-prepare_example =
    consume-prepare digest digest_hexadecimal uuid 5 (some text) none "" session 11 healthy
      healthy-IsSound healthy_prepares "another text" 400000000

consume_once_example : ¬ (
    consume_replace digest uuid 6 session text 21 (run digest calls (holding replacing))
    ≡ (ok replacing, holding replacing))
consume_once_example =
    consume_once digest digest_hexadecimal uuid 6 session text 20 (holding challenged_record)
      challenged-IsSound challenged_consumes calls session text 21

run_unseeded_example : early_at uuid (run digest calls empty) ≡ true
unfolding first_call
run_unseeded_example = run_unseeded digest digest_hexadecimal uuid calls empty tt refl refl

create-CreateEffect_example : CreateEffect request 7 empty (create request 7 empty)
create-CreateEffect_example = create-CreateEffect request 7 empty tt

request-IsAccepted : IsAccepted request
unfolding first_call
request-IsAccepted = record {
  identity = refl;
  session = refl;
  project = refl;
  worker = refl;
  allocation = refl;
  fingerprint = refl;
  slot = refl;
  engine = refl;
  name = refl;
  synthetic = refl;
  manifest = refl;
}

create-create_example :
    create request 90 (holding (at State.allocated 1 7))
    ≡ (ok (at State.allocated 1 7, false), holding (at State.allocated 1 7))
unfolding first_call
create-create_example =
    create-create request request 7 90 empty tt create-empty request-IsAccepted refl

abbrev snapshot : Snapshot
snapshot = record {
  schema_version = 1;
  protocol_version = "database-lifecycle/v1";
  ownership = owner;
  snapshot_id = session;
  storage_identity =
      "0a1b2c3d-0000-4000-8000-00000000000b/0a1b2c3d-0000-4000-8000-00000000000a/0a1b2c3d-0000-4000-8000-00000000000b.snapshot";
  content_sha256 = sha;
  size_bytes = 12;
  lifecycle_revision = 5;
  created_at = 40;
  synthetic_snapshot = true;
}

abbrev saved : Disk
saved = record healthy {
  snapshots = (uuid, Root.directory ((session, regular snapshot) ∷ [])) ∷ [];
}

healthy_registers : register_snapshot uuid session sha 12 40 healthy ≡ (ok (snapshot, true), saved)
unfolding first_call
healthy_registers = refl

register-register_example :
    register_snapshot uuid session sha 12 41 saved ≡ (err Error.snapshot_ownership_conflict, saved)
register-register_example = register-register uuid session sha 12 40 healthy healthy_registers 41

saved_selects : retention_candidates uuid 604800000041 saved ≡ (ok (snapshot ∷ []), saved)
unfolding first_call
saved_selects = refl

retention_selects_example :
    (items : List Snapshot) × (list_snapshots uuid saved ≡ (ok items, saved))
    × IsSelection 604800000041 items (snapshot ∷ [])
retention_selects_example = retention_selects uuid 604800000041 saved saved_selects
