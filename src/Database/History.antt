-- ===== src/Database/History.antt =====
-- Histories: any calls of the registry, one after the other, from an empty disk.
use atenea_remote_worker_spe.Prelude.{
  ℕ, String, ◌≡◌, refl, sym, subst, inl, inr, Bool, true, false, Option, List, [], ◌∷◌, Result, ok,
  err, arith,
}
use atenea_remote_worker_spe.Database.Names.{is_sha256}
use atenea_remote_worker_spe.Database.Record.{State, DatabaseRecord, Error}
use atenea_remote_worker_spe.Database.Registry.{Disk, Creation, create, DesiredArgument, transition}
use atenea_remote_worker_spe.Database.Replace.{Challenge, prepare_replace, consume_replace}
use atenea_remote_worker_spe.Database.Snapshots.{
  register_snapshot, make_directory, write_snapshot, confirm_snapshot,
}
use atenea_remote_worker_spe.Database.Reading.{IsRead-cases}
use atenea_remote_worker_spe.Database.Soundness.{IsSound, IsSoundDict}
use atenea_remote_worker_spe.Database.Transitions.{Effect, transition-Effect}
use atenea_remote_worker_spe.Database.Consumption.{ConsumeEffect, consume-ConsumeEffect}
use atenea_remote_worker_spe.Database.Preparation.{PrepareEffect, prepare-PrepareEffect}
use atenea_remote_worker_spe.Database.Creation.{CreateEffect, create-CreateEffect}

-- The calls that change files.
pub data Call : Type 0 where
  create_call : Creation → ℕ → Call
  transition_call : String → ℕ → Option State → DesiredArgument → ℕ → Call
  prepare_call : String → ℕ → Option String → Option String → String → String → ℕ → Call
  consume_call : String → ℕ → String → String → ℕ → Call
  snapshot_call : String → String → String → ℕ → ℕ → Call

module _ (digest : String → String) where
  -- The disk after a call, whether it returns or raises.
  abbrev pub after : Call → Disk → Disk
  after (create_call c now) d = (create c now d).1
  after (transition_call id expected target desired now) d =
      (transition id expected target desired now d).1
  after (prepare_call id expected confirmation operation token fresh now) d =
      (prepare_replace digest id expected confirmation operation token fresh now d).1
  after (consume_call id expected operation confirmation now) d =
      (consume_replace digest id expected operation confirmation now d).1
  after (snapshot_call id snapshot content size now) d =
      (register_snapshot id snapshot content size now d).1

  unfoldable pub run : List Call → Disk → Disk
  run [] d = d
  run (c ∷ cs) d = run cs (after c d)

make_directory-records : (id : String) (d : Disk) → (make_directory id d).1.records ≡ d.records
unfolding make_directory
make_directory-records id d = ground arith

-- Registering a snapshot touches no record.
pub register_snapshot-records :
    (id snapshot content : String) (size now : ℕ) (d : Disk)
    → (register_snapshot id snapshot content size now d).1.records ≡ d.records
unfolding register_snapshot write_snapshot confirm_snapshot
register_snapshot-records id snapshot content size now d = elim (IsRead-cases id d) [
  | inr u ↦ rw u.result refl
  | inl (r, h) ↦ rw h.result (ground (arith, make_directory-records r.ownership.database_id d))
]

module _ (digest : String → String) (hexadecimal : (t : String) → is_sha256 (digest t) ≡ true) where
  create-IsSound : (c : Creation) (now : ℕ) (d : Disk) → IsSound d → IsSound (create c now d).1
  create-IsSound c now d s = go (create c now d) (create-CreateEffect c now d s)
    where
      go : (x : Result Error (DatabaseRecord × Bool) × Disk) → CreateEffect c now d x → IsSound x.1
      go (ok (r, true), d') e = e.3.sound
      go (ok (r, false), d') e = subst IsSound (sym e.0) s
      go (err _, d') e = subst IsSound (sym e) s

  -- Every call, returning or raising, keeps the registry sound.
  pub after-IsSound : (c : Call) (d : Disk) → IsSound d → IsSound (after digest c d)
  after-IsSound (create_call c now) d s = create-IsSound c now d s
  after-IsSound (transition_call id expected target desired now) d s =
      go (transition id expected target desired now d)
        (transition-Effect id expected target desired now d s)
    where
      go :
          (x : Result Error DatabaseRecord × Disk)
          → Effect id expected target desired now d x
          → IsSound x.1
      go (ok r, d') e = e.0.sound
      go (err _, d') e = subst IsSound (sym e) s
  after-IsSound (prepare_call id expected confirmation operation token fresh now) d s =
      go (prepare_replace digest id expected confirmation operation token fresh now d) (
        prepare-PrepareEffect digest hexadecimal id expected confirmation operation token fresh now
          d s)
    where
      go :
          (x : Result Error Challenge × Disk)
          → PrepareEffect digest id expected confirmation operation token fresh now d x
          → IsSound x.1
      go (ok c, d') e = e.1.written.sound
      go (err _, d') e = subst IsSound (sym e) s
  after-IsSound (consume_call id expected operation confirmation now) d s =
      go (consume_replace digest id expected operation confirmation now d)
        (consume-ConsumeEffect digest id expected operation confirmation now d s)
    where
      go :
          (x : Result Error DatabaseRecord × Disk)
          → ConsumeEffect digest id expected operation confirmation now d x
          → IsSound x.1
      go (ok r, d') e = e.2.written.sound
      go (err _, d') e = subst IsSound (sym e) s
  after-IsSound (snapshot_call id snapshot content size now) d s =
      subst IsSoundDict (sym (register_snapshot-records id snapshot content size now d)) s

  -- Any calls of the registry's operations, returning or raising, keep it sound: each record
  -- file holds, under its own identity, a record that `_validate_record` accepts, and a challenge
  -- that can still be answered stands only in a healthy record.
  pub run-IsSound : (cs : List Call) (d : Disk) → IsSound d → IsSound (run digest cs d)
  unfolding run
  run-IsSound [] d s = s
  run-IsSound (c ∷ cs) d s = run-IsSound cs (after digest c d) (after-IsSound c d s)
