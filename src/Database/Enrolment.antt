-- ===== src/Database/Enrolment.antt =====
-- `register_snapshot` as a whole, and a second call for the same snapshot.
use atenea_remote_worker_spe.Prelude.{
  ℕ, String, ◌≡◌, refl, ◌∙◌, ap, subst, ◌⊎◌, inl, inr, true, false, some, Result, ok, err, Dict,
  lookup, insert, lookup-insert, eq_refl, ◌==◌, arith, Bool-cases, if◌then◌else◌,
}
use atenea_remote_worker_spe.Database.Record.{DatabaseRecord, Snapshot, Error, same_snapshot}
use atenea_remote_worker_spe.Database.Ownership.{same_ownership_refl}
use atenea_remote_worker_spe.Database.Validate.{validate_snapshot, storage_name}
use atenea_remote_worker_spe.Database.Registry.{Entry, regular, Disk, Root, exists}
use atenea_remote_worker_spe.Database.Snapshots.{
  make_directory, snapshot_of, write_snapshot, confirm_snapshot, register_snapshot,
}
use atenea_remote_worker_spe.Database.Reading.{IsRead-cases, IsRead-records}
use atenea_remote_worker_spe.Database.Registration.{
  IsMade, make_directory-cases, RegisterEffect, confirm_old, old-RegisterEffect, IsTested,
  IsTested-cases, call_unread, call_unmade, call_known, call_invalid, call_new,
}

write_snapshot-lookup :
    (id : String) (files : Dict (Entry Snapshot)) (k : String) (s : Snapshot) (d : Disk)
    → lookup id (write_snapshot id files k s d).1.snapshots
      ≡ some (Root.directory (insert k (regular s) files))
unfolding write_snapshot
write_snapshot-lookup id files k s d =
    lookup-insert id id (Root.directory (insert k (regular s) files)) d.snapshots ∙ rw (eq_refl id)

write_snapshot-records :
    (id : String) (files : Dict (Entry Snapshot)) (k : String) (s : Snapshot) (d : Disk)
    → (write_snapshot id files k s d).1.records ≡ d.records
unfolding write_snapshot
write_snapshot-records id files k s d = refl

validate-cases :
    (s : Snapshot) → (validate_snapshot s ≡ ok tt) ⊎ ((e : Error) × (validate_snapshot s ≡ err e))
validate-cases s = go (validate_snapshot s) refl
  where
    go :
        (x : Result Error (Unit {0}))
        → validate_snapshot s ≡ x
        → (validate_snapshot s ≡ ok tt) ⊎ ((e : Error) × (validate_snapshot s ≡ err e))
    go (ok tt) h = inl h
    go (err e) h = inr (e, h)

module _ (id snapshot content : String) (size now : ℕ) (d : Disk) where
  abbrev Registers : Type 0
  Registers =
      RegisterEffect id snapshot content size now d
        (register_snapshot id snapshot content size now d)

  made-effect :
      {r : DatabaseRecord} {files : Dict (Entry Snapshot)} {d₁ : Disk}
      → IsTested id snapshot content size now d r
      → IsMade r.ownership.database_id d files d₁
      → Registers
  made-effect {r} {files} {d₁} t m =
      let s = snapshot_of r snapshot content size now in
      elim (Bool-cases (exists (lookup snapshot files))) [
        | inl known ↦
            let (old, kept) = confirm_old (lookup snapshot files) s d₁ in
            rw (call_known id snapshot content size now d t m known) (
              old-RegisterEffect id snapshot content size now d
                (confirm_snapshot (lookup snapshot files) s d₁) old
                (ap (λ (x : Disk). x.records) kept ∙ m.records))
        | inr free ↦ elim (validate-cases s) [
          | inr (e, bad) ↦ rw (call_invalid id snapshot content size now d t m free bad) m.records
          | inl good ↦ rw (call_new id snapshot content size now d t m free good) (
            r,
            files,
            record {
              before = t.before;
              canonical = t.canonical;
              hexadecimal = t.hexadecimal;
              not_empty = t.not_empty;
              free = free;
              document = refl;
              valid = good;
              records =
                  write_snapshot-records r.ownership.database_id files snapshot s d₁ ∙ m.records;
              stored = write_snapshot-lookup r.ownership.database_id files snapshot s d₁;
            },
          )
        ]
      ]

  register-Registers : Registers
  register-Registers = elim (IsRead-cases id d) [
    | inr u ↦ rw (call_unread id snapshot content size now d u) refl
    | inl (r, h) ↦ elim (IsTested-cases id snapshot content size now d h) [
      | inr (e, bad) ↦ rw bad refl
      | inl t ↦ elim (make_directory-cases r.ownership.database_id d) [
        | inr u ↦ rw (call_unmade id snapshot content size now d t u) refl
        | inl (files, d₁, m) ↦ made-effect t m
      ]
    ]
  ]

same_snapshot-snapshot_of :
    (r : DatabaseRecord) (snapshot content : String) (size now now' : ℕ)
    → same_snapshot
        (snapshot_of r snapshot content size now)
        (snapshot_of r snapshot content size now')
      ≡ (now == now')
unfolding same_snapshot snapshot_of
same_snapshot-snapshot_of r snapshot content size now now' =
    rw
      (
        eq_refl snapshot,
        eq_refl content,
        eq_refl (storage_name r.ownership snapshot),
        same_ownership_refl r.ownership,
      )
      (ground arith)

confirm_found :
    (s t : Snapshot) (d : Disk)
    → validate_snapshot s ≡ ok tt
    → confirm_snapshot (some (regular s)) t d
      ≡ ((if same_snapshot s t then ok (s, false) else err Error.snapshot_ownership_conflict), d)
unfolding confirm_snapshot
confirm_found s t d valid = rw valid (ground arith)

found_directory :
    (id : String) (d : Disk) (files : Dict (Entry Snapshot))
    → lookup id d.snapshots ≡ some (Root.directory files)
    → IsMade id d files d
unfolding make_directory
found_directory id d files e = record { result = rw (e, make_directory) refl; records = refl }

module _ (id snapshot content : String) (size now : ℕ) (d : Disk) {s : Snapshot} {d' : Disk}
    (registered : register_snapshot id snapshot content size now d ≡ (ok (s, true), d')) where
  -- After a `register_snapshot` that has written a document, the same call at the same instant
  -- returns that document, and at any other instant it raises SNAPSHOT_OWNERSHIP_CONFLICT; neither
  -- changes anything.
  pub register-register :
      (now' : ℕ)
      → register_snapshot id snapshot content size now' d'
        ≡ ((if now == now' then ok (s, false) else err Error.snapshot_ownership_conflict), d')
  register-register now' =
      let (r, files, g) =
        subst (RegisterEffect id snapshot content size now d) registered
          (register-Registers id snapshot content size now d) in
      let files' = insert snapshot (regular s) files in
      let t : IsTested id snapshot content size now' d' r = record {
        before = IsRead-records id d d' r g.records g.before;
        canonical = g.canonical;
        hexadecimal = g.hexadecimal;
        not_empty = g.not_empty;
      } in
      let m = found_directory r.ownership.database_id d' files' g.stored in
      let found : lookup snapshot files' ≡ some (regular s) =
        lookup-insert snapshot snapshot (regular s) files ∙ rw (eq_refl snapshot) in
      let same : same_snapshot s (snapshot_of r snapshot content size now') ≡ (now == now') =
        rw g.document (same_snapshot-snapshot_of r snapshot content size now now') in
      call_known id snapshot content size now' d' t m (rw found refl)
      ∙ rw found (confirm_found s (snapshot_of r snapshot content size now') d' g.valid ∙ rw same)
