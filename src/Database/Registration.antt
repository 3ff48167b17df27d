-- ===== src/Database/Registration.antt =====
-- `register_snapshot`: what it writes, and what a repeated call does.
use atenea_remote_worker_spe.Prelude.{
  ℕ, String, ◌≡◌, refl, ◌⊎◌, inl, inr, Bool, true, false, not, Option, some, none, [], Result, ok,
  err, Dict, lookup, insert, ◌==◌, arith, Bool-cases,
}
use atenea_remote_worker_spe.Database.Names.{is_uuid, is_sha256}
use atenea_remote_worker_spe.Database.Record.{DatabaseRecord, Snapshot, Error}
use atenea_remote_worker_spe.Database.Validate.{canonical_uuid, validate_snapshot}
use atenea_remote_worker_spe.Database.Registry.{Entry, regular, Disk, Root, exists}
use atenea_remote_worker_spe.Database.Snapshots.{
  make_directory, snapshot_of, write_snapshot, confirm_snapshot, register_snapshot,
}
use atenea_remote_worker_spe.Database.Reading.{IsRead, IsUnread}

-- A snapshot's directory, and the disk on which it stands.
pub record IsMade (id : String) (d : Disk) (files : Dict (Entry Snapshot)) (d' : Disk)
    : Type 0 where
  pub result : make_directory id d ≡ (ok files, d')
  pub records : d'.records ≡ d.records

pub record IsUnmade (id : String) (d : Disk) : Type 0 where
  pub error : Error
  pub result : make_directory id d ≡ (err error, d)

pub make_directory-cases :
    (id : String) (d : Disk)
    → ((files : Dict (Entry Snapshot)) × (d' : Disk) × IsMade id d files d') ⊎ IsUnmade id d
unfolding make_directory
make_directory-cases id d = go (lookup id d.snapshots) refl
  where
    go :
        (x : Option Root)
        → lookup id d.snapshots ≡ x
        → ((files : Dict (Entry Snapshot)) × (d' : Disk) × IsMade id d files d') ⊎ IsUnmade id d
    go none e = inl (
      [],
      record d { snapshots = insert id (Root.directory []) d.snapshots },
      record { result = rw (e, make_directory) refl; records = refl },
    )
    go (some (Root.directory files)) e =
        inl (files, d, record { result = rw (e, make_directory) refl; records = refl })
    go (some Root.linked) e =
        inr (record { error = Error.persisted_state_invalid; result = rw (e, make_directory) refl })
    go (some Root.not_directory) e =
        inr (record { error = Error.os_error; result = rw (e, make_directory) refl })

module _ (id snapshot content : String) (size now : ℕ) (d : Disk) where
  -- A new document `s` for a snapshot of the record `r`.
  pub record IsRegistration (r : DatabaseRecord) (files : Dict (Entry Snapshot)) (s : Snapshot)
      (d' : Disk) : Type 0 where
    pub before : IsRead id d r
    pub canonical : is_uuid snapshot ≡ true
    pub hexadecimal : is_sha256 content ≡ true
    pub not_empty : (size == 0) ≡ false
    pub free : exists (lookup snapshot files) ≡ false
    pub document : s ≡ snapshot_of r snapshot content size now
    pub valid : validate_snapshot s ≡ ok tt
    pub records : d'.records ≡ d.records
    pub stored :
        lookup r.ownership.database_id d'.snapshots
        ≡ some (Root.directory (insert snapshot (regular s) files))

  -- A new document is registered, or one that stands there is returned; an error leaves the
  -- records alone.
  abbrev pub RegisterEffect : Result Error (Snapshot × Bool) × Disk → Type 0
  RegisterEffect (ok (s, true), d') =
      (r : DatabaseRecord) × (files : Dict (Entry Snapshot)) × IsRegistration r files s d'
  RegisterEffect (ok (s, false), d') = d'.records ≡ d.records
  RegisterEffect (err e, d') = d'.records ≡ d.records

-- The result is not a new document.
abbrev pub is_old : Result Error (Snapshot × Bool) → Bool
is_old (ok (_, fresh)) = not fresh
is_old (err _) = true

pub confirm_old :
    (x : Option (Entry Snapshot)) (s : Snapshot) (d : Disk)
    → (is_old (confirm_snapshot x s d).0 ≡ true) × ((confirm_snapshot x s d).1 ≡ d)
unfolding confirm_snapshot
confirm_old none s d = (refl, refl)
confirm_old (some (regular a)) s d = ground arith
confirm_old (some Entry.malformed) s d = (refl, refl)
confirm_old (some Entry.unsafe) s d = (refl, refl)
confirm_old (some Entry.dangling) s d = (refl, refl)

module _ (id snapshot content : String) (size now : ℕ) (d : Disk) where
  pub old-RegisterEffect :
      (x : Result Error (Snapshot × Bool) × Disk)
      → is_old x.0 ≡ true
      → x.1.records ≡ d.records
      → RegisterEffect id snapshot content size now d x
  old-RegisterEffect (ok (s, true), d') old same = cc
  old-RegisterEffect (ok (s, false), d') old same = same
  old-RegisterEffect (err e, d') old same = same

  -- The tests before the directory is made.
  pub record IsTested (r : DatabaseRecord) : Type 0 where
    pub before : IsRead id d r
    pub canonical : is_uuid snapshot ≡ true
    pub hexadecimal : is_sha256 content ≡ true
    pub not_empty : (size == 0) ≡ false

  abbrev pub call : Result Error (Snapshot × Bool) × Disk
  call = register_snapshot id snapshot content size now d

  pub call_unread : (u : IsUnread id d) → call ≡ (err u.error, d)
  unfolding register_snapshot
  call_unread u = rw u.result

  pub IsTested-cases :
      {r : DatabaseRecord} → IsRead id d r → IsTested r ⊎ ((e : Error) × (call ≡ (err e, d)))
  unfolding register_snapshot canonical_uuid
  IsTested-cases h = elim (Bool-cases (is_uuid snapshot)) [
    | inr bad ↦ inr (Error.snapshot_id_invalid, rw (h.result, bad))
    | inl canonical ↦ elim (Bool-cases (is_sha256 content)) [
      | inr bad ↦ inr (Error.snapshot_hash_invalid, rw (h.result, canonical, bad))
      | inl hexadecimal ↦ elim (Bool-cases (size == 0)) [
        | inl bad ↦ inr (Error.snapshot_size_invalid, rw (h.result, canonical, hexadecimal, bad))
        | inr not_empty ↦ inl (record {
          before = h;
          canonical = canonical;
          hexadecimal = hexadecimal;
          not_empty = not_empty;
        })
      ]
    ]
  ]

  pub call_unmade :
      {r : DatabaseRecord}
      → IsTested r
      → (u : IsUnmade r.ownership.database_id d) → call ≡ (err u.error, d)
  unfolding register_snapshot canonical_uuid
  call_unmade t u = rw (t.before.result, t.canonical, t.hexadecimal, t.not_empty, u.result)

  module _ {r : DatabaseRecord} (t : IsTested r) {files : Dict (Entry Snapshot)} {d₁ : Disk}
      (m : IsMade r.ownership.database_id d files d₁) where
    abbrev pub document : Snapshot
    document = snapshot_of r snapshot content size now

    pub call_known :
        exists (lookup snapshot files) ≡ true
        → call ≡ confirm_snapshot (lookup snapshot files) document d₁
    unfolding register_snapshot canonical_uuid
    call_known known =
        rw (t.before.result, t.canonical, t.hexadecimal, t.not_empty, m.result, known)

    pub call_invalid :
        {e : Error}
        → exists (lookup snapshot files) ≡ false
        → validate_snapshot document ≡ err e
        → call ≡ (err e, d₁)
    unfolding register_snapshot canonical_uuid
    call_invalid free bad =
        rw (t.before.result, t.canonical, t.hexadecimal, t.not_empty, m.result, free, bad)

    pub call_new :
        exists (lookup snapshot files) ≡ false
        → validate_snapshot document ≡ ok tt
        → call ≡ (
          ok (document, true),
          (write_snapshot r.ownership.database_id files snapshot document d₁).1,
        )
    unfolding register_snapshot canonical_uuid write_snapshot
    call_new free good =
        rw (t.before.result, t.canonical, t.hexadecimal, t.not_empty, m.result, free, good)
