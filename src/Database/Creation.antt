-- ===== src/Database/Creation.antt =====
-- What `create` does: it allocates a record once, and returns it to its owner from then on.
use atenea_remote_worker_spe.Prelude.{
  ℕ, ◌<>◌, ◌≡◌, refl, sym, ap, ◌∙◌, subst, ◌⊎◌, inl, inr, Bool, true, false, none, Result, ok, err,
  lookup, eq_refl, arith, Bool-cases, if◌then◌else◌,
}
use atenea_remote_worker_spe.Database.Names.{
  is_uuid, is_project, is_worker, is_allocation, is_sha256, is_slot, is_database_name,
  has_production_marker, is_supported_engine,
}
use atenea_remote_worker_spe.Database.Record.{
  State, Desired, Ownership, DatabaseRecord, Error, same_ownership, container_name,
}
use atenea_remote_worker_spe.Database.Validate.{sound_values, sound_resources, sound_pending}
use atenea_remote_worker_spe.Database.Registry.{
  Disk, exists, Creation, check_creation, immutable, initial_record, adopt, allocate, create,
  write_record,
}
use atenea_remote_worker_spe.Database.Validity.{IsValid, validate-IsValid}
use atenea_remote_worker_spe.Database.Reading.{IsRead, IsRead-cases}
use atenea_remote_worker_spe.Database.Ownership.{same_ownership→eq}
use atenea_remote_worker_spe.Database.Soundness.{IsSound, IsSoundRecord}
use atenea_remote_worker_spe.Database.Writing.{IsWritten, write_record-IsWritten_at}

-- The arguments that pass the tests of `create`.
pub record IsAccepted (c : Creation) : Type 0 where
  pub identity : is_uuid c.database_id ≡ true
  pub session : is_uuid c.work_session_id ≡ true
  pub project : is_project c.project_id ≡ true
  pub worker : is_worker c.worker_id ≡ true
  pub allocation : is_allocation c.allocation_identity ≡ true
  pub fingerprint : is_sha256 c.allocation_fingerprint ≡ true
  pub slot : is_slot c.slot ≡ true
  pub engine : is_supported_engine c.engine ≡ true
  pub name : is_database_name c.database_name ≡ true
  pub synthetic : has_production_marker c.database_name ≡ false
  pub manifest : is_sha256 c.manifest_sha256 ≡ true

check_creation-keeps : (c : Creation) (d : Disk) → (check_creation c d).1 ≡ d
unfolding check_creation
check_creation-keeps c d = ground arith

check_creation-IsAccepted :
    (c : Creation) (d : Disk) → (check_creation c d).0 ≡ ok tt → IsAccepted c
unfolding check_creation
check_creation-IsAccepted c d h = ground arith

check_creation_accepts : (c : Creation) (d : Disk) → IsAccepted c → check_creation c d ≡ (ok tt, d)
unfolding check_creation
check_creation_accepts c d a = ground arith

initial_record-IsValid :
    (c : Creation) (now : ℕ) → IsAccepted c → IsValid (initial_record (immutable c) now)
unfolding initial_record immutable sound_values sound_resources sound_pending
initial_record-IsValid c now a = record {
  identity = a.identity;
  session = a.session;
  values = ground arith;
  resources =
      let name = container_name c.work_session_id c.database_id in
      rw (eq_refl name, eq_refl (name <> "-network"), eq_refl (name <> "-data"));
  pending = refl;
}

module _ (c : Creation) (now : ℕ) (d : Disk) where
  -- The arguments with the names of the database's resources.
  abbrev pub owner : Ownership
  owner =
      let name = container_name c.work_session_id c.database_id in
      record {
        database_id = c.database_id;
        work_session_id = c.work_session_id;
        project_id = c.project_id;
        worker_id = c.worker_id;
        allocation_identity = c.allocation_identity;
        allocation_fingerprint = c.allocation_fingerprint;
        slot = c.slot;
        engine = c.engine;
        database_name = c.database_name;
        manifest_sha256 = c.manifest_sha256;
        container_identity = name;
        network_identity = name <> "-network";
        volume_identity = name <> "-data";
        synthetic_development_fixture = true;
      }

  -- An allocated record that is to be stopped, at revision 1, without a challenge.
  abbrev pub first : DatabaseRecord
  first = record {
    schema_version = 1;
    protocol_version = "database-lifecycle/v1";
    ownership = owner;
    state = State.allocated;
    desired_state = Desired.stopped;
    lifecycle_revision = 1;
    pending_replacement = none;
    created_at = now;
    updated_at = now;
  }

  -- A success allocates the first record of a free path, or returns the record that its owner has
  -- already; an error changes nothing.
  abbrev pub CreateEffect : Result Error (DatabaseRecord × Bool) × Disk → Type 0
  CreateEffect (ok (r, true), d') =
      IsAccepted c
      × (exists (lookup c.database_id d.records) ≡ false)
      × (r ≡ first)
      × IsWritten c.database_id d r d'
  CreateEffect (ok (r, false), d') = (d' ≡ d) × IsRead c.database_id d r × (r.ownership ≡ owner)
  CreateEffect (err e, d') = d' ≡ d

  adopt-CreateEffect : CreateEffect (adopt (immutable c) d)
  unfolding adopt immutable
  adopt-CreateEffect = elim (IsRead-cases c.database_id d) [
    | inr u ↦ rw u.result refl
    | inl (r, h) ↦ elim (Bool-cases (same_ownership r.ownership (immutable c))) [
      | inl same ↦ rw (h.result, same) (refl, h, same_ownership→eq r.ownership (immutable c) same)
      | inr other ↦ rw (h.result, other) refl
    ]
  ]

  allocate_lem :
      IsAccepted c → allocate (immutable c) now d ≡ (ok (first, true), (write_record first d).1)
  unfolding allocate write_record initial_record immutable
  allocate_lem a = rw (validate-IsValid first (initial_record-IsValid c now a))

  first-IsSound : IsAccepted c → IsSoundRecord c.database_id first
  unfolding initial_record immutable
  first-IsSound a = record {
    named = refl;
    valid = initial_record-IsValid c now a;
    open_healthy = inl refl;
  }

checked-cases :
    (c : Creation) (d : Disk)
    → (IsAccepted c × (check_creation c d ≡ (ok tt, d)))
      ⊎ ((e : Error) × (check_creation c d ≡ (err e, d)))
checked-cases c d = go (check_creation c d).0 refl
  where
    go :
        (x : Result Error (Unit {0}))
        → (check_creation c d).0 ≡ x
        → (IsAccepted c × (check_creation c d ≡ (ok tt, d)))
          ⊎ ((e : Error) × (check_creation c d ≡ (err e, d)))
    go (ok tt) h = let a = check_creation-IsAccepted c d h in inl (a, check_creation_accepts c d a)
    go (err e) h = inr (e, λ i. (h i, check_creation-keeps c d i))

module _ (c : Creation) (now : ℕ) (d : Disk) where
  create_rejected : {e : Error} → check_creation c d ≡ (err e, d) → create c now d ≡ (err e, d)
  unfolding create
  create_rejected h = rw h

  create_existing :
      check_creation c d ≡ (ok tt, d)
      → exists (lookup c.database_id d.records) ≡ true
      → create c now d ≡ adopt (immutable c) d
  unfolding create
  create_existing h e = rw (h, e)

  create_free :
      check_creation c d ≡ (ok tt, d)
      → exists (lookup c.database_id d.records) ≡ false
      → create c now d ≡ allocate (immutable c) now d
  unfolding create
  create_free h e = rw (h, e)

  -- On a sound registry, a call of `create` that raises changes nothing. One that succeeds has
  -- either passed every test, found its path free and written there a record of its arguments,
  -- allocated at revision 1 with the time of the call and no challenge, or changed nothing and
  -- returned the record of an owner with the same arguments.
  pub create-CreateEffect : IsSound d → CreateEffect c now d (create c now d)
  create-CreateEffect s = elim (checked-cases c d) [
    | inr (e, rejected) ↦ rw (create_rejected rejected) refl
    | inl (a, checked) ↦ elim (Bool-cases (exists (lookup c.database_id d.records))) [
      | inl taken ↦ rw (create_existing checked taken) (adopt-CreateEffect c now d)
      | inr free ↦
          rw (create_free checked free, allocate_lem c now d a)
            (
              a,
              free,
              refl,
              write_record-IsWritten_at c.database_id d (first c now d) s (first-IsSound c now d a),
            )
    ]
  ]

  -- A record that stands under the identity of accepted arguments decides the call: the same owner
  -- gets it back, and another owner is refused.
  create_over :
      {r : DatabaseRecord}
      → IsAccepted c
      → IsRead c.database_id d r
      → create c now d ≡ (
        (if same_ownership r.ownership (immutable c)
            then ok (r, false)
            else err Error.database_ownership_conflict),
        d,
      )
  unfolding adopt immutable
  create_over {r} a h =
      rw (create_existing (check_creation_accepts c d a) (ground (arith, h.found)), h.result)
        (ground arith)

first-ownership : (c : Creation) (now : ℕ) (d : Disk) → (first c now d).ownership ≡ immutable c
unfolding immutable
first-ownership c now d = refl

-- After a `create` that has allocated a record in a sound registry, a later `create` under the
-- same identity with accepted arguments changes nothing: with equal immutable fields it returns
-- the record that was allocated, and otherwise it raises DATABASE_OWNERSHIP_CONFLICT.
pub create-create :
    (c c' : Creation) (now now' : ℕ) (d : Disk) {r : DatabaseRecord} {d' : Disk}
    → IsSound d
    → create c now d ≡ (ok (r, true), d')
    → IsAccepted c'
    → c'.database_id ≡ c.database_id
    → create c' now' d' ≡ (
      (if same_ownership (immutable c) (immutable c')
          then ok (r, false)
          else err Error.database_ownership_conflict),
      d',
    )
create-create c c' now now' d {r} {d'} s made a same =
    let (_, _, first_eq, written) =
      subst (CreateEffect c now d) made (create-CreateEffect c now d s) in
    let owner : r.ownership ≡ immutable c =
      ap (λ (x : DatabaseRecord). x.ownership) first_eq ∙ first-ownership c now d in
    subst
      (λ o. create c' now' d' ≡ (
        (if same_ownership o (immutable c')
            then ok (r, false)
            else err Error.database_ownership_conflict),
        d',
      ))
      owner (create_over c' now' d' a (subst (λ k. IsRead k d' r) (sym same) written.stored))
