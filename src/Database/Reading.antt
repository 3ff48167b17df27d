-- ===== src/Database/Reading.antt =====
-- What `read` does: it changes nothing, and returns only a valid record that stands at its path.
use atenea_remote_worker_spe.Prelude.{
  String, ◌≡◌, refl, ◌⊎◌, inl, inr, true, Option, none, some, ok, err, lookup, arith, Bool-cases,
  Result,
}
use atenea_remote_worker_spe.Database.Names.{is_uuid}
use atenea_remote_worker_spe.Database.Record.{DatabaseRecord, Error}
use atenea_remote_worker_spe.Database.Validate.{validate_record}
use atenea_remote_worker_spe.Database.Registry.{
  Entry, regular, malformed, unsafe, dangling, Disk, read,
}
use atenea_remote_worker_spe.Database.Validity.{IsValid, IsValid-validate, validate-IsValid}

-- The record of a successful `read`.
pub record IsRead (id : String) (d : Disk) (r : DatabaseRecord) : Type 0 where
  pub found : lookup id d.records ≡ some (regular r)
  pub canonical : is_uuid id ≡ true
  pub valid : IsValid r
  pub result : read id d ≡ (ok r, d)

-- A failed `read`.
pub record IsUnread (id : String) (d : Disk) : Type 0 where
  pub error : Error
  pub result : read id d ≡ (err error, d)

abbrev Reading : String → Disk → Type 0
Reading id d = ((r : DatabaseRecord) × IsRead id d r) ⊎ IsUnread id d

found-Reading :
    (id : String) (d : Disk) (r : DatabaseRecord)
    → is_uuid id ≡ true
    → lookup id d.records ≡ some (regular r)
    → Reading id d
unfolding read
found-Reading id d r u e = go (validate_record r) refl
  where
    go : (v : Result Error (Unit {0})) → validate_record r ≡ v → Reading id d
    go (ok tt) h = inl (
      r,
      record { found = e; canonical = u; valid = IsValid-validate r h; result = ground arith },
    )
    go (err x) h = inr (record { error = x; result = ground arith })

canonical-Reading : (id : String) (d : Disk) → is_uuid id ≡ true → Reading id d
unfolding read
canonical-Reading id d u = go (lookup id d.records) refl
  where
    go : (o : Option (Entry DatabaseRecord)) → lookup id d.records ≡ o → Reading id d
    go none e = inr (record { error = Error.database_not_found; result = ground arith })
    go (some (regular r)) e = found-Reading id d r u e
    go (some malformed) e =
        inr (record { error = Error.persisted_state_invalid; result = ground arith })
    go (some unsafe) e = inr (record { error = Error.database_not_found; result = ground arith })
    go (some dangling) e = inr (record { error = Error.database_not_found; result = ground arith })

-- The two outcomes of `read`.
pub IsRead-cases : (id : String) (d : Disk) → ((r : DatabaseRecord) × IsRead id d r) ⊎ IsUnread id d
unfolding read
IsRead-cases id d = elim (Bool-cases (is_uuid id)) [
  | inl u ↦ canonical-Reading id d u
  | inr n ↦ inr (record { error = Error.database_id_invalid; result = ground arith })
]

-- A valid record under a canonical name is read back.
pub read_found :
    (id : String) (d : Disk) (r : DatabaseRecord)
    → is_uuid id ≡ true
    → lookup id d.records ≡ some (regular r)
    → IsValid r
    → read id d ≡ (ok r, d)
unfolding read
read_found id d r u e v = ground (arith, validate-IsValid r v)

-- Reading depends on the records alone.
pub IsRead-records :
    (id : String) (d d' : Disk) (r : DatabaseRecord)
    → d'.records ≡ d.records
    → IsRead id d r
    → IsRead id d' r
IsRead-records id d d' r e h =
    let found : lookup id d'.records ≡ some (regular r) = rw e h.found in
    record {
      found = found;
      canonical = h.canonical;
      valid = h.valid;
      result = read_found id d' r h.canonical found h.valid;
    }
