-- ===== src/Database/Writing.antt =====
-- What writing a new version of a record does to a sound registry.
use atenea_remote_worker_spe.Prelude.{
  String, ◌≡◌, refl, sym, subst, true, some, lookup, lookup-insert, str_eq, eq_iff, arith,
  if◌then◌else◌,
}
use atenea_remote_worker_spe.Database.Names.{is_uuid}
use atenea_remote_worker_spe.Database.Record.{DatabaseRecord}
use atenea_remote_worker_spe.Database.Registry.{regular, Disk, write_record}
use atenea_remote_worker_spe.Database.Reading.{IsRead, read_found}
use atenea_remote_worker_spe.Database.Soundness.{
  IsSound, IsSoundRecord, IsRead-named, write_record-IsSound,
}

-- The registry `d'` is `d` with the record `r'` under `id`.
pub record IsWritten (id : String) (d : Disk) (r' : DatabaseRecord) (d' : Disk) : Type 0 where
  pub stored : IsRead id d' r'
  pub sound : IsSound d'
  pub snapshots : d'.snapshots ≡ d.snapshots
  pub files :
      (k : String)
      → lookup k d'.records ≡ (if str_eq id k then some (regular r') else lookup k d.records)

write_record-lookup :
    (r : DatabaseRecord) (d : Disk) (k : String)
    → lookup k (write_record r d).1.records
      ≡ (if str_eq r.ownership.database_id k then some (regular r) else lookup k d.records)
unfolding write_record
write_record-lookup r d k = lookup-insert r.ownership.database_id k (regular r) d.records

write_record-lookup_self :
    (r : DatabaseRecord) (d : Disk) (k : String)
    → k ≡ r.ownership.database_id
    → lookup k (write_record r d).1.records ≡ some (regular r)
write_record-lookup_self r d k e =
    rw write_record-lookup (ground (arith, eq_iff r.ownership.database_id k))

write_record-snapshots :
    (r : DatabaseRecord) (d : Disk) → (write_record r d).1.snapshots ≡ d.snapshots
unfolding write_record
write_record-snapshots r d = refl

-- A write under the record's own name, of a sound record.
pub write_record-IsWritten_at :
    (id : String) (d : Disk) (r' : DatabaseRecord)
    → IsSound d
    → IsSoundRecord id r'
    → IsWritten id d r' (write_record r' d).1
write_record-IsWritten_at id d r' s sound =
    let found : lookup id (write_record r' d).1.records ≡ some (regular r') =
      write_record-lookup_self r' d id sound.named in
    let canonical = subst (λ k. is_uuid k ≡ true) (sym sound.named) sound.valid.identity in
    record {
      stored = record {
        found = found;
        canonical = canonical;
        valid = sound.valid;
        result = read_found id (write_record r' d).1 r' canonical found sound.valid;
      };
      sound = write_record-IsSound r' d s (subst (λ k. IsSoundRecord k r') sound.named sound);
      snapshots = write_record-snapshots r' d;
      files = λ k. rw sound.named (write_record-lookup r' d k);
    }

-- A write of a new version of a record that was read.
pub write_record-IsWritten :
    {id : String} {d : Disk} {r : DatabaseRecord} (r' : DatabaseRecord)
    → IsSound d
    → IsRead id d r
    → IsSoundRecord r.ownership.database_id r'
    → IsWritten id d r' (write_record r' d).1
write_record-IsWritten {id} {d} {r} r' s h sound =
    write_record-IsWritten_at id d r' s
      (subst (λ k. IsSoundRecord k r') (sym (IsRead-named s h)) sound)
