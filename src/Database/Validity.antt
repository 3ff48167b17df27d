-- ===== src/Database/Validity.antt =====
-- `_validate_record` as a predicate, and what the writers of records keep of it.
use atenea_remote_worker_spe.Prelude.{ℕ, ◌+◌, String, ◌≡◌, true, Option, none, some, ok, arith}
use atenea_remote_worker_spe.Database.Names.{is_uuid, is_sha256}
use atenea_remote_worker_spe.Database.Record.{State, DatabaseRecord, Pending}
use atenea_remote_worker_spe.Database.Validate.{
  sound_values, sound_resources, sound_pending, validate_record,
}
use atenea_remote_worker_spe.Database.Registry.{DesiredArgument, moved}
use atenea_remote_worker_spe.Database.Replace.{consumed, challenged}

-- The tests of `_validate_record`, by name.
pub record IsValid (r : DatabaseRecord) : Type 0 where
  pub identity : is_uuid r.ownership.database_id ≡ true
  pub session : is_uuid r.ownership.work_session_id ≡ true
  pub values : sound_values r ≡ true
  pub resources : sound_resources r.ownership ≡ true
  pub pending : sound_pending r r.pending_replacement ≡ true

pub IsValid-validate : (r : DatabaseRecord) → validate_record r ≡ ok tt → IsValid r
unfolding validate_record
IsValid-validate r h = ground arith

pub validate-IsValid : (r : DatabaseRecord) → IsValid r → validate_record r ≡ ok tt
unfolding validate_record
validate-IsValid r v = ground arith

sound_pending-grows :
    (r r' : DatabaseRecord) (p : Option Pending)
    → r'.lifecycle_revision ≡ r.lifecycle_revision + 1
    → sound_pending r p ≡ true
    → sound_pending r' p ≡ true
unfolding sound_pending
sound_pending-grows r r' none e h = h
sound_pending-grows r r' (some p) e h = ground arith

pub moved-IsValid :
    (r : DatabaseRecord) (target : Option State) (desired : DesiredArgument) (now : ℕ)
    → IsValid r
    → IsValid (moved r target desired now)
unfolding moved sound_values
moved-IsValid r target desired now v =
    ground (arith, sound_pending-grows r (moved r target desired now) r.pending_replacement)

pub consumed-IsValid :
    (r : DatabaseRecord) (p : Pending) (now : ℕ)
    → IsValid r
    → r.pending_replacement ≡ some p
    → IsValid (consumed r p now)
unfolding consumed sound_values sound_pending
consumed-IsValid r p now v e = ground arith

pub challenged-IsValid :
    (digest : String → String) (r : DatabaseRecord) (operation confirmation : String) (now : ℕ)
    → IsValid r
    → is_uuid operation ≡ true
    → is_sha256 (digest confirmation) ≡ true
    → IsValid (challenged digest r operation confirmation now)
unfolding challenged sound_values sound_pending
challenged-IsValid digest r operation confirmation now v u s = ground arith
