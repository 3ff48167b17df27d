-- ===== src/Database/Soundness.antt =====
-- The invariant of the registry's record files, and that every operation keeps it.
use atenea_remote_worker_spe.Prelude.{
  ℕ, ◌+◌, String, ◌≡◌, refl, subst, ◌⊎◌, inl, inr, Bool, true, false, not, ◌&&◌, Option, none, some,
  [], ◌∷◌, Dict, lookup, insert, ◌==◌, str_eq, eq_iff, arith, Bool-cases,
}
use atenea_remote_worker_spe.Database.Names.{is_uuid, is_sha256}
use atenea_remote_worker_spe.Database.Record.{State, DatabaseRecord, Pending}
use atenea_remote_worker_spe.Database.Validate.{sound_pending}
use atenea_remote_worker_spe.Database.Registry.{
  Entry, regular, malformed, unsafe, dangling, Disk, write_record, DesiredArgument, moved,
}
use atenea_remote_worker_spe.Database.Replace.{challenged, consumed}
use atenea_remote_worker_spe.Database.Validity.{
  IsValid, moved-IsValid, challenged-IsValid, consumed-IsValid,
}
use atenea_remote_worker_spe.Database.Reading.{IsRead}

-- The challenge can still be answered: it is not consumed, and it is bound to the revision.
abbrev pub open_at : Option Pending → ℕ → Bool
open_at none revision = false
open_at (some p) revision = not p.consumed && p.bound_revision == revision

abbrev pub is_open : DatabaseRecord → Bool
is_open r = open_at r.pending_replacement r.lifecycle_revision

-- A record stands at its own path, is valid, and holds an open challenge only while healthy.
pub record IsSoundRecord (k : String) (r : DatabaseRecord) : Type 0 where
  pub named : k ≡ r.ownership.database_id
  pub valid : IsValid r
  pub open_healthy : (is_open r ≡ false) ⊎ (r.state ≡ State.healthy)

abbrev pub IsSoundEntry : String → Entry DatabaseRecord → Type 0
IsSoundEntry k (regular r) = IsSoundRecord k r
IsSoundEntry k malformed = Unit
IsSoundEntry k unsafe = Unit
IsSoundEntry k dangling = Unit

abbrev pub IsSoundDict : Dict (Entry DatabaseRecord) → Type 0
IsSoundDict [] = Unit
IsSoundDict ((k, e) ∷ d) = IsSoundEntry k e × IsSoundDict d

abbrev pub IsSound : Disk → Type 0
IsSound d = IsSoundDict d.records

same_entry :
    (j k : String) (x : Entry DatabaseRecord) (r : DatabaseRecord)
    → IsSoundEntry j x
    → j ≡ k
    → x ≡ regular r
    → IsSoundRecord k r
same_entry j k x r s jk xr = subst (λ y. IsSoundEntry k y) xr (subst (λ i. IsSoundEntry i x) jk s)

lookup-IsSoundDict :
    (k : String) (d : Dict (Entry DatabaseRecord)) (r : DatabaseRecord)
    → IsSoundDict d
    → lookup k d ≡ some (regular r)
    → IsSoundRecord k r
unfolding lookup
lookup-IsSoundDict k [] r s e = cc
lookup-IsSoundDict k ((j, x) ∷ d) r (sx, s) e = elim (Bool-cases (str_eq j k)) [
  | inl same ↦ same_entry j k x r sx ((eq_iff j k).0 same) (ground arith)
  | inr other ↦ lookup-IsSoundDict k d r s (ground arith)
]

insert-IsSoundDict :
    (k : String) (d : Dict (Entry DatabaseRecord)) (r : DatabaseRecord)
    → IsSoundDict d
    → IsSoundRecord k r
    → IsSoundDict (insert k (regular r) d)
unfolding insert
insert-IsSoundDict k [] r s h = (h, tt)
insert-IsSoundDict k ((j, x) ∷ d) r (sx, s) h = ground (arith, insert-IsSoundDict k d r s h)

pub write_record-IsSound :
    (r : DatabaseRecord) (d : Disk)
    → IsSound d
    → IsSoundRecord r.ownership.database_id r
    → IsSound (write_record r d).1
unfolding write_record
write_record-IsSound r d s h = insert-IsSoundDict r.ownership.database_id d.records r s h

pub IsRead-named :
    {id : String} {d : Disk} {r : DatabaseRecord}
    → IsSound d
    → IsRead id d r
    → id ≡ r.ownership.database_id
IsRead-named {id} {d} {r} s h = (lookup-IsSoundDict id d.records r s h.found).named

-- The record that `read` returns from a sound registry is sound, and stands at its own path.
pub IsRead-IsSound :
    {id : String} {d : Disk} {r : DatabaseRecord}
    → IsSound d
    → IsRead id d r
    → IsSoundRecord r.ownership.database_id r
IsRead-IsSound {id} {d} {r} s h =
    let sound : IsSoundRecord id r = lookup-IsSoundDict id d.records r s h.found in
    subst (λ k. IsSoundRecord k r) sound.named sound

open_at-next :
    (r : DatabaseRecord) (p : Option Pending)
    → sound_pending r p ≡ true
    → open_at p (r.lifecycle_revision + 1) ≡ false
unfolding sound_pending
open_at-next r none h = refl
open_at-next r (some p) h = ground arith

-- Every transition closes the challenge that was pending.
pub moved_closes :
    (r : DatabaseRecord) (target : Option State) (desired : DesiredArgument) (now : ℕ)
    → IsValid r
    → is_open (moved r target desired now) ≡ false
unfolding moved
moved_closes r target desired now v = open_at-next r r.pending_replacement v.pending

pub moved-IsSound :
    (r : DatabaseRecord) (target : Option State) (desired : DesiredArgument) (now : ℕ)
    → IsSoundRecord r.ownership.database_id r
    → IsSoundRecord r.ownership.database_id (moved r target desired now)
unfolding moved
moved-IsSound r target desired now s = record {
  named = refl;
  valid = moved-IsValid r target desired now s.valid;
  open_healthy = inl (moved_closes r target desired now s.valid);
}

pub challenged-IsSound :
    (digest : String → String) (r : DatabaseRecord) (operation confirmation : String) (now : ℕ)
    → IsSoundRecord r.ownership.database_id r
    → r.state ≡ State.healthy
    → is_uuid operation ≡ true
    → is_sha256 (digest confirmation) ≡ true
    → IsSoundRecord r.ownership.database_id (challenged digest r operation confirmation now)
unfolding challenged
challenged-IsSound digest r operation confirmation now s e u h = record {
  named = refl;
  valid = challenged-IsValid digest r operation confirmation now s.valid u h;
  open_healthy = inr e;
}

pub consumed-IsSound :
    (r : DatabaseRecord) (p : Pending) (now : ℕ)
    → IsSoundRecord r.ownership.database_id r
    → r.pending_replacement ≡ some p
    → IsSoundRecord r.ownership.database_id (consumed r p now)
unfolding consumed
consumed-IsSound r p now s e = record {
  named = refl;
  valid = consumed-IsValid r p now s.valid e;
  open_healthy = inl refl;
}
