-- ===== src/Database/Seeding.antt =====
-- The order of the states: without a transition to `seeded` no database becomes healthy.
use atenea_remote_worker_spe.Prelude.{
  String, ◌≡◌, refl, Bool, true, false, not, Option, some, List, [], ◌∷◌, all, lookup, arith,
}
use atenea_remote_worker_spe.Database.Names.{is_sha256}
use atenea_remote_worker_spe.Database.Record.{State, DatabaseRecord, allows}
use atenea_remote_worker_spe.Database.Registry.{Entry, regular, Disk}
use atenea_remote_worker_spe.Database.Soundness.{IsSound}
use atenea_remote_worker_spe.Database.History.{Call, after, run, after-IsSound}
use atenea_remote_worker_spe.Database.Changes.{
  Change, same, fresh, next, Cause, requests, after-Change,
}

-- The states that a database can be in before it was seeded.
abbrev pub is_early : State → Bool
is_early State.allocated = true
is_early State.created = true
is_early State.migrated = true
is_early State.stopped = true
is_early State.blocked = true
is_early _ = false

-- No record that is seeded, healthy or beyond stands at the path.
abbrev pub early_entry : Option (Entry DatabaseRecord) → Bool
early_entry (some (regular r)) = is_early r.state
early_entry _ = true

abbrev pub early_at : String → Disk → Bool
early_at k d = early_entry (lookup k d.records)

early_step :
    (k : String) (c : Call) (old new : State)
    → is_early old ≡ true
    → requests k State.seeded c ≡ false
    → Cause k c old new
    → is_early new ≡ true
unfolding allows
early_step k c old new early unasked cause = ground arith

early_at-Change :
    (k : String) (c : Call) (d d' : Disk)
    → early_at k d ≡ true
    → requests k State.seeded c ≡ false
    → Change k c d d'
    → early_at k d' ≡ true
early_at-Change k c d d' early unasked (same e) = rw e early
early_at-Change k c d d' early unasked (fresh r' _ e first) = rw (e, first) refl
early_at-Change k c d d' early unasked (next r r' e e' _ cause) =
    rw e' (early_step k c r.state r'.state (rw e at early) unasked cause)

module _ (digest : String → String) (hexadecimal : (t : String) → is_sha256 (digest t) ≡ true) where
  -- On a sound registry where the record `k` has not come as far as `seeded`, it does not come
  -- there, nor to `healthy`, `replacing` or `restoring`, by any calls among which none asks for
  -- its transition to `seeded`.
  pub run_unseeded :
      (k : String) (cs : List Call) (d : Disk)
      → IsSound d
      → early_at k d ≡ true
      → all (λ c. not (requests k State.seeded c)) cs ≡ true
      → early_at k (run digest cs d) ≡ true
  unfolding run all
  run_unseeded k [] d s early unasked = early
  run_unseeded k (c ∷ cs) d s early unasked =
      run_unseeded k cs (after digest c d) (after-IsSound digest hexadecimal c d s)
        (early_at-Change k c d (after digest c d) early (ground arith)
          (after-Change digest hexadecimal k c d s))
        (ground arith)
