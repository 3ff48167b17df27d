-- ===== src/Database/Concurrency.antt =====
-- Two callers that expect the same revision: the first to move the record wins.
use atenea_remote_worker_spe.Prelude.{
  ℕ, String, ◌≡◌, ◌≢◌, subst, true, false, Option, some, ok, err, arith,
}
use atenea_remote_worker_spe.Database.Record.{State, DatabaseRecord, Error, same_state}
use atenea_remote_worker_spe.Database.Registry.{
  Disk, DesiredArgument, is_state, advance, transition,
}
use atenea_remote_worker_spe.Database.Soundness.{IsSound}
use atenea_remote_worker_spe.Database.Transitions.{
  IsDone, Effect, transition-Effect, transition_retry, transition-advance,
}

advance_stale :
    (r : DatabaseRecord) (expected : ℕ) (target : Option State) (desired : DesiredArgument)
    (now : ℕ) (d : Disk)
    → r.lifecycle_revision ≢ expected
    → advance r expected target desired now d ≡ (err Error.stale_revision, d)
unfolding advance
advance_stale r expected target desired now d n = ground arith

other_state :
    (t u : State) (r : DatabaseRecord)
    → is_state (some t) r.state ≡ true
    → u ≢ t
    → is_state (some u) r.state ≡ false
unfolding same_state
other_state t u r h n = ground arith

module _ (id : String) (expected : ℕ) (t : State) (desired : DesiredArgument) (now : ℕ) (d : Disk)
    (s : IsSound d) {r : DatabaseRecord} {d' : Disk}
    (moved : transition id expected (some t) desired now d ≡ (ok r, d')) where
  done : IsDone id expected (some t) desired now d r d'
  done =
      (subst (Effect id expected (some t) desired now d) moved
        (transition-Effect id expected (some t) desired now d s)).0

  same_caller :
      (desired' : DesiredArgument) (now' : ℕ)
      → transition id expected (some t) desired' now' d' ≡ (ok r, d')
  same_caller desired' now' =
      transition_retry id expected (some t) desired' now' d' done.stored
        (ground (arith, done.reached, done.revision))

  other_caller :
      (u : State) (desired' : DesiredArgument) (now' : ℕ)
      → u ≢ t
      → transition id expected (some u) desired' now' d' ≡ (err Error.stale_revision, d')
  other_caller u desired' now' n =
      rw
        (transition-advance id expected (some u) desired' now' d' done.stored
          (ground (arith, other_state t u r done.reached n)))
        (advance_stale r expected (some u) desired' now' d' (omega (arith, done.revision)))

  -- After a successful transition of a sound registry, the same call, at any time, returns the
  -- same record and changes nothing, and a call that expects the same revision and names another
  -- state raises STALE_REVISION and changes nothing.
  pub transition_conflict :
      (u : State) (desired' : DesiredArgument) (now' : ℕ)
      → u ≢ t
      → (transition id expected (some t) desired' now' d' ≡ (ok r, d'))
        × (transition id expected (some u) desired' now' d' ≡ (err Error.stale_revision, d'))
  transition_conflict u desired' now' n =
      (same_caller desired' now', other_caller u desired' now' n)
