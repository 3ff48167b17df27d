-- ===== src/Release/Execution.antt =====
-- `_execute` and `_execute_guarded` on the plan in memory, with a log of what reaches the outside:
-- the saves of the plan and of the receipts, and the calls that have an effect. Saving does not
-- fail here.
use atenea_remote_worker_spe.Prelude.{
  ℕ, String, Bool, true, false, not, Option, none, some, List, [], ◌∷◌, ◌++◌, Result, ok, err,
  Action, pure, refuse_if, ◌>>=◌, ◌>>◌, str_eq, if◌then◌else◌,
}
use atenea_remote_worker_spe.Release.Plan.{
  PlanState, is_terminal, same_observation, Artifact, Receipt, Plan, Failure, rejected, crashed,
  failure_code,
}
use atenea_remote_worker_spe.Release.Platform.{Platform}

pub data Event : Type 0 where
  saved : Plan → Event
  applied : Event
  verified : Receipt → Event
  reverted : Receipt → Event
  committed : Receipt → Event
  receipt_saved : Receipt → Event

-- The comparison with `record["artifactSha256"]`, a key that `_prepare` adds.
abbrev pub check_digest : Option Artifact → String → Result Failure (Unit {0})
check_digest none found = err crashed
check_digest (some a) found =
    refuse_if (not (str_eq found a.payload_sha256)) (rejected "ARTIFACT_DIGEST_MISMATCH")

-- `state in {"APPLYING", "ROLLING_BACK"}`
abbrev pub is_effective : PlanState → Bool
is_effective PlanState.applying = true
is_effective PlanState.rolling_back = true
is_effective _ = false

abbrev pub is_accepted : PlanState → Bool
is_accepted PlanState.accepted = true
is_accepted _ = false

abbrev pub is_rolling_back : PlanState → Bool
is_rolling_back PlanState.rolling_back = true
is_rolling_back _ = false

-- The state that the `except` of `_execute` leaves.
abbrev pub abandoned : PlanState → PlanState
abandoned state = if is_effective state then PlanState.rollback_failed else PlanState.blocked

abbrev pub set_state : PlanState → Plan → Plan
set_state state p = record p { state = state }

module _ (h : Platform) where
  pub record Run : Type 0 where
    pub plan : Plan
    pub world : h.World
    pub log : List Event

  abbrev pub Step : Type 0 → Type 0
  Step A = Action Run Failure A

  -- A call on the outside world.
  unfoldable pub outside : {A : Type 0} → (Plan → h.World → Result Failure A × h.World) → Step A
  outside f s = let (r, w) = f s.plan s.world in (r, record s { world = w })

  unfoldable pub note : Event → Step (Unit {0})
  note e s = (ok tt, record s { log = s.log ++ (e ∷ []) })

  -- `save(path / "operation.json", record)`
  unfoldable pub save : Step (Unit {0})
  save s = (ok tt, record s { log = s.log ++ (saved s.plan ∷ []) })

  unfoldable pub update : (Plan → Plan) → Step (Unit {0})
  update f s = (ok tt, record s { plan = f s.plan })

  -- `try: … except Exception as error: …`
  unfoldable pub catch : Step (Unit {0}) → (Failure → Step (Unit {0})) → Step (Unit {0})
  catch m f s = let (r, s') = m s in elim r [ ok _ ↦ (ok tt, s') | err e ↦ f e s' ]

  unfoldable pub current : Step Plan
  current s = (ok s.plan, s)

  -- `if …: raise …`
  unfoldable pub require : Result Failure (Unit {0}) → Step (Unit {0})
  require r s = (r, s)

  -- `target.rollback`, `target.commit` and what follows, in both places.
  unfoldable pub roll_back : Step (Unit {0})
  roll_back = do
    receipt ← outside h.rollback
    note (reverted receipt)
    outside (λ p. h.commit p.target receipt)
    note (committed receipt)
    note (receipt_saved receipt)
    update (λ p. record p {
      state = PlanState.rolled_back;
      effective_source_commit = some receipt.source_commit;
    })

  -- `target.apply`, after the intent is saved.
  unfoldable pub apply_once : Step (Unit {0})
  apply_once = do
    observed ← outside (λ p. h.inspect p.target)
    p ← current
    require
        (refuse_if (not (same_observation observed p.predecessor)) (rejected "TARGET_STATE_MOVED"))
    update (set_state PlanState.applying)
    save
    note applied
    outside h.apply

  -- `target.verify`, `target.commit` and what follows.
  unfoldable pub conclude : Step (Unit {0})
  conclude = do
    receipt ← outside h.verify
    note (verified receipt)
    outside (λ p. h.commit p.target receipt)
    note (committed receipt)
    note (receipt_saved receipt)
    update (λ p. record p {
      state = PlanState.succeeded;
      error_code = none;
      effective_source_commit = some receipt.source_commit;
      result_sha256 = receipt.manifest_sha256;
    })

  -- The branch of a plan that is not rolling back.
  unfoldable pub go_forward : Step (Unit {0})
  go_forward = do p ← current; if is_accepted p.state then apply_once else pure tt; conclude

  -- The `try` of `_execute_guarded`.
  unfoldable pub attempt : Step (Unit {0})
  attempt = do
    found ← outside h.payload_digest
    p ← current
    require (check_digest p.artifact found)
    if is_rolling_back p.state then roll_back else go_forward

  -- Its `except`, once an effect may have happened.
  unfoldable pub reverse_effects : Step (Unit {0})
  reverse_effects = do
    update (set_state PlanState.rolling_back)
    save
    catch roll_back (λ _. update (set_state PlanState.rollback_failed))

  -- Its `except`.
  unfoldable pub recover_from : Failure → Step (Unit {0})
  recover_from e = do
    update (λ p. record p { error_code = some (failure_code e "EXECUTOR_FAILED") })
    p ← current
    if is_effective p.state then reverse_effects else update (set_state PlanState.blocked)

  unfoldable pub execute_guarded : Step (Unit {0})
  execute_guarded = catch attempt recover_from

  -- The `except` of `_execute`.
  unfoldable pub abandon : Failure → Step (Unit {0})
  abandon e = update (λ p. record p {
    state = abandoned p.state;
    error_code = some (failure_code e "EXECUTOR_FAILED");
  })

  -- `with target.guard(): self._execute_guarded(record, path, target)`
  unfoldable pub guarded : Step (Unit {0})
  guarded = do outside (λ p. h.enter p.target); execute_guarded

  -- `_execute` of a plan that is not terminal, at the instant `now`.
  unfoldable pub perform : ℕ → Step (Unit {0})
  perform now = do catch guarded abandon; update (λ p. record p { finished_at = some now }); save

  -- `_execute`, on a plan that was read from its file.
  unfoldable pub execute : ℕ → Step (Unit {0})
  execute now = do p ← current; if is_terminal p.state then pure tt else perform now
