-- ===== src/Release/Preparing.antt =====
-- `_prepare` of the controller: it waits for the artifact of a plan, stages it, and files the plan.
use atenea_remote_worker_spe.Prelude.{
  ℕ, zero, suc, ◌+◌, String, Bool, false, not, ◌||◌, Option, none, some, Result, ok, err, Action,
  ◌>>=◌, ◌>>◌, leb, str_eq, insert, if◌then◌else◌,
}
use atenea_remote_worker_spe.Release.Plan.{
  TargetName, PlanState, Observation, Artifact, Plan, Failure, rejected, crashed, failure_code,
}
use atenea_remote_worker_spe.Release.Platform.{Platform}
use atenea_remote_worker_spe.Release.Requests.{Controller, find_plan}

-- The clock in seconds, `time.sleep(10)`, `digest` on the seven keys of a plan (the protocol is a
-- constant), and the retention's `storage` and its file; without a retention there is no file, and
-- `storage` does nothing.
pub record Helpers (h : Platform) : Type 0 where
  pub clock : h.World → ℕ
  pub sleep : h.World → h.World
  pub fingerprint : String → TargetName → String → Option Artifact → Observation → Option ℕ → String
  pub storage : String → Plan → h.World → Result Failure (Unit {0}) × h.World
  pub has_storage : Plan → h.World → Bool

-- `error.code != "RELEASE_BUILD_PENDING"` is false.
abbrev pub is_pending : Failure → Bool
is_pending (rejected code) = str_eq code "RELEASE_BUILD_PENDING"
is_pending crashed = false

abbrev pub mark_pending : Plan → Plan
mark_pending p = record p { error_code = some "RELEASE_BUILD_PENDING" }

-- The first `record.update`, at the instant `t`.
abbrev pub mark_prepared : Artifact → ℕ → Plan → Plan
mark_prepared a t p = record p { artifact = some a; expires_at = some (t + 600); error_code = none }

abbrev pub mark_ready : Plan → Plan
mark_ready p = record p { state = PlanState.ready }

-- The `record.update` of the `except`.
abbrev pub mark_blocked : Failure → ℕ → Plan → Plan
mark_blocked e t p = record p {
  state = PlanState.blocked;
  error_code = some (failure_code e "ARTIFACT_PREPARATION_FAILED");
  finished_at = some t;
}

-- The storage phase of a preparation that failed.
abbrev pub failed_phase : Plan → String
failed_phase p = elim p.error_code [
  | none ↦ "ATTENTION"
  | some code ↦
      if str_eq code "RELEASE_STORAGE_INSUFFICIENT" then "INSUFFICIENT_SPACE" else "ATTENTION"
]

module _ (h : Platform) (k : Helpers h) where
  -- The record in memory with the name of its directory, and the controller.
  pub record Draft : Type 0 where
    pub directory : String
    pub plan : Plan
    pub controller : Controller h

  abbrev pub Preparation : Type 0 → Type 0
  Preparation A = Action Draft Failure A

  unfoldable pub update : (Plan → Plan) → Preparation (Unit {0})
  update f d = (ok tt, record d { plan = f d.plan })

  unfoldable pub now : Preparation ℕ
  now d = (ok (k.clock d.controller.world), d)

  unfoldable pub set_world : h.World → Draft → Draft
  set_world w d = record d { controller = record d.controller { world = w } }

  unfoldable pub outside :
      {A : Type 0} → (Plan → h.World → Result Failure A × h.World) → Preparation A
  unfolding set_world
  outside f d = let (r, w) = f d.plan d.controller.world in (r, set_world w d)

  -- `save(path / "operation.json", record)`
  unfoldable pub save_plan : Draft → Draft
  unfolding insert
  save_plan d = record d {
    controller = record d.controller { plans = insert d.directory d.plan d.controller.plans };
  }

  unfoldable pub mark_and_sleep : h.World → Draft → Draft
  unfolding set_world save_plan
  mark_and_sleep w d = set_world (k.sleep w) (save_plan (record d { plan = mark_pending d.plan }))

  -- The `while` of `_prepare`, with at most `fuel` attempts.
  unfoldable pub wait : ℕ → ℕ → Draft → Option (Result Failure Artifact × Draft)
  unfolding mark_and_sleep set_world
  wait zero deadline d = none
  wait (suc fuel) deadline d =
      let (r, w) = h.prepare_artifact d.plan d.controller.world in
      let later = wait fuel deadline (mark_and_sleep w d) in
      elim r [
        | ok a ↦ some (ok a, set_world w d)
        | err e ↦
            if not (is_pending e) || leb deadline (k.clock w)
            then some (err e, set_world w d)
            else later
      ]

  abbrev pub mark_fingerprint : Plan → Plan
  mark_fingerprint p = record p {
    plan_sha256 =
        some
          (k.fingerprint p.plan_id p.target p.source_commit p.artifact p.predecessor p.expires_at);
  }

  -- What follows the loop in the `try`.
  unfoldable pub stage_artifact : Artifact → Preparation (Unit {0})
  unfolding update now outside
  stage_artifact a = do
    t ← now
    update (mark_prepared a t)
    update mark_fingerprint
    outside (k.storage "STAGING")
    outside h.stage
    update mark_ready
    outside (k.storage "READY")

  -- The `except`.
  unfoldable pub give_up : Failure → Preparation (Unit {0})
  unfolding update now outside
  give_up e = do
    t ← now
    update (mark_blocked e t)
    λ d.
        if k.has_storage d.plan d.controller.world
        then outside (k.storage (failed_phase d.plan)) d
        else (ok tt, d)

  abbrev pub or_give_up : Result Failure (Unit {0}) × Draft → Result Failure (Unit {0}) × Draft
  or_give_up (ok _, d) = (ok tt, d)
  or_give_up (err e, d) = give_up e d

  abbrev pub stage_or_fail : Result Failure Artifact × Draft → Result Failure (Unit {0}) × Draft
  stage_or_fail (ok a, d) = stage_artifact a d
  stage_or_fail (err e, d) = (err e, d)

  -- The last `save`, which an exception of the `except` skips.
  abbrev pub file : Result Failure (Unit {0}) × Draft → Result Failure (Unit {0}) × Controller h
  file (ok _, d) = (ok tt, (save_plan d).controller)
  file (err e, d) = (err e, d.controller)

  abbrev pub file_waited :
      Option (Result Failure Artifact × Draft) → Option (Result Failure (Unit {0}) × Controller h)
  file_waited none = none
  file_waited (some x) = some (file (or_give_up (stage_or_fail x)))

  -- `_prepare`
  unfoldable pub prepare_plan :
      ℕ → String → Controller h → Option (Result Failure (Unit {0}) × Controller h)
  unfolding wait stage_artifact give_up save_plan find_plan
  prepare_plan fuel plan_id c = elim (find_plan h plan_id c) [
    | err e ↦ some (err e, c)
    | ok p ↦ file_waited (
        wait fuel (k.clock c.world + 2700)
          (record { directory = plan_id; plan = p; controller = c }))
  ]
