-- ===== src/Release/Waiting.antt =====
-- What a preparation leaves of a plan, and the end of its wait for the artifact.
use atenea_remote_worker_spe.Prelude.{
  ℕ, zero, suc, ◌+◌, ◌*◌, ◌≤◌, String, ◌≡◌, refl, inl, inr, Bool, true, false, not, ◌||◌, Option,
  none, some, Result, ok, err, Result-cases, leb, arith, Bool-cases,
}
use atenea_remote_worker_spe.Release.Plan.{
  PlanState, Artifact, Plan, Failure, rejected, crashed, failure_code,
}
use atenea_remote_worker_spe.Release.Platform.{Platform}
use atenea_remote_worker_spe.Release.Preparing.{
  Helpers, is_pending, Draft, set_world, save_plan, mark_and_sleep, wait,
}

module _ (h : Platform) (k : Helpers h) where
  -- What a preparation leaves as it was.
  abbrev pub IsSamePlan : Plan → Plan → Type 0
  IsSamePlan p q =
      (q.plan_id ≡ p.plan_id)
      × (q.target ≡ p.target)
      × (q.source_commit ≡ p.source_commit)
      × (q.predecessor ≡ p.predecessor)
      × (q.created_at ≡ p.created_at)
      × (q.operation_id ≡ p.operation_id)
      × (q.effective_source_commit ≡ p.effective_source_commit)
      × (q.result_sha256 ≡ p.result_sha256)

  -- A draft of the plan `p` under its directory.
  abbrev pub IsDraft : String → Plan → Draft h k → Type 0
  IsDraft id p d = (d.directory ≡ id) × IsSamePlan p d.plan

  -- Ready: with the artifact that an attempt has given, an expiry 600 seconds after that attempt, and
  -- the fingerprint of its own keys.
  pub record IsPrepared (p : Plan) (since : ℕ) (q : Plan) : Type 0 where
    pub asked : Plan
    pub asked_for : IsSamePlan p asked
    pub world : h.World
    pub later : since ≤ k.clock world
    pub artifact : Artifact
    pub built : (h.prepare_artifact asked world).0 ≡ ok artifact
    pub state : q.state ≡ PlanState.ready
    pub clean : q.error_code ≡ none
    pub unfinished : q.finished_at ≡ p.finished_at
    pub held : q.artifact ≡ some artifact
    pub expiry : q.expires_at ≡ some (k.clock (h.prepare_artifact asked world).1 + 600)
    pub fingerprint :
        q.plan_sha256
        ≡ some
            (k.fingerprint q.plan_id q.target q.source_commit q.artifact q.predecessor q.expires_at)

  -- A call for the plan `p` that has raised, and the world after it.
  pub data IsFailure (p : Plan) : Failure → h.World → Type 0 where
    unbuilt :
        (asked : Plan) (w : h.World) (e : Failure)
        → IsSamePlan p asked
        → (h.prepare_artifact asked w).0 ≡ err e
        → IsFailure p e (h.prepare_artifact asked w).1
    unstaged :
        (asked : Plan) (w : h.World) (e : Failure)
        → IsSamePlan p asked
        → (h.stage asked w).0 ≡ err e
        → IsFailure p e (h.stage asked w).1

  -- The code of a failure.
  abbrev pub IsCode : Failure → Option String → Type 0
  IsCode (rejected code) found = found ≡ some code
  IsCode crashed found = found ≡ some "ARTIFACT_PREPARATION_FAILED"

  -- Blocked: with the code of the call that has raised, and the instant after it.
  pub record IsBlocked (p q : Plan) : Type 0 where
    pub error : Failure
    pub world : h.World
    pub cause : IsFailure p error world
    pub state : q.state ≡ PlanState.blocked
    pub failed : IsCode error q.error_code
    pub finished : q.finished_at ≡ some (k.clock world)

  pub failure_code-IsCode :
      (e : Failure) → IsCode e (some (failure_code e "ARTIFACT_PREPARATION_FAILED"))
  failure_code-IsCode (rejected code) = refl
  failure_code-IsCode crashed = refl

  over_at_last : (b : Bool) → (not b || true) ≡ true
  over_at_last true = refl
  over_at_last false = refl

  -- The last attempt of `wait`: what it has answered, and the world after it.
  pub record IsAttempt (p : Plan) (since : ℕ) (r : Result Failure Artifact) (after : h.World)
      : Type 0 where
    pub asked : Plan
    pub asked_for : IsSamePlan p asked
    pub world : h.World
    pub later : since ≤ k.clock world
    pub answer : (h.prepare_artifact asked world).0 ≡ r
    pub reached : (h.prepare_artifact asked world).1 ≡ after

  -- A draft of the plan `p`, at the end of `wait`.
  abbrev pub IsWaited : String → Plan → ℕ → Option (Result Failure Artifact × Draft h k) → Type 0
  IsWaited id p since found =
      (r : Result Failure Artifact) × (d : Draft h k) × (found ≡ some (r, d))
      × IsDraft id p d
      × (d.plan.finished_at ≡ p.finished_at)
      × IsAttempt p since r d.controller.world

  last :
      (id : String) (p : Plan) (since : ℕ) (d : Draft h k) {r : Result Failure Artifact}
      → IsDraft id p d
      → since ≤ k.clock d.controller.world
      → (h.prepare_artifact d.plan d.controller.world).0 ≡ r
      → IsAttempt p since r (h.prepare_artifact d.plan d.controller.world).1
  last id p since d same later e = record {
    asked = d.plan;
    asked_for = same.1;
    world = d.controller.world;
    later = later;
    answer = e;
    reached = refl;
  }

  module _ (steady : (p : Plan) (w : h.World) → k.clock w ≤ k.clock (h.prepare_artifact p w).1)
      (awake : (w : h.World) → k.clock w + 10 ≤ k.clock (k.sleep w)) where
    pub wait-IsWaited :
        (id : String) (p : Plan) (since fuel deadline : ℕ) (d : Draft h k)
        → IsDraft id p d
        → d.plan.finished_at ≡ p.finished_at
        → since ≤ k.clock d.controller.world
        → deadline ≤ k.clock d.controller.world + 10 * fuel
        → IsWaited id p since (wait h k (suc fuel) deadline d)
    unfolding wait mark_and_sleep set_world save_plan
    wait-IsWaited id p since zero deadline d same open_ later late =
        let w = (h.prepare_artifact d.plan d.controller.world).1 in
        elim (Result-cases (h.prepare_artifact d.plan d.controller.world).0) [
          | inl (a, e) ↦ (
            ok a,
            set_world h k w d,
            rw (wait, e) refl,
            same,
            open_,
            last id p since d same later e,
          )
          | inr (x, e) ↦
              let expired : leb deadline (k.clock w) ≡ true =
                ground (arith, steady d.plan d.controller.world) in
              (
                err x,
                set_world h k w d,
                rw (wait, e, expired, over_at_last (is_pending x)) refl,
                same,
                open_,
                last id p since d same later e,
              )
        ]
    wait-IsWaited id p since (suc fuel) deadline d same open_ later late =
        let w = (h.prepare_artifact d.plan d.controller.world).1 in
        elim (Result-cases (h.prepare_artifact d.plan d.controller.world).0) [
          | inl (a, e) ↦ (
            ok a,
            set_world h k w d,
            rw (wait, e) refl,
            same,
            open_,
            last id p since d same later e,
          )
          | inr (x, e) ↦ elim (Bool-cases (not (is_pending x) || leb deadline (k.clock w))) [
            | inl over ↦ (
              err x,
              set_world h k w d,
              rw (wait, e, over) refl,
              same,
              open_,
              last id p since d same later e,
            )
            | inr again ↦
                let (r, d', found, kept, open', attempt) =
                  wait-IsWaited id p since fuel deadline (mark_and_sleep h k w d) same open_
                    (omega (arith, later, steady d.plan d.controller.world, awake w))
                    (omega (arith, late, steady d.plan d.controller.world, awake w)) in
                (r, d', rw (wait, e, again) found, kept, open', attempt)
          ]
        ]
