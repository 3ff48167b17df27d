-- ===== src/Release/Staging.antt =====
-- A preparation ends, and the plan that it files is ready or blocked.
use atenea_remote_worker_spe.Prelude.{
  ℕ, ◌+◌, ◌≤◌, String, ◌≡◌, refl, sym, ap, subst, ◌∙◌, inl, inr, ◌⊎◌, Option, some, Result, ok, err,
  Result-cases, arith, Bool-cases, lookup, lookup-insert, eq_refl,
}
use atenea_remote_worker_spe.Release.Plan.{PlanState, Artifact, Plan, Failure}
use atenea_remote_worker_spe.Release.Platform.{Platform}
use atenea_remote_worker_spe.Release.Requests.{Controller, find_plan}
use atenea_remote_worker_spe.Release.Preparing.{
  Helpers, mark_prepared, mark_blocked, failed_phase, Draft, update, now, set_world, outside,
  save_plan, mark_fingerprint, stage_artifact, give_up, or_give_up, stage_or_fail, file,
  prepare_plan,
}
use atenea_remote_worker_spe.Release.Waiting.{
  IsSamePlan, IsDraft, IsPrepared, IsFailure, IsBlocked, failure_code-IsCode, IsAttempt,
  wait-IsWaited,
}

module _ (h : Platform) (k : Helpers h) where
  -- The draft of `p` that is filed at the end.
  abbrev IsFiled : String → Plan → ℕ → Result Failure (Unit {0}) × Draft h k → Type 0
  IsFiled id p since (r, d) =
      (r ≡ ok tt) × IsDraft h k id p d × (IsPrepared h k p since d.plan ⊎ IsBlocked h k p d.plan)

  -- The plan that a preparation of `p`, begun at the instant `since`, leaves in its file.
  pub record IsSettled (id : String) (p : Plan) (since : ℕ)
      (outcome : Option (Result Failure (Unit {0}) × Controller h)) : Type 0 where
    pub controller : Controller h
    pub ended : outcome ≡ some (ok tt, controller)
    pub plan : Plan
    pub same : IsSamePlan h k p plan
    pub filed : lookup id controller.plans ≡ some plan
    pub settled : IsPrepared h k p since plan ⊎ IsBlocked h k p plan

  -- What the `try` leaves after the loop.
  abbrev IsStaged : String → Plan → ℕ → Result Failure (Unit {0}) × Draft h k → Type 0
  IsStaged id p since (ok _, d) = IsDraft h k id p d × IsPrepared h k p since d.plan
  IsStaged id p since (err e, d) = IsDraft h k id p d × IsFailure h k p e d.controller.world

  module _
      (recorded : (phase : String) (p : Plan) (w : h.World) → (k.storage phase p w).0 ≡ ok tt) where
    stage_artifact-IsStaged :
        (id : String) (p : Plan) (since : ℕ) (a : Artifact) (d : Draft h k)
        → IsDraft h k id p d
        → d.plan.finished_at ≡ p.finished_at
        → IsAttempt h k p since (ok a) d.controller.world
        → IsStaged id p since (stage_artifact h k a d)
    unfolding stage_artifact update now outside set_world
    stage_artifact-IsStaged id p since a d same open_ attempt =
        let t = k.clock d.controller.world in
        let draft = mark_fingerprint h k (mark_prepared a t d.plan) in
        let w1 = (k.storage "STAGING" draft d.controller.world).1 in
        let w2 = (h.stage draft w1).1 in
        let final = record draft { state = PlanState.ready } in
        elim (Result-cases (h.stage draft w1).0) [
          | inr (x, e) ↦
              rw (recorded "STAGING" draft d.controller.world, e)
                (same, IsFailure.unstaged draft w1 x same.1 e)
          | inl (u, e) ↦
              rw (recorded "STAGING" draft d.controller.world, e, recorded "READY" final w2)
                (
                  same,
                  record {
                    asked = attempt.asked;
                    asked_for = attempt.asked_for;
                    world = attempt.world;
                    later = attempt.later;
                    artifact = a;
                    built = attempt.answer;
                    state = refl;
                    clean = refl;
                    unfinished = open_;
                    held = refl;
                    expiry = ap (λ w. some (k.clock w + 600)) (sym attempt.reached);
                    fingerprint = refl;
                  },
                )
        ]

    stage_or_fail-IsStaged :
        (id : String) (p : Plan) (since : ℕ) (r : Result Failure Artifact) (d : Draft h k)
        → IsDraft h k id p d
        → d.plan.finished_at ≡ p.finished_at
        → IsAttempt h k p since r d.controller.world
        → IsStaged id p since (stage_or_fail h k (r, d))
    stage_or_fail-IsStaged id p since (ok a) d same open_ attempt =
        stage_artifact-IsStaged id p since a d same open_ attempt
    stage_or_fail-IsStaged id p since (err e) d same open_ attempt = (
      same,
      subst (IsFailure h k p e) attempt.reached
          (IsFailure.unbuilt attempt.asked attempt.world e attempt.asked_for attempt.answer),
    )

    give_up-IsFiled :
        (id : String) (p : Plan) (since : ℕ) (e : Failure) (d : Draft h k)
        → IsDraft h k id p d
        → IsFailure h k p e d.controller.world
        → IsFiled id p since (give_up h k e d)
    unfolding give_up update now outside set_world
    give_up-IsFiled id p since e d same cause =
        let t = k.clock d.controller.world in
        let q = mark_blocked e t d.plan in
        let blocked : IsBlocked h k p q = record {
          error = e;
          world = d.controller.world;
          cause = cause;
          state = refl;
          failed = failure_code-IsCode h k e;
          finished = refl;
        } in
        elim (Bool-cases (k.has_storage q d.controller.world)) [
          | inl kept ↦
              rw (kept, recorded (failed_phase q) q d.controller.world) (refl, same, inr blocked)
          | inr absent ↦ rw absent (refl, same, inr blocked)
        ]

    or_give_up-IsFiled :
        (id : String) (p : Plan) (since : ℕ) (r : Result Failure (Unit {0})) (d : Draft h k)
        → IsStaged id p since (r, d)
        → IsFiled id p since (or_give_up h k (r, d))
    or_give_up-IsFiled id p since (ok u) d (same, prepared) = (refl, same, inl prepared)
    or_give_up-IsFiled id p since (err e) d (same, cause) =
        give_up-IsFiled id p since e d same cause

    file-IsSettled :
        (id : String) (p : Plan) (since : ℕ) (x : Result Failure (Unit {0}) × Draft h k)
        → IsFiled id p since x
        → IsSettled id p since (some (file h k x))
    unfolding save_plan
    file-IsSettled id p since (ok u, d) (done, same, settled) = record {
      controller = (save_plan h k d).controller;
      ended = refl;
      plan = d.plan;
      same = same.1;
      filed = lookup-insert d.directory id d.plan d.controller.plans ∙ rw (same.0, eq_refl id) refl;
      settled = settled;
    }
    file-IsSettled id p since (err e, d) (done, _, _) = cc done

    module _ (steady : (p : Plan) (w : h.World) → k.clock w ≤ k.clock (h.prepare_artifact p w).1)
        (awake : (w : h.World) → k.clock w + 10 ≤ k.clock (k.sleep w)) where
      -- If the clock does not go back while an artifact is asked for, a sleep lasts ten seconds at
      -- least and the storage records can be written, a preparation of a plan that is on file ends
      -- after 271 attempts at most, however the artifacts and the stage answer. It files the plan,
      -- of which it keeps the identity, target, commit, predecessor, time of creation, operation and
      -- results: ready, with the artifact that an attempt since its start has given, an expiry 600
      -- seconds after that attempt and the fingerprint of its keys; or blocked, with the code of an
      -- attempt or a staging that has raised and the instant after it.
      pub prepare_plan-IsSettled :
          (plan_id : String) (c : Controller h) (p : Plan)
          → find_plan h plan_id c ≡ ok p
          → IsSettled plan_id p (k.clock c.world) (prepare_plan h k 271 plan_id c)
      unfolding prepare_plan
      prepare_plan-IsSettled plan_id c p found =
          let draft : Draft h k = record { directory = plan_id; plan = p; controller = c } in
          let start = k.clock c.world in
          let (r, d, waited, same, open_, attempt) =
            wait-IsWaited h k steady awake plan_id p start 270 (start + 2700) draft
              (refl, (refl, refl, refl, refl, refl, refl, refl, refl)) refl (omega arith)
              (omega arith) in
          rw (prepare_plan, found, waited)
            (file-IsSettled plan_id p start (or_give_up h k (stage_or_fail h k (r, d))) (
              or_give_up-IsFiled plan_id p start _ _
                (stage_or_fail-IsStaged plan_id p start r d same open_ attempt)))
