-- ===== src/Release/Acceptance.antt =====
-- What `accept` has checked when it starts an execution, and what else it may do.
use atenea_remote_worker_spe.Prelude.{
  ℕ, ◌≤◌, ◌<◌, String, ◌≡◌, refl, ◌⊎◌, inl, inr, true, false, Option, none, some, [], ◌∷◌, ◌++◌,
  any, Result, ok, err, str_eq, str_eq→eq, ap, subst, ◌∙◌, if◌then◌else◌, lookup, insert, arith,
  Result-cases, Bool-cases, Option-cases,
}
use atenea_remote_worker_spe.Release.Plan.{
  PlanState, Observation, same_observation, Plan, Failure, rejected, crashed, failure_code,
}
use atenea_remote_worker_spe.Release.Platform.{Platform}
use atenea_remote_worker_spe.Release.Requests.{
  is_identity, AcceptRequest, is_ready, is_in_progress, is_expired, is_fingerprint, Controller,
  find_plan, all_plans, preflight, settle, accept,
}

module _ (h : Platform) (q : AcceptRequest) (now : ℕ) (c : Controller h) where
  -- The request was answered before: the plan is its own.
  pub record IsRetry (p' : Plan) (c' : Controller h) : Type 0 where
    pub stored : lookup q.plan_id c.plans ≡ some p'
    pub own : p'.operation_id ≡ some q.operation_id
    pub same : c' ≡ c

  -- A plan that `accept` decides on.
  pub record IsOpen (p : Plan) : Type 0 where
    pub stored : lookup q.plan_id c.plans ≡ some p
    pub fingerprint : p.plan_sha256 ≡ some q.plan_sha256
    pub fresh : p.operation_id ≡ none
    pub ready : p.state ≡ PlanState.ready

  -- The tests of `preflight`, and the observation of the target.
  pub record IsClear (p : Plan) : Type 0 where
    pub expiry : ℕ
    pub dated : p.expires_at ≡ some expiry
    pub in_time : now < expiry
    pub alone : any is_in_progress (all_plans h c) ≡ false
    pub observed : Observation
    pub answer : (h.inspect p.target c.world).0 ≡ ok observed
    pub unmoved : same_observation observed p.predecessor ≡ true

  -- Why a plan is blocked, with the code that it gets: a test that fails, or an observation of the
  -- target that raises.
  pub data IsReason (p : Plan) : String → Type 0 where
    late :
        (p.expires_at ≡ none) ⊎ ((t : ℕ) × (p.expires_at ≡ some t) × (t ≤ now))
        → IsReason p "PLAN_EXPIRED"
    busy : any is_in_progress (all_plans h c) ≡ true → IsReason p "RELEASE_IN_PROGRESS"
    moved :
        (o : Observation)
        → (h.inspect p.target c.world).0 ≡ ok o
        → same_observation o p.predecessor ≡ false
        → IsReason p "TARGET_STATE_MOVED"
    unseen :
        (code : String) → (h.inspect p.target c.world).0 ≡ err (rejected code) → IsReason p code
    unknown : (h.inspect p.target c.world).0 ≡ err crashed → IsReason p "PREFLIGHT_FAILED"

  pub record IsLaunch (p' : Plan) (c' : Controller h) : Type 0 where
    pub plan : Plan
    pub opened : IsOpen plan
    pub clear : IsClear plan
    pub answer : p' ≡ record plan { state = PlanState.accepted; operation_id = some q.operation_id }
    pub plans : c'.plans ≡ insert q.plan_id p' c.plans
    pub started : c'.started ≡ c.started ++ (q.plan_id ∷ [])

  pub record IsBlock (p' : Plan) (c' : Controller h) : Type 0 where
    pub plan : Plan
    pub opened : IsOpen plan
    pub code : String
    pub reason : IsReason plan code
    pub answer : p' ≡ record plan {
      state = PlanState.blocked;
      operation_id = some q.operation_id;
      error_code = some code;
      finished_at = some now;
    }
    pub plans : c'.plans ≡ insert q.plan_id p' c.plans
    pub started : c'.started ≡ c.started

  abbrev pub AcceptEffect : Result Failure Plan × Controller h → Type 0
  AcceptEffect (ok p', c') = IsRetry p' c' ⊎ (IsLaunch p' c' ⊎ IsBlock p' c')
  AcceptEffect (err e, c') = c' ≡ c

  record IsStopped (p : Plan) (x : Result Failure (Unit {0}) × Controller h) : Type 0 where
    pub error : Failure
    pub reason : IsReason p (failure_code error "PREFLIGHT_FAILED")
    pub result : x.0 ≡ err error
    pub plans : x.1.plans ≡ c.plans
    pub started : x.1.started ≡ c.started

  record IsPassed (p : Plan) (x : Result Failure (Unit {0}) × Controller h) : Type 0 where
    pub clear : IsClear p
    pub result : x.0 ≡ ok tt
    pub plans : x.1.plans ≡ c.plans
    pub started : x.1.started ≡ c.started

  expired_at :
      (o : Option ℕ) → is_expired o now ≡ true → (o ≡ none) ⊎ ((t : ℕ) × (o ≡ some t) × (t ≤ now))
  expired_at none e = inl refl
  expired_at (some t) e = inr (t, refl, ground arith)

  valid_until : (o : Option ℕ) → is_expired o now ≡ false → (t : ℕ) × (o ≡ some t) × (now < t)
  valid_until none e = cc e
  valid_until (some t) e = (t, refl, ground arith)

  unobserved :
      (p : Plan) (e : Failure)
      → (h.inspect p.target c.world).0 ≡ err e
      → IsReason p (failure_code e "PREFLIGHT_FAILED")
  unobserved p (rejected code) r = unseen code r
  unobserved p crashed r = unknown r

  same_error : (a b : Failure) → ◌≡◌ {A = Result Failure (Unit {0})} (err b) (err a) → a ≡ b
  same_error a b e = cc e

  preflight-cases :
      (p : Plan) → IsPassed p (preflight h p now c) ⊎ IsStopped p (preflight h p now c)
  unfolding preflight
  preflight-cases p = elim (Bool-cases (is_expired p.expires_at now)) [
    | inl late_ ↦ inr (
        rw late_ (record {
          error = rejected "PLAN_EXPIRED";
          reason = late (expired_at p.expires_at late_);
          result = refl;
          plans = refl;
          started = refl;
        }))
    | inr early ↦ elim (Bool-cases (any is_in_progress (all_plans h c))) [
      | inl taken ↦ inr (
          rw (early, taken)
            (record {
              error = rejected "RELEASE_IN_PROGRESS";
              reason = busy taken;
              result = refl;
              plans = refl;
              started = refl;
            }))
      | inr alone ↦ elim (Result-cases (h.inspect p.target c.world).0) [
        | inr (e, r) ↦ inr (
            rw (early, alone, r)
              (record {
                error = e;
                reason = unobserved p e r;
                result = refl;
                plans = refl;
                started = refl;
              }))
        | inl (o, r) ↦ elim (Bool-cases (same_observation o p.predecessor)) [
          | inl same ↦ inl (record {
            clear = record {
              expiry = (valid_until p.expires_at early).0;
              dated = (valid_until p.expires_at early).1;
              in_time = (valid_until p.expires_at early).2;
              alone = alone;
              observed = o;
              answer = r;
              unmoved = same;
            };
            result = rw (early, alone, r, same) refl;
            plans = rw (early, alone, r) refl;
            started = rw (early, alone, r) refl;
          })
          | inr other ↦ inr (record {
            error = rejected "TARGET_STATE_MOVED";
            reason = moved o r other;
            result = rw (early, alone, r, other) refl;
            plans = rw (early, alone, r) refl;
            started = rw (early, alone, r) refl;
          })
        ]
      ]
    ]
  ]

  passed-AcceptEffect :
      (p : Plan) (x : Result Failure (Unit {0}) × Controller h)
      → IsOpen p
      → IsPassed p x ⊎ IsStopped p x
      → AcceptEffect (settle h q now p x)
  passed-AcceptEffect p (ok _, c') o (inl s) = inr (
      inl (record {
        plan = p;
        opened = o;
        clear = s.clear;
        answer = refl;
        plans = rw s.plans refl;
        started = rw s.started refl;
      }))
  passed-AcceptEffect p (err e, c') o (inl s) = cc (s.result)
  passed-AcceptEffect p (ok _, c') o (inr s) = cc (s.result)
  passed-AcceptEffect p (err e, c') o (inr s) = inr (
      inr (record {
        plan = p;
        opened = o;
        code = failure_code e "PREFLIGHT_FAILED";
        reason =
            subst (λ y. IsReason p (failure_code y "PREFLIGHT_FAILED"))
              (same_error s.error e s.result) s.reason;
        answer = refl;
        plans = rw s.plans refl;
        started = rw s.started refl;
      }))

  is_ready-eq : (state : PlanState) → is_ready state ≡ true → state ≡ PlanState.ready
  is_ready-eq PlanState.ready e = refl
  is_ready-eq PlanState.preparing e = cc
  is_ready-eq PlanState.accepted e = cc
  is_ready-eq PlanState.applying e = cc
  is_ready-eq PlanState.rolling_back e = cc
  is_ready-eq PlanState.succeeded e = cc
  is_ready-eq PlanState.rolled_back e = cc
  is_ready-eq PlanState.failed e = cc
  is_ready-eq PlanState.blocked e = cc
  is_ready-eq PlanState.rollback_failed e = cc

  fingerprint-eq : (f : Option String) (s : String) → is_fingerprint f s ≡ true → f ≡ some s
  fingerprint-eq none s e = cc
  fingerprint-eq (some t) s e = ap some (str_eq→eq t s (ground arith))

  find_plan-cases :
      ((p : Plan) × (lookup q.plan_id c.plans ≡ some p) × (find_plan h q.plan_id c ≡ ok p))
      ⊎ ((e : Failure) × (find_plan h q.plan_id c ≡ err e))
  unfolding find_plan
  find_plan-cases = elim (Bool-cases (is_identity q.plan_id)) [
    | inr bad ↦ inr (rejected "INVALID_IDENTITY", rw bad refl)
    | inl good ↦ elim (Option-cases (lookup q.plan_id c.plans)) [
      | inl missing ↦ inr (rejected "PLAN_NOT_FOUND", rw (good, missing) refl)
      | inr (p, e) ↦ inl (p, e, rw (good, e) refl)
    ]
  ]

  own-AcceptEffect :
      (p : Plan) (o : String)
      → lookup q.plan_id c.plans ≡ some p
      → p.operation_id ≡ some o
      → AcceptEffect
          (if str_eq o q.operation_id then ok p else err (rejected "IDEMPOTENCY_CONFLICT"), c)
  own-AcceptEffect p o stored own = elim (Bool-cases (str_eq o q.operation_id)) [
    | inl same ↦ rw same (
        inl (record {
          stored = stored;
          own = own ∙ ap some (str_eq→eq o q.operation_id same);
          same = refl;
        }))
    | inr other ↦ rw other refl
  ]

  found-AcceptEffect :
      (p : Plan)
      → is_identity q.operation_id ≡ true
      → lookup q.plan_id c.plans ≡ some p
      → find_plan h q.plan_id c ≡ ok p
      → AcceptEffect (accept h q now c)
  unfolding accept
  found-AcceptEffect p good stored found =
      elim (Bool-cases (is_fingerprint p.plan_sha256 q.plan_sha256)) [
        | inr wrong ↦ rw (good, found, wrong) refl
        | inl right ↦ elim (Option-cases p.operation_id) [
          | inr (o, own) ↦ rw (good, found, right, own) (own-AcceptEffect p o stored own)
          | inl fresh ↦ elim (Bool-cases (is_ready p.state)) [
            | inr unready ↦ rw (good, found, right, fresh, unready) refl
            | inl ready ↦
                rw (good, found, right, fresh, ready)
                  (passed-AcceptEffect p (preflight h p now c)
                    (record {
                      stored = stored;
                      fingerprint = fingerprint-eq p.plan_sha256 q.plan_sha256 right;
                      fresh = fresh;
                      ready = is_ready-eq p.state ready;
                    })
                    (preflight-cases p))
          ]
        ]
      ]

  -- A call of `accept` that raises changes nothing. One that answers has either found the plan with
  -- the operation of the request, and changes nothing; or it has found a ready plan without an
  -- operation under the fingerprint of the request, and stores the operation in it. When the plan
  -- has not expired, no plan is in progress and the target is as it was when it was planned, it
  -- leaves the plan accepted and starts its execution; else it leaves it blocked, with the code of
  -- the test that failed and the time of the call, and starts no execution.
  pub accept-AcceptEffect : AcceptEffect (accept h q now c)
  unfolding accept
  accept-AcceptEffect = elim (Bool-cases (is_identity q.operation_id)) [
    | inr bad ↦ rw bad refl
    | inl good ↦ elim find_plan-cases [
      | inr (e, found) ↦ rw (good, found) refl
      | inl (p, stored, found) ↦ found-AcceptEffect p good stored found
    ]
  ]
