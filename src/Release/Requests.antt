-- ===== src/Release/Requests.antt =====
-- `accept` of the controller, on the plans by identity, the outside world, and the plans whose
-- execution was started in a thread.
use atenea_remote_worker_spe.Prelude.{
  ℕ, String, Bool, true, false, not, ◌&&◌, ◌||◌, Option, none, some, List, [], ◌∷◌, ◌++◌, values,
  any, Result, ok, err, Action, refuse_if, leb, str_eq, Dict, lookup, insert, if◌then◌else◌,
}
use atenea_remote_worker_spe.Prelude.Pattern.{codes, hex, times, literal, then_read, at_end}
use atenea_remote_worker_spe.Release.Plan.{
  PlanState, is_terminal, same_observation, Plan, Failure, rejected, failure_code,
}
use atenea_remote_worker_spe.Release.Platform.{Platform}

-- `str(uuid.UUID(value)) == value`: the canonical form of a UUID.
unfoldable pub is_identity : String → Bool
unfolding times literal
is_identity s = at_end (
    then_read (times 8 hex (codes s)) λ cs. then_read (literal (codes "-") cs) λ cs.
      then_read (times 4 hex cs) λ cs. then_read (literal (codes "-") cs) λ cs.
        then_read (times 4 hex cs) λ cs.
          then_read (literal (codes "-") cs) λ cs.
            then_read (times 4 hex cs) λ cs. then_read (literal (codes "-") cs) (times 12 hex))

-- DIGEST
unfoldable pub is_digest : String → Bool
unfolding times
is_digest s = at_end (times 64 hex (codes s))

-- The request of the operation EXECUTE, with texts for values.
pub record AcceptRequest : Type 0 where
  pub plan_id : String
  pub plan_sha256 : String
  pub operation_id : String

abbrev pub is_ready : PlanState → Bool
is_ready PlanState.ready = true
is_ready _ = false

abbrev pub is_rollback_failed : PlanState → Bool
is_rollback_failed PlanState.rollback_failed = true
is_rollback_failed _ = false

-- A key that holds a text that is not empty.
abbrev pub is_given : Option String → Bool
is_given none = false
is_given (some s) = not (str_eq s "")

-- `other["state"] == "ROLLBACK_FAILED" or (other["operationId"] and … not in TERMINAL)`
abbrev pub is_in_progress : Plan → Bool
is_in_progress p =
    is_rollback_failed p.state || (is_given p.operation_id && not (is_terminal p.state))

-- `record.get("expiresAt", 0) <= int(time.time())`
abbrev pub is_expired : Option ℕ → ℕ → Bool
is_expired none now = true
is_expired (some t) now = leb t now

abbrev pub is_fingerprint : Option String → String → Bool
is_fingerprint none s = false
is_fingerprint (some t) s = is_digest s && str_eq t s

-- `record.update(state="ACCEPTED", operationId=request["operationId"])`
abbrev pub accepted_by : String → Plan → Plan
accepted_by operation_id p = record p {
  state = PlanState.accepted;
  operation_id = some operation_id;
}

-- The rejection without an effect.
abbrev pub blocked_by : String → Failure → ℕ → Plan → Plan
blocked_by operation_id e now p = record p {
  state = PlanState.blocked;
  operation_id = some operation_id;
  error_code = some (failure_code e "PREFLIGHT_FAILED");
  finished_at = some now;
}

module _ (h : Platform) where
  pub record Controller : Type 0 where
    pub plans : Dict Plan
    pub world : h.World
    pub started : List String
    -- The plans whose preparation was started in a thread.
    pub drafted : List String

  abbrev pub Request : Type 0 → Type 0
  Request A = Action Controller Failure A

  -- `self.read(plan_id)`
  unfoldable pub find_plan : String → Controller → Result Failure Plan
  find_plan plan_id c =
      if not (is_identity plan_id)
      then err (rejected "INVALID_IDENTITY")
      else elim (lookup plan_id c.plans) [ none ↦ err (rejected "PLAN_NOT_FOUND") | some p ↦ ok p ]

  abbrev pub all_plans : Controller → List Plan
  all_plans c = values c.plans

  -- The tests that an accepted request may still fail.
  unfoldable pub preflight : Plan → ℕ → Request (Unit {0})
  preflight p now c =
      if is_expired p.expires_at now
      then (err (rejected "PLAN_EXPIRED"), c)
      else if any is_in_progress (all_plans c)
      then (err (rejected "RELEASE_IN_PROGRESS"), c)
      else let (r, w) = h.inspect p.target c.world in
        elim r [
          | err e ↦ (err e, record c { world = w })
          | ok o ↦ (
            refuse_if (not (same_observation o p.predecessor)) (rejected "TARGET_STATE_MOVED"),
            record c { world = w },
          )
        ]

  abbrev pub settle :
      AcceptRequest
      → ℕ
      → Plan
      → Result Failure (Unit {0}) × Controller
      → Result Failure Plan × Controller
  settle q now p (ok _, c) =
      let p' = accepted_by q.operation_id p in
      (
        ok p',
        record c { plans = insert q.plan_id p' c.plans; started = c.started ++ (q.plan_id ∷ []) },
      )
  settle q now p (err e, c) =
      let p' = blocked_by q.operation_id e now p in
      (ok p', record c { plans = insert q.plan_id p' c.plans })

  -- `accept`; the answer is the plan, of which `public` shows a part.
  unfoldable pub accept : AcceptRequest → ℕ → Request Plan
  accept q now c =
      if not (is_identity q.operation_id)
      then (err (rejected "INVALID_IDENTITY"), c)
      else elim (find_plan q.plan_id c) [
        | err e ↦ (err e, c)
        | ok p ↦
            if not (is_fingerprint p.plan_sha256 q.plan_sha256)
            then (err (rejected "PLAN_FINGERPRINT_MISMATCH"), c)
            else elim p.operation_id [
              | some o ↦ (
                if str_eq o q.operation_id then ok p else err (rejected "IDEMPOTENCY_CONFLICT"),
                c,
              )
              | none ↦
                  if not (is_ready p.state)
                  then (err (rejected "PLAN_NOT_READY"), c)
                  else settle q now p (preflight p now c)
            ]
      ]
