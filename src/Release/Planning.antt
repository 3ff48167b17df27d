-- ===== src/Release/Planning.antt =====
-- `plan` of the controller: a new plan, or the one that was made before.
use atenea_remote_worker_spe.Prelude.{
  ℕ, String, ◌≡◌, refl, ◌⊎◌, inl, inr, Bool, true, false, not, ◌||◌, none, some, [], ◌∷◌, ◌++◌, any,
  Result, ok, err, str_eq, str_eq→eq, lookup, insert, if◌then◌else◌, Bool-cases, Option-cases,
  Result-cases,
}
use atenea_remote_worker_spe.Prelude.Pattern.{codes, hex, times, at_end}
use atenea_remote_worker_spe.Release.Plan.{
  TargetName, PlanState, Observation, Plan, Failure, rejected,
}
use atenea_remote_worker_spe.Release.Platform.{Platform}
use atenea_remote_worker_spe.Release.Requests.{
  is_identity, is_in_progress, Controller, Request, all_plans,
}

-- HEX
unfoldable pub is_commit : String → Bool
unfolding times
is_commit s = at_end (times 40 hex (codes s))

pub record PlanRequest : Type 0 where
  pub plan_id : String
  pub target : TargetName
  pub source_commit : String

abbrev pub is_preparing : PlanState → Bool
is_preparing PlanState.preparing = true
is_preparing _ = false

-- The test that a new plan has to pass against each other plan.
abbrev pub is_in_the_way : Plan → Bool
is_in_the_way p = is_preparing p.state || is_in_progress p

abbrev pub same_target : TargetName → TargetName → Bool
same_target TargetName.app_prod TargetName.app_prod = true
same_target TargetName.android_stable TargetName.android_stable = true
same_target TargetName.ax42_platform TargetName.ax42_platform = true
same_target _ _ = false

-- The record of a new plan.
unfoldable pub drafted_plan : PlanRequest → Observation → ℕ → Plan
drafted_plan q o now = record {
  plan_id = q.plan_id;
  target = q.target;
  source_commit = q.source_commit;
  predecessor = o;
  state = PlanState.preparing;
  created_at = now;
  error_code = none;
  operation_id = none;
  finished_at = none;
  artifact = none;
  plan_sha256 = none;
  expires_at = none;
  effective_source_commit = none;
  result_sha256 = none;
}

module _ (h : Platform) (offered : TargetName → Bool) where
  -- The answer to a plan that exists.
  abbrev pub reread : PlanRequest → Plan → Result Failure Plan
  reread q p =
      if not (same_target p.target q.target) || not (str_eq p.source_commit q.source_commit)
      then err (rejected "IDEMPOTENCY_CONFLICT")
      else ok p

  abbrev pub file_draft : PlanRequest → Observation → ℕ → Request h Plan
  file_draft q o now c =
      let p = drafted_plan q o now in
      (
        ok p,
        record c { plans = insert q.plan_id p c.plans; drafted = c.drafted ++ (q.plan_id ∷ []) },
      )

  unfoldable pub draft : PlanRequest → ℕ → Request h Plan
  draft q now c =
      if any is_in_the_way (all_plans h c)
      then (err (rejected "RELEASE_IN_PROGRESS"), c)
      else let (r, w) = h.inspect q.target c.world in
        elim r [
          | err e ↦ (err e, record c { world = w })
          | ok o ↦
              if str_eq o.source_commit q.source_commit
              then (err (rejected "ALREADY_CURRENT"), record c { world = w })
              else file_draft q o now (record c { world = w })
        ]

  -- `plan`, where `offered` says which targets the controller has.
  unfoldable pub make_plan : PlanRequest → ℕ → Request h Plan
  make_plan q now c =
      if not (is_identity q.plan_id)
      then (err (rejected "INVALID_IDENTITY"), c)
      else if not (offered q.target) || not (is_commit q.source_commit)
      then (err (rejected "TARGET_REJECTED"), c)
      else elim (lookup q.plan_id c.plans) [ some p ↦ (reread q p, c) | none ↦ draft q now c ]

  module _ (q : PlanRequest) (now : ℕ) (c : Controller h) where
    -- A plan that was made before, for the same commit.
    pub record IsKnown (p' : Plan) (c' : Controller h) : Type 0 where
      pub stored : lookup q.plan_id c.plans ≡ some p'
      pub same_goal : same_target p'.target q.target ≡ true
      pub same_commit : p'.source_commit ≡ q.source_commit
      pub same : c' ≡ c

    pub record IsDraft (p' : Plan) (c' : Controller h) : Type 0 where
      pub free : lookup q.plan_id c.plans ≡ none
      pub allowed : offered q.target ≡ true
      pub alone : any is_in_the_way (all_plans h c) ≡ false
      pub observed : Observation
      pub answer : (h.inspect q.target c.world).0 ≡ ok observed
      pub behind : str_eq observed.source_commit q.source_commit ≡ false
      pub plan : p' ≡ record {
        plan_id = q.plan_id;
        target = q.target;
        source_commit = q.source_commit;
        predecessor = observed;
        state = PlanState.preparing;
        created_at = now;
        error_code = none;
        operation_id = none;
        finished_at = none;
        artifact = none;
        plan_sha256 = none;
        expires_at = none;
        effective_source_commit = none;
        result_sha256 = none;
      }
      pub plans : c'.plans ≡ insert q.plan_id p' c.plans
      pub started : c'.started ≡ c.started
      pub drafts : c'.drafted ≡ c.drafted ++ (q.plan_id ∷ [])

    abbrev pub PlanEffect : Result Failure Plan × Controller h → Type 0
    PlanEffect (ok p', c') = IsKnown p' c' ⊎ IsDraft p' c'
    PlanEffect (err e, c') =
        (c'.plans ≡ c.plans) × (c'.started ≡ c.started) × (c'.drafted ≡ c.drafted)

    draft-PlanEffect :
        lookup q.plan_id c.plans ≡ none → offered q.target ≡ true → PlanEffect (draft q now c)
    unfolding draft drafted_plan
    draft-PlanEffect free allowed = elim (Bool-cases (any is_in_the_way (all_plans h c))) [
      | inl busy ↦ rw busy (refl, refl, refl)
      | inr alone ↦ elim (Result-cases (h.inspect q.target c.world).0) [
        | inr (e, r) ↦ rw (alone, r) (refl, refl, refl)
        | inl (o, r) ↦ elim (Bool-cases (str_eq o.source_commit q.source_commit)) [
          | inl current ↦ rw (alone, r, current) (refl, refl, refl)
          | inr behind ↦
              rw (alone, r, behind)
                (inr (record {
                  free = free;
                  allowed = allowed;
                  alone = alone;
                  observed = o;
                  answer = r;
                  behind = behind;
                  plan = refl;
                  plans = refl;
                  started = refl;
                  drafts = refl;
                }))
        ]
      ]
    ]

    known-PlanEffect : (p : Plan) → lookup q.plan_id c.plans ≡ some p → PlanEffect (reread q p, c)
    known-PlanEffect p stored = elim (Bool-cases (same_target p.target q.target)) [
      | inr other ↦ rw other (refl, refl, refl)
      | inl same ↦ elim (Bool-cases (str_eq p.source_commit q.source_commit)) [
        | inr other ↦ rw (same, other) (refl, refl, refl)
        | inl commit ↦
            rw (same, commit)
              (inl (record {
                stored = stored;
                same_goal = same;
                same_commit = str_eq→eq p.source_commit q.source_commit commit;
                same = refl;
              }))
      ]
    ]

    -- A call of `plan` that raises leaves every plan as it is and starts nothing. One that answers
    -- has found the plan that was made under this identity for the same target and commit, and
    -- changes nothing; or it has filed a new plan of the request, in preparation and with nothing
    -- but the observation of the target and the time of the call, for a target that the controller
    -- has, when no other plan is in preparation or in progress and the target is at another commit.
    pub plan-PlanEffect : PlanEffect (make_plan q now c)
    unfolding make_plan
    plan-PlanEffect = elim (Bool-cases (is_identity q.plan_id)) [
      | inr bad ↦ rw bad (refl, refl, refl)
      | inl good ↦ elim (Bool-cases (offered q.target)) [
        | inr absent ↦ rw (good, absent) (refl, refl, refl)
        | inl allowed ↦ elim (Bool-cases (is_commit q.source_commit)) [
          | inr wrong ↦ rw (good, allowed, wrong) (refl, refl, refl)
          | inl commit ↦ elim (Option-cases (lookup q.plan_id c.plans)) [
            | inl free ↦ rw (good, allowed, commit, free) (draft-PlanEffect free allowed)
            | inr (p, stored) ↦ rw (good, allowed, commit, stored) (known-PlanEffect p stored)
          ]
        ]
      ]
    ]
