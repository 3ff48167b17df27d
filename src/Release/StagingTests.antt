-- ===== src/Release/StagingTests.antt =====
-- A preparation that waits once, on a machine whose state is its clock.
use atenea_remote_worker_spe.Prelude.{
  ℕ, ◌+◌, String, ◌≡◌, refl, sym, ap, ◌∙◌, inl, inr, Option, false, Bool-cases, str_eq, insert,
  none, some, [], ◌∷◌, ok, err, leb, lookup, arith, if◌then◌else◌,
}
use atenea_remote_worker_spe.Prelude.Pattern.{times, literal}
use atenea_remote_worker_spe.Release.Plan.{
  TargetName, PlanState, Observation, Artifact, Plan, rejected, crashed,
}
use atenea_remote_worker_spe.Release.Platform.{Platform}
use atenea_remote_worker_spe.Release.Requests.{is_identity, Controller, find_plan}
use atenea_remote_worker_spe.Release.Preparing.{Helpers, prepare_plan}
use atenea_remote_worker_spe.Release.Recovery.{is_unfinished, interrupt, recover_one, recover}
use atenea_remote_worker_spe.Release.Startup.{QuietAt, AllRunnable, recover-QuietAt}
use atenea_remote_worker_spe.Release.Staging.{IsSettled, prepare_plan-IsSettled}

abbrev plan_id : String
plan_id = "00000000-0000-0000-0000-000000000003"

abbrev old_version : Observation
old_version = record { source_commit = "a0"; details = "1.0" }

abbrev built : Artifact
built = record { payload_sha256 = "p1"; version_code = none; version_name = none; details = "" }

-- The build is ready at the second 15.
abbrev slow_build : Platform
slow_build = record {
  World = ℕ;
  inspect = λ t w. (ok old_version, w);
  enter = λ t w. (ok tt, w);
  payload_digest = λ p w. (ok "p1", w);
  stage = λ p w. (ok tt, w);
  apply = λ p w. (ok tt, w);
  verify = λ p w. (err crashed, w);
  rollback = λ p w. (err crashed, w);
  commit = λ t r w. (ok tt, w);
  prepare_artifact =
      λ p w. (if leb 15 w then ok built else err (rejected "RELEASE_BUILD_PENDING"), w);
}

abbrev helpers : Helpers slow_build
helpers = record {
  clock = λ w. w;
  sleep = λ w. w + 10;
  fingerprint = λ id t commit a o e. commit;
  storage = λ phase p w. (ok tt, w);
  has_storage = λ p w. false;
}

abbrev new_plan : Plan
new_plan = record {
  plan_id = plan_id;
  target = TargetName.app_prod;
  source_commit = "b1";
  predecessor = old_version;
  state = PlanState.preparing;
  created_at = 3;
  error_code = none;
  operation_id = none;
  finished_at = none;
  artifact = none;
  plan_sha256 = none;
  expires_at = none;
  effective_source_commit = none;
  result_sha256 = none;
}

abbrev controller : Controller slow_build
controller = record { plans = (plan_id, new_plan) ∷ []; world = 8; started = []; drafted = [] }

is_found : find_plan slow_build plan_id controller ≡ ok new_plan
unfolding find_plan is_identity times literal lookup
is_found = refl

prepare_plan-IsSettled_example :
    IsSettled slow_build helpers plan_id new_plan 8
      (prepare_plan slow_build helpers 271 plan_id controller)
prepare_plan-IsSettled_example =
    prepare_plan-IsSettled slow_build helpers (λ phase p w. refl) (λ p w. omega arith)
      (λ w. omega arith) plan_id controller new_plan is_found

no_operation : (p : Plan) → new_plan ≡ p → is_unfinished p ≡ false
no_operation p e = sym (ap is_unfinished e)

all_runnable : AllRunnable controller.plans
unfolding lookup
all_runnable j p found u = elim (Bool-cases (str_eq plan_id j)) [
  | inl same ↦
      let equal : ◌≡◌ {A = Option Plan} (some new_plan) (some p) = rw same at found in
      let known : new_plan ≡ p = cc equal in cc (sym (no_operation p known) ∙ u)
  | inr other ↦ cc (rw other at found)
]

recovers : (recover slow_build helpers 9 (plan_id ∷ []) controller).0 ≡ ok tt
unfolding recover recover_one interrupt lookup insert
recovers = refl

recover-QuietAt_example :
    QuietAt (recover slow_build helpers 9 (plan_id ∷ []) controller).1.plans plan_id
recover-QuietAt_example =
    recover-QuietAt slow_build helpers 9 (plan_id ∷ []) controller all_runnable recovers plan_id
      (inl refl)
