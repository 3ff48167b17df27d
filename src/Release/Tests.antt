-- ===== src/Release/Tests.antt =====
-- A small target to run the controller on, and the theorems applied to it.
use atenea_remote_worker_spe.Prelude.{
  arith, ◌≡◌, refl, none, some, List, [], ◌∷◌, ℕ, ◌+◌, ◌≤◌, ok, err, ◌==◌, if◌then◌else◌,
}
use atenea_remote_worker_spe.Release.Plan.{
  TargetName, PlanState, Observation, Receipt, Plan, crashed,
}
use atenea_remote_worker_spe.Release.Platform.{Platform}
use atenea_remote_worker_spe.Release.Execution.{
  Event, saved, applied, verified, committed, receipt_saved, current, outside, note, save, update,
  catch, require, roll_back, apply_once, conclude, go_forward, attempt, reverse_effects,
  recover_from, execute_guarded, abandon, guarded, perform, execute,
}
use atenea_remote_worker_spe.Release.Disk.{file_after}
use atenea_remote_worker_spe.Release.Completion.{life, IsComplete, execute-IsComplete}
use atenea_remote_worker_spe.Release.Restarts.{Lives, over, next, Lives-apply_once}
use atenea_remote_worker_spe.Release.Protocol.{forward}
use atenea_remote_worker_spe.Release.Evidence.{closed, HasReceipt, execute-HasReceipt}
use atenea_remote_worker_spe.Prelude.{true, String, lookup, insert, values, any}
use atenea_remote_worker_spe.Prelude.Pattern.{times, literal}
use atenea_remote_worker_spe.Release.Requests.{
  AcceptRequest, Controller, accept, is_identity, is_digest, find_plan, preflight,
}
use atenea_remote_worker_spe.Release.Acceptance.{AcceptEffect, accept-AcceptEffect}
use atenea_remote_worker_spe.Release.Exclusion.{accept_excluded}
use atenea_remote_worker_spe.Release.Planning.{
  PlanRequest, is_commit, draft, make_plan, PlanEffect, plan-PlanEffect,
}
use atenea_remote_worker_spe.Release.Steps.{
  count_busy, request_plan, request_accept, begin, then_next, Course-count,
}
use atenea_remote_worker_spe.Release.Budget.{count_applied}

abbrev old_version : Observation
old_version = record { source_commit = "a0"; details = "1.0" }

abbrev new_receipt : Receipt
new_receipt = record { source_commit = "b1"; manifest_sha256 = some "m1"; details = "1.1" }

-- The world counts the versions that were applied.
abbrev small_target : Platform
small_target = record {
  World = ℕ;
  inspect = λ t w. (ok old_version, w);
  enter = λ t w. (ok tt, w);
  payload_digest = λ p w. (ok "d1", w);
  stage = λ p w. (ok tt, w);
  apply = λ p w. (ok tt, w + 1);
  verify = λ p w. (if w == 1 then ok new_receipt else err crashed, w);
  rollback =
      λ p w. (ok (record { source_commit = "a0"; manifest_sha256 = none; details = "1.0" }), 0);
  commit = λ t r w. (ok tt, w);
  prepare_artifact = λ p w. (err crashed, w);
}

abbrev accepted_plan : Plan
accepted_plan = record {
  plan_id = "p";
  target = TargetName.app_prod;
  source_commit = "b1";
  predecessor = old_version;
  state = PlanState.accepted;
  created_at = 1;
  error_code = none;
  operation_id = some "o";
  finished_at = none;
  artifact =
      some
        (record { payload_sha256 = "d1"; version_code = none; version_name = none; details = "" });
  plan_sha256 = some "s";
  expires_at = some 600;
  effective_source_commit = none;
  result_sha256 = none;
}

abbrev applying_plan : Plan
applying_plan = record accepted_plan { state = PlanState.applying }

abbrev finished_plan : Plan
finished_plan = record accepted_plan {
  state = PlanState.succeeded;
  finished_at = some 9;
  effective_source_commit = some "b1";
  result_sha256 = some "m1";
}

abbrev first_events : List Event
first_events = saved applying_plan ∷ applied ∷ []

-- What the first life does not come to, when the program stops right after `apply`.
abbrev last_events : List Event
last_events =
    verified new_receipt
    ∷ committed new_receipt
    ∷ receipt_saved new_receipt
    ∷ saved finished_plan
    ∷ []

example_history : Lives small_target accepted_plan (saved applying_plan ∷ applied ∷ last_events)
unfolding current outside note save update catch require roll_back apply_once conclude go_forward
    attempt reverse_effects recover_from execute_guarded abandon guarded perform execute file_after
example_history =
    next accepted_plan 9 0 first_events last_events last_events refl refl
      (next applying_plan 9 1 last_events [] [] refl refl (over _))

execute-IsComplete_example :
    IsComplete small_target 9 accepted_plan 0 (life small_target 9 accepted_plan 0)
execute-IsComplete_example = execute-IsComplete small_target 9 accepted_plan 0 refl

Lives-apply_once_example : count_applied (saved applying_plan ∷ applied ∷ last_events) ≤ 1
Lives-apply_once_example =
    Lives-apply_once small_target accepted_plan (saved applying_plan ∷ applied ∷ last_events) refl
      example_history

ends_well : (life small_target 9 accepted_plan 0).plan.state ≡ closed forward
unfolding current outside note save update catch require roll_back apply_once conclude go_forward
    attempt reverse_effects recover_from execute_guarded abandon guarded perform execute
ends_well = refl

execute-HasReceipt_example :
    HasReceipt forward
      (life small_target 9 accepted_plan 0).plan
      (life small_target 9 accepted_plan 0).log
execute-HasReceipt_example =
    execute-HasReceipt small_target 9 accepted_plan 0 forward refl ends_well

abbrev ready_id : String
ready_id = "00000000-0000-0000-0000-000000000001"

abbrev fingerprint : String
fingerprint = "00112233445566778899aabbccddeeff00112233445566778899aabbccddeeff"

abbrev ready_plan : Plan
ready_plan = record accepted_plan {
  plan_id = ready_id;
  state = PlanState.ready;
  operation_id = none;
  plan_sha256 = some fingerprint;
}

abbrev ready_controller : Controller small_target
ready_controller = record {
  plans = (ready_id, ready_plan) ∷ [];
  world = 0;
  started = [];
  drafted = [];
}

abbrev busy_controller : Controller small_target
busy_controller = record {
  plans = (ready_id, ready_plan) ∷ ("p", applying_plan) ∷ [];
  world = 0;
  started = [];
  drafted = [];
}

abbrev execute_request : AcceptRequest
execute_request = record {
  plan_id = ready_id;
  plan_sha256 = fingerprint;
  operation_id = "00000000-0000-0000-0000-000000000002";
}

-- The plan of the request is accepted and its execution started.
starts_ready : (accept small_target execute_request 5 ready_controller).1.started ≡ ready_id ∷ []
unfolding accept is_identity is_digest find_plan preflight lookup insert times literal any values
starts_ready = refl

accept-AcceptEffect_example :
    AcceptEffect small_target execute_request 5 ready_controller
      (accept small_target execute_request 5 ready_controller)
accept-AcceptEffect_example = accept-AcceptEffect small_target execute_request 5 ready_controller

busy_lookup : lookup "p" busy_controller.plans ≡ some applying_plan
unfolding lookup
busy_lookup = refl

accept_excluded_example : (accept small_target execute_request 5 busy_controller).1.started ≡ []
accept_excluded_example =
    accept_excluded small_target execute_request 5 busy_controller "p" applying_plan busy_lookup
      refl

abbrev plan_request : PlanRequest
plan_request = record {
  plan_id = "00000000-0000-0000-0000-000000000003";
  target = TargetName.app_prod;
  source_commit = "0123456789012345678901234567890123456789";
}

-- A new plan is filed.
drafts_new :
    (make_plan small_target (λ t. true) plan_request 5 ready_controller).1.drafted
    ≡ "00000000-0000-0000-0000-000000000003" ∷ []
unfolding make_plan draft is_identity is_commit lookup insert times literal any values
drafts_new = refl

plan-PlanEffect_example :
    PlanEffect small_target
      (λ t. true)
      plan_request
      5
      ready_controller
      (make_plan small_target (λ t. true) plan_request 5 ready_controller)
plan-PlanEffect_example = plan-PlanEffect small_target (λ t. true) plan_request 5 ready_controller

abbrev after_plan : Controller small_target
after_plan = (make_plan small_target (λ t. true) plan_request 5 ready_controller).1

-- A second plan is filed, and then the first one accepted.
abbrev after_accept : Controller small_target
after_accept = (accept small_target execute_request 5 after_plan).1

one_ready : count_busy ready_controller.plans ≤ 1
unfolding count_busy
one_ready = omega arith

Course-count_example : count_busy after_accept.plans ≤ 1
Course-count_example =
    Course-count small_target (λ t. true) ready_controller after_accept one_ready
      (then_next after_plan after_accept
        (then_next ready_controller after_plan begin (request_plan plan_request 5))
        (request_accept execute_request 5))
