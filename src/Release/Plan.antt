-- ===== src/Release/Plan.antt =====
-- The records of ops/release/release-control-v1.py. A plan's file `operation.json` is a `Plan`;
-- keys that the program adds later are optional.
use atenea_remote_worker_spe.Prelude.{ℕ, String, Bool, true, false, ◌&&◌, Option, str_eq}

-- TARGETS
pub data TargetName : Type 0 where
  app_prod android_stable ax42_platform : TargetName

pub data PlanState : Type 0 where
  preparing ready accepted applying rolling_back : PlanState
  succeeded rolled_back failed blocked rollback_failed : PlanState

-- TERMINAL
abbrev pub is_terminal : PlanState → Bool
is_terminal PlanState.succeeded = true
is_terminal PlanState.rolled_back = true
is_terminal PlanState.failed = true
is_terminal PlanState.blocked = true
is_terminal PlanState.rollback_failed = true
is_terminal _ = false

-- What `inspect` reports of a target: its commit, and the text of everything else.
pub record Observation : Type 0 where
  pub source_commit : String
  pub details : String

-- `==` on two observations.
abbrev pub same_observation : Observation → Observation → Bool
same_observation a b = str_eq a.source_commit b.source_commit && str_eq a.details b.details

-- What `artifacts.prepare` returns; only an Android artifact has a version.
pub record Artifact : Type 0 where
  pub payload_sha256 : String
  pub version_code : Option ℕ
  pub version_name : Option String
  pub details : String

-- What `verify` and `rollback` return; the digest is that of the receipt's manifest, if any.
pub record Receipt : Type 0 where
  pub source_commit : String
  pub manifest_sha256 : Option String
  pub details : String

pub record Plan : Type 0 where
  pub plan_id : String
  pub target : TargetName
  pub source_commit : String
  pub predecessor : Observation
  pub state : PlanState
  pub created_at : ℕ
  pub error_code : Option String
  pub operation_id : Option String
  pub finished_at : Option ℕ
  pub artifact : Option Artifact
  pub plan_sha256 : Option String
  pub expires_at : Option ℕ
  pub effective_source_commit : Option String
  pub result_sha256 : Option String

-- `Rejected` with its code, or another exception.
pub data Failure : Type 0 where
  rejected : String → Failure
  crashed : Failure

-- `error.code if isinstance(error, Rejected) else fallback`
abbrev pub failure_code : Failure → String → String
failure_code (rejected code) fallback = code
failure_code crashed fallback = fallback
