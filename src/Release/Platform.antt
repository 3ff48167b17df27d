-- ===== src/Release/Platform.antt =====
-- What the controller is given: the targets, the artifacts and the helper for storage, each a
-- call on the outside world that may raise. `PlatformTarget`, `AppTarget`, `AndroidTarget` and
-- `GitHubArtifacts` are classes over Docker, the file system and the network.
use atenea_remote_worker_spe.Prelude.{String, Result}
use atenea_remote_worker_spe.Release.Plan.{
  TargetName, Observation, Artifact, Receipt, Plan, Failure,
}

pub record Platform : Type 1 where
  pub World : Type 0
  pub inspect : TargetName → World → Result Failure Observation × World
  -- `guard()`, entered; its exit does not raise.
  pub enter : TargetName → World → Result Failure (Unit {0}) × World
  -- The digest of the plan's payload file.
  pub payload_digest : Plan → World → Result Failure String × World
  pub stage : Plan → World → Result Failure (Unit {0}) × World
  pub apply : Plan → World → Result Failure (Unit {0}) × World
  pub verify : Plan → World → Result Failure Receipt × World
  pub rollback : Plan → World → Result Failure Receipt × World
  pub commit : TargetName → Receipt → World → Result Failure (Unit {0}) × World
  pub prepare_artifact : Plan → World → Result Failure Artifact × World
