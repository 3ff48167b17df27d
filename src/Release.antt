-- ===== src/Release.antt =====
-- ops/release/release-control-v1.py: the controller that plans, accepts and executes releases.
pub mod Plan
pub mod Platform
pub mod Execution
pub mod Protocol
pub mod Triples
pub mod Progress
pub mod Refinement
pub mod Disk
pub mod Completion
pub mod Budget
pub mod Restarts
pub mod Evidence
pub mod Requests
pub mod Acceptance
pub mod Exclusion
pub mod Planning
pub mod Preparing
pub mod Waiting
pub mod Staging
pub mod Recovery
pub mod Startup
pub mod Steps
mod StagingTests
mod Tests
