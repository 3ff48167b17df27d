-- ===== src/Database.antt =====
-- ops/worker/database-lifecycle-state-v1.py: the registry of synthetic development databases.
pub mod Names
pub mod Record
pub mod Validate
pub mod Paths
pub mod Images
pub mod Entries
pub mod Manifest
pub mod Components
pub mod Declared
pub mod Synthetic
pub mod Registry
pub mod Replace
pub mod Snapshots
pub mod Validity
pub mod Reading
pub mod Soundness
pub mod Writing
pub mod Transitions
pub mod Concurrency
pub mod Consumption
pub mod Preparation
pub mod Answering
pub mod Ownership
pub mod Creation
pub mod History
pub mod Changes
pub mod Replay
pub mod Seeding
pub mod Registration
pub mod Enrolment
pub mod Retention
mod ManifestTests
mod Tests
