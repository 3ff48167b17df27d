-- ===== src/Preview.antt =====
-- ops/worker/session-preview-worker-v1.py: the private previews of work sessions.
pub mod Record
pub mod Request
pub mod Allocation
pub mod Store
pub mod Listeners
pub mod Lifecycle
pub mod Sweep
pub mod Soundness
pub mod Changes
pub mod Preservation
pub mod Listing
pub mod Invariant
pub mod Expiry
pub mod History
pub mod Faults
pub mod Ports
pub mod Stopping
mod Tests
