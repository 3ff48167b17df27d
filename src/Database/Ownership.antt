-- ===== src/Database/Ownership.antt =====
-- Equality of IMMUTABLE_FIELDS is equality of the owner.
use atenea_remote_worker_spe.Prelude.{◌≡◌, true, str_eq→eq, eq_refl, arith}
use atenea_remote_worker_spe.Database.Record.{Ownership, same_ownership}

pub same_ownership→eq : (a b : Ownership) → same_ownership a b ≡ true → a ≡ b
unfolding same_ownership
same_ownership→eq a b h =
    let p_database_id = str_eq→eq a.database_id b.database_id (ground arith) in
    let p_work_session_id = str_eq→eq a.work_session_id b.work_session_id (ground arith) in
    let p_project_id = str_eq→eq a.project_id b.project_id (ground arith) in
    let p_worker_id = str_eq→eq a.worker_id b.worker_id (ground arith) in
    let p_allocation_identity =
      str_eq→eq a.allocation_identity b.allocation_identity (ground arith) in
    let p_allocation_fingerprint =
      str_eq→eq a.allocation_fingerprint b.allocation_fingerprint (ground arith) in
    let p_slot = str_eq→eq a.slot b.slot (ground arith) in
    let p_engine = str_eq→eq a.engine b.engine (ground arith) in
    let p_database_name = str_eq→eq a.database_name b.database_name (ground arith) in
    let p_manifest_sha256 = str_eq→eq a.manifest_sha256 b.manifest_sha256 (ground arith) in
    let p_container_identity = str_eq→eq a.container_identity b.container_identity (ground arith) in
    let p_network_identity = str_eq→eq a.network_identity b.network_identity (ground arith) in
    let p_volume_identity = str_eq→eq a.volume_identity b.volume_identity (ground arith) in
    let p_flag : a.synthetic_development_fixture ≡ b.synthetic_development_fixture = ground arith in
    λ i. record {
      database_id = p_database_id i;
      work_session_id = p_work_session_id i;
      project_id = p_project_id i;
      worker_id = p_worker_id i;
      allocation_identity = p_allocation_identity i;
      allocation_fingerprint = p_allocation_fingerprint i;
      slot = p_slot i;
      engine = p_engine i;
      database_name = p_database_name i;
      manifest_sha256 = p_manifest_sha256 i;
      container_identity = p_container_identity i;
      network_identity = p_network_identity i;
      volume_identity = p_volume_identity i;
      synthetic_development_fixture = p_flag i;
    }

pub same_ownership_refl : (a : Ownership) → same_ownership a a ≡ true
unfolding same_ownership
same_ownership_refl a = simp eq_refl (ground arith)
