-- ===== src/Preview/Sweep.antt =====
-- `_sweep` and `_reconcile_persisted`: one pass over the records.
use atenea_remote_worker_spe.Prelude.{
  ℕ, Bool, not, ◌&&◌, List, [], ◌∷◌, Result, ok, err, refuse_if, pure, ◌>>=◌, ◌>>◌, str_eq, ◌==◌,
  if◌then◌else◌,
}
use atenea_remote_worker_spe.Preview.Record.{
  State, is_active, Preview, Failure, refused, crashed, conflict, Coordinator, Host,
}
use atenea_remote_worker_spe.Preview.Request.{Activation}
use atenea_remote_worker_spe.Preview.Allocation.{Allocation, find_allocation}
use atenea_remote_worker_spe.Preview.Store.{Request, check, change, write, all_records}
use atenea_remote_worker_spe.Preview.Listeners.{start_forwarder}
use atenea_remote_worker_spe.Preview.Lifecycle.{is_expired, expire}

-- The body of the loop of `_sweep`.
unfoldable pub sweep_one : ℕ → Preview → Coordinator → Coordinator
sweep_one now p c = if is_active p.state && is_expired now p then expire now p c else c

unfoldable pub sweep_each : ℕ → List Preview → Coordinator → Coordinator
unfolding sweep_one
sweep_each now [] c = c
sweep_each now (p ∷ ps) c = sweep_each now ps (sweep_one now p c)

-- A pass of `_sweep`.
unfoldable pub sweep : ℕ → Request (Unit {0})
sweep now = do ps ← all_records; change (sweep_each now ps)

-- The request that the persisted record stands for.
abbrev pub activation_of : Preview → Activation
activation_of p = record {
  ownership = record {
    work_session_id = p.work_session_id;
    project_id = p.project_id;
    worker_id = p.worker_id;
    allocation_identity = p.allocation_identity;
    allocation_fingerprint = p.allocation_fingerprint;
    expected_revision = p.lifecycle_revision;
  };
  runtime_session_id = p.runtime_session_id;
}

abbrev pub same_projection : Preview → Allocation → Bool
same_projection p al = al.upstream_port == p.upstream_port && str_eq al.preview_path p.preview_path

-- The `try` of the loop of `_reconcile_persisted`.
unfoldable pub restore : Host → Preview → Request (Unit {0})
restore h p = do
  al ← check (find_allocation h (activation_of p))
  check (refuse_if (not (same_projection p al)) (conflict "allocation_ownership_conflict"))
  start_forwarder h p

-- The write that ends a turn of the loop.
abbrev pub settle : ℕ → State → Preview → Coordinator → Coordinator
settle now state p c = write (record p { state = state; updated_at = now }) c

-- What follows the `try`: `except ProtocolError` catches a refusal and nothing else.
abbrev pub after_restore :
    ℕ → Preview → Result Failure (Unit {0}) × Coordinator → Result Failure (Unit {0}) × Coordinator
after_restore now p (ok _, c) = (ok tt, settle now State.ready p c)
after_restore now p (err (refused status code), c) = (ok tt, settle now State.blocked p c)
after_restore now p (err crashed, c) = (err crashed, c)

unfoldable pub reconcile_one : Host → ℕ → Preview → Request (Unit {0})
unfolding restore
reconcile_one h now p c =
    if not (is_active p.state)
    then (ok tt, c)
    else if is_expired now p
    then (ok tt, expire now p c)
    else after_restore now p (restore h p c)

unfoldable pub reconcile_each : Host → ℕ → List Preview → Request (Unit {0})
unfolding reconcile_one
reconcile_each h now [] = pure tt
reconcile_each h now (p ∷ ps) = do reconcile_one h now p; reconcile_each h now ps

-- `_reconcile_persisted`
unfoldable pub reconcile : Host → ℕ → Request (Unit {0})
unfolding reconcile_each
reconcile h now = do ps ← all_records; reconcile_each h now ps
