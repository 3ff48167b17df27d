-- ===== src/Preview/Lifecycle.antt =====
-- `activate`, `inspect`, `renew`, `stop` and `delete_synthetic`, at the instant `now`.
use atenea_remote_worker_spe.Prelude.{
  ℕ, ◌+◌, min, String, Bool, true, not, ◌&&◌, ◌||◌, Option, none, some, List, err, refuse_if, pure,
  ◌>>=◌, ◌>>◌, leb, ◌==◌, Dict, remove, if◌then◌else◌,
}
use atenea_remote_worker_spe.Prelude.Json.{Fields}
use atenea_remote_worker_spe.Preview.Record.{
  State, is_terminal, is_ready, is_stopped, Preview, forbidden, conflict, Settings, Coordinator,
  Host, lease_time, hard_lifetime,
}
use atenea_remote_worker_spe.Preview.Request.{
  Activation, canonical, activation_request, operation_request, query_ownership,
}
use atenea_remote_worker_spe.Preview.Allocation.{Allocation, find_allocation}
use atenea_remote_worker_spe.Preview.Store.{
  Request, check, change, fetch_optional, fetch, write, require_ownership, require_revision,
}
use atenea_remote_worker_spe.Preview.Listeners.{
  available_ingress, start_forwarder, stop_forwarder, ensure_forwarder,
}

-- `_expired`
abbrev pub is_expired : ℕ → Preview → Bool
is_expired now p = leb p.lease_expires_at now || leb p.hard_expires_at now

-- `_expire_record`
unfoldable pub expire : ℕ → Preview → Coordinator → Coordinator
unfolding write stop_forwarder
expire now p c =
    write (record p { state = State.expired; updated_at = now }) (stop_forwarder p.preview_id c)

-- The record of a new preview.
unfoldable pub new_preview : String → Activation → Allocation → ℕ → ℕ → Preview
new_preview id a al port now = record {
  preview_id = id;
  work_session_id = a.ownership.work_session_id;
  project_id = a.ownership.project_id;
  worker_id = a.ownership.worker_id;
  runtime_session_id = a.runtime_session_id;
  allocation_identity = a.ownership.allocation_identity;
  allocation_fingerprint = a.ownership.allocation_fingerprint;
  lifecycle_revision = a.ownership.expected_revision + 1;
  synthetic_fixture = true;
  state = State.ready;
  ingress_port = port;
  upstream_port = al.upstream_port;
  preview_path = al.preview_path;
  localhost_compatible = al.localhost_compatible;
  lease_expires_at = now + lease_time;
  hard_expires_at = now + hard_lifetime;
  created_at = now;
  updated_at = now;
}

-- The record that `renew` writes.
abbrev pub renewed : ℕ → Preview → ℕ → Preview
renewed now p expected = record p {
  lease_expires_at = min (now + lease_time) p.hard_expires_at;
  lifecycle_revision = expected + 1;
  updated_at = now;
}

-- The record that `stop` writes.
abbrev pub halted : ℕ → Preview → ℕ → Preview
halted now p expected = record p {
  state = State.stopped;
  lifecycle_revision = expected + 1;
  updated_at = now;
}

abbrev pub is_repeated_stop : Preview → ℕ → Bool
is_repeated_stop p expected = is_stopped p.state && p.lifecycle_revision == expected + 1

-- The record file and its directory are removed.
unfoldable pub erase : String → Coordinator → Coordinator
unfolding remove
erase id c = record c { records = remove id c.records }

module _ (h : Host) (s : Settings) (now : ℕ) where
  -- The branch of `activate` for a preview that exists.
  unfoldable pub reactivate : Activation → Preview → Request Preview
  reactivate a p = do
    require_ownership p a.ownership
    check (
        refuse_if (not (p.lifecycle_revision == a.ownership.expected_revision + 1))
          (conflict "stale_revision"))
    if is_ready p.state then ensure_forwarder h p else pure tt
    pure p

  unfoldable pub open_preview : String → Activation → Allocation → ℕ → Request Preview
  open_preview id a al port = do
    start_forwarder h (new_preview id a al port now)
    change (write (new_preview id a al port now))
    pure (new_preview id a al port now)

  unfoldable pub allocate : String → Activation → Request Preview
  allocate id a = do
    al ← check (find_allocation h a)
    port ← available_ingress h s
    open_preview id a al port

  abbrev pub activate_at : String → Activation → Option Preview → Request Preview
  activate_at id a none = allocate id a
  activate_at id a (some p) = reactivate a p

  -- `activate`; whether the preview is new is read off the revision.
  unfoldable pub activate : String → Fields → Request Preview
  activate preview_id request = do
    id ← check (canonical (some preview_id) "invalid_preview_id")
    a ← check (activation_request s.worker_id request)
    existing ← fetch_optional id
    activate_at id a existing

  -- The look at a ready preview.
  unfoldable pub refresh : Preview → Request Preview
  refresh p =
      if is_ready p.state
      then (if is_expired now p
          then (change (expire now p)
              >> pure (record p { state = State.expired; updated_at = now }))
          else (ensure_forwarder h p >> pure p))
      else pure p

  -- `inspect`
  unfoldable pub inspect : String → Dict (List String) → Request Preview
  inspect preview_id query = do
    id ← check (canonical (some preview_id) "invalid_preview_id")
    o ← check (query_ownership s.worker_id query)
    p ← fetch id
    require_ownership p o
    refresh p

  unfoldable pub extend_lease : Preview → ℕ → Request Preview
  extend_lease p expected = do
    ensure_forwarder h (renewed now p expected)
    change (write (renewed now p expected))
    pure (renewed now p expected)

  unfoldable pub end_lifetime : Preview → Request Preview
  end_lifetime p = do change (expire now p); check (err (conflict "hard_lifetime_expired"))

  -- `renew`
  unfoldable pub renew : String → Fields → Request Preview
  renew preview_id request = do
    id ← check (canonical (some preview_id) "invalid_preview_id")
    o ← check (operation_request s.worker_id request)
    p ← fetch id
    require_ownership p o
    require_revision p o.expected_revision
    check (refuse_if (not (is_ready p.state)) (conflict "preview_not_ready"))
    if leb p.hard_expires_at now then end_lifetime p else extend_lease p o.expected_revision

  unfoldable pub halt : String → Preview → ℕ → Request Preview
  halt id p expected = do
    require_revision p expected
    change (stop_forwarder id)
    change (write (halted now p expected))
    pure (halted now p expected)

  -- `stop`
  unfoldable pub stop : String → Fields → Request Preview
  stop preview_id request = do
    id ← check (canonical (some preview_id) "invalid_preview_id")
    o ← check (operation_request s.worker_id request)
    p ← fetch id
    require_ownership p o
    if is_repeated_stop p o.expected_revision then pure p else halt id p o.expected_revision

  -- `delete_synthetic`; the answer is the record that was deleted.
  unfoldable pub delete_synthetic : String → Fields → Request Preview
  delete_synthetic preview_id request = do
    id ← check (canonical (some preview_id) "invalid_preview_id")
    o ← check (operation_request s.worker_id request)
    p ← fetch id
    require_ownership p o
    require_revision p o.expected_revision
    check (
        refuse_if (not p.synthetic_fixture || not (is_terminal p.state))
          (forbidden "synthetic_terminal_identity_required"))
    change (stop_forwarder id)
    change (erase id)
    pure p
