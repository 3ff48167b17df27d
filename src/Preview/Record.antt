-- ===== src/Preview/Record.antt =====
-- The records, the errors and the settings of the preview coordinator. Instants are microseconds.
use atenea_remote_worker_spe.Prelude.{
  ℕ, ◌*◌, String, ◌<>◌, Bool, true, false, ◌&&◌, Option, none, some, Dict, if◌then◌else◌,
}
use atenea_remote_worker_spe.Prelude.Json.{Fields, show}

-- PROTOCOL
abbrev pub protocol : String
protocol = "session-preview/v1"

-- LEASE_SECONDS and HARD_LIFETIME_SECONDS, in microseconds.
abbrev pub lease_time : ℕ
lease_time = 5 * 60 * 1000000

abbrev pub hard_lifetime : ℕ
hard_lifetime = 8 * 60 * 60 * 1000000

pub data State : Type 0 where
  ready reconciling stopped blocked expired : State

-- ACTIVE_STATES
abbrev pub is_active : State → Bool
is_active State.ready = true
is_active State.reconciling = true
is_active _ = false

-- TERMINAL_STATES
abbrev pub is_terminal : State → Bool
is_terminal State.stopped = true
is_terminal State.blocked = true
is_terminal State.expired = true
is_terminal _ = false

abbrev pub is_ready : State → Bool
is_ready State.ready = true
is_ready _ = false

abbrev pub is_stopped : State → Bool
is_stopped State.stopped = true
is_stopped _ = false

pub record Preview : Type 0 where
  pub preview_id : String
  pub work_session_id : String
  pub project_id : String
  pub worker_id : String
  pub runtime_session_id : String
  pub allocation_identity : String
  pub allocation_fingerprint : String
  pub lifecycle_revision : ℕ
  pub synthetic_fixture : Bool
  pub state : State
  pub ingress_port : ℕ
  pub upstream_port : ℕ
  pub preview_path : String
  pub localhost_compatible : Bool
  pub lease_expires_at : ℕ
  pub hard_expires_at : ℕ
  pub created_at : ℕ
  pub updated_at : ℕ

-- A `record.json`: a document with the expected keys and values, or anything else.
pub data Stored : Type 0 where
  stored : Preview → Stored
  broken : Stored

-- `ProtocolError` with its status and code, or another exception.
pub data Failure : Type 0 where
  refused : ℕ → String → Failure
  crashed : Failure

abbrev pub bad_request : String → Failure
bad_request code = refused 400 code

abbrev pub forbidden : String → Failure
forbidden code = refused 403 code

abbrev pub not_found : String → Failure
not_found code = refused 404 code

abbrev pub conflict : String → Failure
conflict code = refused 409 code

-- The arguments of the coordinator.
pub record Settings : Type 0 where
  pub worker_id : String
  pub bind : String
  pub ingress_start : ℕ
  pub ingress_end : ℕ

-- A running `PreviewForwardServer`.
pub record Forwarder : Type 0 where
  pub port : ℕ
  pub upstream : ℕ

-- The record files by directory, and `self.forwarders`.
pub record Coordinator : Type 0 where
  pub records : Dict Stored
  pub forwarders : Dict Forwarder

-- An allocation file: its JSON object, and the SHA-256 of its bytes.
pub record AllocationFile : Type 0 where
  pub content : Fields
  pub sha256 : String

-- The rest of the machine, as one call finds it: what `_safe_json` reads as an object, whether a
-- worktree lies in a session's directory, which upstream ports accept a connection, and which
-- ports the system refuses to bind for a reason other than a forwarder.
pub record Host : Type 0 where
  pub allocation_file : String → Option AllocationFile
  pub inside_session : String → String → Bool
  pub manifest_file : String → String → Option Fields
  pub listening : ℕ → Bool
  pub port_taken : ℕ → Bool

pub record Tunnel : Type 0 where
  pub remote_host : String
  pub remote_port : ℕ
  pub path : String

-- The answer to a request: the record as `_public` shows it.
pub record PublicPreview : Type 0 where
  pub preview_id : String
  pub work_session_id : String
  pub project_id : String
  pub worker_id : String
  pub allocation_identity : String
  pub allocation_fingerprint : String
  pub lifecycle_revision : ℕ
  pub state : State
  pub private_url : Option String
  pub lease_expires_at : ℕ
  pub hard_expires_at : ℕ
  pub localhost_compatible : Bool
  pub tunnel : Option Tunnel
  pub synthetic_fixture : Bool

abbrev url_of : Settings → Preview → Option String
url_of s p =
    if is_ready p.state
    then some ("http://" <> s.bind <> ":" <> show p.ingress_port <> p.preview_path)
    else none

abbrev tunnel_of : Settings → Preview → Option Tunnel
tunnel_of s p =
    if p.localhost_compatible && is_ready p.state
    then some (record { remote_host = s.bind; remote_port = p.ingress_port; path = p.preview_path })
    else none

-- `_public`
unfoldable pub public_view : Settings → Preview → PublicPreview
public_view s p = record {
  preview_id = p.preview_id;
  work_session_id = p.work_session_id;
  project_id = p.project_id;
  worker_id = p.worker_id;
  allocation_identity = p.allocation_identity;
  allocation_fingerprint = p.allocation_fingerprint;
  lifecycle_revision = p.lifecycle_revision;
  state = p.state;
  private_url = url_of s p;
  lease_expires_at = p.lease_expires_at;
  hard_expires_at = p.hard_expires_at;
  localhost_compatible = p.localhost_compatible;
  tunnel = tunnel_of s p;
  synthetic_fixture = p.synthetic_fixture;
}
