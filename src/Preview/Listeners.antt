-- ===== src/Preview/Listeners.antt =====
-- The forwarders and the ports of the ingress range.
use atenea_remote_worker_spe.Prelude.{
  ℕ, zero, suc, ◌+◌, ◌-◌, String, Bool, not, ◌&&◌, Option, none, some, List, any, Result, ok, err,
  ◌>>=◌, ◌==◌, lookup, insert, remove, values, if◌then◌else◌,
}
use atenea_remote_worker_spe.Preview.Record.{
  Preview, is_active, Failure, conflict, Settings, Forwarder, Coordinator, Host,
}
use atenea_remote_worker_spe.Preview.Store.{Request, all_records}

abbrev pub holds_port : ℕ → Forwarder → Bool
holds_port port f = f.port == port

-- Whether a socket can be bound to the port: no forwarder listens there, and nothing else does.
unfoldable pub can_bind : Host → Coordinator → ℕ → Bool
unfolding any values
can_bind h c port = not (h.port_taken port) && not (any (holds_port port) (values c.forwarders))

-- `used`
abbrev pub uses_port : ℕ → Preview → Bool
uses_port port p = is_active p.state && p.ingress_port == port

-- The loop over `count` ports from `port` on.
unfoldable pub first_port : ℕ → ℕ → (ℕ → Bool) → Option ℕ
first_port zero port free = none
first_port (suc count) port free =
    let rest = first_port count (port + 1) free in if free port then some port else rest

abbrev pub or_exhausted : Option ℕ → Result Failure ℕ
or_exhausted none = err (conflict "preview_capacity_exhausted")
or_exhausted (some port) = ok port

-- `port not in used`, and the probe can be bound.
unfoldable pub is_free : Host → List Preview → Coordinator → ℕ → Bool
unfolding can_bind any
is_free h ps c port = not (any (uses_port port) ps) && can_bind h c port

-- The search, over the records that were read.
unfoldable pub search_port : Host → Settings → List Preview → Request ℕ
unfolding first_port is_free
search_port h s ps c = (
  or_exhausted (first_port (s.ingress_end + 1 - s.ingress_start) s.ingress_start (is_free h ps c)),
  c,
)

-- `_available_ingress`
unfoldable pub available_ingress : Host → Settings → Request ℕ
unfolding all_records search_port
available_ingress h s = do ps ← all_records; search_port h s ps

-- `_start_forwarder`
unfoldable pub start_forwarder : Host → Preview → Request (Unit {0})
unfolding can_bind insert
start_forwarder h p c =
    if can_bind h c p.ingress_port
    then (
      ok tt,
      record c {
        forwarders =
            insert p.preview_id (record { port = p.ingress_port; upstream = p.upstream_port })
              c.forwarders;
      },
    )
    else (err (conflict "ingress_listener_conflict"), c)

-- `_stop_forwarder`
unfoldable pub stop_forwarder : String → Coordinator → Coordinator
unfolding remove
stop_forwarder id c = record c { forwarders = remove id c.forwarders }

abbrev pub serves : Preview → Forwarder → Bool
serves p f = f.port == p.ingress_port && f.upstream == p.upstream_port

-- `_ensure_forwarder`, by the forwarder that runs under the identity.
abbrev pub ensure_running : Host → Preview → Option Forwarder → Request (Unit {0})
ensure_running h p none c = start_forwarder h p c
ensure_running h p (some f) c =
    (if serves p f then ok tt else err (conflict "listener_ownership_conflict"), c)

-- `_ensure_forwarder`
unfoldable pub ensure_forwarder : Host → Preview → Request (Unit {0})
unfolding lookup start_forwarder
ensure_forwarder h p c = ensure_running h p (lookup p.preview_id c.forwarders) c
