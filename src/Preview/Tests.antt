-- ===== src/Preview/Tests.antt =====
-- A preview of one session, and the theorems applied to it.
use atenea_remote_worker_spe.Prelude.{
  arith, String, ◌≡◌, refl, true, false, none, some, List, [], ◌∷◌, ok, err, lookup, insert, remove,
  names, values, any, all,
}
use atenea_remote_worker_spe.Prelude.Json.{
  Json, boolean, number, text, array, object, no_items, item, Fields, no_fields, field, get, keys,
  same_keys, elements,
}
use atenea_remote_worker_spe.Prelude.Pattern.{times, literal, is_canonical_uuid}
use atenea_remote_worker_spe.Prelude.Sorting.{sorted, text_before}
use atenea_remote_worker_spe.Preview.Record.{
  State, protocol, Preview, stored, broken, Failure, Settings, Forwarder, Coordinator, Host,
}
use atenea_remote_worker_spe.Preview.Request.{
  is_project_id, is_session_number, is_sha256, is_allocation_identity, canonical, session_identity,
  formed, positive, common_request, operation_request, activation_request,
}
use atenea_remote_worker_spe.Preview.Allocation.{
  without_dashes, owns, private_preview, declaration, matches, find_allocation,
}
use atenea_remote_worker_spe.Preview.Store.{
  check, change, fetch_optional, fetch, write, same_owner, require_ownership, require_revision,
  read_each, all_records,
}
use atenea_remote_worker_spe.Preview.Listeners.{
  can_bind, first_port, is_free, search_port, available_ingress, start_forwarder, stop_forwarder,
}
use atenea_remote_worker_spe.Preview.Lifecycle.{
  new_preview, open_preview, allocate, activate, halt, stop,
}
use atenea_remote_worker_spe.Preview.Sweep.{sweep_each, sweep, reconcile}
use atenea_remote_worker_spe.Preview.Soundness.{IsSound}
use atenea_remote_worker_spe.Preview.Expiry.{IsLive}
use atenea_remote_worker_spe.Preview.History.{
  activates, Event, empty, serve_all, serve_all-IsSound, serve_all-IsLive,
}
use atenea_remote_worker_spe.Preview.Faults.{unreadable_stops}
use atenea_remote_worker_spe.Preview.Stopping.{stop-stop}
use atenea_remote_worker_spe.Preview.Ports.{SearchEffect, available-SearchEffect}

abbrev settings : Settings
settings = record {
  worker_id = "w1";
  bind = "100.64.0.1";
  ingress_start = 20000;
  ingress_end = 20001;
}

abbrev session : String
session = "00000000-0000-0000-0000-00000000000a"

abbrev preview_id : String
preview_id = "00000000-0000-0000-0000-00000000000b"

abbrev fingerprint : String
fingerprint = "00112233445566778899aabbccddeeff00112233445566778899aabbccddeeff"

abbrev allocation_identity : String
allocation_identity = "ws-0000000000000000000000000000000a"

abbrev port_item : Json
port_item = object (
    field "name" (text "web") (
      field "protocol" (text "http")
        (field "bindAddress" (text "127.0.0.1") (field "loopbackPort" (number 3000) no_fields))))

abbrev allocation : Fields
allocation = field "schemaVersion" (number 1) (
    field "state" (text "allocated") (
      field "sessionId" (text session) (
        field "projectId" (text "shop") (
          field "runtimeId" (text allocation_identity) (
            field "worktreePath" (text "/w") (
              field "manifestRelativePath" (text "m.json")
                (field "allocatedPorts" (array (item port_item no_items)) no_fields)))))))

abbrev manifest : Fields
manifest =
    field "preview"
      (object (
        field "publish" (text "private")
          (field "internalPort" (text "web") (field "path" (text "/") no_fields))))
      no_fields

abbrev machine : Host
machine = record {
  allocation_file = λ id. some (record { content = allocation; sha256 = fingerprint });
  inside_session = λ id path. true;
  manifest_file = λ w path. some manifest;
  listening = λ port. true;
  port_taken = λ port. false;
}

abbrev activation : Fields
activation = field "protocolVersion" (text protocol) (
    field "workSessionId" (text "7") (
      field "projectId" (text "shop") (
        field "workerId" (text "w1") (
          field "runtimeSessionId" (text session) (
            field "allocationIdentity" (text allocation_identity) (
              field "allocationFingerprint" (text fingerprint) (
                field "expectedRevision" (number 1)
                  (field "syntheticFixture" (boolean true) no_fields))))))))

abbrev one_activation : List Event
one_activation = record { host = machine; now = 1000; call = activates preview_id activation } ∷ []

abbrev web_forwarder : Forwarder
web_forwarder = record { port = 20000; upstream = 3000 }

-- A minute later the preview is still served.
first_minute :
    ((sweep 60001000 (serve_all settings one_activation empty)).0 ≡ ok tt)
    × (lookup preview_id (sweep 60001000 (serve_all settings one_activation empty)).1.forwarders
        ≡ some web_forwarder)
unfolding serve_all activate canonical is_canonical_uuid activation_request common_request
    session_identity formed positive is_project_id is_session_number is_sha256
    is_allocation_identity times literal get keys same_keys any all check change fetch_optional
    lookup allocate find_allocation without_dashes owns private_preview declaration matches elements
    available_ingress all_records read_each sorted names search_port first_port is_free can_bind
    values open_preview start_forwarder insert write new_preview sweep sweep_each text_before
first_minute = (refl, refl)

serve_all-IsSound_example : IsSound (serve_all settings one_activation empty)
serve_all-IsSound_example = serve_all-IsSound settings one_activation

serve_all-IsLive_example :
    IsLive 60001000
      (sweep 60001000 (serve_all settings one_activation empty)).1
      preview_id
      web_forwarder
serve_all-IsLive_example =
    serve_all-IsLive settings one_activation 60001000 preview_id web_forwarder first_minute.0
      first_minute.1

abbrev unreadable : Coordinator
unreadable = record { records = ("x", broken) ∷ []; forwarders = ("y", web_forwarder) ∷ [] }

unreadable_lookup : lookup "x" unreadable.records ≡ some broken
unfolding lookup
unreadable_lookup = refl

unreadable_stops_example :
    (e : Failure) × (sweep 9 unreadable ≡ (err e, unreadable))
    × (available_ingress machine settings unreadable ≡ (err e, unreadable))
    × (reconcile machine 9 unreadable ≡ (err e, unreadable))
unreadable_stops_example = unreadable_stops machine settings 9 unreadable "x" unreadable_lookup

abbrev stop_request : Fields
stop_request = field "protocolVersion" (text protocol) (
    field "workSessionId" (text "7") (
      field "projectId" (text "shop") (
        field "workerId" (text "w1") (
          field "allocationIdentity" (text allocation_identity) (
            field "allocationFingerprint" (text fingerprint) (
              field "expectedRevision" (number 2)
                (field "syntheticFixture" (boolean true) no_fields)))))))

abbrev stopped_preview : Preview
stopped_preview = record {
  preview_id = preview_id;
  work_session_id = "7";
  project_id = "shop";
  worker_id = "w1";
  runtime_session_id = session;
  allocation_identity = allocation_identity;
  allocation_fingerprint = fingerprint;
  lifecycle_revision = 3;
  synthetic_fixture = true;
  state = State.stopped;
  ingress_port = 20000;
  upstream_port = 3000;
  preview_path = "/";
  localhost_compatible = false;
  lease_expires_at = 300001000;
  hard_expires_at = 28800001000;
  created_at = 1000;
  updated_at = 5000;
}

abbrev after_stop : Coordinator
after_stop = record { records = (preview_id, stored stopped_preview) ∷ []; forwarders = [] }

stops_it :
    stop machine settings 5000 preview_id stop_request (serve_all settings one_activation empty)
    ≡ (ok stopped_preview, after_stop)
unfolding serve_all activate canonical is_canonical_uuid activation_request common_request
    session_identity formed positive is_project_id is_session_number is_sha256
    is_allocation_identity times literal get keys same_keys any all check change fetch_optional
    lookup allocate find_allocation without_dashes owns private_preview declaration matches elements
    available_ingress all_records read_each sorted names search_port first_port is_free can_bind
    values open_preview start_forwarder insert write new_preview operation_request fetch
    require_ownership same_owner require_revision stop halt stop_forwarder remove text_before
stops_it = refl

stop-stop_example :
    (lookup preview_id after_stop.forwarders ≡ none)
    × (stop machine settings 7000 preview_id stop_request after_stop
        ≡ (ok stopped_preview, after_stop))
stop-stop_example =
    stop-stop settings preview_id stop_request machine 5000
      (serve_all settings one_activation empty) after_stop stopped_preview
      (serve_all-IsSound settings one_activation) stops_it machine 7000

available-SearchEffect_example :
    SearchEffect machine settings
      (serve_all settings one_activation empty)
      (available_ingress machine settings (serve_all settings one_activation empty))
available-SearchEffect_example =
    available-SearchEffect machine settings (serve_all settings one_activation empty) (omega arith)
