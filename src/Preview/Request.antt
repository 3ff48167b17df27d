-- ===== src/Preview/Request.antt =====
-- `_activation_request`, `_operation_request`, `_query_ownership` and `_common_request`: the checks
-- of a request, in the order of the source.
use atenea_remote_worker_spe.Prelude.{
  ℕ, String, Bool, true, not, ◌&&◌, ◌||◌, Option, none, some, List, [], ◌∷◌, any, Result, ok, err,
  refuse_if, and_then, leb, ◌==◌, Dict, names, length, if◌then◌else◌,
}
use atenea_remote_worker_spe.Prelude.Json.{
  Json, number, text, Fields, no_fields, field, get, keys, same_keys, as_text, is_text, is_true,
  show,
}
use atenea_remote_worker_spe.Prelude.Pattern.{
  codes, Class, digit, lower, hex, times, literal, then_read, ends_with, at_end, is_canonical_uuid,
}
use atenea_remote_worker_spe.Preview.Record.{protocol, Failure, bad_request, forbidden, conflict}

-- `[a-z0-9-]`
abbrev project_class : Class
project_class c = lower c || digit c || c == b'-'

-- PROJECT_ID
unfoldable pub is_project_id : String → Bool
unfolding times
is_project_id s = ends_with project_class 1 62 (times 1 lower (codes s))

-- `[1-9]`
abbrev leading_digit : Class
leading_digit c = leb b'1' c && leb c b'9'

-- SESSION_DATABASE_ID
unfoldable pub is_session_number : String → Bool
unfolding times
is_session_number s = ends_with digit 0 18 (times 1 leading_digit (codes s))

-- SHA256
unfoldable pub is_sha256 : String → Bool
unfolding times
is_sha256 s = at_end (times 64 hex (codes s))

-- `ws-[0-9a-f]{32}`
unfoldable pub is_allocation_identity : String → Bool
unfolding times literal
is_allocation_identity s = at_end (then_read (literal (codes "ws-") (codes s)) (times 32 hex))

-- What `_common_request` returns; its `syntheticFixture` is true.
pub record Ownership : Type 0 where
  pub work_session_id : String
  pub project_id : String
  pub worker_id : String
  pub allocation_identity : String
  pub allocation_fingerprint : String
  pub expected_revision : ℕ

pub record Activation : Type 0 where
  pub ownership : Ownership
  pub runtime_session_id : String

-- `_canonical_uuid`
unfoldable pub canonical : Option String → String → Result Failure String
canonical none code = err (bad_request code)
canonical (some s) code = if is_canonical_uuid s then ok s else err (bad_request code)

-- `str(request.get("workSessionId", ""))`, for a text or a number; the text of another value is
-- neither a number nor a UUID.
abbrev pub session_text : Option Json → Option String
session_text (some (text s)) = some s
session_text (some (number n)) = some (show n)
session_text _ = none

unfoldable pub session_identity : Option String → Result Failure String
unfolding canonical
session_identity none = err (bad_request "invalid_work_session_id")
session_identity (some s) =
    if is_session_number s then ok s else canonical (some s) "invalid_work_session_id"

-- A text that has a form.
unfoldable pub formed : (String → Bool) → String → Option String → Result Failure String
formed test code none = err (bad_request code)
formed test code (some s) = if test s then ok s else err (bad_request code)

unfoldable pub positive : Option Json → Result Failure ℕ
positive (some (number n)) = if leb 1 n then ok n else err (bad_request "invalid_revision")
positive _ = err (bad_request "invalid_revision")

-- `_common_request`, where `worker_id` is the coordinator's.
unfoldable pub common_request : String → Fields → Result Failure Ownership
unfolding session_identity formed positive get
common_request worker_id request =
    and_then
      (refuse_if (not (is_text protocol (get "protocolVersion" request)))
        (bad_request "protocol_mismatch"))
      λ _. and_then (session_identity (session_text (get "workSessionId" request))) λ session.
        and_then (formed is_project_id "invalid_project_id" (as_text (get "projectId" request)))
          λ project.
            and_then
              (refuse_if (not (is_text worker_id (get "workerId" request)))
                (conflict "worker_ownership_conflict"))
              λ _.
                and_then
                  (formed is_allocation_identity "invalid_allocation_identity"
                    (as_text (get "allocationIdentity" request)))
                  λ identity.
                    and_then
                      (formed is_sha256 "invalid_allocation_fingerprint"
                        (as_text (get "allocationFingerprint" request)))
                      λ fingerprint.
                        and_then (positive (get "expectedRevision" request)) λ revision.
                          and_then
                            (refuse_if (not (is_true (get "syntheticFixture" request)))
                              (forbidden "synthetic_identity_required"))
                            λ _. ok (record {
                              work_session_id = session;
                              project_id = project;
                              worker_id = worker_id;
                              allocation_identity = identity;
                              allocation_fingerprint = fingerprint;
                              expected_revision = revision;
                            })

abbrev pub operation_keys : List String
operation_keys =
    "protocolVersion" ∷ "workSessionId" ∷ "projectId" ∷ "workerId" ∷ "allocationIdentity"
    ∷ "allocationFingerprint" ∷ "expectedRevision" ∷ "syntheticFixture" ∷ []

-- `_operation_request`
unfoldable pub operation_request : String → Fields → Result Failure Ownership
unfolding common_request
operation_request worker_id request =
    and_then
      (refuse_if (not (same_keys (keys request) operation_keys)) (bad_request "invalid_request"))
      λ _. common_request worker_id request

-- `_activation_request`
unfoldable pub activation_request : String → Fields → Result Failure Activation
unfolding common_request canonical get
activation_request worker_id request =
    and_then
      (refuse_if (not (same_keys (keys request) ("runtimeSessionId" ∷ operation_keys)))
        (bad_request "invalid_request"))
      λ _. and_then (common_request worker_id request) λ ownership.
        and_then (canonical (as_text (get "runtimeSessionId" request)) "invalid_runtime_session_id")
          λ runtime. ok (record { ownership = ownership; runtime_session_id = runtime })

abbrev pub query_keys : List String
query_keys =
    "workSessionId" ∷ "projectId" ∷ "workerId" ∷ "allocationIdentity" ∷ "allocationFingerprint" ∷ []

abbrev pub not_single : String × List String → Bool
not_single (k, v) = not (length v == 1)

-- `{key: values[0] for key, values in query.items()}`, with the keys that are added.
unfoldable pub request_of : Dict (List String) → Fields
request_of [] =
    field "protocolVersion" (text protocol)
      (field "expectedRevision" (number 1) (field "syntheticFixture" (Json.boolean true) no_fields))
request_of ((k, []) ∷ q) = request_of q
request_of ((k, v ∷ vs) ∷ q) = field k (text v) (request_of q)

-- `_query_ownership`
unfoldable pub query_ownership : String → Dict (List String) → Result Failure Ownership
unfolding common_request request_of any
query_ownership worker_id query =
    and_then
      (refuse_if (not (same_keys (names query) query_keys) || any not_single query)
        (bad_request "invalid_query"))
      λ _. common_request worker_id (request_of query)
