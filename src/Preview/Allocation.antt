-- ===== src/Preview/Allocation.antt =====
-- `_allocation`: the port and path of a preview, from the files of its session.
use atenea_remote_worker_spe.Prelude.{
  ℕ, String, ◌<>◌, Bool, true, false, not, ◌&&◌, Option, none, some, List, [], ◌∷◌, length, Result,
  ok, err, refuse_if, and_then, leb, ◌==◌, str_eq, if◌then◌else◌,
}
use atenea_remote_worker_spe.Prelude.Json.{
  Json, boolean, number, minus, text, array, object, Fields, get, elements, as_text, as_object,
  is_text, is_none, is_one,
}
use atenea_remote_worker_spe.Prelude.Pattern.{codes}
use atenea_remote_worker_spe.Preview.Record.{Failure, crashed, conflict, Host}
use atenea_remote_worker_spe.Preview.Request.{Activation}

-- What `_allocation` returns; the session is that of the request.
pub record Allocation : Type 0 where
  pub upstream_port : ℕ
  pub preview_path : String
  pub localhost_compatible : Bool

-- `s.replace("-", "")`
unfoldable pub without_dashes : String → String
without_dashes String.[] = String.[]
without_dashes (String.◌∷◌ c s) =
    let rest = without_dashes s in
    if str_eq (String.◌∷◌ c String.[]) "-" then rest else String.◌∷◌ c rest

abbrev pub runtime_identity : String → String
runtime_identity session = "ws-" <> without_dashes session

-- The ownership of an allocation file.
unfoldable pub owns : Activation → Fields → Bool
unfolding get
owns a record_ =
    is_one (get "schemaVersion" record_)
    && is_text "allocated" (get "state" record_)
    && is_text a.runtime_session_id (get "sessionId" record_)
    && is_text a.ownership.project_id (get "projectId" record_)
    && is_text (runtime_identity a.runtime_session_id) (get "runtimeId" record_)
    && str_eq a.ownership.allocation_identity (runtime_identity a.runtime_session_id)
    && not (is_none (get "worktreePath" record_))
    && not (is_none (get "manifestRelativePath" record_))

-- The use of a value as a path, which raises `TypeError` if it is no text.
abbrev pub as_path : Option Json → Result Failure String
as_path (some (text s)) = ok s
as_path _ = err crashed

abbrev pub invalid_manifest : Failure
invalid_manifest = conflict "manifest_preview_invalid"

-- `manifest.get("preview")`, if it is private.
unfoldable pub private_preview : Fields → Result Failure Fields
unfolding get
private_preview manifest = elim (as_object (get "preview" manifest)) [
  | none ↦ err invalid_manifest
  | some preview ↦
      if is_text "private" (get "publish" preview) then ok preview else err invalid_manifest
]

-- `preview_path.startswith("/")`
abbrev pub is_absolute : List ℕ → Bool
is_absolute [] = false
is_absolute (c ∷ cs) = c == b'/'

-- The declaration of a preview in a manifest.
pub record Declaration : Type 0 where
  pub port_name : String
  pub path : String
  pub localhost_compatible : Bool

-- `preview.get("localhostCompatibilityRequired", False)`
abbrev pub as_flag : Option Json → Option Bool
as_flag none = some false
as_flag (some (boolean b)) = some b
as_flag (some _) = none

abbrev pub declared : Option String → Option String → Option Bool → Result Failure Declaration
declared (some name) (some path) (some flag) =
    if is_absolute (codes path) && leb (length (codes path)) 300
    then ok (record { port_name = name; path = path; localhost_compatible = flag })
    else err invalid_manifest
declared _ _ _ = err invalid_manifest

unfoldable pub declaration : Fields → Result Failure Declaration
unfolding get
declaration preview =
    declared (as_text (get "internalPort" preview)) (as_text (get "path" preview))
      (as_flag (get "localhostCompatibilityRequired" preview))

-- `isinstance(v, int)`, with its value; a negative one is below every port.
abbrev pub port_number : Option Json → Option ℕ
port_number (some (number n)) = some n
port_number (some (minus n)) = some 0
port_number (some (boolean true)) = some 1
port_number (some (boolean false)) = some 0
port_number _ = none

-- The port of an item of `allocatedPorts`, if it is the one that the manifest names.
unfoldable pub port_of : String → Json → Option ℕ
unfolding get
port_of name (object item) =
    if is_text name (get "name" item)
      && is_text "http" (get "protocol" item)
      && is_text "127.0.0.1" (get "bindAddress" item)
    then port_number (get "loopbackPort" item)
    else none
port_of name _ = none

-- The ports of the list comprehension.
unfoldable pub matches : String → List Json → List ℕ
unfolding port_of
matches name [] = []
matches name (j ∷ js) =
    let rest = matches name js in elim (port_of name j) [ none ↦ rest | some port ↦ port ∷ rest ]

abbrev pub ports_of : Option Json → List Json
ports_of (some (array items)) = elements items
ports_of _ = []

abbrev pub single_port : List ℕ → Result Failure ℕ
single_port (port ∷ []) =
    if leb 1024 port && leb port 65535 then ok port else err (conflict "allocation_preview_invalid")
single_port _ = err (conflict "allocation_preview_ambiguous")

abbrev pub or_invalid : {A : Type 0} → Option A → Result Failure A
or_invalid none = err (conflict "persisted_state_invalid")
or_invalid (some a) = ok a

-- `_allocation`
unfoldable pub find_allocation : Host → Activation → Result Failure Allocation
unfolding owns private_preview declaration matches get elements
find_allocation h a = and_then (or_invalid (h.allocation_file a.runtime_session_id)) λ file.
    and_then
      (refuse_if (not (str_eq file.sha256 a.ownership.allocation_fingerprint))
        (conflict "allocation_fingerprint_conflict"))
      λ _.
        and_then (refuse_if (not (owns a file.content)) (conflict "allocation_ownership_conflict"))
          λ _. and_then (as_path (get "worktreePath" file.content)) λ worktree.
            and_then
              (refuse_if (not (h.inside_session a.runtime_session_id worktree))
                (conflict "allocation_ownership_conflict"))
              λ _. and_then (as_path (get "manifestRelativePath" file.content)) λ relative.
                and_then (or_invalid (h.manifest_file worktree relative)) λ manifest.
                  and_then (private_preview manifest) λ preview. and_then (declaration preview) λ d.
                    and_then
                      (single_port
                        (matches d.port_name (ports_of (get "allocatedPorts" file.content))))
                      λ port.
                        and_then
                          (refuse_if (not (h.listening port))
                            (conflict "preview_upstream_unavailable"))
                          λ _. ok (record {
                            upstream_port = port;
                            preview_path = d.path;
                            localhost_compatible = d.localhost_compatible;
                          })
