-- ===== src/Database/Entries.antt =====
-- The lists of a manifest in `validate_database_manifest`: secrets, ports and paths.
use atenea_remote_worker_spe.Prelude.{
  String, Bool, true, false, not, ◌&&◌, ◌||◌, Option, none, some, List, [], ◌∷◌, any, length,
  Result, ok, err, refuse_if, and_then, leb, ◌==◌, str_eq,
}
use atenea_remote_worker_spe.Prelude.Json.{
  Json, null, boolean, number, minus, fraction, text, array, object, Fields, no_fields, get,
  elements, as_text, is_text, is_true,
}
use atenea_remote_worker_spe.Database.Record.{Error, database_manifest_invalid, type_error}
use atenea_remote_worker_spe.Database.Paths.{is_relative_path}

-- The objects and other values over which a loop runs: the elements of a list. The characters of a
-- text and the keys of an object are no objects, and those loops pass over them.
abbrev pub iterated : Option Json → Result Error (List Json)
iterated none = ok []
iterated (some (array items)) = ok (elements items)
iterated (some (text s)) = ok []
iterated (some (object fs)) = ok []
iterated (some _) = err type_error

abbrev pub is_absent : Option Json → Bool
is_absent none = true
is_absent (some _) = false

-- The test of an element of `matching_secrets`.
unfoldable pub is_matching_secret : String → Json → Bool
unfolding get
is_matching_secret name (object secret) =
    is_text name (get "name" secret)
    && is_text "database" (get "exposure" secret)
    && is_true (get "required" secret)
    && is_absent (get "value" secret)
is_matching_secret name _ = false

-- A value that has no hash.
abbrev pub is_unhashable : Json → Bool
is_unhashable (array _) = true
is_unhashable (object _) = true
is_unhashable _ = false

-- A Boolean as the number that it equals.
abbrev pub plain : Json → Json
plain (boolean true) = number 1
plain (boolean false) = number 0
plain v = v

abbrev pub same_plain : Json → Json → Bool
same_plain null null = true
same_plain (number m) (number n) = m == n
same_plain (minus m) (minus n) = m == n
same_plain (fraction s) (fraction t) = str_eq s t
same_plain (text s) (text t) = str_eq s t
same_plain _ _ = false

-- `v == w`, for values that have a hash.
abbrev pub same_value : Json → Json → Bool
same_value v w = same_plain (plain v) (plain w)

-- `d.get(k)`, where an absent key has the value `None`.
abbrev pub or_null : Option Json → Json
or_null none = null
or_null (some v) = v

-- The names of `port_names`.
unfoldable pub names_of : List Json → List Json
unfolding get
names_of [] = []
names_of (object port ∷ ports) = or_null (get "name" port) ∷ names_of ports
names_of (_ ∷ ports) = names_of ports

-- `document.get("runtime", {})`, on which `get` is called.
abbrev pub runtime_of : Option Json → Result Error Fields
runtime_of none = ok no_fields
runtime_of (some (object fs)) = ok fs
runtime_of (some _) = err type_error

abbrev pub or_error : {A : Type 0} → Option A → Error → Result Error A
or_error none e = err e
or_error (some a) e = ok a

-- A text that has a form.
abbrev pub formed : (String → Bool) → Error → Option Json → Result Error String
formed test e value =
    and_then (or_error (as_text value) e) λ s. and_then (refuse_if (not (test s)) e) λ _. ok s

-- `len(paths) != len(set(paths))`
unfoldable pub has_repeat : List Json → Bool
unfolding any
has_repeat [] = false
has_repeat (v ∷ vs) = any (same_value v) vs || has_repeat vs

abbrev pub is_unsafe_path : Json → Bool
is_unsafe_path (text s) = not (is_relative_path s)
is_unsafe_path _ = true

-- The tests of `migrationPaths` and of `seedPaths`.
unfoldable pub check_paths : Option Json → Result Error (Unit {0})
unfolding has_repeat any elements
check_paths (some (array items)) =
    let paths = elements items in
    and_then
      (refuse_if (not (leb 1 (length paths) && leb (length paths) 32)) database_manifest_invalid)
      λ _.
        and_then (refuse_if (any is_unhashable paths) type_error)
          λ _. refuse_if (has_repeat paths || any is_unsafe_path paths) database_manifest_invalid
check_paths _ = err database_manifest_invalid
