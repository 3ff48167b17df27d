-- ===== src/Preview/Store.antt =====
-- The record files and the steps of a request: `_read`, `_write`, `_records`, `_require_ownership`
-- and `_require_revision`. Writing a file does not fail here.
use atenea_remote_worker_spe.Prelude.{
  ℕ, String, Bool, not, ◌&&◌, Option, none, some, List, [], ◌∷◌, Result, ok, err, Action, refuse_if,
  and_then, str_eq, ◌==◌, Dict, lookup, insert, names,
}
use atenea_remote_worker_spe.Prelude.Pattern.{codes}
use atenea_remote_worker_spe.Prelude.Sorting.{sorted, text_before}
use atenea_remote_worker_spe.Preview.Record.{
  Preview, Stored, stored, broken, Failure, conflict, not_found, Coordinator,
}
use atenea_remote_worker_spe.Preview.Request.{Ownership}

abbrev pub Request : Type 0 → Type 0
Request A = Action Coordinator Failure A

-- A call without effects.
unfoldable pub check : {A : Type 0} → Result Failure A → Request A
check r c = (r, c)

-- A call that does not raise.
unfoldable pub change : (Coordinator → Coordinator) → Request (Unit {0})
change f c = (ok tt, f c)

-- `_read_json`
abbrev pub read_json : Stored → Result Failure Preview
read_json (stored p) = ok p
read_json broken = err (conflict "persisted_state_invalid")

-- `_read_optional`
abbrev pub read_optional : Option Stored → Result Failure (Option Preview)
read_optional none = ok none
read_optional (some f) = and_then (read_json f) λ p. ok (some p)

-- `_read`
abbrev pub read_stored : Option Stored → Result Failure Preview
read_stored none = err (not_found "preview_not_found")
read_stored (some f) = read_json f

unfoldable pub fetch_optional : String → Request (Option Preview)
unfolding lookup
fetch_optional id c = (read_optional (lookup id c.records), c)

unfoldable pub fetch : String → Request Preview
unfolding lookup
fetch id c = (read_stored (lookup id c.records), c)

-- `_write`
unfoldable pub write : Preview → Coordinator → Coordinator
unfolding insert
write p c = record c { records = insert p.preview_id (stored p) c.records }

-- `_require_ownership`
unfoldable pub same_owner : Preview → Ownership → Bool
same_owner p o =
    str_eq p.work_session_id o.work_session_id
    && str_eq p.project_id o.project_id
    && str_eq p.worker_id o.worker_id
    && str_eq p.allocation_identity o.allocation_identity
    && str_eq p.allocation_fingerprint o.allocation_fingerprint
    && p.synthetic_fixture

unfoldable pub require_ownership : Preview → Ownership → Request (Unit {0})
unfolding check same_owner
require_ownership p o =
    check (refuse_if (not (same_owner p o)) (conflict "preview_ownership_conflict"))

-- `_require_revision`
unfoldable pub require_revision : Preview → ℕ → Request (Unit {0})
unfolding check
require_revision p expected =
    check (refuse_if (not (p.lifecycle_revision == expected)) (conflict "stale_revision"))

-- The order of the directories in `sorted(records_root.glob("*/record.json"))`.
abbrev pub name_before : String → String → Bool
name_before a b = text_before (codes a) (codes b)

-- The files of some directories, read in turn.
unfoldable pub read_each : List String → Dict Stored → Result Failure (List Preview)
unfolding lookup
read_each [] d = ok []
read_each (id ∷ ids) d =
    and_then (read_stored (lookup id d)) λ p. and_then (read_each ids d) λ ps. ok (p ∷ ps)

-- `_records`
unfoldable pub all_records : Request (List Preview)
unfolding read_each sorted text_before names
all_records c = (read_each (sorted name_before (names c.records)) c.records, c)
