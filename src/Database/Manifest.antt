-- ===== src/Database/Manifest.antt =====
-- `validate_database_manifest`: the checks of a project's manifest, in the order of the source.
use atenea_remote_worker_spe.Prelude.{
  ℕ, String, Bool, false, not, ◌&&◌, ◌||◌, Option, none, some, List, [], ◌∷◌, any, keep_if, length,
  Result, ok, err, refuse_if, and_then, ◌==◌, str_eq, if◌then◌else◌,
}
use atenea_remote_worker_spe.Prelude.Json.{
  Json, number, fraction, text, array, object, Fields, get, keys, same_keys, as_text, as_object,
  is_text, is_true, is_one,
}
use atenea_remote_worker_spe.Database.Names.{
  is_project, is_database_name, has_production_marker, is_supported_engine,
}
use atenea_remote_worker_spe.Database.Record.{
  Error, production_target_denied, database_manifest_required, database_manifest_invalid,
  type_error,
}
use atenea_remote_worker_spe.Database.Images.{image_match, wrong_image, is_secret_name}
use atenea_remote_worker_spe.Database.Entries.{
  iterated, is_matching_secret, is_unhashable, same_value, or_null, names_of, runtime_of, or_error,
  formed, check_paths,
}

abbrev pub manifest_keys : List String
manifest_keys =
    "schemaVersion" ∷ "classification" ∷ "syntheticDevelopmentFixture" ∷ "engine" ∷ "image"
    ∷ "databaseName" ∷ "portName" ∷ "migrationPaths" ∷ "seedPaths" ∷ "secretRef" ∷ "healthCheck"
    ∷ "snapshotFormat" ∷ "retention" ∷ "replacementMode" ∷ []

abbrev pub is_number : ℕ → Option Json → Bool
is_number n (some (number m)) = m == n
is_number n _ = false

-- `retention` has SYNTHETIC_MAX_COPIES and SYNTHETIC_MAX_AGE_DAYS, and nothing else.
unfoldable pub is_retention : Option Json → Bool
unfolding get keys same_keys
is_retention (some (object fs)) =
    same_keys (keys fs) ("maxCopies" ∷ "maxAgeDays" ∷ [])
    && is_number 3 (get "maxCopies" fs)
    && is_number 7 (get "maxAgeDays" fs)
is_retention _ = false

-- `expected_format`
abbrev pub snapshot_format : String → String
snapshot_format engine =
    if str_eq engine "postgresql" then "postgres-custom-v1" else "mariadb-sql-v1"

-- The last test, of the lifecycle policy.
unfoldable pub is_policy : String → Fields → Bool
unfolding get is_retention
is_policy engine database =
    is_text "select-one" (get "healthCheck" database)
    && is_text (snapshot_format engine) (get "snapshotFormat" database)
    && is_text "explicit-confirmed" (get "replacementMode" database)
    && is_retention (get "retention" database)

-- The first tests: a synthetic development fixture of the known schema.
unfoldable pub is_fixture : Fields → Bool
unfolding get
is_fixture database =
    is_one (get "schemaVersion" database)
    && is_text "synthetic-development" (get "classification" database)
    && is_true (get "syntheticDevelopmentFixture" database)

-- The engine; a value without hash raises `TypeError` in the test.
abbrev pub engine_of : Option Json → Result Error String
engine_of (some (array _)) = err type_error
engine_of (some (object _)) = err type_error
engine_of value = formed is_supported_engine database_manifest_invalid value

abbrev pub is_synthetic : String → Bool
is_synthetic name = is_database_name name && not (has_production_marker name)

-- The engine with its image.
unfoldable pub check_engine : Fields → Result Error String
unfolding get
check_engine database = and_then (engine_of (get "engine" database)) λ engine.
    and_then (or_error (as_text (get "image" database)) database_manifest_invalid) λ image.
      and_then (refuse_if (wrong_image engine (image_match image)) database_manifest_invalid)
        λ _. ok engine

-- The secret that the database names.
unfoldable pub check_secret : Fields → Fields → Result Error (Unit {0})
unfolding get keep_if
check_secret document database =
    and_then (formed is_secret_name database_manifest_invalid (get "secretRef" database)) λ name.
      and_then (iterated (get "secrets" document)) λ secrets.
        refuse_if (not (length (keep_if (is_matching_secret name) secrets) == 1))
          database_manifest_invalid

-- The port that the database names.
unfoldable pub check_port : Fields → Fields → Result Error (Unit {0})
unfolding get names_of any
check_port document database = and_then (runtime_of (get "runtime" document)) λ runtime.
    and_then (iterated (get "internalPorts" runtime)) λ ports.
      let port = or_null (get "portName" database) in
      and_then (refuse_if (any is_unhashable (names_of ports) || is_unhashable port) type_error)
        λ _. refuse_if (not (any (same_value port) (names_of ports))) database_manifest_invalid

-- `str(project.get("id", ""))`, for a text or a `float`; the text of another value is no identity.
abbrev pub identity_text : Option Json → Option String
identity_text (some (text s)) = some s
identity_text (some (fraction s)) = some s
identity_text _ = none

unfoldable pub check_project : Fields → Result Error String
unfolding get
check_project document =
    and_then (or_error (as_object (get "project" document)) database_manifest_invalid) λ project.
      and_then (or_error (identity_text (get "id" project)) database_manifest_invalid) λ identity.
        and_then (refuse_if (not (is_project identity)) database_manifest_invalid) λ _. ok identity

-- The checks of a declared database.
unfoldable pub check_database : Fields → Fields → Result Error (Unit {0})
unfolding check_engine check_project check_secret check_port check_paths get same_keys keys
check_database document database =
    and_then (refuse_if (not (same_keys (keys database) manifest_keys)) database_manifest_invalid)
      λ _. and_then (refuse_if (not (is_fixture database)) production_target_denied) λ _.
        and_then (check_engine database) λ engine.
          and_then (formed is_synthetic production_target_denied (get "databaseName" database)) λ _.
            and_then (check_project document) λ _. and_then (check_secret document database) λ _.
              and_then (check_port document database) λ _.
                and_then (check_paths (get "migrationPaths" database)) λ _.
                  and_then (check_paths (get "seedPaths" database))
                    λ _. refuse_if (not (is_policy engine database)) database_manifest_invalid

-- `validate_database_manifest`
unfoldable pub validate_database_manifest : Fields → Result Error Fields
unfolding get
validate_database_manifest document =
    and_then (or_error (as_object (get "database" document)) database_manifest_required)
      λ database. and_then (check_database document database) λ _. ok database
