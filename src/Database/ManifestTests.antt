-- ===== src/Database/ManifestTests.antt =====
-- A manifest that declares a database, and its theorems applied to it.
use atenea_remote_worker_spe.Prelude.{String, ◌≡◌, refl, true, ok, any, all, keep_if}
use atenea_remote_worker_spe.Prelude.Json.{
  Json, boolean, number, text, array, object, no_items, item, Fields, no_fields, field, get, keys,
  same_keys, elements,
}
use atenea_remote_worker_spe.Prelude.Pattern.{times, literal}
use atenea_remote_worker_spe.Database.Names.{
  is_project, is_database_name, has_production_marker, is_supported_engine,
}
use atenea_remote_worker_spe.Database.Paths.{
  is_relative_path, parent_after, double_slash, stays_inside,
}
use atenea_remote_worker_spe.Database.Images.{
  skip_digits, version_and_digest, image_match, is_secret_name,
}
use atenea_remote_worker_spe.Database.Entries.{
  is_matching_secret, names_of, has_repeat, check_paths,
}
use atenea_remote_worker_spe.Database.Manifest.{
  is_retention, is_policy, is_fixture, check_engine, check_secret, check_port, check_project,
  check_database, validate_database_manifest,
}
use atenea_remote_worker_spe.Database.Components.{relative_path-parts}
use atenea_remote_worker_spe.Database.Synthetic.{IsSynthetic, validate-IsSynthetic}

abbrev image : String
image = "postgres:16.2@sha256:00112233445566778899aabbccddeeff00112233445566778899aabbccddeeff"

abbrev retention : Json
retention = object (field "maxCopies" (number 3) (field "maxAgeDays" (number 7) no_fields))

abbrev database : Fields
database = field "schemaVersion" (number 1) (
    field "classification" (text "synthetic-development") (
      field "syntheticDevelopmentFixture" (boolean true) (
        field "engine" (text "postgresql") (
          field "image" (text image) (
            field "databaseName" (text "synthetic_shop") (
              field "portName" (text "db") (
                field "migrationPaths" (array (item (text "db/up.sql") no_items)) (
                  field "seedPaths" (array (item (text "db/seed.sql") no_items)) (
                    field "secretRef" (text "DB_PASSWORD") (
                      field "healthCheck" (text "select-one") (
                        field "snapshotFormat" (text "postgres-custom-v1") (
                          field "retention" retention (
                            field "replacementMode" (text "explicit-confirmed")
                              no_fields)))))))))))))

abbrev secret : Json
secret = object (
    field "name" (text "DB_PASSWORD")
      (field "exposure" (text "database") (field "required" (boolean true) no_fields)))

abbrev port : Json
port = object (field "name" (text "db") no_fields)

abbrev document : Fields
document = field "project" (object (field "id" (text "shop") no_fields)) (
    field "secrets" (array (item secret no_items)) (
      field "runtime" (object (field "internalPorts" (array (item port no_items)) no_fields))
        (field "database" (object database) no_fields)))

document_validates : validate_database_manifest document ≡ ok database
unfolding validate_database_manifest check_database check_engine check_secret check_port
    check_project check_paths is_policy is_retention is_fixture is_matching_secret names_of
    has_repeat image_match version_and_digest skip_digits is_secret_name is_relative_path
    parent_after double_slash is_project is_database_name has_production_marker is_supported_engine
    times literal get keys same_keys elements any all keep_if
document_validates = refl

validate-IsSynthetic_example : IsSynthetic document database
validate-IsSynthetic_example = validate-IsSynthetic document database document_validates

relative_path-parts_example : is_relative_path "db/../up.sql" ≡ stays_inside "db/../up.sql"
relative_path-parts_example = relative_path-parts "db/../up.sql"
