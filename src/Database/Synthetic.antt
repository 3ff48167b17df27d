-- ===== src/Database/Synthetic.antt =====
-- What a manifest that `validate_database_manifest` accepts declares.
use atenea_remote_worker_spe.Prelude.{
  String, ◌≡◌, ◌⊎◌, true, false, not, some, ok, subst, refuse_if, and_then-ok, refuse_if-ok, arith,
}
use atenea_remote_worker_spe.Prelude.Json.{Json, text, Fields, get, keys, same_keys, as_object}
use atenea_remote_worker_spe.Database.Names.{is_database_name, has_production_marker}
use atenea_remote_worker_spe.Database.Record.{
  database_manifest_invalid, database_manifest_required, production_target_denied,
}
use atenea_remote_worker_spe.Database.Images.{image_match}
use atenea_remote_worker_spe.Database.Entries.{or_error, formed, check_paths}
use atenea_remote_worker_spe.Database.Manifest.{
  manifest_keys, is_fixture, is_policy, check_engine, is_synthetic, check_project, check_secret,
  check_port, check_database, validate_database_manifest,
}
use atenea_remote_worker_spe.Database.Declared.{
  engine_image, IsInside, IsSecret, formed-ok, engine_names, image_pinned, check_paths-IsInside,
  check_secret-IsSecret, check_engine-IsPinned, as_object-ok,
}

pub record IsSynthetic (document database : Fields) : Type 0 where
  pub declared : get "database" document ≡ some (Json.object database)
  pub whole : same_keys (keys database) manifest_keys ≡ true
  pub fixture : is_fixture database ≡ true
  pub engine : String
  pub engine_declared : get "engine" database ≡ some (text engine)
  pub supported : (engine ≡ "postgresql") ⊎ (engine ≡ "mariadb")
  pub image : String
  pub image_declared : get "image" database ≡ some (text image)
  pub pinned : image_match image ≡ some (engine_image engine)
  pub name : String
  pub name_declared : get "databaseName" database ≡ some (text name)
  pub well_named : is_database_name name ≡ true
  pub unmarked : has_production_marker name ≡ false
  pub secret : IsSecret document database
  pub migrations : IsInside (get "migrationPaths" database)
  pub seeds : IsInside (get "seedPaths" database)
  pub policy : is_policy engine database ≡ true

check_database-IsSynthetic :
    (document database : Fields) (u : Unit {0})
    → get "database" document ≡ some (Json.object database)
    → check_database document database ≡ ok u
    → IsSynthetic document database
unfolding check_database
check_database-IsSynthetic document database u declared h =
    let (u1, whole, h1) =
      and_then-ok
        (refuse_if (not (same_keys (keys database) manifest_keys)) database_manifest_invalid) _ u
        h in
    let (u2, fixture, h2) =
      and_then-ok (refuse_if (not (is_fixture database)) production_target_denied) _ u h1 in
    let (engine, chosen, h3) = and_then-ok (check_engine database) _ u h2 in
    let (name, named, h4) =
      and_then-ok (formed is_synthetic production_target_denied (get "databaseName" database)) _ u
        h3 in
    let (project, identified, h5) = and_then-ok (check_project document) _ u h4 in
    let (u3, secret, h6) = and_then-ok (check_secret document database) _ u h5 in
    let (u4, port, h7) = and_then-ok (check_port document database) _ u h6 in
    let (u5, migrations, h8) = and_then-ok (check_paths (get "migrationPaths" database)) _ u h7 in
    let (u6, seeds, last) = and_then-ok (check_paths (get "seedPaths" database)) _ u h8 in
    let pin = check_engine-IsPinned database engine chosen in
    let known = engine_names engine pin.1 in
    let form =
      formed-ok is_synthetic production_target_denied (get "databaseName" database) name named in
    record {
      declared = declared;
      whole = ground (arith, refuse_if-ok _ _ u1 whole);
      fixture = ground (arith, refuse_if-ok _ _ u2 fixture);
      engine = engine;
      engine_declared = pin.0;
      supported = known;
      image = pin.2.0;
      image_declared = pin.2.1;
      pinned = image_pinned engine (image_match pin.2.0) known pin.2.2;
      name = name;
      name_declared = form.0;
      well_named = ground (arith, form.1);
      unmarked = ground (arith, form.1);
      secret = check_secret-IsSecret document database u3 secret;
      migrations = check_paths-IsInside (get "migrationPaths" database) u5 migrations;
      seeds = check_paths-IsInside (get "seedPaths" database) u6 seeds;
      policy = ground (arith, refuse_if-ok _ _ u last);
    }

-- A manifest that is accepted is returned as it declares its database: with exactly the known keys,
-- as a synthetic development fixture, with an image of its engine pinned by a digest, a database
-- name of the synthetic form without a production marker, one required secret without a value, and
-- one to thirty-two migration paths and one to thirty-two seed paths, each of which stays inside the
-- project; and with the one lifecycle policy.
pub validate-IsSynthetic :
    (document database : Fields)
    → validate_database_manifest document ≡ ok database
    → IsSynthetic document database
unfolding validate_database_manifest
validate-IsSynthetic document database h =
    let (database', declared, rest) =
      and_then-ok (or_error (as_object (get "database" document)) database_manifest_required) _
        database h in
    let (u, checked, same) = and_then-ok (check_database document database') _ database rest in
    let equal : database' ≡ database = cc same in
    subst (IsSynthetic document) equal (
      check_database-IsSynthetic document database' u
        (as_object-ok (get "database" document) database_manifest_required database' declared)
        checked)
