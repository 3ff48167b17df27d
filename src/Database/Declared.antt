-- ===== src/Database/Declared.antt =====
-- What the checks of a manifest's parts accept: its paths, its secret, its engine with the image.
use atenea_remote_worker_spe.Prelude.{
  ◌≤◌, String, ◌≡◌, refl, sym, ap, ◌∙◌, inl, inr, ◌⊎◌, Bool, true, false, not, ◌&&◌, ◌||◌, Option,
  none, some, List, [], ◌∷◌, In, any, keep_if, length, ok, subst, str_eq→eq, refuse_if, and_then-ok,
  refuse_if-ok, leb, arith, str_eq, ◌==◌, if◌then◌else◌, Bool-cases,
}
use atenea_remote_worker_spe.Prelude.Json.{
  Json, text, array, Items, Fields, get, elements, as_text, as_object,
}
use atenea_remote_worker_spe.Database.Names.{is_supported_engine}
use atenea_remote_worker_spe.Database.Record.{Error, database_manifest_invalid, type_error}
use atenea_remote_worker_spe.Database.Paths.{stays_inside}
use atenea_remote_worker_spe.Database.Components.{relative_path-parts}
use atenea_remote_worker_spe.Database.Images.{image_match, wrong_image, is_secret_name}
use atenea_remote_worker_spe.Database.Entries.{
  iterated, is_matching_secret, is_unhashable, is_unsafe_path, has_repeat, or_error, formed,
  check_paths,
}
use atenea_remote_worker_spe.Database.Manifest.{engine_of, check_engine, check_secret}

-- The image that an engine runs.
abbrev pub engine_image : String → String
engine_image engine = if str_eq engine "postgresql" then "postgres" else "mariadb"

-- A list of one to thirty-two texts that are paths inside the project.
pub record IsInside (value : Option Json) : Type 0 where
  pub items : Items
  pub is_list : value ≡ some (array items)
  pub few : (1 ≤ length (elements items)) × (length (elements items) ≤ 32)
  pub inside :
      (v : Json) → In v (elements items) → (s : String) × (v ≡ text s) × (stays_inside s ≡ true)

-- The one secret that a manifest names for its database carries no value.
pub record IsSecret (document database : Fields) : Type 0 where
  pub name : String
  pub named : get "secretRef" database ≡ some (text name)
  pub formed_name : is_secret_name name ≡ true
  pub secrets : List Json
  pub listed : iterated (get "secrets" document) ≡ ok secrets
  pub single : length (keep_if (is_matching_secret name) secrets) ≡ 1

pub as_text-ok :
    (value : Option Json) (e : Error) (s : String)
    → or_error (as_text value) e ≡ ok s
    → value ≡ some (text s)
as_text-ok (some (text t)) e s h = cc h
as_text-ok _ e s h = cc h

pub formed-ok :
    (test : String → Bool) (e : Error) (value : Option Json) (s : String)
    → formed test e value ≡ ok s
    → (value ≡ some (text s)) × (test s ≡ true)
formed-ok test e value s h =
    let (t, read, rest) = and_then-ok (or_error (as_text value) e) _ s h in
    let (u, tested, same) = and_then-ok (refuse_if (not (test t)) e) (λ _. ok t) s rest in
    let known : t ≡ s = cc same in
    let passed : test t ≡ true = ground (arith, refuse_if-ok (not (test t)) e u tested) in
    (as_text-ok value e t read ∙ ap (λ x. some (text x)) known, ap test (sym known) ∙ passed)

any-In :
    (test : Json → Bool) (v : Json) (vs : List Json)
    → any test vs ≡ false
    → In v vs
    → test v ≡ false
unfolding any
any-In test v [] h m = elim m [ ]
any-In test v (w ∷ vs) h (inl e) = ap test (sym e) ∙ ground arith
any-In test v (w ∷ vs) h (inr m) = any-In test v vs (ground arith) m

safe_path :
    (v : Json) → is_unsafe_path v ≡ false → (s : String) × (v ≡ text s) × (stays_inside s ≡ true)
safe_path (text s) h = (s, refl, sym (relative_path-parts s) ∙ ground arith)
safe_path _ h = cc h

pub check_paths-IsInside :
    (value : Option Json) (u : Unit {0}) → check_paths value ≡ ok u → IsInside value
unfolding check_paths has_repeat
check_paths-IsInside (some (array items)) u h =
    let paths = elements items in
    let (u1, few, rest) =
      and_then-ok
        (refuse_if (not (leb 1 (length paths) && leb (length paths) 32)) database_manifest_invalid)
        _ u h in
    let (u2, hashed, last) =
      and_then-ok (refuse_if (any is_unhashable paths) type_error) _ u rest in
    let counted =
      refuse_if-ok (not (leb 1 (length paths) && leb (length paths) 32)) database_manifest_invalid
        u1 few in
    let safe =
      refuse_if-ok (has_repeat paths || any is_unsafe_path paths) database_manifest_invalid u
        last in
    record {
      items = items;
      is_list = refl;
      few = (ground arith, ground arith);
      inside = λ v m. safe_path v (any-In is_unsafe_path v paths (ground arith) m);
    }
check_paths-IsInside _ u h = cc h

pub check_secret-IsSecret :
    (document database : Fields) (u : Unit {0})
    → check_secret document database ≡ ok u
    → IsSecret document database
unfolding check_secret
check_secret-IsSecret document database u h =
    let (name, named, rest) =
      and_then-ok (formed is_secret_name database_manifest_invalid (get "secretRef" database)) _ u
        h in
    let (secrets, listed, last) = and_then-ok (iterated (get "secrets" document)) _ u rest in
    let form =
      formed-ok is_secret_name database_manifest_invalid (get "secretRef" database) name named in
    let one =
      refuse_if-ok (not (length (keep_if (is_matching_secret name) secrets) == 1))
        database_manifest_invalid u last in
    record {
      name = name;
      named = form.0;
      formed_name = form.1;
      secrets = secrets;
      listed = listed;
      single = ground arith;
    }

-- The engine and the image that `check_engine` accepts.
abbrev pub IsPinned : Fields → String → Type 0
IsPinned database engine =
    (get "engine" database ≡ some (text engine))
    × (is_supported_engine engine ≡ true)
    × ((image : String) × (get "image" database ≡ some (text image))
        × (wrong_image engine (image_match image) ≡ false))

engine_of-ok :
    (value : Option Json) (engine : String)
    → engine_of value ≡ ok engine
    → (value ≡ some (text engine)) × (is_supported_engine engine ≡ true)
engine_of-ok (some (text s)) engine h =
    formed-ok is_supported_engine database_manifest_invalid (some (text s)) engine h
engine_of-ok _ engine h = cc h

pub check_engine-IsPinned :
    (database : Fields) (engine : String)
    → check_engine database ≡ ok engine
    → IsPinned database engine
unfolding check_engine
check_engine-IsPinned database engine h =
    let (e, known, rest) = and_then-ok (engine_of (get "engine" database)) _ engine h in
    let (image, found, last) =
      and_then-ok (or_error (as_text (get "image" database)) database_manifest_invalid) _ engine
        rest in
    let (u, right, same) =
      and_then-ok (refuse_if (wrong_image e (image_match image)) database_manifest_invalid) _ engine
        last in
    let equal : e ≡ engine = cc same in
    let pair = engine_of-ok (get "engine" database) e known in
    subst (IsPinned database) equal (
      pair.0,
      pair.1,
      (
        image,
        as_text-ok (get "image" database) database_manifest_invalid image found,
        refuse_if-ok (wrong_image e (image_match image)) database_manifest_invalid u right,
      ),
    )

pub engine_names :
    (engine : String)
    → is_supported_engine engine ≡ true
    → (engine ≡ "postgresql") ⊎ (engine ≡ "mariadb")
unfolding is_supported_engine
engine_names engine h = elim (Bool-cases (str_eq engine "postgresql")) [
  | inl same ↦ inl (str_eq→eq engine "postgresql" same)
  | inr other ↦ inr (str_eq→eq engine "mariadb" (rw other at h))
]

-- The name in the image is the one that the engine's images have.
image_name :
    (engine name : String)
    → (engine ≡ "postgresql") ⊎ (engine ≡ "mariadb")
    → wrong_image engine (some name) ≡ false
    → name ≡ engine_image engine
image_name engine name (inl e) h =
    str_eq→eq name "postgres" (ground (arith, subst (λ x. wrong_image x (some name) ≡ false) e h))
    ∙ ap engine_image (sym e)
image_name engine name (inr e) h =
    str_eq→eq name "mariadb" (ground (arith, subst (λ x. wrong_image x (some name) ≡ false) e h))
    ∙ ap engine_image (sym e)

pub image_pinned :
    (engine : String) (found : Option String)
    → (engine ≡ "postgresql") ⊎ (engine ≡ "mariadb")
    → wrong_image engine found ≡ false
    → found ≡ some (engine_image engine)
image_pinned engine none known h = cc h
image_pinned engine (some name) known h = ap (λ x. some x) (image_name engine name known h)

pub as_object-ok :
    (value : Option Json) (e : Error) (fs : Fields)
    → or_error (as_object value) e ≡ ok fs
    → value ≡ some (Json.object fs)
as_object-ok (some (Json.object fs')) e fs h = cc h
as_object-ok _ e fs h = cc h
