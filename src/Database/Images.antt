-- ===== src/Database/Images.antt =====
-- `IMAGE_PATTERN` and `SECRET_PATTERN`.
use atenea_remote_worker_spe.Prelude.{
  ℕ, String, Bool, true, not, ◌&&◌, ◌||◌, Option, none, some, List, [], ◌∷◌, ◌==◌, str_eq,
  if◌then◌else◌,
}
use atenea_remote_worker_spe.Prelude.Pattern.{
  codes, Class, digit, upper, hex, times, literal, then_read, ends_with, at_end,
}

-- `[0-9]*`
unfoldable pub skip_digits : List ℕ → List ℕ
skip_digits [] = []
skip_digits (c ∷ cs) = let rest = skip_digits cs in if digit c then rest else c ∷ cs

-- `[0-9]+`
abbrev pub read_number : List ℕ → Option (List ℕ)
read_number cs = then_read (times 1 digit cs) λ rest. some (skip_digits rest)

-- `(?:\.[0-9]+)?`, where what follows in the pattern does not begin with a dot.
abbrev pub more_version : List ℕ → Option (List ℕ)
more_version [] = some []
more_version (c ∷ cs) = if c == b'.' then read_number cs else some (c ∷ cs)

-- `[0-9]+(?:\.[0-9]+){0,2}@sha256:[a-f0-9]{64}`
unfoldable pub version_and_digest : List ℕ → Option (List ℕ)
unfolding times literal skip_digits
version_and_digest cs = then_read (read_number cs) λ cs.
    then_read (more_version cs) λ cs.
      then_read (more_version cs) λ cs. then_read (literal (codes "@sha256:") cs) (times 64 hex)

abbrev pub is_image_of : String → String → Bool
is_image_of name image = at_end (
    then_read (literal (codes name) (codes image))
      λ cs. then_read (literal (codes ":") cs) version_and_digest)

-- IMAGE_PATTERN, with the text of its group.
unfoldable pub image_match : String → Option String
unfolding literal
image_match image =
    if is_image_of "postgres" image
    then some "postgres"
    else if is_image_of "mariadb" image
    then some "mariadb"
    else none

-- The group is not the name that the engine's images have.
abbrev pub wrong_image : String → Option String → Bool
wrong_image engine none = true
wrong_image engine (some name) =
    (str_eq engine "postgresql" && not (str_eq name "postgres"))
    || (str_eq engine "mariadb" && not (str_eq name "mariadb"))

-- `[A-Z0-9_]`
abbrev secret_class : Class
secret_class c = upper c || digit c || c == b'_'

-- SECRET_PATTERN
unfoldable pub is_secret_name : String → Bool
unfolding times
is_secret_name s = ends_with secret_class 2 63 (times 1 upper (codes s))
