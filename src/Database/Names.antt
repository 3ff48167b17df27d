-- ===== src/Database/Names.antt =====
-- The patterns that ops/worker/database-lifecycle-state-v1.py compiles, as tests on a text.
use Prim.Native.Char.{code}
use Prim.Native.Nat.{◌+◌}
use atenea_remote_worker_spe.Prelude.{
  ℕ, String, Bool, true, false, ◌&&◌, ◌||◌, Option, none, some, List, [], ◌∷◌, leb, ◌==◌, str_eq,
  if◌then◌else◌,
}
use atenea_remote_worker_spe.Prelude.Pattern.{
  codes, Class, digit, lower, upper, hex, wordlike, times, literal, then_read, ends_with, at_end,
  uuid_head, variant,
}

-- `[0-9a-f]{8}-[0-9a-f]{4}-[0-9a-f]{4}-[89ab][0-9a-f]{3}-[0-9a-f]{12}`
unfoldable pub is_uuid : String → Bool
unfolding times literal
is_uuid s = at_end (
    then_read (uuid_head (codes s)) λ cs.
      then_read (times 1 variant cs)
        λ cs. then_read (times 3 hex cs) λ cs. then_read (literal (codes "-") cs) (times 12 hex))

-- `[a-z0-9-]`
abbrev project_class : Class
project_class c = lower c || digit c || c == b'-'

-- `[a-z][a-z0-9-]{1,62}`
unfoldable pub is_project : String → Bool
unfolding times
is_project s = ends_with project_class 1 62 (times 1 lower (codes s))

-- `[A-Za-z0-9._-]{1,80}`
unfoldable pub is_worker : String → Bool
is_worker s = ends_with wordlike 1 80 (some (codes s))

-- `ws-[0-9a-f]{32}`
unfoldable pub is_allocation : String → Bool
unfolding times literal
is_allocation s = at_end (then_read (literal (codes "ws-") (codes s)) (times 32 hex))

-- `[a-f0-9]{64}`
unfoldable pub is_sha256 : String → Bool
unfolding times
is_sha256 s = at_end (times 64 hex (codes s))

-- `[1-4]`
abbrev slot_digit : Class
slot_digit c = leb b'1' c && leb c b'4'

-- `slot[1-4]`
unfoldable pub is_slot : String → Bool
unfolding times literal
is_slot s = at_end (then_read (literal (codes "slot") (codes s)) (times 1 slot_digit))

-- `[a-z0-9_]`
abbrev name_class : Class
name_class c = lower c || digit c || c == b'_'

-- `synthetic_[a-z][a-z0-9_]{2,47}`
unfoldable pub is_database_name : String → Bool
unfolding times literal
is_database_name s =
    ends_with name_class 2 47 (then_read (literal (codes "synthetic_") (codes s)) (times 1 lower))

-- A letter under `re.I`, for the letters of the markers in ASCII texts.
abbrev fold_case : ℕ → ℕ
fold_case c = if upper c then c + 32 else c

folded : List ℕ → List ℕ
folded [] = []
folded (c ∷ cs) = fold_case c ∷ folded cs

-- `[_-]`
abbrev separator : Class
separator c = c == b'_' || c == b'-'

-- `([_-]|$)`, where `$` also stands before a newline that ends the text.
abbrev marker_end : Option (List ℕ) → Bool
marker_end none = false
marker_end (some []) = true
marker_end (some (c ∷ [])) = separator c || c == 10
marker_end (some (c ∷ _ ∷ _)) = separator c

-- `(prod|production|live)([_-]|$)`
abbrev marker_here : List ℕ → Bool
marker_here cs =
    marker_end (literal (codes "prod") cs)
    || marker_end (literal (codes "production") cs)
    || marker_end (literal (codes "live") cs)

-- The positions that follow `[_-]`.
marker_after : List ℕ → Bool
marker_after [] = false
marker_after (c ∷ cs) = (separator c && marker_here cs) || marker_after cs

-- `(^|[_-])(prod|production|live)([_-]|$)`, searched for.
unfoldable pub has_production_marker : String → Bool
unfolding literal folded marker_after
has_production_marker s = let cs = folded (codes s) in marker_here cs || marker_after cs

-- SUPPORTED_ENGINES
unfoldable pub is_supported_engine : String → Bool
is_supported_engine s = str_eq s "postgresql" || str_eq s "mariadb"

-- `text.replace("-", "")`
unfoldable pub without_dashes : String → String
without_dashes String.[] = String.[]
without_dashes (String.◌∷◌ c s) =
    let rest = without_dashes s in if code c == b'-' then rest else String.◌∷◌ c rest
