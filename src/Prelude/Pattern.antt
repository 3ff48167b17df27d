-- ===== src/Prelude/Pattern.antt =====
-- The shapes of Python's `re` that the sources use: a text is read from the left as literals and
-- runs of characters of a class. A reader returns what is left of the text.
use Prim.Native.Nat.{ℕ, zero, suc}
use Prim.Native.Char.{code}
use Prim.Native.String.{String}
use mathlib.Core.Bool.{Bool, true, false, ◌&&◌, ◌||◌}
use mathlib.Core.Option.{Option, none, some}
use mathlib.Core.List.{List, [], ◌∷◌}
use atenea_remote_worker_spe.Prelude.Tests.{leb, ◌==◌, if◌then◌else◌}
use atenea_remote_worker_spe.Prelude.Lists.{length, all}

-- The code points of a text.
abbrev pub codes : String → List ℕ
codes String.[] = []
codes (String.◌∷◌ c s) = code c ∷ codes s

abbrev pub Class : Type 0
Class = ℕ → Bool

-- `[0-9]`
abbrev pub digit : Class
digit c = leb b'0' c && leb c b'9'

-- `[a-z]`
abbrev pub lower : Class
lower c = leb b'a' c && leb c b'z'

-- `[A-Z]`
abbrev pub upper : Class
upper c = leb b'A' c && leb c b'Z'

-- `[0-9a-f]`
abbrev pub hex : Class
hex c = digit c || (leb b'a' c && leb c b'f')

-- `[A-Za-z0-9._-]`
abbrev pub wordlike : Class
wordlike c = upper c || lower c || digit c || c == b'.' || c == b'_' || c == b'-'

-- `p{n}`
unfoldable pub times : ℕ → Class → List ℕ → Option (List ℕ)
times zero p cs = some cs
times (suc n) p [] = none
times (suc n) p (c ∷ cs) = let rest = times n p cs in if p c then rest else none

-- A literal text.
unfoldable pub literal : List ℕ → List ℕ → Option (List ℕ)
literal [] cs = some cs
literal (k ∷ ks) [] = none
literal (k ∷ ks) (c ∷ cs) = let rest = literal ks cs in if k == c then rest else none

abbrev pub then_read : Option (List ℕ) → (List ℕ → Option (List ℕ)) → Option (List ℕ)
then_read none f = none
then_read (some cs) f = f cs

-- `p{lo,hi}` up to the end of the text.
abbrev pub ends_with : Class → ℕ → ℕ → Option (List ℕ) → Bool
ends_with p lo hi none = false
ends_with p lo hi (some cs) = all p cs && leb lo (length cs) && leb (length cs) hi

-- The end of the text.
abbrev pub at_end : Option (List ℕ) → Bool
at_end (some []) = true
at_end _ = false

-- `[0-9a-f]{8}-[0-9a-f]{4}-[0-9a-f]{4}-`
abbrev pub uuid_head : List ℕ → Option (List ℕ)
uuid_head cs = then_read (times 8 hex cs) λ cs. then_read (literal (codes "-") cs) λ cs.
    then_read (times 4 hex cs) λ cs.
      then_read (literal (codes "-") cs) λ cs. then_read (times 4 hex cs) (literal (codes "-"))

-- `[89ab]`, the variant digit.
abbrev pub variant : Class
variant c = c == b'8' || c == b'9' || c == b'a' || c == b'b'

-- `str(uuid.UUID(value)) == value`: the canonical form of a UUID, with no error of `UUID`.
unfoldable pub is_canonical_uuid : String → Bool
unfolding times literal
is_canonical_uuid s = at_end (
    then_read (uuid_head (codes s))
      λ cs. then_read (times 4 hex cs) λ cs. then_read (literal (codes "-") cs) (times 12 hex))
