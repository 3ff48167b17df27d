-- ===== src/Database/Paths.antt =====
-- `RELATIVE_PATH_PATTERN`, and the parts of a path between its slashes.
use atenea_remote_worker_spe.Prelude.{
  ℕ, String, Bool, true, false, not, ◌&&◌, ◌||◌, Option, none, some, List, [], ◌∷◌, any, all, ◌==◌,
  if◌then◌else◌,
}
use atenea_remote_worker_spe.Prelude.Pattern.{codes, Class, wordlike, literal}

-- `[A-Za-z0-9._/-]`
abbrev pub path_class : Class
path_class c = wordlike c || c == b'/'

abbrev pub starts_with : ℕ → List ℕ → Bool
starts_with k [] = false
starts_with k (c ∷ cs) = c == k

-- `(?:/|$)`, where `$` also stands before a newline that ends the text.
abbrev pub slash_or_end : Option (List ℕ) → Bool
slash_or_end none = false
slash_or_end (some []) = true
slash_or_end (some (c ∷ [])) = c == b'/' || c == 10
slash_or_end (some (c ∷ _ ∷ _)) = c == b'/'

-- `\.\.(?:/|$)`
abbrev pub parent_here : List ℕ → Bool
parent_here cs = slash_or_end (literal (b'.' ∷ b'.' ∷ []) cs)

-- `/\.\.(?:/|$)`, searched for. The search of the source stops at a newline, after which the text
-- does not match anyway.
unfoldable pub parent_after : List ℕ → Bool
unfolding literal
parent_after [] = false
parent_after (c ∷ cs) = (c == b'/' && parent_here cs) || parent_after cs

-- `//`, searched for in the same way.
unfoldable pub double_slash : List ℕ → Bool
double_slash [] = false
double_slash (c ∷ cs) = (c == b'/' && starts_with b'/' cs) || double_slash cs

abbrev pub is_empty : List ℕ → Bool
is_empty [] = true
is_empty (c ∷ cs) = false

-- RELATIVE_PATH_PATTERN, with its four assertions first.
unfoldable pub is_relative_path : String → Bool
unfolding literal parent_after double_slash all
is_relative_path s =
    let cs = codes s in
    not (starts_with b'/' cs)
    && not (starts_with b'~' cs)
    && not (parent_here cs || parent_after cs)
    && not (double_slash cs)
    && not (is_empty cs)
    && all path_class cs

-- The part of a path before its first slash, and the parts after it.
unfoldable pub first_part : List ℕ → List ℕ
first_part [] = []
first_part (c ∷ cs) = let rest = first_part cs in if c == b'/' then [] else c ∷ rest

unfoldable pub later_parts : List ℕ → List (List ℕ)
unfolding first_part
later_parts [] = []
later_parts (c ∷ cs) = let rest = later_parts cs in if c == b'/' then first_part cs ∷ rest else rest

-- `..`
abbrev pub is_parent : List ℕ → Bool
is_parent (a ∷ b ∷ []) = a == b'.' && b == b'.'
is_parent _ = false

abbrev pub is_name : List ℕ → Bool
is_name part = all wordlike part

-- An empty part that another part follows.
unfoldable pub inner_empty : List (List ℕ) → Bool
inner_empty [] = false
inner_empty (p ∷ []) = false
inner_empty (p ∷ q ∷ ps) = is_empty p || inner_empty (q ∷ ps)

-- A path by its parts: the first is not empty and only the last may be, each is a name, and none
-- is `..`.
unfoldable pub stays_inside : String → Bool
unfolding first_part later_parts inner_empty any all
stays_inside s =
    let first = first_part (codes s) in
    let later = later_parts (codes s) in
    not (is_empty first)
    && all is_name (first ∷ later)
    && not (any is_parent (first ∷ later))
    && not (inner_empty later)
