-- ===== src/Prelude/Json.antt =====
-- Parsed JSON, as Python's `json.loads` returns it. `fraction` is a number that is equal
-- to no integer; one that is, like 3.0, is that integer.
use Prim.Native.Nat.{ℕ, zero, suc, ◌/◌, ◌%◌}
use Prim.Native.String.{String, ◌++◌ as ◌<>◌}
use mathlib.Core.Bool.{Bool, true, false, ◌&&◌}
use mathlib.Core.Option.{Option, none, some}
use mathlib.Core.List.{List, [], ◌∷◌}
use atenea_remote_worker_spe.Prelude.Tests.{ltb, ◌==◌, str_eq, if◌then◌else◌}
use atenea_remote_worker_spe.Prelude.Lists.{any, all}

mutual
  pub data Json : Type 0 where
    null : Json
    boolean : Bool → Json
    number : ℕ → Json
    -- `minus n` is -(n + 1).
    minus : ℕ → Json
    fraction : String → Json
    text : String → Json
    array : Items → Json
    object : Fields → Json

  pub data Items : Type 0 where
    no_items : Items
    item : Json → Items → Items

  pub data Fields : Type 0 where
    no_fields : Fields
    field : String → Json → Fields → Fields

-- `d.get(k)`
unfoldable pub get : String → Fields → Option Json
get k no_fields = none
get k (field j v fs) = if str_eq j k then some v else get k fs

-- `set(d)`
unfoldable pub keys : Fields → List String
keys no_fields = []
keys (field k v fs) = k ∷ keys fs

-- The elements of an array.
unfoldable pub elements : Items → List Json
elements no_items = []
elements (item j js) = j ∷ elements js

abbrev pub text_in : List String → String → Bool
text_in ks k = any (str_eq k) ks

-- `set(d) == set(ks)`
unfoldable pub same_keys : List String → List String → Bool
unfolding any all
same_keys ks js = all (text_in ks) js && all (text_in js) ks

-- `isinstance(v, str)`, with its value.
abbrev pub as_text : Option Json → Option String
as_text (some (text s)) = some s
as_text _ = none

abbrev pub as_object : Option Json → Option Fields
as_object (some (object fs)) = some fs
as_object _ = none

-- `isinstance(v, int)` and not a `bool`, with its value if it is not negative.
abbrev pub as_number : Option Json → Option ℕ
as_number (some (number n)) = some n
as_number _ = none

-- `v == s` for a text `s`.
abbrev pub is_text : String → Option Json → Bool
is_text s (some (text t)) = str_eq t s
is_text s _ = false

-- `v is True`
abbrev pub is_true : Option Json → Bool
is_true (some (boolean b)) = b
is_true _ = false

-- `v is None`, for a key that is absent too.
abbrev pub is_none : Option Json → Bool
is_none none = true
is_none (some null) = true
is_none _ = false

-- `v == 1`, which holds for `True` too.
abbrev pub is_one : Option Json → Bool
is_one (some (number n)) = n == 1
is_one (some (boolean b)) = b
is_one _ = false

abbrev digit_text : ℕ → String
digit_text n =
    if n == 0
    then "0"
    else if n == 1
    then "1"
    else if n == 2
    then "2"
    else if n == 3
    then "3"
    else if n == 4
    then "4"
    else if n == 5
    then "5"
    else if n == 6
    then "6"
    else if n == 7
    then "7"
    else if n == 8
    then "8"
    else "9"

-- A number has no more digits than `fuel`, if that is more than the number.
digits : ℕ → ℕ → String
digits zero n = ""
digits (suc fuel) n =
    let front = digits fuel (n / 10) in
    if ltb n 10 then digit_text n else front <> digit_text (n % 10)

-- `str(n)`
unfoldable pub show : ℕ → String
unfolding digits
show n = digits (suc n) n
