-- ===== src/Database/Components.antt =====
-- The pattern of a relative path reads a path as its parts do.
use atenea_remote_worker_spe.Prelude.{
  ℕ, String, ◌≡◌, refl, sym, inl, inr, Bool, true, false, not, ◌&&◌, ◌||◌, List, [], ◌∷◌, any, all,
  arith, Bool-cases, ◌==◌,
}
use atenea_remote_worker_spe.Prelude.Pattern.{codes, wordlike, literal}
use atenea_remote_worker_spe.Database.Paths.{
  path_class, starts_with, parent_here, parent_after, double_slash, is_empty, is_relative_path,
  first_part, later_parts, is_parent, is_name, inner_empty, stays_inside,
}

regroup : (w a f l : Bool) → a ≡ (f && l) → (w || false) && a ≡ (w && f) && l
regroup true a f l e = e
regroup false a f l e = refl

slash_path_class : (c : ℕ) → (c == b'/') ≡ true → path_class c ≡ true
slash_path_class c e = ground arith

-- The parts are made of the characters other than slashes.
all-parts :
    (cs : List ℕ) → all path_class cs ≡ (is_name (first_part cs) && all is_name (later_parts cs))
unfolding all first_part later_parts
all-parts [] = refl
all-parts (c ∷ cs) = elim (Bool-cases (c == b'/')) [
  | inl slash ↦ rw (slash_path_class c slash, slash) (all-parts cs)
  | inr other ↦ rw other (
      regroup (wordlike c) (all path_class cs) (is_name (first_part cs))
        (all is_name (later_parts cs)) (all-parts cs))
]

abbrev has_more : List (List ℕ) → Bool
has_more [] = false
has_more (p ∷ ps) = true

inner_empty-more :
    (p : List ℕ) (ps : List (List ℕ))
    → inner_empty (p ∷ ps) ≡ ((is_empty p && has_more ps) || inner_empty ps)
unfolding inner_empty
inner_empty-more [] [] = refl
inner_empty-more (c ∷ p) [] = refl
inner_empty-more [] (q ∷ ps) = refl
inner_empty-more (c ∷ p) (q ∷ ps) = refl

starts_with-parts :
    (cs : List ℕ) → starts_with b'/' cs ≡ (is_empty (first_part cs) && has_more (later_parts cs))
unfolding first_part later_parts
starts_with-parts [] = refl
starts_with-parts (c ∷ cs) = elim (Bool-cases (c == b'/')) [
  | inl slash ↦ rw slash refl
  | inr other ↦ rw other refl
]

double_slash-parts : (cs : List ℕ) → double_slash cs ≡ inner_empty (later_parts cs)
unfolding double_slash later_parts inner_empty
double_slash-parts [] = refl
double_slash-parts (c ∷ cs) = elim (Bool-cases (c == b'/')) [
  | inl slash ↦
      rw
        (
          slash,
          inner_empty-more (first_part cs) (later_parts cs),
          starts_with-parts cs,
          double_slash-parts cs,
        )
        refl
  | inr other ↦ rw other (double_slash-parts cs)
]

parent_here-parts :
    (cs : List ℕ) → all path_class cs ≡ true → parent_here cs ≡ is_parent (first_part cs)
unfolding literal all first_part
parent_here-parts [] m = refl
parent_here-parts (a ∷ []) m = ground arith
parent_here-parts (a ∷ b ∷ []) m = ground arith
parent_here-parts (a ∷ b ∷ c ∷ []) m = ground arith
parent_here-parts (a ∷ b ∷ c ∷ d ∷ cs) m = ground arith

parent_after-parts :
    (cs : List ℕ) → all path_class cs ≡ true → parent_after cs ≡ any is_parent (later_parts cs)
unfolding parent_after all any later_parts
parent_after-parts [] m = refl
parent_after-parts (c ∷ cs) m =
    let rest : all path_class cs ≡ true = ground arith in
    elim (Bool-cases (c == b'/')) [
      | inl slash ↦ rw (slash, parent_here-parts cs rest, parent_after-parts cs rest) refl
      | inr other ↦ rw other (parent_after-parts cs rest)
    ]

first_part-begins :
    (cs : List ℕ)
    → (not (starts_with b'/' cs) && not (is_empty cs)) ≡ not (is_empty (first_part cs))
unfolding first_part
first_part-begins [] = refl
first_part-begins (c ∷ cs) = elim (Bool-cases (c == b'/')) [
  | inl slash ↦ rw slash refl
  | inr other ↦ rw other refl
]

no_tilde : (cs : List ℕ) → all path_class cs ≡ true → starts_with b'~' cs ≡ false
unfolding all
no_tilde [] m = refl
no_tilde (c ∷ cs) m = ground arith

-- The tests of the pattern and of the parts, in their orders.
same_tests : (a h d e : Bool) → (a && true && h && d && e && true) ≡ ((a && e) && true && h && d)
same_tests a h d e = grind arith

same_refusal : (a t h d e f x y : Bool) → (a && t && h && d && e && false) ≡ (f && false && x && y)
same_refusal a t h d e f x y = grind arith

-- A text that matches the pattern of relative paths is one whose parts stay inside: the first part
-- is not empty and only the last may be, each part is made of letters, digits, dots, underscores
-- and dashes, and none is `..`; and every such text matches.
pub relative_path-parts : (s : String) → is_relative_path s ≡ stays_inside s
unfolding is_relative_path stays_inside any all
relative_path-parts s =
    let cs = codes s in
    elim (Bool-cases (all path_class cs)) [
      | inl members ↦
          rw
            (
              sym (all-parts cs),
              members,
              sym (first_part-begins cs),
              no_tilde cs members,
              parent_here-parts cs members,
              parent_after-parts cs members,
              double_slash-parts cs,
            )
            (same_tests (not (starts_with b'/' cs))
              (not (is_parent (first_part cs) || any is_parent (later_parts cs)))
              (not (inner_empty (later_parts cs))) (not (is_empty cs)))
      | inr strange ↦
          rw (sym (all-parts cs), strange)
            (same_refusal (not (starts_with b'/' cs)) (not (starts_with b'~' cs))
              (not (parent_here cs || parent_after cs)) (not (double_slash cs)) (not (is_empty cs))
              (not (is_empty (first_part cs)))
              (not (is_parent (first_part cs) || any is_parent (later_parts cs)))
              (not (inner_empty (later_parts cs))))
    ]
