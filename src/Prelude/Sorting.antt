-- ===== src/Prelude/Sorting.antt =====
-- Python's `sorted` by a key's order: stable insertion.
use Prim.Native.Nat.{ℕ, suc}
use mathlib.Core.Path.{◌≡◌, refl}
use mathlib.Core.Logic.{◌⊎◌, inl, inr}
use mathlib.Core.Bool.{Bool, true, false}
use mathlib.Core.List.{List, [], ◌∷◌}
use native.Mathlib.Omega.{arith}
use atenea_remote_worker_spe.Prelude.Tests.{ltb, ◌==◌, if◌then◌else◌, Bool-cases}
use atenea_remote_worker_spe.Prelude.Lists.{length, In}

module _ {ℓ} {A : Type ℓ} (before : A → A → Bool) where
  -- `before a b`: `a` may stand before `b`.
  unfoldable pub put_in : A → List A → List A
  put_in a [] = a ∷ []
  put_in a (b ∷ bs) = if before a b then a ∷ b ∷ bs else b ∷ put_in a bs

  unfoldable pub sorted : List A → List A
  unfolding put_in
  sorted [] = []
  sorted (a ∷ rest) = put_in a (sorted rest)

  length-put_in : (a : A) (bs : List A) → length (put_in a bs) ≡ suc (length bs)
  unfolding put_in
  length-put_in a [] = refl
  length-put_in a (b ∷ bs) = ground (arith, length-put_in a bs)

  pub length-sorted : (xs : List A) → length (sorted xs) ≡ length xs
  unfolding sorted
  length-sorted [] = refl
  length-sorted (x ∷ xs) = ground (arith, length-put_in x (sorted xs), length-sorted xs)

either_later : {X Y Z W : Type 0} → ((X ⊎ Z) → W) → X ⊎ (Y ⊎ Z) → Y ⊎ W
either_later f (inl x) = inr (f (inl x))
either_later f (inr (inl y)) = inl y
either_later f (inr (inr z)) = inr (f (inr z))

swapped : {X Y Z W : Type 0} → (Z → X ⊎ W) → Y ⊎ Z → X ⊎ (Y ⊎ W)
swapped f (inl y) = inr (inl y)
swapped f (inr z) = elim (f z) [ inl x ↦ inl x | inr w ↦ inr (inr w) ]

module _ {A : Type 0} (before : A → A → Bool) where
  In-put_in : (a x : A) (xs : List A) → (a ≡ x) ⊎ In x xs → In x (put_in before a xs)
  unfolding put_in
  In-put_in a x [] m = m
  In-put_in a x (b ∷ bs) m = elim (Bool-cases (before a b)) [
    | inl first ↦ rw first m
    | inr later ↦ rw later (either_later (In-put_in a x bs) m)
  ]

  -- Sorting loses no element.
  pub In-sorted : (x : A) (xs : List A) → In x xs → In x (sorted before xs)
  unfolding sorted
  In-sorted x [] m = elim m [ ]
  In-sorted x (a ∷ rest) (inl e) = In-put_in a x (sorted before rest) (inl e)
  In-sorted x (a ∷ rest) (inr m) = In-put_in a x (sorted before rest) (inr (In-sorted x rest m))

  put_in-In : (a x : A) (xs : List A) → In x (put_in before a xs) → (a ≡ x) ⊎ In x xs
  unfolding put_in
  put_in-In a x [] m = m
  put_in-In a x (b ∷ bs) m = elim (Bool-cases (before a b)) [
    | inl first ↦ rw first at m
    | inr later ↦ swapped (put_in-In a x bs) (rw later at m)
  ]

  -- Nor does it add one.
  pub sorted-In : (x : A) (xs : List A) → In x (sorted before xs) → In x xs
  unfolding sorted
  sorted-In x [] m = elim m [ ]
  sorted-In x (a ∷ rest) m = elim (put_in-In a x (sorted before rest) m) [
    | inl e ↦ inl e
    | inr m' ↦ inr (sorted-In x rest m')
  ]

-- Python's `<=` on texts, by their code points.
unfoldable pub text_before : List ℕ → List ℕ → Bool
text_before [] cs = true
text_before (a ∷ as') [] = false
text_before (a ∷ as') (b ∷ bs) =
    let rest = text_before as' bs in if ltb a b then true else if a == b then rest else false
