-- ===== src/Prelude/Triples.antt =====
-- Statements on an action: from a state with one property it returns in a state with another, or
-- raises in a state with a third.
use mathlib.Core.Path.{◌≡◌, refl}
use mathlib.Core.Bool.{Bool, true, false}
use atenea_remote_worker_spe.Prelude.Tests.{if◌then◌else◌}
use atenea_remote_worker_spe.Prelude.Outcome.{Result, ok, err, Action, pure, continue, ◌>>=◌}

module _ {S E : Type 0} where
  abbrev pub Post : {A : Type 0} → (A → S → Type 0) → (S → Type 0) → Result E A × S → Type 0
  Post Q R (ok a, s) = Q a s
  Post Q R (err e, s) = R s

  pub record Triple {A : Type 0} (P : S → Type 0) (m : Action S E A) (Q : A → S → Type 0)
      (R : S → Type 0) : Type 0 where
    pub holds : (s : S) → P s → Post Q R (m s)

  continue-Post :
      {A B : Type 0} (f : A → Action S E B) (Q : A → S → Type 0) (Q' : B → S → Type 0)
      (R : S → Type 0) (x : Result E A × S)
      → ((a : A) → Triple (Q a) (f a) Q' R)
      → Post Q R x
      → Post Q' R (continue x.0 f x.1)
  continue-Post f Q Q' R (ok a, s) u q = (u a).holds s q
  continue-Post f Q Q' R (err e, s) u q = q

  pub bind :
      {A B : Type 0} {P : S → Type 0} {m : Action S E A} {f : A → Action S E B} (Q : A → S → Type 0)
      {Q' : B → S → Type 0} {R : S → Type 0}
      → Triple P m Q R
      → ((a : A) → Triple (Q a) (f a) Q' R)
      → Triple P (m >>= f) Q' R
  bind {m = m} {f = f} Q {Q'} {R} t u = record {
    holds = λ s p. continue-Post f Q Q' R (m s) u (t.holds s p);
  }

  pub given :
      {A : Type 0} {m : Action S E A} {P : S → Type 0} (P' : S → Type 0) {Q : A → S → Type 0}
      {R : S → Type 0}
      → ((s : S) → P s → P' s)
      → Triple P' m Q R
      → Triple P m Q R
  given P' f t = record { holds = λ s q. t.holds s (f s q) }

  pub returned :
      {A : Type 0} (a : A) {P : S → Type 0} (Q : A → S → Type 0) {R : S → Type 0}
      → ((s : S) → P s → Q a s)
      → Triple P (pure a) Q R
  returned a Q f = record { holds = f }

  -- A test, with its outcome known in each branch.
  pub split :
      {A : Type 0} (b : Bool) (x y : Action S E A) {P : S → Type 0} {Q : A → S → Type 0}
      {R : S → Type 0}
      → (b ≡ true → Triple P x Q R)
      → (b ≡ false → Triple P y Q R)
      → Triple P (if b then x else y) Q R
  split true x y t u = t refl
  split false x y t u = u refl

  pub weaken-Post :
      {A : Type 0} (Q Q' : A → S → Type 0) (R R' : S → Type 0) (x : Result E A × S)
      → ((a : A) (s : S) → Q a s → Q' a s)
      → ((s : S) → R s → R' s)
      → Post Q R x
      → Post Q' R' x
  weaken-Post Q Q' R R' (ok a, s) f g q = f a s q
  weaken-Post Q Q' R R' (err e, s) f g q = g s q

  pub weaken :
      {A : Type 0} {m : Action S E A} {P : S → Type 0} (Q : A → S → Type 0) {Q' : A → S → Type 0}
      (R : S → Type 0) {R' : S → Type 0}
      → ((a : A) (s : S) → Q a s → Q' a s)
      → ((s : S) → R s → R' s)
      → Triple P m Q R
      → Triple P m Q' R'
  weaken {m = m} Q {Q'} R {R'} f g t = record {
    holds = λ s p. weaken-Post Q Q' R R' (m s) f g (t.holds s p);
  }
