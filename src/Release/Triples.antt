-- ===== src/Release/Triples.antt =====
-- Statements on a step: from a plan and a log with one property it returns with another, or raises
-- with a third. None of them looks at the world outside.
use atenea_remote_worker_spe.Prelude.{
  Bool, if◌then◌else◌, List, [], ◌∷◌, ◌++◌, Result, ok, err, pure, continue, ◌>>=◌, ◌≡◌, refl, ◌⊎◌,
  inl, inr,
}
use atenea_remote_worker_spe.Release.Plan.{Plan, Failure}
use atenea_remote_worker_spe.Release.Platform.{Platform}
use atenea_remote_worker_spe.Release.Execution.{
  Run, Step, Event, saved, catch, outside, note, save, update, current, require,
}

abbrev pub Property : Type 1
Property = Plan → List Event → Type 0

module _ {h : Platform} where
  abbrev pub Post : {A : Type 0} → (A → Property) → Property → Result Failure A × Run h → Type 0
  Post Q R (ok a, s) = Q a s.plan s.log
  Post Q R (err e, s) = R s.plan s.log

  pub record Triple {A : Type 0} (P : Property) (m : Step h A) (Q : A → Property) (R : Property)
      : Type 0 where
    pub holds : (s : Run h) → P s.plan s.log → Post Q R (m s)

  continue-Post :
      {A B : Type 0} (f : A → Step h B) (Q : A → Property) (Q' : B → Property) (R : Property)
      (x : Result Failure A × Run h)
      → ((a : A) → Triple (Q a) (f a) Q' R)
      → Post Q R x
      → Post Q' R (continue x.0 f x.1)
  continue-Post f Q Q' R (ok a, s) u q = (u a).holds s q
  continue-Post f Q Q' R (err e, s) u q = q

  pub bind :
      {A B : Type 0} {P : Property} {m : Step h A} {f : A → Step h B} (Q : A → Property)
      {Q' : B → Property} {R : Property}
      → Triple P m Q R
      → ((a : A) → Triple (Q a) (f a) Q' R)
      → Triple P (m >>= f) Q' R
  bind {m = m} {f = f} Q {Q'} {R} t u = record {
    holds = λ s p. continue-Post f Q Q' R (m s) u (t.holds s p);
  }

  catch-Post :
      (f : Failure → Step h (Unit {0})) (Q R R' : Property) (x : Result Failure (Unit {0}) × Run h)
      → ((e : Failure) → Triple R (f e) (λ _. Q) R')
      → Post {A = Unit {0}} (λ _. Q) R x
      → Post {A = Unit {0}} (λ _. Q) R' (elim x.0 [ ok _ ↦ (ok tt, x.1) | err e ↦ f e x.1 ])
  catch-Post f Q R R' (ok a, s) u q = q
  catch-Post f Q R R' (err e, s) u q = (u e).holds s q

  pub caught :
      {P : Property} {m : Step h (Unit {0})} {f : Failure → Step h (Unit {0})} {Q : Property}
      (R : Property) {R' : Property}
      → Triple P m (λ _. Q) R
      → ((e : Failure) → Triple R (f e) (λ _. Q) R')
      → Triple P (catch h m f) (λ _. Q) R'
  unfolding catch
  caught {m = m} {f = f} {Q} R {R'} t u = record {
    holds = λ s p. catch-Post f Q R R' (m s) u (t.holds s p);
  }

  lifted-Post :
      {A : Type 0} (P R : Property) (r : Result Failure A) (s : Run h)
      → ((p : Plan) (l : List Event) → P p l → R p l)
      → P s.plan s.log
      → Post (λ _. P) R (r, s)
  lifted-Post P R (ok a) s f q = q
  lifted-Post P R (err e) s f q = f s.plan s.log q

  -- A call outside changes neither the plan nor the log.
  pub called :
      {A : Type 0} (f : Plan → h.World → Result Failure A × h.World) {P R : Property}
      → ((p : Plan) (l : List Event) → P p l → R p l)
      → Triple P (outside h f) (λ _. P) R
  unfolding outside
  called f {P} {R} g = record {
    holds =
        λ s q. lifted-Post P R (f s.plan s.world).0 (record s { world = (f s.plan s.world).1 }) g q;
  }

  pub lifted :
      (r : Result Failure (Unit {0})) {P R : Property}
      → ((p : Plan) (l : List Event) → P p l → R p l)
      → Triple P (require h r) (λ _. P) R
  unfolding require
  lifted r {P} {R} g = record { holds = λ s q. lifted-Post P R r s g q }

  pub looked : {P R : Property} → Triple P (current h) (λ q p l. P p l × (q ≡ p)) R
  unfolding current
  looked = record { holds = λ s q. (q, refl) }

  pub noted :
      (e : Event) {P Q R : Property}
      → ((p : Plan) (l : List Event) → P p l → Q p (l ++ (e ∷ [])))
      → Triple P (note h e) (λ _. Q) R
  unfolding note
  noted e f = record { holds = λ s q. f s.plan s.log q }

  pub saves :
      {P Q R : Property}
      → ((p : Plan) (l : List Event) → P p l → Q p (l ++ (saved p ∷ [])))
      → Triple P (save h) (λ _. Q) R
  unfolding save
  saves f = record { holds = λ s q. f s.plan s.log q }

  pub updates :
      (f : Plan → Plan) {P Q R : Property}
      → ((p : Plan) (l : List Event) → P p l → Q (f p) l)
      → Triple P (update h f) (λ _. Q) R
  unfolding update
  updates f g = record { holds = λ s q. g s.plan s.log q }

  pub given :
      {A : Type 0} {m : Step h A} {P : Property} (P' : Property) {Q : A → Property} {R : Property}
      → ((p : Plan) (l : List Event) → P p l → P' p l)
      → Triple P' m Q R
      → Triple P m Q R
  given P' f t = record { holds = λ s q. t.holds s (f s.plan s.log q) }

  branch-Post :
      (b c : Bool) (x y : Step h (Unit {0})) (P : Property) {Q : Unit {0} → Property} {R : Property}
      (s : Run h)
      → b ≡ c
      → P s.plan s.log
      → Triple P (if c then x else y) Q R
      → Post Q R ((if b then x else y) s)
  branch-Post b c x y P s e q t = rw e (t.holds s q)

  -- A test that the property decides.
  pub branch :
      (b c : Bool) (x y : Step h (Unit {0})) {P : Property} {Q : Unit {0} → Property} {R : Property}
      → ((p : Plan) (l : List Event) → P p l → b ≡ c)
      → Triple P (if c then x else y) Q R
      → Triple P (if b then x else y) Q R
  branch b c x y {P} f t = record { holds = λ s q. branch-Post b c x y P s (f s.plan s.log q) q t }

  weaken-Post :
      {A : Type 0} (Q : A → Property) (R R' : Property) (x : Result Failure A × Run h)
      → ((p : Plan) (l : List Event) → R p l → R' p l)
      → Post Q R x
      → Post Q R' x
  weaken-Post Q R R' (ok a, s) f q = q
  weaken-Post Q R R' (err e, s) f q = f s.plan s.log q

  pub weaken :
      {A : Type 0} {m : Step h A} {P : Property} {Q : A → Property} (R : Property) {R' : Property}
      → ((p : Plan) (l : List Event) → R p l → R' p l)
      → Triple P m Q R
      → Triple P m Q R'
  weaken {m = m} {Q = Q} R {R'} f t = record {
    holds = λ s q. weaken-Post Q R R' (m s) f (t.holds s q);
  }

  pub returned :
      {A : Type 0} (a : A) (Q : A → Property) {P R : Property}
      → ((p : Plan) (l : List Event) → P p l → Q a p l)
      → Triple P (pure a) Q R
  returned a Q f = record { holds = λ s q. f s.plan s.log q }

  pub either :
      {A : Type 0} {m : Step h A} (P P' : Property) {Q : A → Property} {R : Property}
      → Triple P m Q R
      → Triple P' m Q R
      → Triple (λ p l. P p l ⊎ P' p l) m Q R
  either P P' t u = record { holds = λ s q. elim q [ inl x ↦ t.holds s x | inr y ↦ u.holds s y ] }
