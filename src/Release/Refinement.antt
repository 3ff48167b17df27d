-- ===== src/Release/Refinement.antt =====
-- `_execute` follows the protocol, from each state in which it finds a plan to the end.
use atenea_remote_worker_spe.Prelude.{
  ◌≡◌, refl, ap, inl, inr, Bool, true, false, some, List, [], ◌∷◌, ◌++◌, ℕ, if◌then◌else◌,
}
use atenea_remote_worker_spe.Release.Plan.{PlanState, Plan, Failure}
use atenea_remote_worker_spe.Release.Platform.{Platform}
use atenea_remote_worker_spe.Release.Execution.{
  Event, saved, is_effective, is_rolling_back, abandoned, roll_back, go_forward, attempt,
  reverse_effects, recover_from, set_state, update, execute_guarded, abandon, guarded, perform,
}
use atenea_remote_worker_spe.Release.Protocol.{
  Phase, waiting, effective, undoing, finished, Moves, Follows,
}
use atenea_remote_worker_spe.Release.Triples.{
  Property, Triple, bind, caught, called, lifted, looked, saves, updates, given, branch, weaken,
  either,
}
use atenea_remote_worker_spe.Release.Progress.{
  At, Ready, Undoable, Fallen, Fallen-Undoable, effective-Undoable, undoing-Fallen, Unapplied,
  roll_back_lem, go_forward_waiting, go_forward_effective, reverse_effects_lem,
}

module _ (first : Phase) where
  -- The plan is to be saved, and this is the end.
  abbrev Signed : ℕ → Property
  Signed now p l =
      (b : Phase) × Follows first l b × Moves b (saved p) finished × (p.finished_at ≡ some now)

  abbrev pub Done : ℕ → Property
  Done now p l =
      (b : Phase) × (k : List Event) × Follows first k b
      × Moves b (saved p) finished
      × (l ≡ k ++ (saved p ∷ []))
      × (p.finished_at ≡ some now)

module _ (first : Phase) {h : Platform} where
  attempt_lem :
      (b : Bool) (P : Property)
      → ((p : Plan) (l : List Event) → P p l → Unapplied first p l)
      → ((p : Plan) (l : List Event) → P p l → is_rolling_back p.state ≡ b)
      → Triple {h = h} P
          (if b then roll_back h else go_forward h)
          (λ _. Ready first)
          (Unapplied first)
      → Triple {h = h} P (attempt h) (λ _. Ready first) (Unapplied first)
  unfolding attempt
  attempt_lem b P f g t =
      bind (λ _. P) (called _ f)
        λ found.
          bind (λ q p l. P p l × (q ≡ p)) looked
            λ q.
              bind (λ _ p l. P p l × (q ≡ p)) (lifted _ λ p l x. f p l x.0)
                λ _.
                  branch (is_rolling_back q.state) b (roll_back h) (go_forward h)
                    (λ p l x. rw x.1 (g p l x.0)) (given P (λ p l x. x.0) t)

  recover_waiting :
      {R : Property} (e : Failure)
      → Triple {h = h} (At first waiting PlanState.accepted) (recover_from h e) (λ _. Ready first) R
  unfolding recover_from
  recover_waiting e =
      bind (λ _. At first waiting PlanState.accepted) (updates _ λ p l x. x)
        λ _.
          bind (λ q p l. At first waiting PlanState.accepted p l × (q ≡ p)) looked
            λ q.
              branch (is_effective q.state) false (reverse_effects h)
                (update h (set_state PlanState.blocked)) (λ p l x. rw (x.1, x.0.1) refl)
                (updates _ λ p l x. (waiting, x.0.0, λ t. Moves.refuse _ refl))

  recover_undoable :
      {R : Property} (e : Failure)
      → Triple {h = h} (Undoable first) (recover_from h e) (λ _. Ready first) R
  unfolding recover_from
  recover_undoable e =
      bind (λ _. Undoable first) (updates _ λ p l x. x)
        λ _.
          bind (λ q p l. Undoable first p l × (q ≡ p)) looked
            λ q.
              branch (is_effective q.state) true (reverse_effects h)
                (update h (set_state PlanState.blocked)) (λ p l x. rw x.1 x.0.3)
                (given (Undoable first) (λ p l x. x.0) (reverse_effects_lem first))

  recover_from_lem :
      {R : Property} (e : Failure)
      → Triple {h = h} (Unapplied first) (recover_from h e) (λ _. Ready first) R
  recover_from_lem e =
      either (At first waiting PlanState.accepted) (Undoable first) (recover_waiting e)
        (recover_undoable e)

  perform_lem :
      (now : ℕ) (P R : Property)
      → ((e : Failure) → Triple {h = h} P (abandon h e) (λ _. Ready first) R)
      → Triple {h = h} P (attempt h) (λ _. Ready first) (Unapplied first)
      → Triple {h = h} P (perform h now) (λ _. Done first now) R
  unfolding perform guarded execute_guarded
  perform_lem now P R a t =
      bind (λ _. Ready first)
        (caught P
          (bind (λ _. P) (called _ λ p l x. x) λ _. caught (Unapplied first) t recover_from_lem) a)
        λ _.
          bind (λ _. Signed first now) (updates _ λ p l x. (x.0, x.1, x.2 (some now), refl))
            λ _. saves λ p l x. (x.0, l, x.1, x.2, refl, x.3)

  pub perform_waiting :
      (now : ℕ) {R : Property}
      → Triple {h = h} (At first waiting PlanState.accepted) (perform h now) (λ _. Done first now) R
  unfolding abandon
  perform_waiting now {R} =
      perform_lem now _ R
        (λ e. updates _ λ p l x. (waiting, x.0, λ t. Moves.refuse _ (ap abandoned x.1)))
        (attempt_lem false _ (λ p l x. inl x) (λ p l x. ap is_rolling_back x.1)
          (go_forward_waiting first))

  pub perform_effective :
      (now : ℕ) {R : Property}
      → Triple {h = h}
          (At first effective PlanState.applying)
          (perform h now)
          (λ _. Done first now)
          R
  unfolding abandon
  perform_effective now {R} =
      perform_lem now _ R
        (λ e. updates _ λ p l x. (effective, x.0, λ t. Moves.give_up_early _ (ap abandoned x.1)))
        (attempt_lem false _ (λ p l x. inr (effective-Undoable first p l x))
          (λ p l x. ap is_rolling_back x.1) (go_forward_effective first))

  pub perform_undoing :
      (now : ℕ) {R : Property}
      → Triple {h = h}
          (At first undoing PlanState.rolling_back)
          (perform h now)
          (λ _. Done first now)
          R
  unfolding abandon
  perform_undoing now {R} =
      perform_lem now _ R
        (λ e. updates _ λ p l x. (undoing, x.0, λ t. Moves.give_up _ (ap abandoned x.1)))
        (attempt_lem true _ (λ p l x. inr (Fallen-Undoable first p l (undoing-Fallen first p l x)))
          (λ p l x. ap is_rolling_back x.1)
          (weaken (Fallen first) (λ p l x. inr (Fallen-Undoable first p l x))
            (roll_back_lem first)))
