-- ===== src/Release/Progress.antt =====
-- Where each part of an execution stands in the protocol.
use atenea_remote_worker_spe.Prelude.{
  ◌≡◌, refl, ap, ◌⊎◌, inl, inr, true, false, Option, List, [], ◌∷◌, ◌++◌, ℕ, pure,
}
use atenea_remote_worker_spe.Release.Plan.{PlanState, Plan, Receipt}
use atenea_remote_worker_spe.Release.Platform.{Platform}
use atenea_remote_worker_spe.Release.Execution.{
  Event, saved, is_accepted, is_effective, roll_back, apply_once, conclude, go_forward,
  reverse_effects,
}
use atenea_remote_worker_spe.Release.Protocol.{
  forward, backward, Phase, waiting, intended, effective, undoing, finished, closing, published,
  recorded, Moves, Follows, stop, go,
}
use atenea_remote_worker_spe.Release.Triples.{
  Property, Triple, bind, caught, called, lifted, looked, noted, saves, updates, given, branch,
  weaken, returned,
}

pub extend :
    {a b c : Phase} {e : Event} (l : List Event)
    → Follows a l b
    → Moves b e c
    → Follows a (l ++ (e ∷ [])) c
extend [] (stop a) m = go _ _ _ _ _ m (stop _)
extend _ (go a b c e l n f) m = go _ _ _ _ _ n (extend l f m)

module _ (first : Phase) where
  abbrev pub At : Phase → PlanState → Property
  At b state p l = Follows first l b × (p.state ≡ state)

  -- The receipt `r` is out, and the plan names its commit.
  abbrev pub Ready : Property
  Ready p l =
      (b : Phase) × Follows first l b
      × ((t : Option ℕ) → Moves b (saved (record p { finished_at = t })) finished)

  abbrev pub CanUndo : Phase → Type 0
  CanUndo b = (q : Plan) → q.state ≡ PlanState.rolling_back → Moves b (saved q) undoing

  -- An execution that failed after an effect.
  abbrev pub Undoable : Property
  Undoable p l = (b : Phase) × Follows first l b × CanUndo b × (is_effective p.state ≡ true)

  -- A rollback that failed.
  abbrev pub Fallen : Property
  Fallen p l =
      (b : Phase) × Follows first l b
      × CanUndo b
      × ((q : Plan) → q.state ≡ PlanState.rollback_failed → Moves b (saved q) finished)
      × (p.state ≡ PlanState.rolling_back)

  pub undoing-Fallen :
      (p : Plan) (l : List Event) → At undoing PlanState.rolling_back p l → Fallen p l
  undoing-Fallen p l (f, e) = (undoing, f, Moves.undo_again, Moves.give_up, e)

  closing-Fallen :
      (r : Receipt) (p : Plan) (l : List Event)
      → At (closing backward r) PlanState.rolling_back p l
      → Fallen p l
  closing-Fallen r p l (f, e) =
      (closing backward r, f, Moves.undo_unpublished r, Moves.give_up_late r, e)

  pub effective-Undoable :
      (p : Plan) (l : List Event) → At effective PlanState.applying p l → Undoable p l
  effective-Undoable p l (f, e) = (effective, f, Moves.undo, ap is_effective e)

  closing-Undoable :
      (r : Receipt) (p : Plan) (l : List Event)
      → At (closing forward r) PlanState.applying p l
      → Undoable p l
  closing-Undoable r p l (f, e) = (closing forward r, f, Moves.undo_proven r, ap is_effective e)

  pub Fallen-Undoable : (p : Plan) (l : List Event) → Fallen p l → Undoable p l
  Fallen-Undoable p l (b, f, u, g, e) = (b, f, u, ap is_effective e)

  -- What `apply_once` leaves when it raises.
  abbrev pub Unapplied : Property
  Unapplied p l = At waiting PlanState.accepted p l ⊎ Undoable p l

  effective-Unapplied :
      (p : Plan) (l : List Event) → At effective PlanState.applying p l → Unapplied p l
  effective-Unapplied p l x = inr (effective-Undoable p l x)

  step :
      {b c : Phase} {e : Event} {state : PlanState}
      → Moves b e c
      → (p : Plan) (l : List Event) → At b state p l
      → At c state p (l ++ (e ∷ []))
  step m p l (f, e) = (extend l f m, e)

  module _ {h : Platform} where
    pub roll_back_lem :
        Triple {h = h} (At undoing PlanState.rolling_back) (roll_back h) (λ _. Ready) Fallen
    unfolding roll_back
    roll_back_lem =
        bind (λ _. At undoing PlanState.rolling_back) (called _ undoing-Fallen)
          λ r.
            bind (λ _. At (closing backward r) PlanState.rolling_back)
              (noted _ (step (Moves.restore r)))
              λ _.
                bind (λ _. At (closing backward r) PlanState.rolling_back)
                  (called _ (closing-Fallen r))
                  λ _.
                    bind (λ _. At (published backward r) PlanState.rolling_back)
                      (noted _ (step (Moves.publish backward r)))
                      λ _.
                        bind (λ _. At (recorded backward r) PlanState.rolling_back)
                          (noted _ (step (Moves.note_receipt backward r)))
                          λ _. updates _ (λ p l x.
                            (recorded backward r, x.0, λ t. Moves.come_back r _ refl refl))

    apply_once_lem :
        Triple {h = h}
          (At waiting PlanState.accepted)
          (apply_once h)
          (λ _. At effective PlanState.applying)
          Unapplied
    unfolding apply_once
    apply_once_lem =
        bind (λ _. At waiting PlanState.accepted) (called _ λ p l x. inl x)
          λ o.
            bind (λ q p l. At waiting PlanState.accepted p l × (q ≡ p)) looked
              λ q.
                bind (λ _. At waiting PlanState.accepted)
                  (given (At waiting PlanState.accepted) (λ p l x. x.0) (lifted _ λ p l x. inl x))
                  λ _.
                    bind (λ _. At waiting PlanState.applying) (updates _ λ p l x. (x.0, refl))
                      λ _.
                        bind (λ _. At intended PlanState.applying)
                          (saves λ p l x. (extend l x.0 (Moves.intend p x.1), x.1))
                          λ _.
                            bind (λ _. At effective PlanState.applying)
                              (noted _ (step Moves.call_apply)) λ _. called _ effective-Unapplied

    conclude_lem :
        Triple {h = h} (At effective PlanState.applying) (conclude h) (λ _. Ready) Undoable
    unfolding conclude
    conclude_lem =
        bind (λ _. At effective PlanState.applying) (called _ effective-Undoable)
          λ r.
            bind (λ _. At (closing forward r) PlanState.applying) (noted _ (step (Moves.prove r)))
              λ _.
                bind (λ _. At (closing forward r) PlanState.applying)
                  (called _ (closing-Undoable r))
                  λ _.
                    bind (λ _. At (published forward r) PlanState.applying)
                      (noted _ (step (Moves.publish forward r)))
                      λ _.
                        bind (λ _. At (recorded forward r) PlanState.applying)
                          (noted _ (step (Moves.note_receipt forward r)))
                          λ _.
                            updates _
                              (λ p l x. (recorded forward r, x.0, λ t. Moves.succeed r _ refl refl))

    pub reverse_effects_lem :
        {R : Property} → Triple {h = h} Undoable (reverse_effects h) (λ _. Ready) R
    unfolding reverse_effects
    reverse_effects_lem =
        bind
          (λ _ p l.
            (b : Phase) × Follows first l b × CanUndo b × (p.state ≡ PlanState.rolling_back))
          (updates _ λ p l x. (x.0, x.1, x.2, refl))
          λ _.
            bind (λ _. At undoing PlanState.rolling_back)
              (saves λ p l x. (extend l x.1 (x.2 p x.3), x.3))
              λ _. caught Fallen roll_back_lem λ e. updates _ λ p l x. (x.0, x.1, λ t. x.3 _ refl)

    conclude_other :
        Triple {h = h} (At effective PlanState.applying) (conclude h) (λ _. Ready) Unapplied
    conclude_other = weaken Undoable (λ p l x. inr x) conclude_lem

    pub go_forward_waiting :
        Triple {h = h} (At waiting PlanState.accepted) (go_forward h) (λ _. Ready) Unapplied
    unfolding go_forward
    go_forward_waiting =
        bind (λ q p l. At waiting PlanState.accepted p l × (q ≡ p)) looked
          λ q.
            bind (λ _. At effective PlanState.applying)
              (branch (is_accepted q.state) true (apply_once h) (pure tt)
                (λ p l x. rw (x.1, x.0.1) refl)
                (given (At waiting PlanState.accepted) (λ p l x. x.0) apply_once_lem))
              λ _. conclude_other

    pub go_forward_effective :
        Triple {h = h} (At effective PlanState.applying) (go_forward h) (λ _. Ready) Unapplied
    unfolding go_forward
    go_forward_effective =
        bind (λ q p l. At effective PlanState.applying p l × (q ≡ p)) looked
          λ q.
            bind (λ _. At effective PlanState.applying)
              (branch (is_accepted q.state) false (apply_once h) (pure tt)
                (λ p l x. rw (x.1, x.0.1) refl) (returned _ _ (λ p l x. x.0)))
              λ _. conclude_other
