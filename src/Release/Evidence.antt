-- ===== src/Release/Evidence.antt =====
-- A release that ended well, or that was rolled back, has a receipt to show for it.
use atenea_remote_worker_spe.Prelude.{
  ◌≡◌, refl, sym, ap, ◌∙◌, subst, ◌⊎◌, inl, inr, true, some, List, [], ◌∷◌, ◌++◌, ℕ,
}
use atenea_remote_worker_spe.Release.Plan.{PlanState, Plan, Receipt}
use atenea_remote_worker_spe.Release.Platform.{Platform}
use atenea_remote_worker_spe.Release.Execution.{
  Event, saved, applied, verified, reverted, committed, receipt_saved,
}
use atenea_remote_worker_spe.Release.Protocol.{
  Way, forward, backward, Phase, finished, closing, published, recorded, Moves, Follows, stop, go,
}
use atenea_remote_worker_spe.Release.Disk.{file_after, is_running, first_phase, is_running-cases}
use atenea_remote_worker_spe.Release.Completion.{life, execute-IsComplete}

abbrev pub closed : Way → PlanState
closed forward = PlanState.succeeded
closed backward = PlanState.rolled_back

abbrev pub returned_by : Way → Receipt → Event
returned_by forward = verified
returned_by backward = reverted

-- The last events: a receipt of `verify` or `rollback`, its commit and its file, and the plan, which
-- names the commit of the receipt.
pub record HasReceipt (w : Way) (q : Plan) (l : List Event) : Type 0 where
  pub before : List Event
  pub receipt : Receipt
  pub events :
      l
      ≡ before ++ (returned_by w receipt ∷ committed receipt ∷ receipt_saved receipt ∷ saved q ∷ [])
  pub names : q.effective_source_commit ≡ some receipt.source_commit

module _ (w : Way) (q : Plan) (ended : q.state ≡ closed w) where
  earlier : (e : Event) {l : List Event} → HasReceipt w q l → HasReceipt w q (e ∷ l)
  earlier e h = record {
    before = e ∷ h.before;
    receipt = h.receipt;
    events = ap (λ k. e ∷ k) h.events;
    names = h.names;
  }

  abbrev Names : Way → Receipt → Type 0
  Names v r = (v ≡ w) × (q.effective_source_commit ≡ some r.source_commit)

  -- What the events that follow a phase are.
  abbrev Tail : Phase → List Event → Type 0
  Tail finished l = l ≡ []
  Tail (recorded v r) l = (l ≡ saved q ∷ []) × Names v r
  Tail (published v r) l = (l ≡ receipt_saved r ∷ saved q ∷ []) × Names v r
  Tail (closing v r) l =
      HasReceipt w q l ⊎ ((l ≡ committed r ∷ receipt_saved r ∷ saved q ∷ []) × Names v r)
  Tail _ l = HasReceipt w q l

  last_save : (p₀ p : Plan) {l : List Event} → l ≡ [] → file_after p₀ (saved p ∷ l) ≡ q → p ≡ q
  unfolding file_after
  last_save p₀ p t f = sym (ap (file_after p) t) ∙ f

  closed_forward : (v : Way) → closed v ≡ PlanState.succeeded → forward ≡ v
  closed_forward forward e = refl
  closed_forward backward e = cc

  closed_backward : (v : Way) → closed v ≡ PlanState.rolled_back → backward ≡ v
  closed_backward forward e = cc
  closed_backward backward e = refl

  not_closed :
      {A : Type 0} (v : Way) (state : PlanState)
      → ((state ≡ PlanState.blocked) ⊎ (state ≡ PlanState.rollback_failed))
      → state ≡ closed v
      → A
  not_closed forward state (inl e) c = cc
  not_closed forward state (inr e) c = cc
  not_closed backward state (inl e) c = cc
  not_closed backward state (inr e) c = cc

  -- The state of the plan of a last save is that of `q`.
  last_state :
      (p₀ p : Plan) {l : List Event} {state : PlanState}
      → l ≡ []
      → file_after p₀ (saved p ∷ l) ≡ q
      → p.state ≡ state
      → state ≡ closed w
  last_state p₀ p t f e = sym e ∙ ap (λ (r : Plan). r.state) (last_save p₀ p t f) ∙ ended

  failed :
      {A : Type 0} (p₀ p : Plan) {l : List Event} {state : PlanState}
      → ((state ≡ PlanState.blocked) ⊎ (state ≡ PlanState.rollback_failed))
      → l ≡ []
      → file_after p₀ (saved p ∷ l) ≡ q
      → p.state ≡ state
      → A
  failed p₀ p {state = state} c t f e = not_closed w state c (last_state p₀ p t f e)

  concluded :
      (p₀ p : Plan) (v : Way) (r : Receipt) {l : List Event}
      → (closed v ≡ closed w → v ≡ w)
      → p.state ≡ closed v
      → p.effective_source_commit ≡ some r.source_commit
      → l ≡ []
      → file_after p₀ (saved p ∷ l) ≡ q
      → Tail (recorded v r) (saved p ∷ l)
  concluded p₀ p v r same e c t f =
      let here = last_save p₀ p t f in
      (
        ap (λ k. saved p ∷ k) t ∙ ap (λ x. saved x ∷ []) here,
        (same (last_state p₀ p t f e), sym (ap (λ (x : Plan). x.effective_source_commit) here) ∙ c),
      )

  shown :
      (v : Way) (r : Receipt) {l : List Event}
      → Tail (closing v r) l
      → HasReceipt w q (returned_by v r ∷ l)
  shown v r (inl h) = earlier (returned_by v r) h
  shown v r (inr (e, (same, names))) = record {
    before = [];
    receipt = r;
    events =
        ap (λ k. returned_by v r ∷ k) e
        ∙ ap (λ u. returned_by u r ∷ committed r ∷ receipt_saved r ∷ saved q ∷ []) same;
    names = names;
  }

  Moves-Tail :
      {a b : Phase} {e : Event} (p₀ : Plan) (l : List Event)
      → Moves a e b
      → file_after p₀ (e ∷ l) ≡ q
      → Tail b l
      → Tail a (e ∷ l)
  Moves-Tail p₀ l (Moves.refuse p e) f t = failed p₀ p (inl refl) t f e
  Moves-Tail p₀ l (Moves.intend p e) f t = earlier (saved p) t
  Moves-Tail p₀ l Moves.call_apply f t = earlier applied t
  Moves-Tail p₀ l (Moves.prove r) f t = shown forward r t
  Moves-Tail p₀ l (Moves.restore r) f t = shown backward r t
  Moves-Tail p₀ l (Moves.publish v r) f t = inr (ap (λ k. committed r ∷ k) t.0, t.1)
  Moves-Tail p₀ l (Moves.note_receipt v r) f t = (ap (λ k. receipt_saved r ∷ k) t.0, t.1)
  Moves-Tail p₀ l (Moves.succeed r p e c) f t =
      concluded p₀ p forward r (λ x. closed_forward w (sym x)) e c t f
  Moves-Tail p₀ l (Moves.come_back r p e c) f t =
      concluded p₀ p backward r (λ x. closed_backward w (sym x)) e c t f
  Moves-Tail p₀ l (Moves.undo p e) f t = earlier (saved p) t
  Moves-Tail p₀ l (Moves.undo_proven r p e) f t = inl (earlier (saved p) t)
  Moves-Tail p₀ l (Moves.undo_again p e) f t = earlier (saved p) t
  Moves-Tail p₀ l (Moves.undo_unpublished r p e) f t = inl (earlier (saved p) t)
  Moves-Tail p₀ l (Moves.give_up_early p e) f t = failed p₀ p (inr refl) t f e
  Moves-Tail p₀ l (Moves.give_up p e) f t = failed p₀ p (inr refl) t f e
  Moves-Tail p₀ l (Moves.give_up_late r p e) f t = inl (failed p₀ p (inr refl) t f e)

  file_after-step :
      (p₀ : Plan) (e : Event) (l : List Event)
      → file_after p₀ (e ∷ l) ≡ q
      → (p : Plan) × (file_after p l ≡ q)
  unfolding file_after
  file_after-step p₀ (saved p) l f = (p, f)
  file_after-step p₀ applied l f = (p₀, f)
  file_after-step p₀ (verified r) l f = (p₀, f)
  file_after-step p₀ (reverted r) l f = (p₀, f)
  file_after-step p₀ (committed r) l f = (p₀, f)
  file_after-step p₀ (receipt_saved r) l f = (p₀, f)

  Follows-Tail :
      {a b : Phase} {l : List Event} (p₀ : Plan)
      → Follows a l b
      → b ≡ finished
      → file_after p₀ l ≡ q
      → Tail a l
  Follows-Tail p₀ (stop a) end f = rw end refl
  Follows-Tail p₀ (go a b c e l m g) end f =
      let (p, f') = file_after-step p₀ e l f in Moves-Tail p₀ l m f (Follows-Tail p g end f')

-- An execution that ends with success has a receipt that `verify` returned, and one that ends
-- rolled back has a receipt that `rollback` returned; after it was returned the log holds
-- nothing but its commit, its file and the last save of the plan, and the plan names its commit as
-- the one in effect.
pub execute-HasReceipt :
    (h : Platform) (now : ℕ) (p : Plan) (w : h.World) (way : Way)
    → is_running p.state ≡ true
    → (life h now p w).plan.state ≡ closed way
    → HasReceipt way (life h now p w).plan (life h now p w).log
execute-HasReceipt h now p w way r e =
    let c = execute-IsComplete h now p w r in
    let t = Follows-Tail way (life h now p w).plan e p c.follows refl c.durable in
    elim (is_running-cases p.state r) [
      | inl s ↦
          subst (λ a. Tail way (life h now p w).plan e (first_phase a) (life h now p w).log) s t
      | inr (inl s) ↦
          subst (λ a. Tail way (life h now p w).plan e (first_phase a) (life h now p w).log) s t
      | inr (inr s) ↦
          subst (λ a. Tail way (life h now p w).plan e (first_phase a) (life h now p w).log) s t
    ]
