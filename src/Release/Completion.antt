-- ===== src/Release/Completion.antt =====
-- An execution ends: the plan is terminal, in memory and on the disk.
use atenea_remote_worker_spe.Prelude.{
  ◌≡◌, refl, inl, inr, true, false, some, [], ℕ, pure, Result, ok, err,
}
use atenea_remote_worker_spe.Release.Plan.{PlanState, is_terminal, Plan, Failure}
use atenea_remote_worker_spe.Release.Platform.{Platform}
use atenea_remote_worker_spe.Release.Execution.{Run, execute, perform, current}
use atenea_remote_worker_spe.Release.Protocol.{
  Phase, finished, waiting, effective, undoing, Follows, stop,
}
use atenea_remote_worker_spe.Release.Triples.{Triple, bind, looked, branch, given, Post}
use atenea_remote_worker_spe.Release.Progress.{At, extend}
use atenea_remote_worker_spe.Release.Refinement.{
  Done, perform_waiting, perform_effective, perform_undoing,
}
use atenea_remote_worker_spe.Release.Disk.{
  file_after, file_after-append, is_running, first_phase, is_running-cases, final_save,
}

module _ (h : Platform) (now : ℕ) (p : Plan) (w : h.World) where
  abbrev pub start : Run h
  start = record { plan = p; world = w; log = [] }

  abbrev pub life : Run h
  life = (execute h now start).1

  -- The execution of the plan `p` follows the protocol to its end.
  pub record IsComplete (s : Run h) : Type 0 where
    pub follows : Follows (first_phase p.state) s.log finished
    pub terminal : is_terminal s.plan.state ≡ true
    pub dated : s.plan.finished_at ≡ some now
    pub durable : file_after p s.log ≡ s.plan

  Done-IsComplete :
      (first : Phase) (s : Run h)
      → first_phase p.state ≡ first
      → Done first now s.plan s.log
      → IsComplete s
  Done-IsComplete first s e (b, k, f, m, l, d) = record {
    follows = rw (l, e) (extend k f m);
    terminal = final_save m;
    dated = d;
    durable = rw l (file_after-append p s.plan k);
  }

execute_lem :
    {h : Platform} (now : ℕ) (first : Phase) (state : PlanState)
    → is_terminal state ≡ false
    → Triple {h = h} (At first first state) (perform h now) (λ _. Done first now) (Done first now)
    → Triple {h = h} (At first first state) (execute h now) (λ _. Done first now) (Done first now)
unfolding execute
execute_lem {h} now first state f t =
    bind (λ q p l. At first first state p l × (q ≡ p)) looked
      λ q.
        branch (is_terminal q.state) false (pure tt) (perform h now) (λ p l x. rw (x.1, x.0.1) f)
          (given (At first first state) (λ p l x. x.0) t)

completes :
    {h : Platform} (now : ℕ) (p : Plan) (w : h.World) (first : Phase) (state : PlanState)
    → p.state ≡ state
    → first_phase p.state ≡ first
    → is_terminal state ≡ false
    → Triple {h = h} (At first first state) (perform h now) (λ _. Done first now) (Done first now)
    → IsComplete h now p w (life h now p w)
completes {h} now p w first state e f g t = Done-IsComplete h now p w first (life h now p w) f (
    either_way (execute h now (start h now p w))
      ((execute_lem now first state g t).holds (start h now p w) (stop first, e)))
  where
    either_way :
        (x : Result Failure (Unit {0}) × Run h)
        → Post (λ _. Done first now) (Done first now) x
        → Done first now x.1.plan x.1.log
    either_way (ok a, s) q = q
    either_way (err e, s) q = q

-- The execution of a plan that was accepted, or that a restart found applying or rolling back,
-- follows the release protocol to its end, whatever the outside world answers and wherever it
-- raises: the plan is terminal and dated, and the file holds it as it is in memory.
pub execute-IsComplete :
    (h : Platform) (now : ℕ) (p : Plan) (w : h.World)
    → is_running p.state ≡ true
    → IsComplete h now p w (life h now p w)
execute-IsComplete h now p w r = elim (is_running-cases p.state r) [
  | inl e ↦
      completes now p w waiting PlanState.accepted e (rw e refl) refl (perform_waiting waiting now)
  | inr (inl e) ↦
      completes now p w effective PlanState.applying e (rw e refl) refl
        (perform_effective effective now)
  | inr (inr e) ↦
      completes now p w undoing PlanState.rolling_back e (rw e refl) refl
        (perform_undoing undoing now)
]

-- An execution leaves a plan that has ended as it is.
pub execute_terminal :
    (h : Platform) (now : ℕ) (p : Plan) (w : h.World)
    → is_terminal p.state ≡ true
    → life h now p w ≡ start h now p w
unfolding execute current
execute_terminal h now p w t = rw t refl
