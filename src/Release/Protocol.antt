-- ===== src/Release/Protocol.antt =====
-- The protocol of one execution: the phases between the saves of the plan, and the events that
-- lead from one to the next. It is the specification of `_execute`.
use atenea_remote_worker_spe.Prelude.{◌≡◌, some, List, [], ◌∷◌}
use atenea_remote_worker_spe.Release.Plan.{PlanState, Plan, Receipt}
use atenea_remote_worker_spe.Release.Execution.{
  Event, saved, applied, verified, reverted, committed, receipt_saved,
}

pub data Way : Type 0 where
  forward backward : Way

-- `intended`: APPLYING is saved and `apply` is still to come. `effective`: `apply` was called, now
-- or before a restart. `closing w r`, `published w r`, `recorded w r`: the receipt `r` is returned,
-- committed, saved.
pub data Phase : Type 0 where
  waiting intended effective undoing finished : Phase
  closing : Way → Receipt → Phase
  published : Way → Receipt → Phase
  recorded : Way → Receipt → Phase

pub data Moves : Phase → Event → Phase → Type 0 where
  refuse : (p : Plan) → p.state ≡ PlanState.blocked → Moves waiting (saved p) finished
  intend : (p : Plan) → p.state ≡ PlanState.applying → Moves waiting (saved p) intended
  call_apply : Moves intended applied effective
  prove : (r : Receipt) → Moves effective (verified r) (closing forward r)
  restore : (r : Receipt) → Moves undoing (reverted r) (closing backward r)
  publish : (w : Way) (r : Receipt) → Moves (closing w r) (committed r) (published w r)
  note_receipt : (w : Way) (r : Receipt) → Moves (published w r) (receipt_saved r) (recorded w r)
  succeed :
      (r : Receipt) (p : Plan)
      → p.state ≡ PlanState.succeeded
      → p.effective_source_commit ≡ some r.source_commit
      → Moves (recorded forward r) (saved p) finished
  come_back :
      (r : Receipt) (p : Plan)
      → p.state ≡ PlanState.rolled_back
      → p.effective_source_commit ≡ some r.source_commit
      → Moves (recorded backward r) (saved p) finished
  undo : (p : Plan) → p.state ≡ PlanState.rolling_back → Moves effective (saved p) undoing
  undo_proven :
      (r : Receipt) (p : Plan)
      → p.state ≡ PlanState.rolling_back
      → Moves (closing forward r) (saved p) undoing
  undo_again : (p : Plan) → p.state ≡ PlanState.rolling_back → Moves undoing (saved p) undoing
  undo_unpublished :
      (r : Receipt) (p : Plan)
      → p.state ≡ PlanState.rolling_back
      → Moves (closing backward r) (saved p) undoing
  give_up_early :
      (p : Plan) → p.state ≡ PlanState.rollback_failed → Moves effective (saved p) finished
  give_up : (p : Plan) → p.state ≡ PlanState.rollback_failed → Moves undoing (saved p) finished
  give_up_late :
      (r : Receipt) (p : Plan)
      → p.state ≡ PlanState.rollback_failed
      → Moves (closing backward r) (saved p) finished

-- A log, from the oldest event on, that leads from one phase to another.
pub data Follows : Phase → List Event → Phase → Type 0 where
  stop : (a : Phase) → Follows a [] a
  go :
      (a b c : Phase) (e : Event) (l : List Event)
      → Moves a e b
      → Follows b l c
      → Follows a (e ∷ l) c
