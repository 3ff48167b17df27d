-- ===== src/Release/Budget.antt =====
-- How often the protocol lets `apply` be called, and which phases a file may stand for.
use atenea_remote_worker_spe.Prelude.{
  ◌≡◌, refl, true, List, [], ◌∷◌, ℕ, ◌+◌, ◌≤◌, arith, if◌then◌else◌, Bool, false,
}
use atenea_remote_worker_spe.Release.Plan.{PlanState, is_terminal, Plan}
use atenea_remote_worker_spe.Release.Execution.{
  Event, saved, applied, verified, reverted, committed, receipt_saved, is_accepted,
}
use atenea_remote_worker_spe.Release.Protocol.{
  forward, backward, Phase, waiting, intended, effective, undoing, finished, closing, published,
  recorded, Moves, Follows, stop, go,
}
use atenea_remote_worker_spe.Release.Disk.{file_after, is_running, first_phase}

unfoldable pub count_applied : List Event → ℕ
count_applied [] = 0
count_applied (applied ∷ l) = 1 + count_applied l
count_applied (_ ∷ l) = count_applied l

-- The calls of `apply` that may still come.
abbrev pub budget : Phase → ℕ
budget waiting = 1
budget intended = 1
budget _ = 0

abbrev cost : Event → ℕ
cost applied = 1
cost _ = 0

count-cost : (e : Event) (l : List Event) → count_applied (e ∷ l) ≡ cost e + count_applied l
unfolding count_applied
count-cost (saved p) l = omega arith
count-cost applied l = refl
count-cost (verified r) l = omega arith
count-cost (reverted r) l = omega arith
count-cost (committed r) l = omega arith
count-cost (receipt_saved r) l = omega arith

Moves-budget : {a b : Phase} {e : Event} → Moves a e b → cost e + budget b ≤ budget a
Moves-budget (Moves.refuse p e) = omega arith
Moves-budget (Moves.intend p e) = omega arith
Moves-budget Moves.call_apply = omega arith
Moves-budget (Moves.prove r) = omega arith
Moves-budget (Moves.restore r) = omega arith
Moves-budget (Moves.publish w r) = omega arith
Moves-budget (Moves.note_receipt w r) = omega arith
Moves-budget (Moves.succeed r p e c) = omega arith
Moves-budget (Moves.come_back r p e c) = omega arith
Moves-budget (Moves.undo p e) = omega arith
Moves-budget (Moves.undo_proven r p e) = omega arith
Moves-budget (Moves.undo_again p e) = omega arith
Moves-budget (Moves.undo_unpublished r p e) = omega arith
Moves-budget (Moves.give_up_early p e) = omega arith
Moves-budget (Moves.give_up p e) = omega arith
Moves-budget (Moves.give_up_late r p e) = omega arith

-- A phase that a file with a plan in this state may stand for.
abbrev pub agrees : Phase → PlanState → Bool
agrees waiting PlanState.accepted = true
agrees intended PlanState.applying = true
agrees effective PlanState.applying = true
agrees (closing forward r) PlanState.applying = true
agrees (published forward r) PlanState.applying = true
agrees (recorded forward r) PlanState.applying = true
agrees undoing PlanState.rolling_back = true
agrees (closing backward r) PlanState.rolling_back = true
agrees (published backward r) PlanState.rolling_back = true
agrees (recorded backward r) PlanState.rolling_back = true
agrees finished state = is_terminal state
agrees _ _ = false

abbrev state_after : PlanState → Event → PlanState
state_after state (saved q) = q.state
state_after state _ = state

Moves-agrees :
    {a b : Phase} {e : Event} (state : PlanState)
    → Moves a e b
    → agrees a state ≡ true
    → agrees b (state_after state e) ≡ true
Moves-agrees state (Moves.refuse p e) h = rw e refl
Moves-agrees state (Moves.intend p e) h = rw e refl
Moves-agrees state Moves.call_apply h = h
Moves-agrees state (Moves.prove r) h = h
Moves-agrees state (Moves.restore r) h = h
Moves-agrees state (Moves.publish forward r) h = h
Moves-agrees state (Moves.publish backward r) h = h
Moves-agrees state (Moves.note_receipt forward r) h = h
Moves-agrees state (Moves.note_receipt backward r) h = h
Moves-agrees state (Moves.succeed r p e c) h = rw e refl
Moves-agrees state (Moves.come_back r p e c) h = rw e refl
Moves-agrees state (Moves.undo p e) h = rw e refl
Moves-agrees state (Moves.undo_proven r p e) h = rw e refl
Moves-agrees state (Moves.undo_again p e) h = rw e refl
Moves-agrees state (Moves.undo_unpublished r p e) h = rw e refl
Moves-agrees state (Moves.give_up_early p e) h = rw e refl
Moves-agrees state (Moves.give_up p e) h = rw e refl
Moves-agrees state (Moves.give_up_late r p e) h = rw e refl

pub Follows-budget :
    {a b : Phase} {l : List Event} → Follows a l b → count_applied l + budget b ≤ budget a
unfolding count_applied
Follows-budget (stop a) = omega arith
Follows-budget (go a b c e l m f) = omega (arith, count-cost e l, Moves-budget m, Follows-budget f)

file_after-state :
    (p : Plan) (e : Event) (l : List Event)
    → (q : Plan) × (q.state ≡ state_after p.state e) × (file_after p (e ∷ l) ≡ file_after q l)
unfolding file_after
file_after-state p (saved q) l = (q, refl, refl)
file_after-state p applied l = (p, refl, refl)
file_after-state p (verified r) l = (p, refl, refl)
file_after-state p (reverted r) l = (p, refl, refl)
file_after-state p (committed r) l = (p, refl, refl)
file_after-state p (receipt_saved r) l = (p, refl, refl)

pub Follows-agrees :
    {a b : Phase} {l : List Event} (p : Plan)
    → Follows a l b
    → agrees a p.state ≡ true
    → agrees b (file_after p l).state ≡ true
unfolding file_after
Follows-agrees p (stop a) h = h
Follows-agrees p (go a b c e l m f) h =
    let (q, s, t) = file_after-state p e l in
    rw t (Follows-agrees q f (rw s (Moves-agrees p.state m h)))

accepted-budget :
    (b : Phase)
    → agrees b PlanState.accepted ≡ true
    → budget (first_phase PlanState.accepted) ≤ budget b
accepted-budget waiting h = omega arith
accepted-budget intended h = cc
accepted-budget effective h = cc
accepted-budget undoing h = cc
accepted-budget finished h = cc
accepted-budget (closing forward r) h = cc
accepted-budget (closing backward r) h = cc
accepted-budget (published forward r) h = cc
accepted-budget (published backward r) h = cc
accepted-budget (recorded forward r) h = cc
accepted-budget (recorded backward r) h = cc

-- A restart finds no more calls of `apply` to be made than the execution that it follows.
pub restart-budget :
    (b : Phase) (state : PlanState) → agrees b state ≡ true → budget (first_phase state) ≤ budget b
restart-budget b PlanState.accepted h = accepted-budget b h
restart-budget b PlanState.preparing h = omega arith
restart-budget b PlanState.ready h = omega arith
restart-budget b PlanState.applying h = omega arith
restart-budget b PlanState.rolling_back h = omega arith
restart-budget b PlanState.succeeded h = omega arith
restart-budget b PlanState.rolled_back h = omega arith
restart-budget b PlanState.failed h = omega arith
restart-budget b PlanState.blocked h = omega arith
restart-budget b PlanState.rollback_failed h = omega arith

not_preparing : (b : Phase) → agrees b PlanState.preparing ≡ false
not_preparing waiting = refl
not_preparing intended = refl
not_preparing effective = refl
not_preparing undoing = refl
not_preparing finished = refl
not_preparing (closing forward r) = refl
not_preparing (closing backward r) = refl
not_preparing (published forward r) = refl
not_preparing (published backward r) = refl
not_preparing (recorded forward r) = refl
not_preparing (recorded backward r) = refl

not_ready : (b : Phase) → agrees b PlanState.ready ≡ false
not_ready waiting = refl
not_ready intended = refl
not_ready effective = refl
not_ready undoing = refl
not_ready finished = refl
not_ready (closing forward r) = refl
not_ready (closing backward r) = refl
not_ready (published forward r) = refl
not_ready (published backward r) = refl
not_ready (recorded forward r) = refl
not_ready (recorded backward r) = refl

pub restart_runs :
    (b : Phase) (state : PlanState)
    → agrees b state ≡ true
    → is_terminal state ≡ false
    → is_running state ≡ true
restart_runs b PlanState.accepted h t = refl
restart_runs b PlanState.applying h t = refl
restart_runs b PlanState.rolling_back h t = refl
restart_runs b PlanState.preparing h t = cc (not_preparing b)
restart_runs b PlanState.ready h t = cc (not_ready b)
restart_runs b PlanState.succeeded h t = cc
restart_runs b PlanState.rolled_back h t = cc
restart_runs b PlanState.failed h t = cc
restart_runs b PlanState.blocked h t = cc
restart_runs b PlanState.rollback_failed h t = cc

pub first-agrees :
    (state : PlanState) → is_running state ≡ true → agrees (first_phase state) state ≡ true
first-agrees PlanState.accepted h = refl
first-agrees PlanState.applying h = refl
first-agrees PlanState.rolling_back h = refl
first-agrees PlanState.succeeded h = refl
first-agrees PlanState.rolled_back h = refl
first-agrees PlanState.failed h = refl
first-agrees PlanState.blocked h = refl
first-agrees PlanState.rollback_failed h = refl
first-agrees PlanState.preparing h = cc
first-agrees PlanState.ready h = cc

pub first-budget :
    (state : PlanState) → budget (first_phase state) ≡ (if is_accepted state then 1 else 0)
first-budget PlanState.preparing = refl
first-budget PlanState.ready = refl
first-budget PlanState.accepted = refl
first-budget PlanState.applying = refl
first-budget PlanState.rolling_back = refl
first-budget PlanState.succeeded = refl
first-budget PlanState.rolled_back = refl
first-budget PlanState.failed = refl
first-budget PlanState.blocked = refl
first-budget PlanState.rollback_failed = refl
