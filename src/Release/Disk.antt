-- ===== src/Release/Disk.antt =====
-- What a restart finds: the file `operation.json` after the saves of a log, and the phase in which
-- `recover` takes the plan up.
use atenea_remote_worker_spe.Prelude.{
  ◌≡◌, refl, ◌⊎◌, inl, inr, Bool, true, ◌||◌, List, [], ◌∷◌, ◌++◌,
}
use atenea_remote_worker_spe.Release.Plan.{PlanState, is_terminal, Plan}
use atenea_remote_worker_spe.Release.Execution.{
  Event, saved, applied, verified, reverted, committed, receipt_saved, is_accepted, is_effective,
}
use atenea_remote_worker_spe.Release.Protocol.{Phase, waiting, effective, undoing, finished, Moves}

unfoldable pub file_after : Plan → List Event → Plan
file_after p [] = p
file_after p (saved q ∷ l) = file_after q l
file_after p (_ ∷ l) = file_after p l

pub file_after-append : (p q : Plan) (l : List Event) → file_after p (l ++ (saved q ∷ [])) ≡ q
unfolding file_after
file_after-append p q [] = refl
file_after-append p q (saved r ∷ l) = file_after-append r q l
file_after-append p q (applied ∷ l) = file_after-append p q l
file_after-append p q (verified _ ∷ l) = file_after-append p q l
file_after-append p q (reverted _ ∷ l) = file_after-append p q l
file_after-append p q (committed _ ∷ l) = file_after-append p q l
file_after-append p q (receipt_saved _ ∷ l) = file_after-append p q l

-- The plans that `_execute` works on.
abbrev pub is_running : PlanState → Bool
is_running state = is_accepted state || is_effective state

abbrev pub first_phase : PlanState → Phase
first_phase PlanState.accepted = waiting
first_phase PlanState.applying = effective
first_phase PlanState.rolling_back = undoing
first_phase _ = finished

pub is_running-cases :
    (state : PlanState)
    → is_running state ≡ true
    → (state ≡ PlanState.accepted)
      ⊎ ((state ≡ PlanState.applying) ⊎ (state ≡ PlanState.rolling_back))
is_running-cases PlanState.accepted h = inl refl
is_running-cases PlanState.applying h = inr (inl refl)
is_running-cases PlanState.rolling_back h = inr (inr refl)
is_running-cases PlanState.preparing h = cc
is_running-cases PlanState.ready h = cc
is_running-cases PlanState.succeeded h = cc
is_running-cases PlanState.rolled_back h = cc
is_running-cases PlanState.failed h = cc
is_running-cases PlanState.blocked h = cc
is_running-cases PlanState.rollback_failed h = cc

pub final_save : {b : Phase} {p : Plan} → Moves b (saved p) finished → is_terminal p.state ≡ true
final_save (Moves.refuse p e) = rw e refl
final_save (Moves.succeed r p e c) = rw e refl
final_save (Moves.come_back r p e c) = rw e refl
final_save (Moves.give_up_early p e) = rw e refl
final_save (Moves.give_up p e) = rw e refl
final_save (Moves.give_up_late r p e) = rw e refl
