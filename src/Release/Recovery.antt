-- ===== src/Release/Recovery.antt =====
-- `recover` of the controller, at the start of the program: the plans of the files in turn. The
-- maintenance that follows a success catches its errors and is left out.
use atenea_remote_worker_spe.Prelude.{
  ℕ, String, Bool, not, ◌&&◌, Option, none, some, List, [], ◌∷◌, ok, err, pure, ◌>>◌, lookup,
  insert, if◌then◌else◌,
}
use atenea_remote_worker_spe.Release.Plan.{PlanState, is_terminal, Plan, crashed}
use atenea_remote_worker_spe.Release.Platform.{Platform}
use atenea_remote_worker_spe.Release.Execution.{execute}
use atenea_remote_worker_spe.Release.Requests.{is_given, Request}
use atenea_remote_worker_spe.Release.Planning.{is_preparing}
use atenea_remote_worker_spe.Release.Preparing.{Helpers}

-- `record["operationId"] and record["state"] not in TERMINAL`
abbrev pub is_unfinished : Plan → Bool
is_unfinished p = is_given p.operation_id && not (is_terminal p.state)

-- The `record.update` of an interrupted preparation.
abbrev pub mark_interrupted : ℕ → Plan → Plan
mark_interrupted now p = record p {
  state = PlanState.blocked;
  error_code = some "PREPARATION_INTERRUPTED";
  finished_at = some now;
}

module _ (h : Platform) (k : Helpers h) (now : ℕ) where
  -- `self.execute(record["planId"], recovered=True)`
  unfoldable pub resume : String → Plan → Request h (Unit {0})
  unfolding execute insert
  resume id p c =
      let (r, s) = execute h now (record { plan = p; world = c.world; log = [] }) in
      (r, record c { plans = insert id s.plan c.plans; world = s.world })

  abbrev pub note_attention : Plan → Request h (Unit {0})
  note_attention p c =
      let (r, w) = k.storage "ATTENTION" p c.world in
      if k.has_storage p c.world then (r, record c { world = w }) else (ok tt, c)

  unfoldable pub interrupt : String → Plan → Request h (Unit {0})
  unfolding insert
  interrupt id p c =
      note_attention (mark_interrupted now p)
        (record c { plans = insert id (mark_interrupted now p) c.plans })

  abbrev pub recover_found : String → Option Plan → Request h (Unit {0})
  recover_found id none c = (err crashed, c)
  recover_found id (some p) c =
      if is_unfinished p
      then resume id p c
      else if is_preparing p.state
      then interrupt id p c
      else (ok tt, c)

  -- The body of the loop, for the directory `id`.
  unfoldable pub recover_one : String → Request h (Unit {0})
  unfolding lookup resume interrupt
  recover_one id c = recover_found id (lookup id c.plans) c

  -- `recover`, over the directories in the order in which they are listed.
  unfoldable pub recover : List String → Request h (Unit {0})
  unfolding recover_one
  recover [] = pure tt
  recover (id ∷ ids) = do recover_one id; recover ids
