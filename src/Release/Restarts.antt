-- ===== src/Release/Restarts.antt =====
-- The executor stops at any event, and a later run of the program takes the plan up from its file.
-- A sequence of such lives applies a release at most once.
use atenea_remote_worker_spe.Prelude.{
  ◌≡◌, subst, if◌then◌else◌, true, false, List, [], ◌∷◌, ◌++◌, ℕ, ◌+◌, ◌≤◌, arith,
}
use atenea_remote_worker_spe.Release.Plan.{is_terminal, Plan}
use atenea_remote_worker_spe.Release.Platform.{Platform}
use atenea_remote_worker_spe.Release.Execution.{
  Event, saved, applied, verified, reverted, committed, receipt_saved, is_accepted,
}
use atenea_remote_worker_spe.Release.Protocol.{Phase, finished, Follows, stop, go}
use atenea_remote_worker_spe.Release.Disk.{file_after, is_running, first_phase}
use atenea_remote_worker_spe.Release.Budget.{
  count_applied, budget, agrees, Follows-budget, Follows-agrees, restart-budget, restart_runs,
  first-agrees, first-budget,
}
use atenea_remote_worker_spe.Release.Completion.{life, execute-IsComplete}

-- The events of all lives of the executor on a plan: each life is an execution of what the file
-- holds, in a world of its own, that stops after some of its events.
pub data Lives (h : Platform) : Plan → List Event → Type 0 where
  over : (p : Plan) → Lives h p []
  next :
      (p : Plan) (now : ℕ) (w : h.World) (done lost later : List Event)
      → is_terminal p.state ≡ false
      → (life h now p w).log ≡ done ++ lost
      → Lives h (file_after p done) later
      → Lives h p (done ++ later)

split : {a c : Phase} (k l : List Event) → Follows a (k ++ l) c → (b : Phase) × Follows a k b
split [] l f = (_, stop _)
split (e ∷ k) l (go a b c _ _ m f) = let (d, g) = split k l f in (d, go a b d e k m g)

count-append : (k l : List Event) → count_applied (k ++ l) ≡ count_applied k + count_applied l
unfolding count_applied
count-append [] l = omega arith
count-append (saved p ∷ k) l = count-append k l
count-append (applied ∷ k) l = omega (arith, count-append k l)
count-append (verified r ∷ k) l = count-append k l
count-append (reverted r ∷ k) l = count-append k l
count-append (committed r ∷ k) l = count-append k l
count-append (receipt_saved r ∷ k) l = count-append k l

count_one :
    (h : Platform) (p : Plan) (now : ℕ) (w : h.World) (done lost : List Event)
    → is_running p.state ≡ true
    → (life h now p w).log ≡ done ++ lost
    → (b : Phase) × (count_applied done + budget b ≤ budget (first_phase p.state))
      × (agrees b (file_after p done).state ≡ true)
count_one h p now w done lost r e =
    let complete = execute-IsComplete h now p w r in
    let whole = subst (λ l. Follows (first_phase p.state) l finished) e complete.follows in
    let (b, f) = split done lost whole in
    (b, Follows-budget f, Follows-agrees p f (first-agrees p.state r))

Lives-budget :
    {h : Platform} {p : Plan} {l : List Event} (b : Phase)
    → Lives h p l
    → agrees b p.state ≡ true
    → count_applied l ≤ budget b
unfolding count_applied
Lives-budget {h} b (over p) g = omega arith
Lives-budget {h} b (next p now w done lost later t e lives) g =
    let (d, count, agree) = count_one h p now w done lost (restart_runs b p.state g t) e in
    omega (
      arith,
      count-append done later,
      count,
      restart-budget b p.state g,
      Lives-budget d lives agree,
    )

-- However often the executor stops, and whatever the outside world does meanwhile, the lives of an
-- accepted plan call `apply` at most once, and those of a plan that is found applying or rolling
-- back never do.
pub Lives-apply_once :
    (h : Platform) (p : Plan) (l : List Event)
    → is_running p.state ≡ true
    → Lives h p l
    → count_applied l ≤ (if is_accepted p.state then 1 else 0)
Lives-apply_once h p l r lives =
    omega (
      arith,
      first-budget p.state,
      Lives-budget (first_phase p.state) lives (first-agrees p.state r),
    )
