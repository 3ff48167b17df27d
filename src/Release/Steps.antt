-- ===== src/Release/Steps.antt =====
-- Any sequence of requests and executions has at most one plan in progress.
use atenea_remote_worker_spe.Prelude.{
  ℕ, ◌+◌, ◌≤◌, String, ◌≡◌, refl, ap, inl, inr, Bool, true, false, none, some, [], ◌∷◌, any, values,
  Result, ok, err, str_eq, lookup, insert, arith, Bool-cases, Option, Dict, if◌then◌else◌,
}
use atenea_remote_worker_spe.Release.Plan.{TargetName, PlanState, Plan, Failure}
use atenea_remote_worker_spe.Release.Platform.{Platform}
use atenea_remote_worker_spe.Release.Completion.{life}
use atenea_remote_worker_spe.Release.Requests.{AcceptRequest, is_in_progress, Controller, accept}
use atenea_remote_worker_spe.Release.Planning.{PlanRequest, make_plan, PlanEffect, plan-PlanEffect}
use atenea_remote_worker_spe.Release.Acceptance.{AcceptEffect, accept-AcceptEffect}

abbrev one_if : Bool → ℕ
one_if b = if b then 1 else 0

unfoldable pub count_busy : Dict Plan → ℕ
count_busy [] = 0
count_busy ((k, p) ∷ d) = one_if (is_in_progress p) + count_busy d

idle-count : (d : Dict Plan) → any is_in_progress (values d) ≡ false → count_busy d ≡ 0
unfolding count_busy any values
idle-count [] e = refl
idle-count ((k, p) ∷ d) e = ground (arith, idle-count d)

lookup_first :
    (j k : String) (r p : Plan) (d : Dict Plan)
    → str_eq j k ≡ true
    → lookup k ((j, r) ∷ d) ≡ some p
    → some r ≡ some p
unfolding lookup
lookup_first j k r p d s e = rw s at e

lookup_later :
    (j k : String) (r p : Plan) (d : Dict Plan)
    → str_eq j k ≡ false
    → lookup k ((j, r) ∷ d) ≡ some p
    → lookup k d ≡ some p
unfolding lookup
lookup_later j k r p d s e = rw s at e

busy_or_none : Option Plan → ℕ
busy_or_none none = 0
busy_or_none (some p) = one_if (is_in_progress p)

same_busy : (r p : Plan) → some r ≡ some p → one_if (is_in_progress r) ≡ one_if (is_in_progress p)
unfolding busy_or_none
same_busy r p e = ap busy_or_none e

replace-count :
    (k : String) (p q : Plan) (d : Dict Plan)
    → lookup k d ≡ some p
    → count_busy (insert k q d) + one_if (is_in_progress p)
      ≡ count_busy d + one_if (is_in_progress q)
unfolding count_busy lookup insert
replace-count k p q [] e = cc
replace-count k p q ((j, r) ∷ d) e = elim (Bool-cases (str_eq j k)) [
  | inl same ↦ rw same (omega (arith, same_busy r p (lookup_first j k r p d same e)))
  | inr other ↦ rw other (omega (arith, replace-count k p q d (lookup_later j k r p d other e)))
]

add-count :
    (k : String) (q : Plan) (d : Dict Plan)
    → lookup k d ≡ none
    → count_busy (insert k q d) ≡ count_busy d + one_if (is_in_progress q)
unfolding count_busy lookup insert
add-count k q [] e = omega arith
add-count k q ((j, r) ∷ d) e = elim (Bool-cases (str_eq j k)) [
  | inl same ↦ ground arith
  | inr other ↦ ground (arith, add-count k q d)
]

one_if_le : (b : Bool) → one_if b ≤ 1
one_if_le true = omega arith
one_if_le false = omega arith

-- What happens between two instants: a request, an execution of a plan with an operation, or a
-- change of the outside world.
pub data Happens (h : Platform) (offered : TargetName → Bool) (c : Controller h)
    : Controller h → Type 0 where
  request_plan : (q : PlanRequest) (now : ℕ) → Happens h offered c (make_plan h offered q now c).1
  request_accept : (q : AcceptRequest) (now : ℕ) → Happens h offered c (accept h q now c).1
  run_execution :
      (id : String) (p : Plan) (now : ℕ)
      → lookup id c.plans ≡ some p
      → is_in_progress p ≡ true
      → Happens h offered c (record c {
        plans = insert id (life h now p c.world).plan c.plans;
        world = (life h now p c.world).world;
      })
  world_changes : (w : h.World) → Happens h offered c (record c { world = w })

idle_if_blocked : (p : Plan) → p.state ≡ PlanState.blocked → one_if (is_in_progress p) ≡ 0
idle_if_blocked p e = rw e (ground arith)

module _ (h : Platform) (offered : TargetName → Bool) (c : Controller h) where
  planned-count :
      (q : PlanRequest) (now : ℕ) (x : Result Failure Plan × Controller h)
      → PlanEffect h offered q now c x
      → count_busy x.1.plans ≡ count_busy c.plans
  planned-count q now (err e, c') (same, t, u) = ap count_busy same
  planned-count q now (ok p, c') (inl k) = ap (λ (d : Controller h). count_busy d.plans) k.same
  planned-count q now (ok p, c') (inr d) = rw d.plans (
      omega (
        arith,
        add-count q.plan_id p c.plans d.free,
        ap (λ (x : Plan). one_if (is_in_progress x)) d.plan,
      ))

  accepted-count :
      (q : AcceptRequest) (now : ℕ) (x : Result Failure Plan × Controller h)
      → AcceptEffect h q now c x
      → count_busy c.plans ≤ 1
      → count_busy x.1.plans ≤ 1
  accepted-count q now (err e, c') same i = rw same i
  accepted-count q now (ok p, c') (inl k) i = rw k.same i
  accepted-count q now (ok p, c') (inr (inl l)) i = rw l.plans (
      omega (
        arith,
        replace-count q.plan_id l.plan p c.plans l.opened.stored,
        idle-count c.plans l.clear.alone,
        one_if_le (is_in_progress p),
      ))
  accepted-count q now (ok p, c') (inr (inr b)) i = rw b.plans (
      omega (
        arith,
        replace-count q.plan_id b.plan p c.plans b.opened.stored,
        idle_if_blocked p (ap (λ (x : Plan). x.state) b.answer),
        i,
      ))

  executed-count :
      (id : String) (p p' : Plan)
      → lookup id c.plans ≡ some p
      → is_in_progress p ≡ true
      → count_busy c.plans ≤ 1
      → count_busy (insert id p' c.plans) ≤ 1
  executed-count id p p' stored busy i =
      omega
        (arith, replace-count id p p' c.plans stored, ap one_if busy, one_if_le (is_in_progress p'))

Happens-count :
    (h : Platform) (offered : TargetName → Bool) (c c' : Controller h)
    → count_busy c.plans ≤ 1
    → Happens h offered c c'
    → count_busy c'.plans ≤ 1
Happens-count h offered c _ i (request_plan q now) = omega (
  arith,
  i,
  planned-count h offered c q now (make_plan h offered q now c) (plan-PlanEffect h offered q now c),
)
Happens-count h offered c _ i (request_accept q now) =
    accepted-count h offered c q now (accept h q now c) (accept-AcceptEffect h q now c) i
Happens-count h offered c _ i (run_execution id p now stored busy) =
    executed-count h offered c id p (life h now p c.world).plan stored busy i
Happens-count h offered c _ i (world_changes w) = i

pub data Course (h : Platform) (offered : TargetName → Bool) (c : Controller h)
    : Controller h → Type 0 where
  begin : Course h offered c c
  then_next :
      (c' c'' : Controller h)
      → Course h offered c c'
      → Happens h offered c' c''
      → Course h offered c c''

-- If at most one plan is in progress, then at most one is after any sequence of requests to plan
-- and to accept, executions of plans in progress, and changes of the outside world.
pub Course-count :
    (h : Platform) (offered : TargetName → Bool) (c c' : Controller h)
    → count_busy c.plans ≤ 1
    → Course h offered c c'
    → count_busy c'.plans ≤ 1
Course-count h offered c _ i begin = i
Course-count h offered c c' i (then_next d _ r s) =
    Happens-count h offered d c' (Course-count h offered c d i r) s
