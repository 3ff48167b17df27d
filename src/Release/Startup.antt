-- ===== src/Release/Startup.antt =====
-- What the start of the program leaves of the plans.
use atenea_remote_worker_spe.Prelude.{
  ℕ, String, ◌≡◌, refl, sym, ap, ◌∙◌, subst, inl, inr, ◌⊎◌, Bool, true, false, not, ◌&&◌, some,
  List, [], ◌∷◌, In, ok, Result-cases, Dict, lookup, insert, lookup-insert, str_eq, Bool-cases,
  Option-cases, arith, eq_refl,
}
use atenea_remote_worker_spe.Release.Plan.{PlanState, is_terminal, Plan}
use atenea_remote_worker_spe.Release.Platform.{Platform}
use atenea_remote_worker_spe.Release.Disk.{is_running}
use atenea_remote_worker_spe.Release.Completion.{life, execute-IsComplete}
use atenea_remote_worker_spe.Release.Requests.{Controller}
use atenea_remote_worker_spe.Release.Planning.{is_preparing}
use atenea_remote_worker_spe.Release.Preparing.{Helpers}
use atenea_remote_worker_spe.Release.Recovery.{
  is_unfinished, mark_interrupted, resume, interrupt, recover_one, recover,
}

-- Neither unfinished nor in preparation.
abbrev pub is_quiet : Plan → Bool
is_quiet p = not (is_unfinished p) && not (is_preparing p.state)

abbrev pub QuietAt : Dict Plan → String → Type 0
QuietAt d id = (p : Plan) × (lookup id d ≡ some p) × (is_quiet p ≡ true)

-- The unfinished plans were accepted, or their effects begun.
abbrev pub AllRunnable : Dict Plan → Type 0
AllRunnable d =
    (id : String) (p : Plan)
    → lookup id d ≡ some p
    → is_unfinished p ≡ true
    → is_running p.state ≡ true

terminal_settled : (state : PlanState) → is_terminal state ≡ true → is_preparing state ≡ false
terminal_settled PlanState.preparing t = cc t
terminal_settled _ t = refl

terminal_quiet : (p : Plan) → is_terminal p.state ≡ true → is_quiet p ≡ true
terminal_quiet p t = ground (arith, terminal_settled p.state t)

insert-QuietAt :
    (id j : String) (q : Plan) (d : Dict Plan)
    → is_quiet q ≡ true
    → QuietAt d j
    → QuietAt (insert id q d) j
insert-QuietAt id j q d quiet (p, found, e) = elim (Bool-cases (str_eq id j)) [
  | inl same ↦ (q, lookup-insert id j q d ∙ rw same refl, quiet)
  | inr other ↦ (p, lookup-insert id j q d ∙ rw other found, e)
]

first_of : (a b : Bool) → a && b ≡ true → a ≡ true
first_of true b e = refl
first_of false b e = cc e

insert-AllRunnable :
    (id : String) (q : Plan) (d : Dict Plan)
    → is_quiet q ≡ true
    → AllRunnable d
    → AllRunnable (insert id q d)
insert-AllRunnable id q d quiet runnable j p found u = elim (Bool-cases (str_eq id j)) [
  | inl same ↦
      let equal : some q ≡ some p = rw same at (sym (lookup-insert id j q d) ∙ found) in
      let same_plan : q ≡ p = cc equal in
      let unquiet : is_quiet p ≡ true = subst (λ (x : Plan). is_quiet x ≡ true) same_plan quiet in
      cc (ap not (sym u) ∙ first_of (not (is_unfinished p)) (not (is_preparing p.state)) unquiet)
  | inr other ↦ runnable j p (rw other at (sym (lookup-insert id j q d) ∙ found)) u
]

-- What a turn of the loop does to the files: one is written, with a plan at rest, or none is.
abbrev IsTurn : String → Dict Plan → Dict Plan → Type 0
IsTurn id d d' =
    ((q : Plan) × (is_quiet q ≡ true) × (d' ≡ insert id q d)) ⊎ ((d' ≡ d) × QuietAt d id)

IsTurn-QuietAt : (id : String) (d d' : Dict Plan) → IsTurn id d d' → QuietAt d' id
IsTurn-QuietAt id d d' (inl (q, quiet, e)) =
    (q, ap (lookup id) e ∙ lookup-insert id id q d ∙ rw (eq_refl id) refl, quiet)
IsTurn-QuietAt id d d' (inr (e, at_rest)) = subst (λ x. QuietAt x id) (sym e) at_rest

-- The plans at rest stay so, and the others runnable.
IsTurn-AllRunnable :
    (id : String) (d d' : Dict Plan) → IsTurn id d d' → AllRunnable d → AllRunnable d'
IsTurn-AllRunnable id d d' (inl (q, quiet, e)) runnable =
    subst AllRunnable (sym e) (insert-AllRunnable id q d quiet runnable)
IsTurn-AllRunnable id d d' (inr (e, _)) runnable = subst AllRunnable (sym e) runnable

IsTurn-keeps : (id j : String) (d d' : Dict Plan) → IsTurn id d d' → QuietAt d j → QuietAt d' j
IsTurn-keeps id j d d' (inl (q, quiet, e)) r =
    subst (λ x. QuietAt x j) (sym e) (insert-QuietAt id j q d quiet r)
IsTurn-keeps id j d d' (inr (e, _)) r = subst (λ x. QuietAt x j) (sym e) r

module _ (h : Platform) (k : Helpers h) (now : ℕ) where
  interrupt-plans :
      (id : String) (p : Plan) (c : Controller h)
      → (interrupt h k now id p c).1.plans ≡ insert id (mark_interrupted now p) c.plans
  unfolding interrupt
  interrupt-plans id p c = elim (Bool-cases (k.has_storage (mark_interrupted now p) c.world)) [
    | inl kept ↦ rw kept refl
    | inr absent ↦ rw absent refl
  ]

  recover_one-IsTurn :
      (id : String) (c : Controller h) (u : Unit {0})
      → AllRunnable c.plans
      → (recover_one h k now id c).0 ≡ ok u
      → IsTurn id c.plans (recover_one h k now id c).1.plans
  unfolding recover_one resume interrupt
  recover_one-IsTurn id c u runnable done = elim (Option-cases (lookup id c.plans)) [
    | inl lost ↦ cc (rw lost at done)
    | inr (p, found) ↦ elim (Bool-cases (is_unfinished p)) [
      | inl open_ ↦
          let complete = execute-IsComplete h now p c.world (runnable id p found open_) in
          rw (found, open_)
            (inl (
              (life h now p c.world).plan,
              terminal_quiet (life h now p c.world).plan complete.terminal,
              refl,
            ))
      | inr closed ↦ elim (Bool-cases (is_preparing p.state)) [
        | inl waiting ↦
            rw (found, closed, waiting)
              (inl (
                mark_interrupted now p,
                terminal_quiet (mark_interrupted now p) refl,
                interrupt-plans id p c,
              ))
        | inr rests ↦ rw (found, closed, rests) (inr (refl, (p, refl, ground arith)))
      ]
    ]
  ]

  recover-turns :
      (ids : List String) (c : Controller h) (u : Unit {0})
      → AllRunnable c.plans
      → (recover h k now ids c).0 ≡ ok u
      → ((j : String) → QuietAt c.plans j → QuietAt (recover h k now ids c).1.plans j)
        × ((id : String) → In id ids → QuietAt (recover h k now ids c).1.plans id)
  unfolding recover
  recover-turns [] c u runnable done = (λ j r. r, λ id i. elim i [ ])
  recover-turns (id ∷ ids) c u runnable done = elim (Result-cases (recover_one h k now id c).0) [
    | inr (x, e) ↦ cc (rw e at done)
    | inl (v, e) ↦
        let c' = (recover_one h k now id c).1 in
        let turn = recover_one-IsTurn id c v runnable e in
        let (keeps, reaches) =
          recover-turns ids c' u (IsTurn-AllRunnable id c.plans c'.plans turn runnable)
            (rw e at done) in
        rw e (
          λ j r. keeps j (IsTurn-keeps id j c.plans c'.plans turn r),
          λ j i. elim i [
            | inl same ↦
                keeps j (subst (QuietAt c'.plans) same (IsTurn-QuietAt id c.plans c'.plans turn))
            | inr later ↦ reaches j later
          ],
        )
  ]

  -- If every unfinished plan was accepted or its effects begun, a start-up that returns leaves each
  -- plan of the directories that it went through neither unfinished nor in preparation, however the
  -- outside world answers.
  pub recover-QuietAt :
      (ids : List String) (c : Controller h)
      → AllRunnable c.plans
      → (recover h k now ids c).0 ≡ ok tt
      → (id : String) → In id ids
      → QuietAt (recover h k now ids c).1.plans id
  recover-QuietAt ids c runnable done = (recover-turns ids c tt runnable done).1
