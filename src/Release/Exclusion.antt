-- ===== src/Release/Exclusion.antt =====
-- One release at a time.
use atenea_remote_worker_spe.Prelude.{
  ℕ, String, ◌≡◌, ap, inl, inr, Bool, true, some, [], ◌∷◌, values, any, Result, ok, err, str_eq,
  lookup, arith, Bool-cases, Dict,
}
use atenea_remote_worker_spe.Release.Plan.{Plan, Failure}
use atenea_remote_worker_spe.Release.Platform.{Platform}
use atenea_remote_worker_spe.Release.Requests.{
  AcceptRequest, is_in_progress, Controller, all_plans, accept,
}
use atenea_remote_worker_spe.Release.Acceptance.{AcceptEffect, accept-AcceptEffect}

any-lookup :
    (f : Plan → Bool) (k : String) (p : Plan) (d : Dict Plan)
    → lookup k d ≡ some p
    → f p ≡ true
    → any f (values d) ≡ true
unfolding lookup any values
any-lookup f k p [] e t = cc
any-lookup f k p ((j, v) ∷ d) e t = elim (Bool-cases (str_eq j k)) [
  | inl same ↦ ground arith
  | inr other ↦ ground (arith, any-lookup f k p d)
]

module _ (h : Platform) (q : AcceptRequest) (now : ℕ) (c : Controller h) where
  starts_none :
      (x : Result Failure Plan × Controller h)
      → any is_in_progress (all_plans h c) ≡ true
      → AcceptEffect h q now c x
      → x.1.started ≡ c.started
  starts_none (err e, c') busy same = ap (λ (d : Controller h). d.started) same
  starts_none (ok p', c') busy (inl r) = ap (λ (d : Controller h). d.started) r.same
  starts_none (ok p', c') busy (inr (inl l)) = cc (busy, l.clear.alone)
  starts_none (ok p', c') busy (inr (inr b)) = b.started

  -- While a plan has an operation and has not ended, or its rollback has failed, no call of `accept`
  -- starts an execution.
  pub accept_excluded :
      (id : String) (p : Plan)
      → lookup id c.plans ≡ some p
      → is_in_progress p ≡ true
      → (accept h q now c).1.started ≡ c.started
  accept_excluded id p stored busy =
      starts_none (accept h q now c) (any-lookup is_in_progress id p c.plans stored busy)
        (accept-AcceptEffect h q now c)
