-- ===== src/ChangeOnly/Clearance.antt =====
-- What a plan that is ready for archive rests on, and which roots a plan lists.
use atenea_remote_worker_spe.Prelude.{
  ℕ, String, ◌≡◌, refl, sym, ◌∙◌, subst, inl, inr, true, ◌||◌, List, [], ◌∷◌, ◌++◌, map, any, In,
  All, any-In, arith, str_eq, str_eq→eq, Bool-cases, ◌==◌,
}
use atenea_remote_worker_spe.Prelude.Sorting.{sorted-In}
use atenea_remote_worker_spe.ChangeOnly.Plan.{
  Key, ReviewedRoot, Row, Manifest, Resource, Blocker, Candidate, same_key, has_key, missing,
  still_present, first_blockers, candidate_before, Readiness, readiness, no_review, review_rows,
  plan,
}
use atenea_remote_worker_spe.ChangeOnly.Review.{
  IsCleared, IsOrigin, review_rows-IsCleared, review_rows-IsOrigin, review_rows-seen,
}

same_key→eq : (a b : Key) → same_key a b ≡ true → a ≡ b
same_key→eq a b h =
    let kind : a.kind ≡ b.kind = str_eq→eq a.kind b.kind (ground arith) in
    let id : a.id ≡ b.id = str_eq→eq a.id b.id (ground arith) in cc

append-empty : {A : Type 0} (xs ys : List A) → xs ++ ys ≡ [] → (xs ≡ []) × (ys ≡ [])
append-empty [] ys e = (refl, e)
append-empty (x ∷ xs) ys e = cc e

-- Without a missing root the key of every reviewed root was seen.
missing-none :
    (rs : List ReviewedRoot) (seen : List Key) (r : ReviewedRoot)
    → missing rs seen ≡ []
    → In r rs
    → any (same_key r.key) seen ≡ true
unfolding missing
missing-none [] seen r e i = elim i [ ]
missing-none (x ∷ rs) seen r e i =
    let tests = any (same_key x.key) seen || any (has_key x.key) rs in
    elim (Bool-cases tests) [
      | inr lost ↦ cc (rw lost at e)
      | inl kept ↦
          let rest : missing rs seen ≡ [] = rw kept at e in
          elim i [
            | inr later ↦ missing-none rs seen r rest later
            | inl same ↦
                subst (λ (y : ReviewedRoot). any (same_key y.key) seen ≡ true) same
                  (elim (Bool-cases (any (same_key x.key) seen)) [
                    | inl here ↦ here
                    | inr absent ↦
                        let (y, listed, equal) = any-In (has_key x.key) rs (ground arith) in
                        subst (λ k. any (same_key k) seen ≡ true)
                          (sym (same_key→eq x.key y.key equal)) (missing-none rs seen y rest listed)
                  ])
          ]
    ]

no_resources : (xs : List Resource) → map still_present xs ≡ [] → xs ≡ []
no_resources [] e = refl
no_resources (x ∷ xs) e = cc e

first_blockers-none :
    (m : Manifest) (active : ℕ) (config_hash : String)
    → first_blockers m active config_hash ≡ []
    → (active ≡ 0) × (config_hash ≡ m.configuration_sha256)
first_blockers-none m active config_hash e = elim (Bool-cases (active == 0)) [
  | inr busy ↦ cc (rw busy at e)
  | inl idle ↦ elim (Bool-cases (str_eq config_hash m.configuration_sha256)) [
    | inr moved ↦ cc (rw (idle, moved) at e)
    | inl same ↦ (ground arith, str_eq→eq config_hash m.configuration_sha256 same)
  ]
]

readiness-none : (bs : List Blocker) → readiness bs ≡ Readiness.ready_for_archive → bs ≡ []
readiness-none [] e = refl
readiness-none (b ∷ bs) e = cc e

-- The reviewed roots and the rows are the same, and nothing runs.
pub record IsClear (m : Manifest) (rows : List Row) (active : ℕ) (resources : List Resource)
    (config_hash : String) : Type 0 where
  pub idle : active ≡ 0
  pub configured : config_hash ≡ m.configuration_sha256
  pub released : resources ≡ []
  pub cleared : All (IsCleared m) rows
  pub complete :
      (r : ReviewedRoot) → In r m.reviewed_roots → (row : Row) × In row rows × (row.key ≡ r.key)

module _ (m : Manifest) (rows : List Row) (active : ℕ) (resources : List Resource)
    (config_hash : String) where
  -- A plan is ready for archive only if no execution runs, the configuration is the reviewed one, no
  -- resource is left, every row is a reviewed root as it was reviewed that may be left or archived,
  -- and every reviewed root has a row.
  pub plan-IsClear :
      (plan m rows active resources config_hash).state ≡ Readiness.ready_for_archive
      → IsClear m rows active resources config_hash
  unfolding plan
  plan-IsClear e =
      let first = no_review (first_blockers m active config_hash) in
      let review = review_rows m rows first in
      let lost = missing m.reviewed_roots review.seen in
      let none_left = readiness-none (review.blockers ++ lost ++ map still_present resources) e in
      let (both, gone) =
        append-empty (review.blockers ++ lost) (map still_present resources) none_left in
      let (reviewed, whole) = append-empty review.blockers lost both in
      let (cleared, start) = review_rows-IsCleared m rows first reviewed in
      let (idle, configured) = first_blockers-none m active config_hash start in
      record {
        idle = idle;
        configured = configured;
        released = no_resources resources gone;
        cleared = cleared;
        complete = λ r i.
            let (k, seen, same) =
              any-In (same_key r.key) review.seen
                (missing-none m.reviewed_roots review.seen r whole i) in
            elim (review_rows-seen m rows first k seen) [
              | inr none_ ↦ elim none_ [ ]
              | inl (row, listed, key) ↦ (row, listed, key ∙ sym (same_key→eq r.key k same))
            ];
      }

  -- Whether or not the plan is ready, each root that it lists for archive is that of a row whose
  -- records and branch are as they were reviewed, of a trial whose retirement is authorized.
  pub plan-IsOrigin :
      (c : Candidate)
      → In c (plan m rows active resources config_hash).archive_candidates
      → IsOrigin m rows c
  unfolding plan
  plan-IsOrigin c i =
      let first = no_review (first_blockers m active config_hash) in
      elim (review_rows-IsOrigin m rows first c
        (sorted-In candidate_before c (review_rows m rows first).candidates i)) [
          | inl none_ ↦ elim none_ [ ]
          | inr origin ↦ origin
        ]
