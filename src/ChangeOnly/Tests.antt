-- ===== src/ChangeOnly/Tests.antt =====
-- A plan for one trial root, and the theorems applied to it.
use atenea_remote_worker_spe.Prelude.{
  ◌≡◌, refl, sym, subst, inl, true, false, some, [], ◌∷◌, In, any, all, lookup,
}
use atenea_remote_worker_spe.Prelude.Sorting.{sorted}
use atenea_remote_worker_spe.ChangeOnly.Plan.{
  Key, Stamp, Observation, ReviewedRoot, Row, Manifest, Candidate, Readiness, same_records,
  find_reviewed, judge, judge_found, conclude, review_row, review_rows, missing, plan,
}
use atenea_remote_worker_spe.ChangeOnly.Review.{IsOrigin}
use atenea_remote_worker_spe.ChangeOnly.Clearance.{IsClear, plan-IsClear, plan-IsOrigin}

abbrev key : Key
key = record { kind = "sessions"; id = "0fd2c888" }

abbrev stamp : Stamp
stamp = record { sha256 = "9b48"; uid = 999; mode = "0o640" }

abbrev observation : Observation
observation = record { head = some "1e0a"; branch = some "refs/heads/trial"; dirty = some false }

abbrev reviewed : ReviewedRoot
reviewed = record {
  key = key;
  disposition = "TRIAL";
  records = ("workspace-v1.json", stamp) ∷ [];
  observation = observation;
  retirement_authorized = true;
}

abbrev row : Row
row = record {
  key = key;
  records = ("workspace-v1.json", stamp) ∷ [];
  unexpected_structure = false;
  observation = observation;
}

abbrev manifest : Manifest
manifest = record { reviewed_roots = reviewed ∷ []; configuration_sha256 = "c0" }

abbrev candidate : Candidate
candidate = record { key = key; dirty = false }

is_planned :
    ((plan manifest (row ∷ []) 0 [] "c0").state ≡ Readiness.ready_for_archive)
    × ((plan manifest (row ∷ []) 0 [] "c0").archive_candidates ≡ candidate ∷ [])
unfolding plan review_rows review_row conclude judge_found judge find_reviewed same_records missing
    sorted any all lookup
is_planned = (refl, refl)

candidate-In : In candidate (plan manifest (row ∷ []) 0 [] "c0").archive_candidates
candidate-In = subst (In candidate) (sym is_planned.1) (inl refl)

plan-IsClear_example : IsClear manifest (row ∷ []) 0 [] "c0"
plan-IsClear_example = plan-IsClear manifest (row ∷ []) 0 [] "c0" is_planned.0

plan-IsOrigin_example : IsOrigin manifest (row ∷ []) candidate
plan-IsOrigin_example = plan-IsOrigin manifest (row ∷ []) 0 [] "c0" candidate candidate-In
