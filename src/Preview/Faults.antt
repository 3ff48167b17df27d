-- ===== src/Preview/Faults.antt =====
-- One record file that cannot be read stops every pass over the records.
use atenea_remote_worker_spe.Prelude.{
  ℕ, String, ◌≡◌, refl, ap, subst, ◌∙◌, inl, inr, some, List, [], ◌∷◌, In, Dict, lookup, names, ok,
  err, Result-cases,
}
use atenea_remote_worker_spe.Prelude.Sorting.{sorted, In-sorted}
use atenea_remote_worker_spe.Preview.Record.{
  Preview, Stored, broken, Failure, Settings, Coordinator, Host,
}
use atenea_remote_worker_spe.Preview.Store.{read_stored, read_each, name_before, all_records}
use atenea_remote_worker_spe.Preview.Listeners.{available_ingress}
use atenea_remote_worker_spe.Preview.Sweep.{sweep, reconcile}
use atenea_remote_worker_spe.Preview.Listing.{read_each-cases, lookup-names}

not_readable :
    (ids : List String) (d : Dict Stored) (id : String) (ps : List Preview)
    → In id ids
    → lookup id d ≡ some broken
    → read_each ids d ≡ ok ps
    → ⊥
not_readable [] d id ps m b e = m
not_readable (j ∷ ids) d id ps (inl same) b e = unread (read_each-cases j ids d ps e).first (
    subst (λ f. read_stored f ≡ ok (read_each-cases j ids d ps e).first)
      (ap (λ i. lookup i d) same ∙ b) (read_each-cases j ids d ps e).here)
  where
    unread : (p : Preview) → read_stored (some broken) ≡ ok p → ⊥
    unread p e = cc
not_readable (j ∷ ids) d id ps (inr m) b e =
    not_readable ids d id (read_each-cases j ids d ps e).rest m b
      (read_each-cases j ids d ps e).later

listing_fails :
    (c : Coordinator) (id : String)
    → lookup id c.records ≡ some broken
    → (e : Failure) × (read_each (sorted name_before (names c.records)) c.records ≡ err e)
listing_fails c id b =
    elim (Result-cases (read_each (sorted name_before (names c.records)) c.records)) [
      | inr f ↦ f
      | inl (ps, good) ↦ absurd (
          not_readable (sorted name_before (names c.records)) c.records id ps
            (In-sorted name_before id (names c.records) (lookup-names id broken c.records b)) b
            good)
    ]

-- With one record file that cannot be read, a pass of the sweeper raises and takes nothing down,
-- the search for a free port raises, and so does the start of the coordinator; all with the same
-- error.
pub unreadable_stops :
    (h : Host) (s : Settings) (now : ℕ) (c : Coordinator) (id : String)
    → lookup id c.records ≡ some broken
    → (e : Failure) × (sweep now c ≡ (err e, c))
      × (available_ingress h s c ≡ (err e, c))
      × (reconcile h now c ≡ (err e, c))
unfolding sweep available_ingress reconcile all_records
unreadable_stops h s now c id b =
    let (e, f) = listing_fails c id b in (e, rw f refl, rw f refl, rw f refl)
