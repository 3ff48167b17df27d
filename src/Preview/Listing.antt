-- ===== src/Preview/Listing.antt =====
-- The records that a pass reads are those that are stored.
use atenea_remote_worker_spe.Prelude.{
  String, ◌≡◌, refl, inl, inr, Option, none, some, List, [], ◌∷◌, In, All, Result, ok, err,
  and_then, str_eq, str_eq→eq, Dict, lookup, names, Bool-cases,
}
use atenea_remote_worker_spe.Prelude.Sorting.{sorted, In-sorted}
use atenea_remote_worker_spe.Preview.Record.{Preview, Stored, stored, broken, Failure, Coordinator}
use atenea_remote_worker_spe.Preview.Store.{read_stored, read_each, name_before}

-- A key of a dictionary is among its names.
pub lookup-names :
    {V : Type 0} (k : String) (v : V) (d : Dict V) → lookup k d ≡ some v → In k (names d)
unfolding lookup names
lookup-names k v [] e = cc
lookup-names k v ((j, w) ∷ d) e = elim (Bool-cases (str_eq j k)) [
  | inl same ↦ inl (str_eq→eq j k same)
  | inr other ↦ inr (lookup-names k v d (rw other at e))
]

-- A record in the directory `id`.
abbrev pub IsStored : Dict Stored → Preview → Type 0
IsStored d p = (id : String) × (lookup id d ≡ some (stored p))

-- What reading a directory gives.
pub read_stored-cases :
    (f : Option Stored) (p : Preview) → read_stored f ≡ ok p → f ≡ some (stored p)
read_stored-cases (some (stored q)) p e = cc
read_stored-cases (some broken) p e = cc
read_stored-cases none p e = cc

pub record IsRead (id : String) (ids : List String) (d : Dict Stored) (ps : List Preview)
    : Type 0 where
  pub first : Preview
  pub rest : List Preview
  pub whole : ps ≡ first ∷ rest
  pub here : read_stored (lookup id d) ≡ ok first
  pub later : read_each ids d ≡ ok rest

pub read_each-cases :
    (id : String) (ids : List String) (d : Dict Stored) (ps : List Preview)
    → read_each (id ∷ ids) d ≡ ok ps
    → IsRead id ids d ps
unfolding read_each
read_each-cases id ids d ps e = go (read_stored (lookup id d)) (read_each ids d) refl refl e
  where
    go :
        (r : Result Failure Preview) (rs : Result Failure (List Preview))
        → read_stored (lookup id d) ≡ r
        → read_each ids d ≡ rs
        → and_then r (λ p. and_then rs λ qs. ok (p ∷ qs)) ≡ ok ps
        → IsRead id ids d ps
    go (ok p) (ok qs) a b e = record { first = p; rest = qs; whole = cc; here = a; later = b }
    go (ok p) (err x) a b e = cc
    go (err x) rs a b e = cc

pub read_each-IsStored :
    (ids : List String) (d : Dict Stored) (ps : List Preview)
    → read_each ids d ≡ ok ps
    → All (IsStored d) ps
unfolding read_each
read_each-IsStored [] d [] e = tt
read_each-IsStored [] d (p ∷ ps) e = cc
read_each-IsStored (id ∷ ids) d ps e =
    let r = read_each-cases id ids d ps e in
    rw r.whole (
      (id, read_stored-cases (lookup id d) r.first r.here),
      read_each-IsStored ids d r.rest r.later,
    )

-- Every directory that is read gives its record.
pub read_each-In :
    (ids : List String) (d : Dict Stored) (ps : List Preview) (id : String) (p : Preview)
    → read_each ids d ≡ ok ps
    → In id ids
    → lookup id d ≡ some (stored p)
    → In p ps
read_each-In [] d ps id p e m s = elim m [ ]
read_each-In (j ∷ ids) d ps id p e (inl same) s =
    let r = read_each-cases j ids d ps e in
    rw r.whole (inl (first_of r.first (rw (same, s) at r.here)))
  where
    first_of : (q : Preview) → ◌≡◌ {A = Result Failure Preview} (ok p) (ok q) → q ≡ p
    first_of q e = cc
read_each-In (j ∷ ids) d ps id p e (inr m) s =
    let r = read_each-cases j ids d ps e in
    rw r.whole (inr (read_each-In ids d r.rest id p r.later m s))

-- A pass over the records sees every record of the store.
pub listed :
    (c : Coordinator) (ps : List Preview) (id : String) (p : Preview)
    → read_each (sorted name_before (names c.records)) c.records ≡ ok ps
    → lookup id c.records ≡ some (stored p)
    → In p ps
listed c ps id p e s =
    read_each-In (sorted name_before (names c.records)) c.records ps id p e
      (In-sorted name_before id (names c.records) (lookup-names id (stored p) c.records s)) s
