-- ===== src/ChangeOnly/Review.antt =====
-- What the loop over the rows accepts, and where its candidates come from.
use atenea_remote_worker_spe.Prelude.{
  ◌≡◌, refl, ap, inl, inr, ◌⊎◌, Bool, true, false, Option, none, some, List, [], ◌∷◌, ◌++◌, any, In,
  All, In-append, arith, str_eq, str_eq→eq, Bool-cases,
}
use atenea_remote_worker_spe.ChangeOnly.Plan.{
  Key, ReviewedRoot, Row, Manifest, Candidate, same_key, same_records, same_text, same_observation,
  is_known, find_reviewed, Verdict, blocked, archived, preserved, is_trial, judge, judge_found,
  Review, block, is_dirty, conclude, review_row, review_rows,
}

-- A row that is as it was reviewed, of a root that may be left or archived.
pub record IsCleared (m : Manifest) (row : Row) : Type 0 where
  pub old : ReviewedRoot
  pub found : find_reviewed row.key m.reviewed_roots ≡ some old
  pub expected : row.unexpected_structure ≡ false
  pub records : same_records row.records old.records ≡ true
  pub bound : str_eq old.disposition "UNBOUND_REVIEW_REQUIRED" ≡ false
  pub observed :
      (is_known old.observation.head ≡ false)
      ⊎ (same_observation row.observation old.observation ≡ true)
  pub retirable :
      (is_trial old ≡ false)
      ⊎ ((old.retirement_authorized ≡ true)
          × (same_text row.observation.branch old.observation.branch ≡ true))

-- A row that is to be archived: the root was reviewed as a trial whose branch may be retired.
pub record IsRetired (m : Manifest) (row : Row) : Type 0 where
  pub old : ReviewedRoot
  pub found : find_reviewed row.key m.reviewed_roots ≡ some old
  pub records : same_records row.records old.records ≡ true
  pub trial : old.disposition ≡ "TRIAL"
  pub authorized : old.retirement_authorized ≡ true
  pub branch : same_text row.observation.branch old.observation.branch ≡ true

abbrev is_allowed : Verdict → Bool
is_allowed (blocked code) = false
is_allowed archived = true
is_allowed preserved = true

judge-IsCleared :
    (m : Manifest) (row : Row) (found : Option ReviewedRoot)
    → find_reviewed row.key m.reviewed_roots ≡ found
    → is_allowed (judge_found found row) ≡ true
    → IsCleared m row
unfolding judge_found judge
judge-IsCleared m row none e a = cc a
judge-IsCleared m row (some old) e a = record {
  old = old;
  found = e;
  expected = ground arith;
  records = ground arith;
  bound = ground arith;
  observed = elim (Bool-cases (is_known old.observation.head)) [
    | inr no_head ↦ inl no_head
    | inl head ↦ inr (ground arith)
  ];
  retirable = elim (Bool-cases (is_trial old)) [
    | inr other ↦ inl other
    | inl trial ↦ inr (ground arith, ground arith)
  ];
}

judge-IsRetired :
    (m : Manifest) (row : Row) (found : Option ReviewedRoot)
    → find_reviewed row.key m.reviewed_roots ≡ found
    → judge_found found row ≡ archived
    → IsRetired m row
unfolding judge_found judge
judge-IsRetired m row none e a = cc a
judge-IsRetired m row (some old) e a = record {
  old = old;
  found = e;
  records = ground arith;
  trial = str_eq→eq old.disposition "TRIAL" (ground arith);
  authorized = ground arith;
  branch = ground arith;
}

no_append : {A : Type 0} {C : Type 0} (xs : List A) (x : A) → xs ++ (x ∷ []) ≡ [] → C
no_append [] x e = cc e
no_append (y ∷ ys) x e = cc e

conclude-is_allowed :
    (v : Verdict) (row : Row) (r : Review)
    → (conclude v row r).blockers ≡ []
    → (is_allowed v ≡ true) × (r.blockers ≡ [])
unfolding conclude
conclude-is_allowed (blocked code) row r e = no_append r.blockers (block code row.key) e
conclude-is_allowed archived row r e = (refl, e)
conclude-is_allowed preserved row r e = (refl, e)

-- Without a blocker the row is cleared, and nothing was blocked before.
review_row-IsCleared :
    (m : Manifest) (row : Row) (r : Review)
    → (review_row m row r).blockers ≡ []
    → IsCleared m row × (r.blockers ≡ [])
unfolding review_row
review_row-IsCleared m row r e = elim (Bool-cases (any (same_key row.key) r.seen)) [
  | inl again ↦
      let (refused, _) = conclude-is_allowed (blocked "DUPLICATE_ROOT") row r (rw again at e) in
      cc refused
  | inr new ↦
      let verdict = judge_found (find_reviewed row.key m.reviewed_roots) row in
      let (allowed, before) =
        conclude-is_allowed verdict row (record r { seen = row.key ∷ r.seen }) (rw new at e) in
      (judge-IsCleared m row (find_reviewed row.key m.reviewed_roots) refl allowed, before)
]

pub review_rows-IsCleared :
    (m : Manifest) (rows : List Row) (r : Review)
    → (review_rows m rows r).blockers ≡ []
    → All (IsCleared m) rows × (r.blockers ≡ [])
unfolding review_rows
review_rows-IsCleared m [] r e = (tt, e)
review_rows-IsCleared m (row ∷ rows) r e =
    let (rest, middle) = review_rows-IsCleared m rows (review_row m row r) e in
    let (here, before) = review_row-IsCleared m row r middle in ((here, rest), before)

conclude-In :
    (v : Verdict) (row : Row) (r : Review) (c : Candidate)
    → In c (conclude v row r).candidates
    → In c r.candidates ⊎ ((v ≡ archived) × (row.key ≡ c.key))
unfolding conclude
conclude-In (blocked code) row r c i = inl i
conclude-In preserved row r c i = inl i
conclude-In archived row r c i =
    elim (In-append c r.candidates
      (record { key = row.key; dirty = is_dirty row.observation.dirty } ∷ []) i) [
        | inl old ↦ inl old
        | inr (inl e) ↦ inr (refl, ap (λ (x : Candidate). x.key) e)
        | inr (inr none_) ↦ elim none_ [ ]
      ]

-- A candidate that was there before, or the row's own.
review_row-In :
    (m : Manifest) (row : Row) (r : Review) (c : Candidate)
    → In c (review_row m row r).candidates
    → In c r.candidates ⊎ (IsRetired m row × (row.key ≡ c.key))
unfolding review_row
review_row-In m row r c i = elim (Bool-cases (any (same_key row.key) r.seen)) [
  | inl again ↦ elim (conclude-In (blocked "DUPLICATE_ROOT") row r c (rw again at i)) [
    | inl old ↦ inl old
    | inr (archives, _) ↦ cc archives
  ]
  | inr new ↦
      elim (conclude-In (judge_found (find_reviewed row.key m.reviewed_roots) row) row
        (record r { seen = row.key ∷ r.seen }) c (rw new at i)) [
          | inl old ↦ inl old
          | inr (archives, key) ↦
              inr
                (judge-IsRetired m row (find_reviewed row.key m.reviewed_roots) refl archives, key)
        ]
]

-- The row of a candidate.
pub record IsOrigin (m : Manifest) (rows : List Row) (c : Candidate) : Type 0 where
  pub row : Row
  pub listed : In row rows
  pub retired : IsRetired m row
  pub key : row.key ≡ c.key

pub review_rows-IsOrigin :
    (m : Manifest) (rows : List Row) (r : Review) (c : Candidate)
    → In c (review_rows m rows r).candidates
    → In c r.candidates ⊎ IsOrigin m rows c
unfolding review_rows
review_rows-IsOrigin m [] r c i = inl i
review_rows-IsOrigin m (row ∷ rows) r c i =
    elim (review_rows-IsOrigin m rows (review_row m row r) c i) [
      | inr o ↦
          inr (record { row = o.row; listed = inr o.listed; retired = o.retired; key = o.key })
      | inl middle ↦ elim (review_row-In m row r c middle) [
        | inl old ↦ inl old
        | inr (retired, key) ↦
            inr (record { row = row; listed = inl refl; retired = retired; key = key })
      ]
    ]

conclude-seen : (v : Verdict) (row : Row) (r : Review) → (conclude v row r).seen ≡ r.seen
unfolding conclude
conclude-seen (blocked code) row r = refl
conclude-seen archived row r = refl
conclude-seen preserved row r = refl

-- The keys that were seen are keys of rows.
review_row-seen :
    (m : Manifest) (row : Row) (r : Review) (k : Key)
    → In k (review_row m row r).seen
    → (row.key ≡ k) ⊎ In k r.seen
unfolding review_row
review_row-seen m row r k i = elim (Bool-cases (any (same_key row.key) r.seen)) [
  | inl again ↦ inr (rw (again, conclude-seen (blocked "DUPLICATE_ROOT") row r) at i)
  | inr new ↦
      let verdict = judge_found (find_reviewed row.key m.reviewed_roots) row in
      rw (new, conclude-seen verdict row (record r { seen = row.key ∷ r.seen })) at i
]

pub review_rows-seen :
    (m : Manifest) (rows : List Row) (r : Review) (k : Key)
    → In k (review_rows m rows r).seen
    → ((row : Row) × In row rows × (row.key ≡ k)) ⊎ In k r.seen
unfolding review_rows
review_rows-seen m [] r k i = inr i
review_rows-seen m (row ∷ rows) r k i = elim (review_rows-seen m rows (review_row m row r) k i) [
  | inl (later, listed, e) ↦ inl (later, inr listed, e)
  | inr middle ↦ elim (review_row-seen m row r k middle) [
    | inl e ↦ inl (row, inl refl, e)
    | inr old ↦ inr old
  ]
]
