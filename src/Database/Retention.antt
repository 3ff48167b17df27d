-- ===== src/Database/Retention.antt =====
-- What is left of a database's snapshots when the candidates of `retention_candidates` are gone.
use mathlib.Core.List.{Memᴰ}
use atenea_remote_worker_spe.Prelude.{
  ℕ, zero, suc, ◌+◌, ◌*◌, ◌-◌, ◌≤◌, ◌<◌, String, ◌≡◌, refl, sym, ap, str_eq, str_eq→eq, ◌∙◌, subst,
  ◌⊎◌, inl, inr, Bool, true, false, not, ◌||◌, List, [], ◌∷◌, Result, ok, err, any, all, keep_if,
  length, length-keep_if-le, take, eq_refl, leb, ltb, leb→le, arith, Bool-cases,
}
use atenea_remote_worker_spe.Database.Record.{Snapshot, Error, max_copies}
use atenea_remote_worker_spe.Database.Registry.{Disk}
use atenea_remote_worker_spe.Database.Snapshots.{
  is_expired, listed, candidates, list_snapshots, retention_candidates,
}

module _ {ℓ} {A : Type ℓ} where
  Memᴰ-keep_if :
      (p : A → Bool) (x : A) (xs : List A) → Memᴰ x xs → p x ≡ true → Memᴰ x (keep_if p xs)
  unfolding keep_if
  Memᴰ-keep_if p x [] m h = elim m [ ]
  Memᴰ-keep_if p x (y ∷ xs) (Memᴰ.head e) h = rw (← e, h) (Memᴰ.head refl)
  Memᴰ-keep_if p x (y ∷ xs) (Memᴰ.tail m) h = elim (Bool-cases (p y)) [
    | inl kept ↦ rw kept (Memᴰ.tail (Memᴰ-keep_if p x xs m h))
    | inr gone ↦ rw gone (Memᴰ-keep_if p x xs m h)
  ]

  Memᴰ-take : (n : ℕ) (x : A) (xs : List A) → Memᴰ x (take n xs) → Memᴰ x xs
  Memᴰ-take zero x xs m = elim m [ ]
  Memᴰ-take (suc n) x [] m = elim m [ ]
  Memᴰ-take (suc n) x (y ∷ xs) (Memᴰ.head e) = Memᴰ.head e
  Memᴰ-take (suc n) x (y ∷ xs) (Memᴰ.tail m) = Memᴰ.tail (Memᴰ-take n x xs m)

  -- What a filter lets through is at most what follows a prefix that it rejects.
  length-keep_if-prefix :
      (p : A → Bool) (n : ℕ) (xs : List A)
      → ((x : A) → Memᴰ x (take n xs) → p x ≡ false)
      → length (keep_if p xs) ≤ length xs - n
  unfolding keep_if
  length-keep_if-prefix p zero xs h = omega (arith, length-keep_if-le p xs)
  length-keep_if-prefix p (suc n) [] h = omega arith
  length-keep_if-prefix p (suc n) (x ∷ xs) h =
      rw (h x (Memᴰ.head refl))
        (omega (arith, length-keep_if-prefix p n xs (λ y m. h y (Memᴰ.tail m))))

  all-keep_if :
      (p q : A → Bool) (xs : List A)
      → ((x : A) → Memᴰ x xs → p x ≡ true → q x ≡ true)
      → all q (keep_if p xs) ≡ true
  unfolding all keep_if
  all-keep_if p q [] h = refl
  all-keep_if p q (x ∷ xs) h =
      ground (arith, h x (Memᴰ.head refl), all-keep_if p q xs (λ y m. h y (Memᴰ.tail m)))

  keep_if_none : (p : A → Bool) (xs : List A) → any p xs ≡ false → keep_if p xs ≡ []
  unfolding any keep_if
  keep_if_none p [] h = refl
  keep_if_none p (x ∷ xs) h = ground (arith, keep_if_none p xs)

  keep_if-false : (xs : List A) → keep_if (λ _. false) xs ≡ []
  unfolding keep_if
  keep_if-false [] = refl
  keep_if-false (x ∷ xs) = keep_if-false xs

Memᴰ-listed :
    (s : Snapshot) (items : List Snapshot) → Memᴰ s items → listed s.snapshot_id items ≡ true
unfolding listed any
Memᴰ-listed s [] m = elim m [ ]
Memᴰ-listed s (t ∷ items) (Memᴰ.head e) = rw (← e, eq_refl s.snapshot_id) refl
Memᴰ-listed s (t ∷ items) (Memᴰ.tail m) = ground (arith, Memᴰ-listed s items m)

-- The snapshots that stay when those in `gone` are removed by their identities.
abbrev pub remaining : List Snapshot → List Snapshot → List Snapshot
remaining gone items = keep_if (λ s. not (listed s.snapshot_id gone)) items

listed-candidates :
    (now : ℕ) (items : List Snapshot) (s : Snapshot)
    → Memᴰ s items
    → (listed s.snapshot_id (keep_if (is_expired now) items)
        || listed s.snapshot_id (take (length items - max_copies) items))
      ≡ true
    → listed s.snapshot_id (candidates now items) ≡ true
unfolding candidates
listed-candidates now items s m chosen = Memᴰ-listed s (candidates now items) (
    Memᴰ-keep_if
      (λ t.
        listed t.snapshot_id (keep_if (is_expired now) items)
        || listed t.snapshot_id (take (length items - max_copies) items))
      s items m chosen)

listed_excess :
    (now : ℕ) (items : List Snapshot) (s : Snapshot)
    → Memᴰ s (take (length items - max_copies) items)
    → listed s.snapshot_id (candidates now items) ≡ true
listed_excess now items s m =
    let excess = take (length items - max_copies) items in
    listed-candidates now items s (Memᴰ-take (length items - max_copies) s items m)
      (ground (arith, Memᴰ-listed s excess m))

listed_expired :
    (now : ℕ) (items : List Snapshot) (s : Snapshot)
    → Memᴰ s items
    → is_expired now s ≡ true
    → listed s.snapshot_id (candidates now items) ≡ true
listed_expired now items s m e =
    let expired = keep_if (is_expired now) items in
    listed-candidates now items s m
      (ground (arith, Memᴰ-listed s expired (Memᴰ-keep_if (is_expired now) s items m e)))

length-remaining :
    (now : ℕ) (items : List Snapshot) → length (remaining (candidates now items) items) ≤ max_copies
length-remaining now items =
    let rest =
      length-keep_if-prefix (λ s. not (listed s.snapshot_id (candidates now items)))
        (length items - max_copies) items (λ s m. rw (listed_excess now items s m)) in
    omega (arith, rest)

remaining_fresh :
    (now : ℕ) (items : List Snapshot)
    → all (λ s. not (is_expired now s)) (remaining (candidates now items) items) ≡ true
remaining_fresh now items =
    all-keep_if (λ s. not (listed s.snapshot_id (candidates now items)))
      (λ s. not (is_expired now s)) items (λ s m kept. ground (arith, listed_expired now items s m))

-- The condition under which nothing is a candidate.
candidates_none :
    (now : ℕ) (items : List Snapshot)
    → length items ≤ max_copies
    → any (is_expired now) items ≡ false
    → candidates now items ≡ []
unfolding candidates listed
candidates_none now items few young =
    let none_over : length items - max_copies ≡ 0 = omega arith in
    rw (keep_if_none (is_expired now) items young, none_over) (keep_if-false items)

-- What a successful `retention_candidates` says of the snapshots that `snapshots` lists: without
-- the candidates at most three are left, and none that is older than seven days; there is no
-- candidate if three at most are listed and none is older; and no candidate without its own need.
pub record IsSelection (now : ℕ) (items gone : List Snapshot) : Type 0 where
  pub few : length (remaining gone items) ≤ 3
  pub young :
      all (λ s. not (ltb (s.created_at + 7 * 86400 * 1000000) now)) (remaining gone items) ≡ true
  -- Each candidate is listed; and it, or another under its identity, is older than seven days or one
  -- of those before the last three.
  pub justified :
      (s : Snapshot)
      → Memᴰ s gone
      → Memᴰ s items
        × ((t : Snapshot) × (t.snapshot_id ≡ s.snapshot_id)
            × ((Memᴰ t items × (t.created_at + 7 * 86400 * 1000000 < now))
                ⊎ Memᴰ t (take (length items - 3) items)))
  pub needed :
      (gone ≡ [])
      ⊎ (3 < length items)
      ⊎ (any (λ s. ltb (s.created_at + 7 * 86400 * 1000000) now) items ≡ true)

keep_if-Memᴰ :
    (p : Snapshot → Bool) (x : Snapshot) (xs : List Snapshot)
    → Memᴰ x (keep_if p xs)
    → Memᴰ x xs × (p x ≡ true)
unfolding keep_if
keep_if-Memᴰ p x [] m = elim m [ ]
keep_if-Memᴰ p x (y ∷ xs) m = elim (Bool-cases (p y)) [
  | inl kept ↦ kept_here p x y xs kept (keep_if-Memᴰ p x xs) (rw kept at m)
  | inr gone ↦ let (later, e) = keep_if-Memᴰ p x xs (rw gone at m) in (Memᴰ.tail later, e)
]
  where
    kept_here :
        (p : Snapshot → Bool) (x y : Snapshot) (xs : List Snapshot)
        → p y ≡ true
        → (Memᴰ x (keep_if p xs) → Memᴰ x xs × (p x ≡ true))
        → Memᴰ x (y ∷ keep_if p xs)
        → Memᴰ x (y ∷ xs) × (p x ≡ true)
    kept_here p x y xs kept rest (Memᴰ.head e) = (Memᴰ.head e, ap p e ∙ kept)
    kept_here p x y xs kept rest (Memᴰ.tail m) = let (later, e) = rest m in (Memᴰ.tail later, e)

listed-Memᴰ :
    (id : String) (items : List Snapshot)
    → listed id items ≡ true
    → (t : Snapshot) × (t.snapshot_id ≡ id) × Memᴰ t items
unfolding listed any
listed-Memᴰ id [] h = cc h
listed-Memᴰ id (t ∷ items) h = elim (Bool-cases (str_eq id t.snapshot_id)) [
  | inl same ↦ (t, sym (str_eq→eq id t.snapshot_id same), Memᴰ.head refl)
  | inr other ↦ let (u, e, m) = listed-Memᴰ id items (rw other at h) in (u, e, Memᴰ.tail m)
]

candidates-justified :
    (now : ℕ) (items : List Snapshot) (s : Snapshot)
    → Memᴰ s (candidates now items)
    → Memᴰ s items
      × ((t : Snapshot) × (t.snapshot_id ≡ s.snapshot_id)
          × ((Memᴰ t items × (t.created_at + 7 * 86400 * 1000000 < now))
              ⊎ Memᴰ t (take (length items - 3) items)))
unfolding candidates is_expired
candidates-justified now items s m =
    let expired = keep_if (is_expired now) items in
    let excess = take (length items - 3) items in
    let (here, chosen) =
      keep_if-Memᴰ (λ t. listed t.snapshot_id expired || listed t.snapshot_id excess) s items m in
    elim (Bool-cases (listed s.snapshot_id expired)) [
      | inl old ↦
          let (t, e, among) = listed-Memᴰ s.snapshot_id expired old in
          let (found, late) = keep_if-Memᴰ (is_expired now) t items among in
          (here, (t, e, inl (found, ground arith)))
      | inr young ↦
          let (t, e, among) = listed-Memᴰ s.snapshot_id excess (rw young at chosen) in
          (here, (t, e, inr among))
    ]

candidates-IsSelection :
    (now : ℕ) (items : List Snapshot) → IsSelection now items (candidates now items)
unfolding is_expired
candidates-IsSelection now items = record {
  few = length-remaining now items;
  young = remaining_fresh now items;
  justified = λ s m. candidates-justified now items s m;
  needed = elim (Bool-cases (any (is_expired now) items)) [
    | inl old ↦ inr (inr old)
    | inr young ↦ elim (Bool-cases (leb (length items) max_copies)) [
      | inl few ↦ inl (candidates_none now items (leb→le (length items) max_copies few) young)
      | inr many ↦ inr (inl (ground arith))
    ]
  ];
}

ok_pair :
    (a b : List Snapshot) (d d' : Disk)
    → ◌≡◌ {A = Result Error (List Snapshot) × Disk} (ok a, d) (ok b, d')
    → (a ≡ b) × (d ≡ d')
ok_pair a b d d' h = (cc, cc)

not_ok :
    (e : Error) (b : List Snapshot) (d d' : Disk)
    → ¬ (◌≡◌ {A = Result Error (List Snapshot) × Disk} (err e, d) (ok b, d'))
not_ok e b d d' h = cc

-- On a database that has snapshots `items`, a `retention_candidates` that succeeds changes nothing
-- and returns candidates without which at most three snapshots are left, none of them older than
-- seven days; it returns none unless more than three are listed or one is older, and each
-- candidate shares its identity with a listed snapshot that is older than seven days or stands
-- before the last three.
pub retention_selects :
    (id : String) (now : ℕ) (d : Disk) {gone : List Snapshot} {d' : Disk}
    → retention_candidates id now d ≡ (ok gone, d')
    → (items : List Snapshot) × (list_snapshots id d ≡ (ok items, d')) × IsSelection now items gone
unfolding retention_candidates
retention_selects id now d {gone} {d'} h = go (list_snapshots id d) refl
  where
    Selected : Type 0
    Selected =
        (items : List Snapshot) × (list_snapshots id d ≡ (ok items, d'))
        × IsSelection now items gone

    go : (x : Result Error (List Snapshot) × Disk) → list_snapshots id d ≡ x → Selected
    go (ok items, d₁) e =
        let (same_gone, same_disk) = ok_pair (candidates now items) gone d₁ d' (rw e at h) in
        (
          items,
          e ∙ rw same_disk,
          subst (IsSelection now items) same_gone (candidates-IsSelection now items),
        )
    go (err x, d₁) e = absurd (not_ok x gone d₁ d' (rw e at h))
