-- ===== src/Preview/Ports.antt =====
-- The port that a new preview gets.
use atenea_remote_worker_spe.Prelude.{
  ℕ, zero, suc, ◌+◌, ◌-◌, ◌≤◌, ◌<◌, ◌≡◌, refl, subst, inl, inr, ◌⊎◌, Bool, true, false, Option,
  none, some, List, Result, ok, err, names, arith, Bool-cases, Result-cases, ◌==◌,
}
use atenea_remote_worker_spe.Prelude.Sorting.{sorted}
use atenea_remote_worker_spe.Preview.Record.{
  Preview, Failure, Settings, Coordinator, Host, conflict,
}
use atenea_remote_worker_spe.Preview.Store.{all_records, read_each, name_before}
use atenea_remote_worker_spe.Preview.Listeners.{
  first_port, or_exhausted, is_free, search_port, available_ingress,
}
use atenea_remote_worker_spe.Preview.Invariant.{Listed}

-- No port from `low` on and below `high` is free.
abbrev pub NoneFree : (ℕ → Bool) → ℕ → ℕ → Type 0
NoneFree free low high = (q : ℕ) → low ≤ q → q < high → free q ≡ false

abbrev pub FirstOf : (ℕ → Bool) → ℕ → ℕ → Option ℕ → Type 0
FirstOf free low high none = NoneFree free low high
FirstOf free low high (some port) =
    (low ≤ port) × (port < high) × (free port ≡ true) × NoneFree free low port

one_more :
    (free : ℕ → Bool) (low high : ℕ)
    → free low ≡ false
    → NoneFree free (low + 1) high
    → NoneFree free low high
one_more free low high e n q a b = elim (Bool-cases (low == q)) [
  | inl same ↦ let here : low ≡ q = ground arith in subst (λ p. free p ≡ false) here e
  | inr other ↦ n q (ground arith) b
]

widen :
    (free : ℕ → Bool) (low high : ℕ) (found : Option ℕ)
    → free low ≡ false
    → FirstOf free (low + 1) high found
    → FirstOf free low high found
widen free low high none e n = one_more free low high e n
widen free low high (some port) e (a, b, c, n) = (omega arith, b, c, one_more free low port e n)

first_port-FirstOf :
    (count low : ℕ) (free : ℕ → Bool) → FirstOf free low (low + count) (first_port count low free)
unfolding first_port
first_port-FirstOf zero low free = λ q a b. absurd (omega arith)
first_port-FirstOf (suc count) low free = elim (Bool-cases (free low)) [
  | inl yes_ ↦ rw yes_ (omega arith, omega arith, yes_, λ q a b. absurd (omega arith))
  | inr no_ ↦ rw no_ (
      widen free low (low + suc count) (first_port count (low + 1) free) no_ (
        subst (λ n. FirstOf free (low + 1) n (first_port count (low + 1) free)) (omega arith)
          (first_port-FirstOf count (low + 1) free)))
]

-- What a search for a port says, on the records that it has read.
abbrev pub SearchEffect : Host → Settings → Coordinator → Result Failure ℕ × Coordinator → Type 0
SearchEffect h s c (ok port, c') =
    (c' ≡ c)
    × ((ps : List Preview) × Listed c ps
        × (s.ingress_start ≤ port)
        × (port ≤ s.ingress_end)
        × (is_free h ps c port ≡ true)
        × NoneFree (is_free h ps c) s.ingress_start port)
SearchEffect h s c (err e, c') =
    (c' ≡ c)
    × (((ps : List Preview) × Listed c ps
          × (e ≡ conflict "preview_capacity_exhausted")
          × NoneFree (is_free h ps c) s.ingress_start (s.ingress_end + 1))
        ⊎ (read_each (sorted name_before (names c.records)) c.records ≡ err e))

module _ (h : Host) (s : Settings) (c : Coordinator) (range : s.ingress_start ≤ s.ingress_end) where
  searched :
      (ps : List Preview) (found : Option ℕ)
      → Listed c ps
      → FirstOf (is_free h ps c) s.ingress_start (s.ingress_end + 1) found
      → SearchEffect h s c (or_exhausted found, c)
  searched ps none l n = (refl, inl (ps, l, refl, n))
  searched ps (some port) l (a, b, f, n) = (refl, (ps, l, a, omega arith, f, n))

  -- The search for an ingress port changes nothing. It returns the lowest port of the range that
  -- no active record has and that can be bound; it raises if there is none, or if a record cannot be
  -- read.
  pub available-SearchEffect : SearchEffect h s c (available_ingress h s c)
  unfolding available_ingress all_records search_port
  available-SearchEffect =
      elim (Result-cases (read_each (sorted name_before (names c.records)) c.records)) [
        | inr (e, l) ↦ rw l (refl, inr l)
        | inl (ps, l) ↦ rw l (
            searched ps _ l (
              subst
                (λ n. FirstOf (is_free h ps c) s.ingress_start n (
                  first_port (s.ingress_end + 1 - s.ingress_start) s.ingress_start
                    (is_free h ps c)))
                (omega arith)
                (first_port-FirstOf (s.ingress_end + 1 - s.ingress_start) s.ingress_start
                  (is_free h ps c))))
      ]
