-- ===== src/Preview/Expiry.antt =====
-- What a pass of the sweeper leaves running.
use atenea_remote_worker_spe.Prelude.{
  ℕ, ◌+◌, ◌<◌, String, ◌≡◌, refl, sym, ap, subst, ◌∙◌, inl, inr, Bool, true, false, ◌&&◌, some,
  List, [], ◌∷◌, All, All-In, lookup, lookup-insert, lookup-remove, names, arith, Bool-cases,
  Result, ok, err, str_eq, eq_refl, continue,
}
use atenea_remote_worker_spe.Prelude.Sorting.{sorted}
use atenea_remote_worker_spe.Preview.Record.{
  is_active, Preview, stored, Failure, Forwarder, Coordinator, hard_lifetime,
}
use atenea_remote_worker_spe.Preview.Store.{change, write, all_records, read_each, name_before}
use atenea_remote_worker_spe.Preview.Listeners.{stop_forwarder}
use atenea_remote_worker_spe.Preview.Lifecycle.{is_expired, expire}
use atenea_remote_worker_spe.Preview.Sweep.{sweep_one, sweep_each, sweep}
use atenea_remote_worker_spe.Preview.Soundness.{IsSound, IsServed, IsTimed}
use atenea_remote_worker_spe.Preview.Changes.{expire-IsSound}
use atenea_remote_worker_spe.Preview.Listing.{IsStored, read_each-IsStored, listed}
use atenea_remote_worker_spe.Preview.Invariant.{Listed}

leased-All :
    (c : Coordinator) (ps : List Preview) → IsSound c → All (IsStored c.records) ps → All IsTimed ps
leased-All c [] s m = tt
leased-All c (p ∷ ps) s m = (s.leased m.0.0 p m.0.1, leased-All c ps s m.1)

sweep_one-IsSound :
    (now : ℕ) (p : Preview) (c : Coordinator) → IsSound c → IsTimed p → IsSound (sweep_one now p c)
unfolding sweep_one
sweep_one-IsSound now p c s l = elim (Bool-cases (is_active p.state && is_expired now p)) [
  | inl late ↦ rw late (expire-IsSound now p c s l)
  | inr early ↦ rw early s
]

pub sweep_each-IsSound :
    (now : ℕ) (ps : List Preview) (c : Coordinator)
    → IsSound c
    → All IsTimed ps
    → IsSound (sweep_each now ps c)
unfolding sweep_each
sweep_each-IsSound now [] c s l = s
sweep_each-IsSound now (p ∷ ps) c s l =
    sweep_each-IsSound now ps (sweep_one now p c) (sweep_one-IsSound now p c s l.0) l.1

-- A record of the identity that the sweeper would take down.
abbrev is_due : ℕ → String → Preview → Bool
is_due now id p = is_active p.state && is_expired now p && str_eq p.preview_id id

-- A forwarder that is there after some turns of the loop was there before them, its record is
-- untouched, and no record of its identity was due.
record Survives (now : ℕ) (id : String) (f : Forwarder) (ps : List Preview) (c c' : Coordinator)
    : Type 0 where
  pub before : lookup id c.forwarders ≡ some f
  pub same : lookup id c'.records ≡ lookup id c.records
  pub early : All (λ p. is_due now id p ≡ false) ps

survives_expiry :
    (now : ℕ) (id : String) (f : Forwarder) (p : Preview) (c : Coordinator)
    → lookup id (expire now p c).forwarders ≡ some f
    → (str_eq p.preview_id id ≡ false)
      × (lookup id c.forwarders ≡ some f)
      × (lookup id (expire now p c).records ≡ lookup id c.records)
unfolding expire write stop_forwarder
survives_expiry now id f p c e = elim (Bool-cases (str_eq p.preview_id id)) [
  | inl same ↦ cc (lookup-remove p.preview_id id c.forwarders, same)
  | inr other ↦ (
    other,
    rw other at (sym (lookup-remove p.preview_id id c.forwarders) ∙ e),
    lookup-insert p.preview_id id _ c.records ∙ rw other refl,
  )
]

sweep_one-Survives :
    (now : ℕ) (id : String) (f : Forwarder) (p : Preview) (c : Coordinator)
    → lookup id (sweep_one now p c).forwarders ≡ some f
    → Survives now id f (p ∷ []) c (sweep_one now p c)
unfolding sweep_one
sweep_one-Survives now id f p c e = elim (Bool-cases (is_active p.state && is_expired now p)) [
  | inl late ↦
      let x = survives_expiry now id f p c (rw late at e) in
      rw late (record { before = x.1; same = x.2; early = (rw x.0 (ground arith), tt) })
  | inr early ↦
      rw early (record { before = rw early at e; same = refl; early = (ground arith, tt) })
]

sweep_each-Survives :
    (now : ℕ) (id : String) (f : Forwarder) (ps : List Preview) (c : Coordinator)
    → lookup id (sweep_each now ps c).forwarders ≡ some f
    → Survives now id f ps c (sweep_each now ps c)
unfolding sweep_each
sweep_each-Survives now id f [] c e = record { before = e; same = refl; early = tt }
sweep_each-Survives now id f (p ∷ ps) c e =
    let later = sweep_each-Survives now id f ps (sweep_one now p c) e in
    let first = sweep_one-Survives now id f p c later.before in
    record {
      before = first.before;
      same = later.same ∙ first.same;
      early = (first.early.0, later.early);
    }

-- A preview that is reachable: a forwarder serves its record, which has not expired.
pub record IsLive (now : ℕ) (c : Coordinator) (id : String) (f : Forwarder) : Type 0 where
  pub served : IsServed c id f
  pub leased : now < served.preview.lease_expires_at
  pub limited : now < served.preview.created_at + hard_lifetime

IsLive-of :
    (now : ℕ) (c : Coordinator) (ps : List Preview) (id : String) (f : Forwarder)
    → IsSound c
    → Listed c ps
    → IsSound (sweep_each now ps c)
    → lookup id (sweep_each now ps c).forwarders ≡ some f
    → IsLive now (sweep_each now ps c) id f
IsLive-of now c ps id f s listing s' e =
    let v = sweep_each-Survives now id f ps c e in
    let after = s'.served id f e in
    let old : lookup id c.records ≡ some (stored after.preview) = sym v.same ∙ after.found in
    let early =
      All-In (λ p. is_due now id p ≡ false) after.preview ps v.early
        (listed c ps id after.preview listing old) in
    let name : str_eq after.preview.preview_id id ≡ true =
      rw (s.named id after.preview old) (eq_refl id) in
    record {
      served = after;
      leased = ground (arith, early, name, ap is_active after.ready);
      limited =
          ground (arith, early, name, ap is_active after.ready, s.leased id after.preview old);
    }

read_after :
    (r : Result Failure (List Preview)) (f : List Preview → Coordinator → Coordinator)
    (c : Coordinator)
    → (continue r (λ ps. change (f ps)) c).0 ≡ ok tt
    → (ps : List Preview) × (r ≡ ok ps) × ((continue r (λ ps. change (f ps)) c).1 ≡ f ps c)
unfolding change
read_after (ok ps) f c e = (ps, refl, refl)
read_after (err x) f c e = cc

module _ (now : ℕ) (c : Coordinator) (s : IsSound c) where
  pub sweep-IsSound : IsSound (sweep now c).1
  unfolding sweep all_records change
  sweep-IsSound = go (read_each (sorted name_before (names c.records)) c.records) refl
    where
      go :
          (r : Result Failure (List Preview))
          → read_each (sorted name_before (names c.records)) c.records ≡ r
          → IsSound (continue r (λ ps. change (sweep_each now ps)) c).1
      go (ok ps) e = sweep_each-IsSound now ps c s (
          leased-All c ps s
            (read_each-IsStored (sorted name_before (names c.records)) c.records ps e))
      go (err x) e = s

  -- On a sound coordinator, a pass of the sweeper that returns leaves no forwarder but those of
  -- ready previews whose lease and whose eight hours from their creation have not ended.
  pub sweep-IsLive :
      (id : String) (f : Forwarder)
      → (sweep now c).0 ≡ ok tt
      → lookup id (sweep now c).1.forwarders ≡ some f
      → IsLive now (sweep now c).1 id f
  unfolding sweep all_records
  sweep-IsLive id f e run =
      let (ps, listing, out) =
        read_after (read_each (sorted name_before (names c.records)) c.records) (sweep_each now) c
          e in
      subst (λ d. IsLive now d id f) (sym out)
        (IsLive-of now c ps id f s listing
          (sweep_each-IsSound now ps c s (
            leased-All c ps s
              (read_each-IsStored (sorted name_before (names c.records)) c.records ps listing)))
          (subst (λ (d : Coordinator). lookup id d.forwarders ≡ some f) out run))
