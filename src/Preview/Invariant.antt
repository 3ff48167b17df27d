-- ===== src/Preview/Invariant.antt =====
-- Every request, every sweep and every start of the coordinator keeps its invariant.
use atenea_remote_worker_spe.Prelude.{
  ℕ, String, ◌≡◌, refl, inl, inr, not, Option, none, some, List, lookup, names, arith, Bool-cases,
  if◌then◌else◌, leb, Result, ok, err, pure, ◌>>=◌, refuse_if, Dict,
}
use atenea_remote_worker_spe.Prelude.Sorting.{sorted}
use atenea_remote_worker_spe.Prelude.Json.{Fields}
use atenea_remote_worker_spe.Prelude.Triples.{Post, Triple, bind, given, returned, split, weaken}
use atenea_remote_worker_spe.Preview.Record.{
  State, is_ready, Preview, Stored, stored, broken, Failure, conflict, Settings, Coordinator, Host,
}
use atenea_remote_worker_spe.Preview.Request.{Activation}
use atenea_remote_worker_spe.Preview.Allocation.{Allocation}
use atenea_remote_worker_spe.Preview.Store.{
  check, change, fetch_optional, read_optional, all_records, read_each, name_before,
}
use atenea_remote_worker_spe.Preview.Listeners.{
  can_bind, start_forwarder, ensure_forwarder, search_port, available_ingress,
}
use atenea_remote_worker_spe.Preview.Lifecycle.{
  is_expired, new_preview, reactivate, open_preview, allocate, activate, refresh, inspect,
  extend_lease, end_lifetime, renew, stop, delete_synthetic, activate_at, is_repeated_stop,
}
use atenea_remote_worker_spe.Preview.Soundness.{IsSound}
use atenea_remote_worker_spe.Preview.Changes.{
  Has, IsServing, expire-IsSound, opened-IsSound, erased-IsSound, stopped-IsSound, stopped_idle,
  check_lem, fetch_lem,
}
use atenea_remote_worker_spe.Preview.Preservation.{
  Keeps, checked, changed, is_ready-eq, ensured, Has-IsSound, require_revision_lem,
  require_ownership_lem, extend_lease-IsSound, end_lifetime-IsSound, halt-IsSound,
}

-- The end of a request that has found its preview.
settled :
    {P : Coordinator → Type 0} (p : Preview)
    → ((c : Coordinator) → P c → IsSound c)
    → Triple {E = Failure} P (pure p) (λ _. IsSound) IsSound
settled p f = returned p (λ _. IsSound) f

-- A look at the coordinator.
looked :
    {A : Type 0} (P : Coordinator → Type 0) (Q : A → Coordinator → Type 0) (r : Result Failure A)
    (c : Coordinator)
    → P c
    → ((a : A) → r ≡ ok a → Q a c)
    → Post Q P (r, c)
looked P Q (ok a) c p q = q a refl
looked P Q (err e) c p q = p

abbrev pub Listed : Coordinator → List Preview → Type 0
Listed c ps = read_each (sorted name_before (names c.records)) c.records ≡ ok ps

all_records_lem : (P : Coordinator → Type 0) → Triple P all_records (λ ps c. P c × Listed c ps) P
unfolding all_records
all_records_lem P = record {
  holds = λ c p. looked P (λ ps c. P c × Listed c ps) _ c p (λ ps e. (p, e));
}

listing_lem : Triple IsSound all_records (λ _. IsSound) IsSound
listing_lem = weaken _ IsSound (λ ps c x. x.0) (λ c x. x) (all_records_lem IsSound)

-- What an optional read has found.
abbrev FoundIn : String → Option Preview → Coordinator → Type 0
FoundIn id none = IsSound
FoundIn id (some p) = Has id p

found_lem :
    (id : String) (f : Option Stored) (c : Coordinator)
    → IsSound c
    → lookup id c.records ≡ f
    → Post (FoundIn id) IsSound (read_optional f, c)
found_lem id none c s e = s
found_lem id (some (stored p)) c s e = (s, e)
found_lem id (some broken) c s e = s

fetch_optional_lem : (id : String) → Triple IsSound (fetch_optional id) (FoundIn id) IsSound
unfolding fetch_optional
fetch_optional_lem id = record { holds = λ c s. found_lem id (lookup id c.records) c s refl }

ready_of :
    (s : State)
    → refuse_if (not (is_ready s)) (conflict "preview_not_ready") ≡ ok tt
    → s ≡ State.ready
ready_of State.ready e = refl
ready_of State.reconciling e = cc
ready_of State.stopped e = cc
ready_of State.blocked e = cc
ready_of State.expired e = cc

module _ (h : Host) (s : Settings) (now : ℕ) where
  search_lem : (ps : List Preview) → Keeps (search_port h s ps)
  unfolding search_port
  search_lem ps = record {
    holds =
        λ c sound. looked IsSound (λ _. IsSound) (search_port h s ps c).0 c sound (λ a e. sound);
  }

  open-IsSound :
      (id : String) (a : Activation) (al : Allocation) (port : ℕ)
      → Keeps (open_preview h s now id a al port)
  unfolding open_preview start_forwarder change new_preview
  open-IsSound id a al port = record {
    holds = λ c sound. elim (Bool-cases (can_bind h c port)) [
      | inl free ↦
          rw free (opened-IsSound h (new_preview id a al port now) c sound free refl (omega arith))
      | inr busy ↦ rw busy sound
    ];
  }

  available-IsSound : Keeps (available_ingress h s)
  unfolding available_ingress
  available-IsSound = bind (λ _. IsSound) listing_lem λ ps. search_lem ps

  allocate-IsSound : (id : String) (a : Activation) → Keeps (allocate h s now id a)
  unfolding allocate
  allocate-IsSound id a =
      bind (λ _. IsSound) (checked IsSound _ (λ c x. x))
        λ al. bind (λ _. IsSound) available-IsSound λ port. open-IsSound id a al port

  module _ (id : String) (p : Preview) where
    reactivate-IsSound :
        (a : Activation) → Triple (Has id p) (reactivate h s now a p) (λ _. IsSound) IsSound
    unfolding reactivate
    reactivate-IsSound a =
        bind (λ _. Has id p) (require_ownership_lem h s now id p a.ownership)
          λ _.
            bind (λ _. Has id p) (checked (Has id p) _ (Has-IsSound id p))
              λ _.
                bind (λ _. IsSound)
                  (split (is_ready p.state) (ensure_forwarder h p) (pure tt)
                    (λ e.
                      weaken (λ _ c. Has id p c × IsServing p c) IsSound (λ _ c x. x.0.0) (λ c x. x)
                        (ensured h id p p.lease_expires_at p.lifecycle_revision p.updated_at
                          (is_ready-eq p.state e)))
                    (λ e. returned tt (λ _. IsSound) (Has-IsSound id p)))
                  λ _. settled p (λ c x. x)

    refresh-IsSound : Triple (Has id p) (refresh h s now p) (λ _. IsSound) IsSound
    unfolding refresh
    refresh-IsSound =
        split (is_ready p.state) _ _
          (λ ready.
            split (is_expired now p) _ _
              (λ late.
                bind (λ _. IsSound)
                  (changed _ λ c x. expire-IsSound now p c x.0 (x.0.leased id p x.1))
                  λ _. settled _ (λ c x. x))
              (λ early.
                bind (λ _ c. Has id p c × IsServing p c)
                  (ensured h id p p.lease_expires_at p.lifecycle_revision p.updated_at
                    (is_ready-eq p.state ready))
                  λ _. settled p (λ c x. x.0.0)))
          (λ other. settled p (Has-IsSound id p))

  activate_at_lem :
      (id : String) (a : Activation) (found : Option Preview)
      → Triple (FoundIn id found) (activate_at h s now id a found) (λ _. IsSound) IsSound
  activate_at_lem id a none = allocate-IsSound id a
  activate_at_lem id a (some p) = reactivate-IsSound id p a

  ready_then :
      (id : String) (p : Preview) (expected : ℕ)
      → Triple
          (Has id p)
          (check (refuse_if (not (is_ready p.state)) (conflict "preview_not_ready")) >>= λ _.
            if leb p.hard_expires_at now
            then end_lifetime h s now p
            else extend_lease h s now p expected)
          (λ _. IsSound)
          IsSound
  ready_then id p expected =
      bind (λ _ c. Has id p c × (p.state ≡ State.ready))
        (weaken _ (Has id p) (λ a c x. (x.0, ready_of p.state x.1)) (Has-IsSound id p)
          (check_lem _))
        λ _.
          split (leb p.hard_expires_at now) _ _
            (λ late. given (Has id p) (λ c x. x.0) (end_lifetime-IsSound h s now id p))
            (λ early. record {
              holds = λ c x. (extend_lease-IsSound h s now id p expected x.1).holds c x.0;
            })

  pub activate-IsSound :
      (preview_id : String) (request : Fields) → Keeps (activate h s now preview_id request)
  unfolding activate
  activate-IsSound preview_id request =
      bind (λ _. IsSound) (checked IsSound _ (λ c x. x))
        λ id.
          bind (λ _. IsSound) (checked IsSound _ (λ c x. x))
            λ a. bind (FoundIn id) (fetch_optional_lem id) λ found. activate_at_lem id a found

  pub inspect-IsSound :
      (preview_id : String) (query : Dict (List String)) → Keeps (inspect h s now preview_id query)
  unfolding inspect
  inspect-IsSound preview_id query =
      bind (λ _. IsSound) (checked IsSound _ (λ c x. x))
        λ id.
          bind (λ _. IsSound) (checked IsSound _ (λ c x. x))
            λ o. bind (Has id) (fetch_lem id) λ p.
              bind (λ _. Has id p) (require_ownership_lem h s now id p o) λ _. refresh-IsSound id p

  pub renew-IsSound :
      (preview_id : String) (request : Fields) → Keeps (renew h s now preview_id request)
  unfolding renew
  renew-IsSound preview_id request =
      bind (λ _. IsSound) (checked IsSound _ (λ c x. x))
        λ id.
          bind (λ _. IsSound) (checked IsSound _ (λ c x. x))
            λ o. bind (Has id) (fetch_lem id) λ p.
              bind (λ _. Has id p) (require_ownership_lem h s now id p o)
                λ _.
                  bind (λ _. Has id p) (require_revision_lem h s now id p o.expected_revision)
                    λ _. ready_then id p o.expected_revision

  pub stop-IsSound :
      (preview_id : String) (request : Fields) → Keeps (stop h s now preview_id request)
  unfolding stop
  stop-IsSound preview_id request =
      bind (λ _. IsSound) (checked IsSound _ (λ c x. x))
        λ id.
          bind (λ _. IsSound) (checked IsSound _ (λ c x. x))
            λ o. bind (Has id) (fetch_lem id) λ p.
              bind (λ _. Has id p) (require_ownership_lem h s now id p o)
                λ _.
                  split (is_repeated_stop p o.expected_revision) _ _
                    (λ again. settled p (Has-IsSound id p))
                    (λ new. halt-IsSound h s now id p o.expected_revision)

  pub delete-IsSound :
      (preview_id : String) (request : Fields) → Keeps (delete_synthetic h s now preview_id request)
  unfolding delete_synthetic
  delete-IsSound preview_id request =
      bind (λ _. IsSound) (checked IsSound _ (λ c x. x))
        λ id.
          bind (λ _. IsSound) (checked IsSound _ (λ c x. x))
            λ o. bind (Has id) (fetch_lem id) λ p.
              bind (λ _. Has id p) (require_ownership_lem h s now id p o)
                λ _.
                  bind (λ _. Has id p) (require_revision_lem h s now id p o.expected_revision)
                    λ _.
                      bind (λ _. Has id p) (checked (Has id p) _ (Has-IsSound id p))
                        λ _.
                          bind (λ _ c. IsSound c × (lookup id c.forwarders ≡ none))
                            (changed _ λ c x. (stopped-IsSound id c x.0, stopped_idle id c))
                            λ _.
                              bind (λ _. IsSound) (changed _ λ c x. erased-IsSound id c x.0 x.1)
                                λ _. settled p (λ c x. x)
