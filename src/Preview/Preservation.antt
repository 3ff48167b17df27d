-- ===== src/Preview/Preservation.antt =====
-- Each request keeps the invariant of the coordinator, whether it returns or raises.
use atenea_remote_worker_spe.Prelude.{
  ℕ, ◌+◌, min, String, ◌≡◌, refl, sym, subst, ◌∙◌, inl, inr, true, none, some, lookup,
  lookup-insert, eq_refl, arith, Bool-cases, Option-cases, Result,
}
use atenea_remote_worker_spe.Prelude.Triples.{Post, Triple, bind, returned, weaken}
use atenea_remote_worker_spe.Preview.Record.{
  State, is_ready, Preview, stored, Failure, Settings, Coordinator, Host, lease_time,
}
use atenea_remote_worker_spe.Preview.Request.{Ownership}
use atenea_remote_worker_spe.Preview.Store.{
  Request, check, change, require_ownership, require_revision,
}
use atenea_remote_worker_spe.Preview.Listeners.{
  can_bind, start_forwarder, stop_forwarder, serves, ensure_forwarder,
}
use atenea_remote_worker_spe.Preview.Lifecycle.{renewed, extend_lease, end_lifetime, halted, halt}
use atenea_remote_worker_spe.Preview.Soundness.{IsSound, IsTimed}
use atenea_remote_worker_spe.Preview.Changes.{
  Has, IsServing, stopped-IsSound, stopped_idle, written_idle, expire-IsSound, forwarder_of,
  started-IsSound, written-IsSound, check_lem,
}

-- A request that keeps the invariant.
abbrev pub Keeps : {A : Type 0} → Request A → Type 0
Keeps m = Triple IsSound m (λ _. IsSound) IsSound

abbrev Sound : {A : Type 0} → A → Coordinator → Type 0
Sound _ = IsSound

pub checked :
    {A : Type 0} (P : Coordinator → Type 0) (r : Result Failure A)
    → ((c : Coordinator) → P c → IsSound c)
    → Triple P (check r) (λ _. P) IsSound
checked P r f = weaken _ P (λ a c x. x.0) f (check_lem r)

pub changed :
    {P Q R : Coordinator → Type 0} (f : Coordinator → Coordinator)
    → ((c : Coordinator) → P c → Q (f c))
    → Triple P (change f) (λ _. Q) R
unfolding change
changed f g = record { holds = g }

pub is_ready-eq : (s : State) → is_ready s ≡ true → s ≡ State.ready
is_ready-eq State.ready e = refl
is_ready-eq State.reconciling e = cc
is_ready-eq State.stopped e = cc
is_ready-eq State.blocked e = cc
is_ready-eq State.expired e = cc

-- The preview `p` with another lease, revision and date.
abbrev pub redated : Preview → ℕ → ℕ → ℕ → Preview
redated p lease revision date = record p {
  lease_expires_at = lease;
  lifecycle_revision = revision;
  updated_at = date;
}

module _ (h : Host) (id : String) (p : Preview) (lease revision date : ℕ)
    (ready : p.state ≡ State.ready) where
  -- The forwarder of a stored preview that is ready.
  pub ensured :
      Triple
        (Has id p)
        (ensure_forwarder h (redated p lease revision date))
        (λ _ c. Has id p c × IsServing p c)
        IsSound
  unfolding ensure_forwarder start_forwarder
  ensured = record { holds = go }
    where
      go :
          (c : Coordinator)
          → Has id p c
          → Post
              (λ _ c. Has id p c × IsServing p c)
              IsSound
              (ensure_forwarder h (redated p lease revision date) c)
      go c (s, e) =
          let found : lookup p.preview_id c.records ≡ some (stored p) =
            subst (λ i. lookup i c.records ≡ some (stored p)) (sym (s.named id p e)) e in
          elim (Option-cases (lookup p.preview_id c.forwarders)) [
            | inr (f, run) ↦ elim (Bool-cases (serves p f)) [
              | inl yes_ ↦
                  rw (run, yes_)
                    (
                      (s, e),
                      record {
                        forwarder = f;
                        running = run;
                        port = ground arith;
                        upstream = ground arith;
                      },
                    )
              | inr no_ ↦ rw (run, no_) s
            ]
            | inl idle ↦ elim (Bool-cases (can_bind h c p.ingress_port)) [
              | inl free ↦
                  rw (idle, free)
                    (
                      (started-IsSound h p c s free ready found, e),
                      record {
                        forwarder = forwarder_of p;
                        running =
                            lookup-insert p.preview_id p.preview_id (forwarder_of p) c.forwarders
                            ∙ rw (eq_refl p.preview_id) refl;
                        port = refl;
                        upstream = refl;
                      },
                    )
              | inr busy ↦ rw (idle, busy) s
            ]
          ]

-- A sound coordinator that holds the preview is sound.
pub Has-IsSound : (id : String) (p : Preview) (c : Coordinator) → Has id p c → IsSound c
Has-IsSound id p c x = x.0

IsServing-redated :
    (p : Preview) (lease revision date : ℕ) (c : Coordinator)
    → IsServing p c
    → IsServing (redated p lease revision date) c
IsServing-redated p lease revision date c v = record {
  forwarder = v.forwarder;
  running = v.running;
  port = v.port;
  upstream = v.upstream;
}

module _ (h : Host) (s : Settings) (now : ℕ) (id : String) (p : Preview) where
  pub require_revision_lem :
      (expected : ℕ) → Triple (Has id p) (require_revision p expected) (λ _. Has id p) IsSound
  unfolding require_revision
  require_revision_lem expected = checked (Has id p) _ (Has-IsSound id p)

  pub require_ownership_lem :
      (o : Ownership) → Triple (Has id p) (require_ownership p o) (λ _. Has id p) IsSound
  unfolding require_ownership
  require_ownership_lem o = checked (Has id p) _ (Has-IsSound id p)

  timed :
      (c : Coordinator) (expected : ℕ)
      → IsSound c
      → lookup id c.records ≡ some (stored p)
      → IsTimed (renewed now p expected)
  timed c expected s e = (omega arith, (s.leased id p e).1)

  pub extend_lease-IsSound :
      (expected : ℕ)
      → p.state ≡ State.ready
      → Triple (Has id p) (extend_lease h s now p expected) (λ _. IsSound) IsSound
  unfolding extend_lease
  extend_lease-IsSound expected ready =
      bind (λ _ c. Has id p c × IsServing p c)
        (ensured h id p (min (now + lease_time) p.hard_expires_at) (expected + 1) now ready)
        λ _.
          bind (λ _. IsSound)
            (changed _ λ c x.
              written-IsSound (renewed now p expected) c x.0.0 (IsServing-redated p _ _ now c x.1)
                (timed c expected x.0.0 x.0.1) ready)
            λ _. returned _ (λ _. IsSound) (λ c x. x)

  pub end_lifetime-IsSound : Triple (Has id p) (end_lifetime h s now p) (λ _. IsSound) IsSound
  unfolding end_lifetime
  end_lifetime-IsSound =
      bind (λ _. IsSound) (changed _ λ c x. expire-IsSound now p c x.0 (x.0.leased id p x.1))
        λ _. checked IsSound _ (λ c x. x)

  -- A preview of a sound record whose forwarder was stopped.
  unfoldable pub IsDown : Coordinator → Type 0
  IsDown c = IsSound c × (lookup p.preview_id c.forwarders ≡ none) × IsTimed p × (p.preview_id ≡ id)

  pub down : (c : Coordinator) → Has id p c → IsDown (stop_forwarder id c)
  unfolding IsDown
  down c (s, e) =
      let name = s.named id p e in
      (
        stopped-IsSound id c s,
        subst (λ i. lookup i (stop_forwarder id c).forwarders ≡ none) (sym name)
            (stopped_idle id c),
        s.leased id p e,
        name,
      )

  pub halt-IsSound :
      (expected : ℕ) → Triple (Has id p) (halt h s now id p expected) (λ _. IsSound) IsSound
  unfolding halt IsDown
  halt-IsSound expected =
      bind (λ _. Has id p) (require_revision_lem expected)
        λ _.
          bind (λ _. IsDown) (changed _ down)
            λ _.
              bind (λ _. IsSound)
                (changed _ λ c x. written_idle (halted now p expected) c x.0 x.1 x.2)
                λ _. returned _ (λ _. IsSound) (λ c x. x)
