-- ===== src/Preview/Changes.antt =====
-- The changes that requests make, on a sound coordinator.
use atenea_remote_worker_spe.Prelude.{
  ℕ, String, ◌≡◌, refl, sym, ◌∙◌, inl, inr, true, false, none, some, any-values, lookup,
  lookup-remove, eq_refl, insert, arith, Bool-cases, Option-cases, ◌==◌, Result, ok, err,
}
use atenea_remote_worker_spe.Prelude.Triples.{Post, Triple}
use atenea_remote_worker_spe.Preview.Record.{
  State, Preview, Stored, stored, broken, Failure, Forwarder, Coordinator, Host,
}
use atenea_remote_worker_spe.Preview.Store.{check, fetch, write, read_json}
use atenea_remote_worker_spe.Preview.Listeners.{can_bind, holds_port, stop_forwarder}
use atenea_remote_worker_spe.Preview.Lifecycle.{expire, erase}
use atenea_remote_worker_spe.Preview.Soundness.{
  IsSound, IsTimed, form, insert-HasEntry, remove-HasEntry, same-HasEntry, hide-IsSound,
  show-IsSound,
}

abbrev pub Has : String → Preview → Coordinator → Type 0
Has id p c = IsSound c × (lookup id c.records ≡ some (stored p))

-- A forwarder with the ports of `p` runs under its identity.
pub record IsServing (p : Preview) (c : Coordinator) : Type 0 where
  pub forwarder : Forwarder
  pub running : lookup p.preview_id c.forwarders ≡ some forwarder
  pub port : forwarder.port ≡ p.ingress_port
  pub upstream : forwarder.upstream ≡ p.upstream_port

pub stopped-IsSound : (id : String) (c : Coordinator) → IsSound c → IsSound (stop_forwarder id c)
unfolding stop_forwarder
stopped-IsSound id c s =
    hide-IsSound c _ id s (lookup id c.records) (same-HasEntry _ _ _ refl)
      (λ q e. (s.named id q e, s.leased id q e)) (remove-HasEntry _ _)

pub stopped_idle :
    (id : String) (c : Coordinator) → lookup id (stop_forwarder id c).forwarders ≡ none
unfolding stop_forwarder
stopped_idle id c = lookup-remove id id c.forwarders ∙ rw (eq_refl id) refl

-- A preview without a forwarder is written, or its files are removed.
pub written_idle :
    (p : Preview) (c : Coordinator)
    → IsSound c
    → lookup p.preview_id c.forwarders ≡ none
    → IsTimed p
    → IsSound (write p c)
unfolding write
written_idle p c s idle lease =
    hide-IsSound c _ p.preview_id s (some (stored p)) (insert-HasEntry _ _ _) (form p refl lease)
      (same-HasEntry _ _ _ idle)

pub erased-IsSound :
    (id : String) (c : Coordinator)
    → IsSound c
    → lookup id c.forwarders ≡ none
    → IsSound (erase id c)
unfolding erase
erased-IsSound id c s idle =
    hide-IsSound c _ id s none (remove-HasEntry _ _) (λ q e. cc) (same-HasEntry _ _ _ idle)

pub expire-IsSound :
    (now : ℕ) (p : Preview) (c : Coordinator) → IsSound c → IsTimed p → IsSound (expire now p c)
unfolding expire
expire-IsSound now p c s lease =
    written_idle (record p { state = State.expired; updated_at = now })
      (stop_forwarder p.preview_id c) (stopped-IsSound p.preview_id c s)
      (stopped_idle p.preview_id c) lease

-- A port that can be bound is no forwarder's.
fresh_port :
    (h : Host) (c : Coordinator) (port : ℕ) (j : String) (g : Forwarder)
    → can_bind h c port ≡ true
    → lookup j c.forwarders ≡ some g
    → (g.port == port) ≡ false
unfolding can_bind
fresh_port h c port j g free e = elim (Bool-cases (g.port == port)) [
  | inr other ↦ other
  | inl same ↦ ground (arith, any-values (holds_port port) j g c.forwarders e same)
]

-- The forwarder of a preview.
abbrev pub forwarder_of : Preview → Forwarder
forwarder_of p = record { port = p.ingress_port; upstream = p.upstream_port }

module _ (h : Host) (p : Preview) (c : Coordinator) (s : IsSound c)
    (free : can_bind h c p.ingress_port ≡ true) (ready : p.state ≡ State.ready) where
  apart_of_free :
      (j : String) (g : Forwarder)
      → lookup j c.forwarders ≡ some g
      → g.port ≡ p.ingress_port
      → j ≡ p.preview_id
  apart_of_free j g e same = ground (arith, fresh_port h c p.ingress_port j g free e)

  abbrev pub with_forwarder : Coordinator
  with_forwarder = record c { forwarders = insert p.preview_id (forwarder_of p) c.forwarders }

  -- A stored preview that is ready gets its forwarder.
  pub started-IsSound : lookup p.preview_id c.records ≡ some (stored p) → IsSound with_forwarder
  started-IsSound e =
      show-IsSound c with_forwarder p.preview_id s p (forwarder_of p) (same-HasEntry _ _ _ e)
        (insert-HasEntry _ _ _) refl (s.leased p.preview_id p e) ready refl refl apart_of_free

  -- A new preview gets its forwarder, and is then written.
  pub opened-IsSound : IsTimed p → IsSound (write p with_forwarder)
  unfolding write
  opened-IsSound lease =
      show-IsSound c _ p.preview_id s p (forwarder_of p) (insert-HasEntry _ _ _)
        (insert-HasEntry _ _ _) refl lease ready refl refl apart_of_free

-- A preview whose forwarder runs is written again.
pub written-IsSound :
    (p : Preview) (c : Coordinator)
    → IsSound c
    → IsServing p c
    → IsTimed p
    → p.state ≡ State.ready
    → IsSound (write p c)
unfolding write
written-IsSound p c s v lease ready =
    show-IsSound c _ p.preview_id s p v.forwarder (insert-HasEntry _ _ _)
      (same-HasEntry _ _ _ v.running) refl lease ready v.port v.upstream
      (λ j g e same. s.apart j p.preview_id g v.forwarder e v.running (same ∙ sym v.port))

pub check_lem :
    {A : Type 0} {P : Coordinator → Type 0} (r : Result Failure A)
    → Triple P (check r) (λ a c. P c × (r ≡ ok a)) P
unfolding check
check_lem {A} {P} r = record { holds = λ c. go r c }
  where
    go : (x : Result Failure A) (c : Coordinator) → P c → Post (λ a c. P c × (x ≡ ok a)) P (x, c)
    go (ok a) c p = (p, refl)
    go (err e) c p = p

pub fetch_lem : (id : String) → Triple IsSound (fetch id) (Has id) IsSound
unfolding fetch
fetch_lem id = record {
  holds = λ c s. elim (Option-cases (lookup id c.records)) [
    | inl e ↦ rw e s
    | inr (f, e) ↦ rw e (go f c s e)
  ];
}
  where
    go :
        (f : Stored) (c : Coordinator)
        → IsSound c
        → lookup id c.records ≡ some f
        → Post (Has id) IsSound (read_json f, c)
    go (stored p) c s e = (s, e)
    go broken c s e = s
