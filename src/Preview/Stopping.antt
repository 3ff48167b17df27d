-- ===== src/Preview/Stopping.antt =====
-- A preview that was stopped stays down, and a repeated request to stop it says the same.
use atenea_remote_worker_spe.Prelude.{
  ℕ, String, ◌≡◌, refl, sym, ap, ◌∙◌, subst, subst₂, inl, inr, ◌⊎◌, true, false, none, some, lookup,
  lookup-insert, arith, Bool-cases, Option-cases, eq_refl, ◌==◌, Result, ok, err, Result-cases,
}
use atenea_remote_worker_spe.Prelude.Json.{Fields}
use atenea_remote_worker_spe.Preview.Record.{
  State, is_stopped, Preview, stored, Failure, Settings, Coordinator, Host, conflict,
}
use atenea_remote_worker_spe.Preview.Request.{Ownership, canonical, operation_request}
use atenea_remote_worker_spe.Preview.Store.{
  check, change, fetch, write, same_owner, require_ownership, require_revision, read_stored,
}
use atenea_remote_worker_spe.Preview.Listeners.{stop_forwarder}
use atenea_remote_worker_spe.Preview.Lifecycle.{halted, halt, stop, is_repeated_stop}
use atenea_remote_worker_spe.Preview.Soundness.{IsSound}
use atenea_remote_worker_spe.Preview.Changes.{stopped_idle}
use atenea_remote_worker_spe.Preview.Listing.{read_stored-cases}

module _ (s : Settings) (preview_id : String) (request : Fields) where
  -- A request that names a stored preview of its own.
  pub record IsAddressed (c : Coordinator) : Type 0 where
    pub identity : String
    pub ownership : Ownership
    pub preview : Preview
    pub canonical_id : canonical (some preview_id) "invalid_preview_id" ≡ ok identity
    pub parsed : operation_request s.worker_id request ≡ ok ownership
    pub found : lookup identity c.records ≡ some (stored preview)
    pub owner : same_owner preview ownership ≡ true

  module _ (h : Host) (now : ℕ) (c : Coordinator) where
    stop_again :
        (a : IsAddressed c)
        → is_repeated_stop a.preview a.ownership.expected_revision ≡ true
        → stop h s now preview_id request c ≡ (ok a.preview, c)
    unfolding stop check fetch require_ownership
    stop_again a again = rw (a.canonical_id, a.parsed, a.found, a.owner, again) refl

    stop_first :
        (a : IsAddressed c)
        → is_repeated_stop a.preview a.ownership.expected_revision ≡ false
        → (a.preview.lifecycle_revision == a.ownership.expected_revision) ≡ true
        → stop h s now preview_id request c ≡ (
          ok (halted now a.preview a.ownership.expected_revision),
          write (halted now a.preview a.ownership.expected_revision) (stop_forwarder a.identity c),
        )
    unfolding stop halt check change fetch require_ownership require_revision
    stop_first a new current = rw (a.canonical_id, a.parsed, a.found, a.owner, new, current) refl

    stop_stale :
        (a : IsAddressed c)
        → is_repeated_stop a.preview a.ownership.expected_revision ≡ false
        → (a.preview.lifecycle_revision == a.ownership.expected_revision) ≡ false
        → stop h s now preview_id request c ≡ (err (conflict "stale_revision"), c)
    unfolding stop halt check fetch require_ownership require_revision
    stop_stale a new stale = rw (a.canonical_id, a.parsed, a.found, a.owner, new, stale) refl

    abbrev IsRefused : Type 0
    IsRefused = (e : Failure) × (stop h s now preview_id request c ≡ (err e, c))

    IsAddressed-cases : IsAddressed c ⊎ IsRefused
    unfolding stop check fetch require_ownership
    IsAddressed-cases = elim (Result-cases (canonical (some preview_id) "invalid_preview_id")) [
      | inr (e, x) ↦ inr (e, rw x refl)
      | inl (id, x) ↦ elim (Result-cases (operation_request s.worker_id request)) [
        | inr (e, y) ↦ inr (e, rw (x, y) refl)
        | inl (o, y) ↦ elim (Result-cases (read_stored (lookup id c.records))) [
          | inr (e, z) ↦ inr (e, rw (x, y, z) refl)
          | inl (p, z) ↦ elim (Bool-cases (same_owner p o)) [
            | inr other ↦ inr (conflict "preview_ownership_conflict", rw (x, y, z, other) refl)
            | inl own ↦ inl (record {
              identity = id;
              ownership = o;
              preview = p;
              canonical_id = x;
              parsed = y;
              found = read_stored-cases (lookup id c.records) p z;
              owner = own;
            })
          ]
        ]
      ]
    ]

  same_id : (text id : String) → canonical (some text) "invalid_preview_id" ≡ ok id → id ≡ text
  unfolding canonical
  same_id text id e = ground arith

  -- The request has stopped the preview `p`, of which no forwarder is left.
  pub record IsHalted (p : Preview) (c : Coordinator) : Type 0 where
    pub addressed : IsAddressed c
    pub same : addressed.preview ≡ p
    pub again : is_repeated_stop addressed.preview addressed.ownership.expected_revision ≡ true
    pub idle : lookup addressed.identity c.forwarders ≡ none

  is_stopped-not_ready : (state : State) → is_stopped state ≡ true → state ≡ State.ready → ⊥
  is_stopped-not_ready state e r = cc (ap is_stopped r)

  idle_again :
      (c : Coordinator) (a : IsAddressed c)
      → IsSound c
      → is_repeated_stop a.preview a.ownership.expected_revision ≡ true
      → lookup a.identity c.forwarders ≡ none
  idle_again c a sound again = elim (Option-cases (lookup a.identity c.forwarders)) [
    | inl none_ ↦ none_
    | inr (f, run) ↦
        let v = sound.served a.identity f run in
        let same : a.preview ≡ v.preview = cc (a.found, v.found) in
        absurd (
          is_stopped-not_ready a.preview.state (ground arith)
            (ap (λ (p : Preview). p.state) same ∙ v.ready))
  ]

  halted-IsHalted :
      (now : ℕ) (c : Coordinator) (a : IsAddressed c)
      → a.preview.preview_id ≡ a.identity
      → let p = halted now a.preview a.ownership.expected_revision in
        IsHalted p (write p (stop_forwarder a.identity c))
  unfolding write same_owner
  halted-IsHalted now c a name =
      let p = halted now a.preview a.ownership.expected_revision in
      record {
        addressed = record {
          identity = a.identity;
          ownership = a.ownership;
          preview = p;
          canonical_id = a.canonical_id;
          parsed = a.parsed;
          found =
              lookup-insert p.preview_id a.identity (stored p) (stop_forwarder a.identity c).records
              ∙ rw (name, eq_refl a.identity) refl;
          owner = a.owner;
        };
        same = refl;
        again = ground arith;
        idle = stopped_idle a.identity c;
      }

  -- The equation of two successful outcomes.
  same_outcome :
      {p q : Preview} {c d : Coordinator}
      → ◌≡◌ {A = Result Failure Preview × Coordinator} (ok p, c) (ok q, d)
      → (p ≡ q) × (c ≡ d)
  same_outcome e = (
    cc (ap (λ (x : Result Failure Preview × Coordinator). x.0) e),
    ap (λ (x : Result Failure Preview × Coordinator). x.1) e,
  )

  no_outcome :
      {A : Type 0} {p : Preview} {x : Failure} {c d : Coordinator}
      → ◌≡◌ {A = Result Failure Preview × Coordinator} (err x, c) (ok p, d)
      → A
  no_outcome e = cc (ap (λ (y : Result Failure Preview × Coordinator). y.0) e)

  module _ (h : Host) (now : ℕ) (c c' : Coordinator) (p : Preview) (sound : IsSound c)
      (done : stop h s now preview_id request c ≡ (ok p, c')) where
    stop-IsHalted : IsHalted p c'
    stop-IsHalted = elim (IsAddressed-cases h now c) [
      | inr (e, refused) ↦ no_outcome (sym refused ∙ done)
      | inl a ↦ elim (Bool-cases (is_repeated_stop a.preview a.ownership.expected_revision)) [
        | inl again ↦
            let out = same_outcome (sym (stop_again h now c a again) ∙ done) in
            subst₂ IsHalted out.0 out.1 (record {
              addressed = a;
              same = refl;
              again = again;
              idle = idle_again c a sound again;
            })
        | inr new ↦
            elim (Bool-cases (a.preview.lifecycle_revision == a.ownership.expected_revision)) [
              | inr stale ↦ no_outcome (sym (stop_stale h now c a new stale) ∙ done)
              | inl current ↦
                  let out = same_outcome (sym (stop_first h now c a new current) ∙ done) in
                  subst₂ IsHalted out.0 out.1
                    (halted-IsHalted now c a (sound.named a.identity a.preview a.found))
            ]
      ]
    ]

    -- On a sound coordinator, a request to stop a preview that returns leaves no forwarder under the
    -- identity, and the same request, whenever it is repeated on what it left, returns the same
    -- record and changes nothing.
    pub stop-stop :
        (h' : Host) (now' : ℕ)
        → (lookup preview_id c'.forwarders ≡ none)
          × (stop h' s now' preview_id request c' ≡ (ok p, c'))
    unfolding canonical
    stop-stop h' now' =
        let x = stop-IsHalted in
        (
          subst (λ i. lookup i c'.forwarders ≡ none)
              (same_id preview_id x.addressed.identity x.addressed.canonical_id) x.idle,
          stop_again h' now' c' x.addressed x.again ∙ ap (λ q. (ok q, c')) x.same,
        )
