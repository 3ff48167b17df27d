-- ===== src/Preview/Soundness.antt =====
-- The invariant of the coordinator, and the changes that keep it.
use atenea_remote_worker_spe.Prelude.{
  ℕ, ◌+◌, ◌≤◌, String, ◌≡◌, refl, sym, ap, ◌∙◌, inl, inr, ◌⊎◌, subst, true, false, Option, none,
  some, str_eq, str_eq→eq, Dict, lookup, insert, remove, lookup-insert, lookup-remove, eq_iff,
  Bool-cases, if◌then◌else◌,
}
use atenea_remote_worker_spe.Preview.Record.{
  State, Preview, Stored, stored, Forwarder, Coordinator, hard_lifetime,
}

-- The preview that a forwarder serves.
pub record IsServed (c : Coordinator) (id : String) (f : Forwarder) : Type 0 where
  pub preview : Preview
  pub found : lookup id c.records ≡ some (stored preview)
  pub ready : preview.state ≡ State.ready
  pub port : f.port ≡ preview.ingress_port
  pub upstream : f.upstream ≡ preview.upstream_port

-- The hard lifetime counts from the creation, and the lease ends with it at the latest.
abbrev pub IsTimed : Preview → Type 0
IsTimed p =
    (p.lease_expires_at ≤ p.hard_expires_at) × (p.hard_expires_at ≡ p.created_at + hard_lifetime)

-- Each record lies in its own directory, and has its times;
-- each forwarder serves a ready preview on its ports, and no two share a port.
pub record IsSound (c : Coordinator) : Type 0 where
  pub named :
      (id : String) (p : Preview) → lookup id c.records ≡ some (stored p) → p.preview_id ≡ id
  pub leased : (id : String) (p : Preview) → lookup id c.records ≡ some (stored p) → IsTimed p
  pub served : (id : String) (f : Forwarder) → lookup id c.forwarders ≡ some f → IsServed c id f
  pub apart :
      (i j : String) (f g : Forwarder)
      → lookup i c.forwarders ≡ some f
      → lookup j c.forwarders ≡ some g
      → f.port ≡ g.port
      → i ≡ j

-- `d'` is `d` with the key `k` set to `v`, or removed.
pub record HasEntry {V : Type 0} (k : String) (v : Option V) (d d' : Dict V) : Type 0 where
  pub at : (j : String) → lookup j d' ≡ (if str_eq k j then v else lookup j d)

pub insert-HasEntry :
    {V : Type 0} (k : String) (v : V) (d : Dict V) → HasEntry k (some v) d (insert k v d)
insert-HasEntry k v d = record { at = λ j. lookup-insert k j v d }

pub remove-HasEntry : {V : Type 0} (k : String) (d : Dict V) → HasEntry k none d (remove k d)
remove-HasEntry k d = record { at = λ j. lookup-remove k j d }

pub same-HasEntry :
    {V : Type 0} (k : String) (v : Option V) (d : Dict V) → lookup k d ≡ v → HasEntry k v d d
same-HasEntry {V} k v d e = record { at = here }
  where
    here : (j : String) → lookup j d ≡ (if str_eq k j then v else lookup j d)
    here j = elim (Bool-cases (str_eq k j)) [
      | inl same ↦ rw (same, sym (str_eq→eq k j same)) e
      | inr other ↦ rw other refl
    ]

HasEntry-cases :
    {V : Type 0} {k : String} {v : Option V} {d d' : Dict V} (j : String) (x : V)
    → HasEntry k v d d'
    → lookup j d' ≡ some x
    → ((k ≡ j) × (v ≡ some x)) ⊎ ((str_eq k j ≡ false) × (lookup j d ≡ some x))
HasEntry-cases {k = k} j x s e = elim (Bool-cases (str_eq k j)) [
  | inl same ↦ inl (str_eq→eq k j same, rw same at (sym (s.at j) ∙ e))
  | inr other ↦ inr (other, rw other at (sym (s.at j) ∙ e))
]

-- A well-formed record is what is stored.
pub form :
    {id : String} (p : Preview)
    → p.preview_id ≡ id
    → IsTimed p
    → (q : Preview) → some (stored p) ≡ some (stored q)
    → (q.preview_id ≡ id) × (IsTimed q)
form {id} p name lease q e =
    let same : p ≡ q = cc in
    subst (λ (x : Preview). (x.preview_id ≡ id) × (IsTimed x)) same (name, lease)

module _ (c c' : Coordinator) (id : String) (sound : IsSound c) where
  -- The records keep their form when a well-formed record is stored, or one is removed.
  module _ (r : Option Stored) (records : HasEntry id r c.records c'.records)
      (form : (p : Preview) → r ≡ some (stored p) → (p.preview_id ≡ id) × (IsTimed p)) where
    set-named :
        (j : String) (p : Preview) → lookup j c'.records ≡ some (stored p) → p.preview_id ≡ j
    set-named j p e = elim (HasEntry-cases j (stored p) records e) [
      | inl (same, new) ↦ (form p new).0 ∙ same
      | inr (other, old) ↦ sound.named j p old
    ]

    set-leased : (j : String) (p : Preview) → lookup j c'.records ≡ some (stored p) → IsTimed p
    set-leased j p e = elim (HasEntry-cases j (stored p) records e) [
      | inl (same, new) ↦ (form p new).1
      | inr (other, old) ↦ sound.leased j p old
    ]

    IsServed-elsewhere :
        (j : String) (f : Forwarder)
        → str_eq id j ≡ false
        → lookup j c.forwarders ≡ some f
        → IsServed c' j f
    IsServed-elsewhere j f other old = record {
      preview = (sound.served j f old).preview;
      found = records.at j ∙ rw other ((sound.served j f old).found);
      ready = (sound.served j f old).ready;
      port = (sound.served j f old).port;
      upstream = (sound.served j f old).upstream;
    }

    -- A preview that is taken down: its forwarder is stopped.
    pub hide-IsSound : HasEntry id none c.forwarders c'.forwarders → IsSound c'
    hide-IsSound forwarders = record {
      named = set-named;
      leased = set-leased;
      served = λ j f e. elim (HasEntry-cases j f forwarders e) [
        | inl (same, new) ↦ cc
        | inr (other, old) ↦ IsServed-elsewhere j f other old
      ];
      apart = λ i j f g e e' same. elim (HasEntry-cases i f forwarders e) [
        | inl (_, new) ↦ cc
        | inr (_, old) ↦ elim (HasEntry-cases j g forwarders e') [
          | inl (_, new) ↦ cc
          | inr (_, old') ↦ sound.apart i j f g old old' same
        ]
      ];
    }

  -- A ready preview that is put up, on a port that no other forwarder has.
  pub show-IsSound :
      (p : Preview) (f : Forwarder)
      → HasEntry id (some (stored p)) c.records c'.records
      → HasEntry id (some f) c.forwarders c'.forwarders
      → p.preview_id ≡ id
      → IsTimed p
      → p.state ≡ State.ready
      → f.port ≡ p.ingress_port
      → f.upstream ≡ p.upstream_port
      → ((j : String) (g : Forwarder)
          → lookup j c.forwarders ≡ some g
          → g.port ≡ p.ingress_port
          → j ≡ id)
      → IsSound c'
  show-IsSound p f records forwarders name lease ready port upstream fresh = record {
    named = set-named (some (stored p)) records (form p name lease);
    leased = set-leased (some (stored p)) records (form p name lease);
    served = λ j g e. elim (HasEntry-cases j g forwarders e) [
      | inl (same, new) ↦ record {
        preview = p;
        found = records.at j ∙ rw (same_text same) refl;
        ready = ready;
        port = ap (λ (x : Option Forwarder). port_or x) (sym new) ∙ port;
        upstream = ap (λ (x : Option Forwarder). upstream_or x) (sym new) ∙ upstream;
      }
      | inr (other, old) ↦
          IsServed-elsewhere (some (stored p)) records (form p name lease) j g other old
    ];
    apart = λ i j g g' e e' same. elim (HasEntry-cases i g forwarders e) [
      | inl (here, new) ↦ elim (HasEntry-cases j g' forwarders e') [
        | inl (here', new') ↦ sym here ∙ here'
        | inr (_, old') ↦ sym here ∙ sym (fresh j g' old' (sym same ∙ ap port_or (sym new) ∙ port))
      ]
      | inr (_, old) ↦ elim (HasEntry-cases j g' forwarders e') [
        | inl (here', new') ↦ fresh i g old (same ∙ ap port_or (sym new') ∙ port) ∙ here'
        | inr (_, old') ↦ sound.apart i j g g' old old' same
      ]
    ];
  }
    where
      port_or : Option Forwarder → ℕ
      port_or none = 0
      port_or (some g) = g.port

      upstream_or : Option Forwarder → ℕ
      upstream_or none = 0
      upstream_or (some g) = g.upstream

      same_text : {j : String} → id ≡ j → str_eq id j ≡ true
      same_text {j} e = (eq_iff id j).1 e
