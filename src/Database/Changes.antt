-- ===== src/Database/Changes.antt =====
-- Each call moves each record file as the state machine allows.
use atenea_remote_worker_spe.Prelude.{
  ℕ, ◌+◌, String, ◌≡◌, refl, ◌∙◌, subst, ◌⊎◌, inl, inr, Bool, true, false, ◌&&◌, Option, some, none,
  Result, ok, err, lookup, str_eq, str_eq→eq, arith, Bool-cases, ap,
}
use atenea_remote_worker_spe.Database.Names.{is_sha256}
use atenea_remote_worker_spe.Database.Record.{State, DatabaseRecord, Error, same_state, allows}
use atenea_remote_worker_spe.Database.Registry.{
  regular, Disk, Creation, create, DesiredArgument, transition, exists, is_state, permits,
}
use atenea_remote_worker_spe.Database.Replace.{Challenge, prepare_replace, consume_replace}
use atenea_remote_worker_spe.Database.Reading.{IsRead}
use atenea_remote_worker_spe.Database.Writing.{IsWritten}
use atenea_remote_worker_spe.Database.Soundness.{IsSound}
use atenea_remote_worker_spe.Database.Transitions.{Effect, transition-Effect}
use atenea_remote_worker_spe.Database.Consumption.{ConsumeEffect, consume-ConsumeEffect}
use atenea_remote_worker_spe.Database.Preparation.{PrepareEffect, prepare-PrepareEffect}
use atenea_remote_worker_spe.Database.Creation.{CreateEffect, create-CreateEffect}
use atenea_remote_worker_spe.Database.History.{
  Call, create_call, transition_call, prepare_call, consume_call, snapshot_call, after,
  register_snapshot-records,
}

-- The call is a transition of the record `k` to the state `s`.
abbrev pub requests : String → State → Call → Bool
requests k s (transition_call id expected (some t) desired now) = str_eq id k && same_state t s
requests k s _ = false

-- A new revision keeps the state, or follows an edge of TRANSITIONS: one that the call asks for,
-- or the one to `replacing`.
abbrev pub Cause : String → Call → State → State → Type 0
Cause k c old new =
    (new ≡ old) ⊎ ((allows old new ≡ true) × ((new ≡ State.replacing) ⊎ (requests k new c ≡ true)))

-- What a call does to the record file `k`: nothing, a first record on a free path, or the next
-- revision of the record that stood there.
pub data Change (k : String) (c : Call) (d d' : Disk) : Type 0 where
  same : lookup k d'.records ≡ lookup k d.records → Change k c d d'
  fresh :
      (r' : DatabaseRecord)
      → exists (lookup k d.records) ≡ false
      → lookup k d'.records ≡ some (regular r')
      → r'.state ≡ State.allocated
      → Change k c d d'
  next :
      (r r' : DatabaseRecord)
      → lookup k d.records ≡ some (regular r)
      → lookup k d'.records ≡ some (regular r')
      → r'.lifecycle_revision ≡ r.lifecycle_revision + 1
      → Cause k c r.state r'.state
      → Change k c d d'

module _ (k : String) (c : Call) where
  elsewhere :
      {id : String} {d d' : Disk} {r' : DatabaseRecord}
      → IsWritten id d r' d'
      → str_eq id k ≡ false
      → Change k c d d'
  elsewhere w other = same (w.files k ∙ rw other)

  written-Change :
      {id : String} {d d' : Disk} {r r' : DatabaseRecord}
      → IsRead id d r
      → IsWritten id d r' d'
      → r'.lifecycle_revision ≡ r.lifecycle_revision + 1
      → (str_eq id k ≡ true → Cause k c r.state r'.state)
      → Change k c d d'
  written-Change {id} {d} {d'} {r} {r'} h w e cause = elim (Bool-cases (str_eq id k)) [
    | inr other ↦ elsewhere w other
    | inl here ↦
        next r r' (subst (λ j. lookup j d.records ≡ some (regular r)) (str_eq→eq id k here) h.found)
          (w.files k ∙ rw here) e (cause here)
  ]

  unchanged : {d d' : Disk} → d' ≡ d → Change k c d d'
  unchanged e = same (ap (λ (x : Disk). lookup k x.records) e)

create-Change :
    (k : String) (a : Creation) (now : ℕ) (d : Disk)
    → IsSound d
    → Change k (create_call a now) d (create a now d).1
create-Change k a now d s = go (create a now d) (create-CreateEffect a now d s)
  where
    allocated :
        (r : DatabaseRecord) (d' : Disk)
        → CreateEffect a now d (ok (r, true), d')
        → Change k (create_call a now) d d'
    allocated r d' (_, free, e, w) = elim (Bool-cases (str_eq a.database_id k)) [
      | inr other ↦ elsewhere k (create_call a now) w other
      | inl here ↦
          fresh r
            (subst (λ j. exists (lookup j d.records) ≡ false) (str_eq→eq a.database_id k here) free)
            (w.files k ∙ rw here) (ap (λ (x : DatabaseRecord). x.state) e)
    ]

    go :
        (x : Result Error (DatabaseRecord × Bool) × Disk)
        → CreateEffect a now d x
        → Change k (create_call a now) d x.1
    go (ok (r, true), d') e = allocated r d' e
    go (ok (r, false), d') e = unchanged k (create_call a now) e.0
    go (err _, d') e = unchanged k (create_call a now) e

transition-Cause :
    (k id : String) (expected : ℕ) (target : Option State) (desired : DesiredArgument) (now : ℕ)
    (old new : State)
    → permits old target ≡ true
    → is_state target new ≡ true
    → str_eq id k ≡ true
    → Cause k (transition_call id expected target desired now) old new
unfolding same_state
transition-Cause k id expected none desired now old new edge reached here = cc
transition-Cause k id expected (some t) desired now old new edge reached here = ground arith

transition-Change :
    (k id : String) (expected : ℕ) (target : Option State) (desired : DesiredArgument) (now : ℕ)
    (d : Disk)
    → IsSound d
    → Change k
        (transition_call id expected target desired now)
        d
        (transition id expected target desired now d).1
transition-Change k id expected target desired now d s =
    go (transition id expected target desired now d)
      (transition-Effect id expected target desired now d s)
  where
    go :
        (x : Result Error DatabaseRecord × Disk)
        → Effect id expected target desired now d x
        → Change k (transition_call id expected target desired now) d x.1
    go (ok r', d') (_, inl e) = unchanged k (transition_call id expected target desired now) e
    go (ok r', d') (done, inr (r, m)) =
        written-Change k (transition_call id expected target desired now) m.before m.written
          (omega (arith, done.revision, m.current))
          (λ here.
            transition-Cause k id expected target desired now r.state r'.state m.edge done.reached
              here)
    go (err _, d') e = unchanged k (transition_call id expected target desired now) e

allows_replacing : (s : State) → s ≡ State.healthy → allows s State.replacing ≡ true
unfolding allows
allows_replacing s e = rw e refl

consume-Change :
    (digest : String → String) (k id : String) (expected : ℕ) (operation confirmation : String)
    (now : ℕ) (d : Disk)
    → IsSound d
    → Change k
        (consume_call id expected operation confirmation now)
        d
        (consume_replace digest id expected operation confirmation now d).1
consume-Change digest k id expected operation confirmation now d s =
    go (consume_replace digest id expected operation confirmation now d)
      (consume-ConsumeEffect digest id expected operation confirmation now d s)
  where
    go :
        (x : Result Error DatabaseRecord × Disk)
        → ConsumeEffect digest id expected operation confirmation now d x
        → Change k (consume_call id expected operation confirmation now) d x.1
    go (ok r', d') (r, p, m) =
        written-Change k (consume_call id expected operation confirmation now) m.before m.written
          (omega (arith, m.revision, m.current))
          (λ _. inr (rw m.replacing (allows_replacing r.state m.healthy), inl m.replacing))
    go (err _, d') e = unchanged k (consume_call id expected operation confirmation now) e

module _ (digest : String → String) (hexadecimal : (t : String) → is_sha256 (digest t) ≡ true) where
  prepare-Change :
      (k id : String) (expected : ℕ) (confirmation operation : Option String)
      (token fresh_id : String) (now : ℕ) (d : Disk)
      → IsSound d
      → Change k
          (prepare_call id expected confirmation operation token fresh_id now)
          d
          (prepare_replace digest id expected confirmation operation token fresh_id now d).1
  prepare-Change k id expected confirmation operation token fresh_id now d s =
      go (prepare_replace digest id expected confirmation operation token fresh_id now d) (
        prepare-PrepareEffect digest hexadecimal id expected confirmation operation token fresh_id
          now d s)
    where
      go :
          (x : Result Error Challenge × Disk)
          → PrepareEffect digest id expected confirmation operation token fresh_id now d x
          → Change k (prepare_call id expected confirmation operation token fresh_id now) d x.1
      go (ok c, d') (r, m) =
          written-Change k (prepare_call id expected confirmation operation token fresh_id now)
            m.before m.written refl (λ _. inl refl)
      go (err _, d') e =
          unchanged k (prepare_call id expected confirmation operation token fresh_id now) e

  -- On a sound registry every call, returning or raising, treats each record file in one of three
  -- ways: it leaves it alone, it puts a first allocated record on a free path, or it replaces the
  -- record by its next revision, which keeps the state or follows an edge of TRANSITIONS to the
  -- state that the call asks for or to the replacement.
  pub after-Change :
      (k : String) (c : Call) (d : Disk) → IsSound d → Change k c d (after digest c d)
  after-Change k (create_call a now) d s = create-Change k a now d s
  after-Change k (transition_call id expected target desired now) d s =
      transition-Change k id expected target desired now d s
  after-Change k (prepare_call id expected confirmation operation token fresh_id now) d s =
      prepare-Change k id expected confirmation operation token fresh_id now d s
  after-Change k (consume_call id expected operation confirmation now) d s =
      consume-Change digest k id expected operation confirmation now d s
  after-Change k (snapshot_call id snapshot content size now) d s =
      same (ap (lookup k) (register_snapshot-records id snapshot content size now d))
