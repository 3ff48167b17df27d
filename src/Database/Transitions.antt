-- ===== src/Database/Transitions.antt =====
-- What a call of `transition` does to the record and to the rest of the registry.
use atenea_remote_worker_spe.Prelude.{
  ℕ, ◌+◌, String, ◌≡◌, refl, ◌⊎◌, inl, inr, Bool, true, false, ◌&&◌, Option, none, some, Result, ok,
  err, ◌==◌, arith, Bool-cases,
}
use atenea_remote_worker_spe.Database.Record.{State, DatabaseRecord, Error, same_state}
use atenea_remote_worker_spe.Database.Registry.{
  Disk, write_record, DesiredArgument, is_supported, is_state, permits, moved, advance, transition,
}
use atenea_remote_worker_spe.Database.Writing.{IsWritten, write_record-IsWritten}
use atenea_remote_worker_spe.Database.Reading.{IsRead, IsUnread, IsRead-cases}
use atenea_remote_worker_spe.Database.Soundness.{IsSound, IsRead-IsSound, moved-IsSound}

-- A successful advance: the revision was the expected one and the edge is in TRANSITIONS.
pub record IsAdvance (r : DatabaseRecord) (expected : ℕ) (target : Option State)
    (desired : DesiredArgument) (now : ℕ) (d : Disk) : Type 0 where
  pub current : r.lifecycle_revision ≡ expected
  pub edge : permits r.state target ≡ true
  pub supported : is_supported desired ≡ true
  pub result :
      advance r expected target desired now d
      ≡ (ok (moved r target desired now), (write_record (moved r target desired now) d).1)

pub record IsRefused (r : DatabaseRecord) (expected : ℕ) (target : Option State)
    (desired : DesiredArgument) (now : ℕ) (d : Disk) : Type 0 where
  pub error : Error
  pub result : advance r expected target desired now d ≡ (err error, d)

pub IsAdvance-cases :
    (r : DatabaseRecord) (expected : ℕ) (target : Option State) (desired : DesiredArgument)
    (now : ℕ) (d : Disk)
    → IsAdvance r expected target desired now d ⊎ IsRefused r expected target desired now d
unfolding advance write_record
IsAdvance-cases r expected target desired now d =
    elim (Bool-cases (r.lifecycle_revision == expected)) [
      | inr stale ↦ inr (record { error = Error.stale_revision; result = ground arith })
      | inl current ↦ elim (Bool-cases (permits r.state target)) [
        | inr wrong ↦
            inr (record { error = Error.database_transition_invalid; result = ground arith })
        | inl edge ↦ elim (Bool-cases (is_supported desired)) [
          | inr bad ↦ inr (record { error = Error.desired_state_invalid; result = ground arith })
          | inl good ↦ inl (record {
            current = ground arith;
            edge = edge;
            supported = good;
            result = ground arith;
          })
        ]
      ]
    ]

abbrev pub is_retry : DatabaseRecord → ℕ → Option State → Bool
is_retry r expected target = is_state target r.state && r.lifecycle_revision == expected + 1

module _ (id : String) (expected : ℕ) (target : Option State) (desired : DesiredArgument) (now : ℕ)
    (d : Disk) where
  pub transition_unread :
      (h : IsUnread id d) → transition id expected target desired now d ≡ (err h.error, d)
  unfolding transition
  transition_unread h = rw h.result

  pub transition_retry :
      {r : DatabaseRecord}
      → IsRead id d r
      → is_retry r expected target ≡ true
      → transition id expected target desired now d ≡ (ok r, d)
  unfolding transition
  transition_retry {r} h t = rw (h.result, t)

  pub transition-advance :
      {r : DatabaseRecord}
      → IsRead id d r
      → is_retry r expected target ≡ false
      → transition id expected target desired now d ≡ advance r expected target desired now d
  unfolding transition
  transition-advance {r} h t = rw (h.result, t)

  -- The call has reached its target at the revision after the expected one.
  pub record IsDone (r' : DatabaseRecord) (d' : Disk) : Type 0 where
    pub stored : IsRead id d' r'
    pub sound : IsSound d'
    pub reached : is_state target r'.state ≡ true
    pub revision : r'.lifecycle_revision ≡ expected + 1

  -- An edge of TRANSITIONS from the record `r`, which nothing but the record follows.
  pub record IsMove (r r' : DatabaseRecord) (d' : Disk) : Type 0 where
    pub before : IsRead id d r
    pub current : r.lifecycle_revision ≡ expected
    pub edge : permits r.state target ≡ true
    pub same_owner : r'.ownership ≡ r.ownership
    pub same_creation : r'.created_at ≡ r.created_at
    pub same_challenge : r'.pending_replacement ≡ r.pending_replacement
    pub written : IsWritten id d r' d'

  -- A success is a retry, which changes nothing, or a move; an error changes nothing.
  abbrev pub Effect : Result Error DatabaseRecord × Disk → Type 0
  Effect (ok r', d') = IsDone r' d' × ((d' ≡ d) ⊎ ((r : DatabaseRecord) × IsMove r r' d'))
  Effect (err e, d') = d' ≡ d

moved_reaches :
    (r : DatabaseRecord) (target : Option State) (desired : DesiredArgument) (now : ℕ)
    → permits r.state target ≡ true
    → is_state target (moved r target desired now).state ≡ true
unfolding moved same_state
moved_reaches r none desired now h = cc
moved_reaches r (some t) desired now h = ground arith

moved_revision :
    (r : DatabaseRecord) (target : Option State) (desired : DesiredArgument) (now : ℕ)
    → (moved r target desired now).lifecycle_revision ≡ r.lifecycle_revision + 1
unfolding moved
moved_revision r target desired now = refl

moved_keeps :
    (r : DatabaseRecord) (target : Option State) (desired : DesiredArgument) (now : ℕ)
    → let r' = moved r target desired now in
      (r'.ownership ≡ r.ownership)
      × (r'.created_at ≡ r.created_at)
      × (r'.pending_replacement ≡ r.pending_replacement)
unfolding moved
moved_keeps r target desired now = (refl, refl, refl)

module _ (id : String) (expected : ℕ) (target : Option State) (desired : DesiredArgument) (now : ℕ)
    (d : Disk) (s : IsSound d) where
  advance-Effect :
      {r : DatabaseRecord}
      → IsRead id d r
      → IsAdvance r expected target desired now d
      → let r' = moved r target desired now in
        Effect id expected target desired now d (ok r', (write_record r' d).1)
  advance-Effect {r} h a =
      let r' = moved r target desired now in
      let w =
        write_record-IsWritten r' s h (moved-IsSound r target desired now (IsRead-IsSound s h)) in
      let keeps = moved_keeps r target desired now in
      (
        record {
          stored = w.stored;
          sound = w.sound;
          reached = moved_reaches r target desired now a.edge;
          revision = omega (arith, moved_revision r target desired now, a.current);
        },
        inr (
          r,
          record {
            before = h;
            current = a.current;
            edge = a.edge;
            same_owner = keeps.0;
            same_creation = keeps.1;
            same_challenge = keeps.2;
            written = w;
          },
        ),
      )

  retry-Effect :
      {r : DatabaseRecord}
      → IsRead id d r
      → is_retry r expected target ≡ true
      → Effect id expected target desired now d (ok r, d)
  retry-Effect {r} h t =
      (record { stored = h; sound = s; reached = ground arith; revision = ground arith }, inl refl)

  -- On a sound registry, a call of `transition` that raises changes nothing. One that succeeds
  -- leaves a sound registry in which the record stands in the target state at the revision after
  -- the expected one; it has either changed nothing, or moved the record, from the expected
  -- revision, along an edge of TRANSITIONS, keeping its owner, its creation time, its challenge
  -- and every other file.
  pub transition-Effect :
      Effect id expected target desired now d (transition id expected target desired now d)
  transition-Effect = elim (IsRead-cases id d) [
    | inr u ↦ rw (transition_unread id expected target desired now d u) refl
    | inl (r, h) ↦ elim (Bool-cases (is_retry r expected target)) [
      | inl t ↦ rw (transition_retry id expected target desired now d h t) (retry-Effect h t)
      | inr n ↦ elim (IsAdvance-cases r expected target desired now d) [
        | inl a ↦
            rw (transition-advance id expected target desired now d h n, a.result)
              (advance-Effect h a)
        | inr a ↦ rw (transition-advance id expected target desired now d h n, a.result) refl
      ]
    ]
  ]
