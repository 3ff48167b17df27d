-- ===== src/Database/Consumption.antt =====
-- What `consume_replace` demands, and what it does.
use atenea_remote_worker_spe.Prelude.{
  ℕ, ◌+◌, ◌<◌, String, ◌≡◌, refl, ◌⊎◌, inl, inr, true, false, not, ◌||◌, some, Result, ok, err, leb,
  ◌==◌, str_eq, str_eq→eq, arith, Bool-cases, Option-cases,
}
use atenea_remote_worker_spe.Database.Record.{State, Pending, DatabaseRecord, Error}
use atenea_remote_worker_spe.Database.Registry.{Disk, write_record}
use atenea_remote_worker_spe.Database.Replace.{find_pending, consumed, consume_replace}
use atenea_remote_worker_spe.Database.Reading.{IsRead, IsUnread, IsRead-cases}
use atenea_remote_worker_spe.Database.Soundness.{
  IsSound, IsSoundRecord, IsRead-IsSound, consumed-IsSound,
}
use atenea_remote_worker_spe.Database.Writing.{IsWritten, write_record-IsWritten}

-- The pending challenge is the one that the caller means, and was not consumed.
pub record IsMeant (r : DatabaseRecord) (p : Pending) (operation_id : String) (expected : ℕ)
    : Type 0 where
  pub pending : r.pending_replacement ≡ some p
  pub operation : p.operation_id ≡ operation_id
  pub bound : p.bound_revision ≡ expected
  pub fresh : p.consumed ≡ false
  pub result : find_pending r.pending_replacement operation_id expected ≡ ok p

Lost : DatabaseRecord → String → ℕ → Type 0
Lost r operation_id expected =
    find_pending r.pending_replacement operation_id expected
    ≡ err Error.replacement_confirmation_conflict

find_pending-cases :
    (r : DatabaseRecord) (operation_id : String) (expected : ℕ)
    → ((p : Pending) × IsMeant r p operation_id expected) ⊎ Lost r operation_id expected
unfolding find_pending Lost
find_pending-cases r operation_id expected = elim (Option-cases r.pending_replacement) [
  | inl n ↦ inr (rw n refl)
  | inr (p, e) ↦
      elim (Bool-cases (
        not (str_eq p.operation_id operation_id)
        || not (p.bound_revision == expected)
        || p.consumed)) [
          | inl wrong ↦ inr (rw e (ground arith))
          | inr right ↦ inl (
            p,
            record {
              pending = e;
              operation = str_eq→eq p.operation_id operation_id (ground arith);
              bound = ground arith;
              fresh = ground arith;
              result = rw e (ground arith);
            },
          )
        ]
]

module _ (digest : String → String) (id : String) (expected : ℕ)
    (operation_id confirmation : String) (now : ℕ) (d : Disk) where
  -- The consumption of the challenge `p` of the record `r`.
  pub record IsConsumption (r : DatabaseRecord) (p : Pending) (r' : DatabaseRecord) (d' : Disk)
      : Type 0 where
    pub before : IsRead id d r
    pub healthy : r.state ≡ State.healthy
    pub current : r.lifecycle_revision ≡ expected
    pub pending : r.pending_replacement ≡ some p
    pub operation : p.operation_id ≡ operation_id
    pub bound : p.bound_revision ≡ expected
    pub fresh : p.consumed ≡ false
    pub in_time : now < p.expires_at
    pub answered : digest confirmation ≡ p.confirmation_sha256
    pub replacing : r'.state ≡ State.replacing
    pub revision : r'.lifecycle_revision ≡ expected + 1
    pub spent : r'.pending_replacement ≡ some (record p { consumed = true })
    pub same_owner : r'.ownership ≡ r.ownership
    -- Nothing else is written than the state, the revision, the challenge and the time.
    pub whole : r' ≡ record r {
      state = State.replacing;
      lifecycle_revision = r.lifecycle_revision + 1;
      pending_replacement = some (record p { consumed = true });
      updated_at = now;
    }
    pub written : IsWritten id d r' d'

  abbrev pub ConsumeEffect : Result Error DatabaseRecord × Disk → Type 0
  ConsumeEffect (ok r', d') = (r : DatabaseRecord) × (p : Pending) × IsConsumption r p r' d'
  ConsumeEffect (err e, d') = d' ≡ d

  consume_unread :
      (h : IsUnread id d)
      → consume_replace digest id expected operation_id confirmation now d ≡ (err h.error, d)
  unfolding consume_replace
  consume_unread h = rw h.result

  consume_stale :
      {r : DatabaseRecord}
      → IsRead id d r
      → (r.lifecycle_revision == expected) ≡ false
      → consume_replace digest id expected operation_id confirmation now d
        ≡ (err Error.stale_revision, d)
  unfolding consume_replace
  consume_stale h stale = rw (h.result, stale)

  consume-Lost :
      {r : DatabaseRecord}
      → IsRead id d r
      → (r.lifecycle_revision == expected) ≡ true
      → Lost r operation_id expected
      → consume_replace digest id expected operation_id confirmation now d
        ≡ (err Error.replacement_confirmation_conflict, d)
  unfolding consume_replace Lost
  consume-Lost h current lost = rw (h.result, current, lost)

  pub consume_late :
      {r : DatabaseRecord} {p : Pending}
      → IsRead id d r
      → (r.lifecycle_revision == expected) ≡ true
      → IsMeant r p operation_id expected
      → leb p.expires_at now ≡ true
      → consume_replace digest id expected operation_id confirmation now d
        ≡ (err Error.replacement_confirmation_expired, d)
  unfolding consume_replace
  consume_late h current m late = rw (h.result, current, m.result, late)

  pub consume_wrong :
      {r : DatabaseRecord} {p : Pending}
      → IsRead id d r
      → (r.lifecycle_revision == expected) ≡ true
      → IsMeant r p operation_id expected
      → leb p.expires_at now ≡ false
      → str_eq (digest confirmation) p.confirmation_sha256 ≡ false
      → consume_replace digest id expected operation_id confirmation now d
        ≡ (err Error.replacement_confirmation_conflict, d)
  unfolding consume_replace
  consume_wrong h current m early wrong = rw (h.result, current, m.result, early, wrong)

  pub consume_success :
      {r : DatabaseRecord} {p : Pending}
      → IsRead id d r
      → (r.lifecycle_revision == expected) ≡ true
      → IsMeant r p operation_id expected
      → leb p.expires_at now ≡ false
      → str_eq (digest confirmation) p.confirmation_sha256 ≡ true
      → consume_replace digest id expected operation_id confirmation now d
        ≡ (ok (consumed r p now), (write_record (consumed r p now) d).1)
  unfolding consume_replace write_record
  consume_success h current m early right = rw (h.result, current, m.result, early, right)

module _ (digest : String → String) (id : String) (expected : ℕ)
    (operation_id confirmation : String) (now : ℕ) (d : Disk) (s : IsSound d) where
  open_healthy :
      (r : DatabaseRecord) (p : Pending)
      → IsSoundRecord r.ownership.database_id r
      → IsMeant r p operation_id expected
      → (r.lifecycle_revision == expected) ≡ true
      → r.state ≡ State.healthy
  open_healthy r p sound m current = ground (arith, m.pending, m.fresh, m.bound)

  consumed-ConsumeEffect :
      {r : DatabaseRecord} {p : Pending}
      → IsRead id d r
      → (r.lifecycle_revision == expected) ≡ true
      → IsMeant r p operation_id expected
      → leb p.expires_at now ≡ false
      → str_eq (digest confirmation) p.confirmation_sha256 ≡ true
      → ConsumeEffect digest id expected operation_id confirmation now d
          (ok (consumed r p now), (write_record (consumed r p now) d).1)
  unfolding consumed
  consumed-ConsumeEffect {r} {p} h current m early right =
      let sound = IsRead-IsSound s h in
      (
        r,
        p,
        record {
          before = h;
          healthy = open_healthy r p sound m current;
          current = ground arith;
          pending = m.pending;
          operation = m.operation;
          bound = m.bound;
          fresh = m.fresh;
          in_time = ground arith;
          answered = str_eq→eq (digest confirmation) p.confirmation_sha256 right;
          replacing = refl;
          revision = ground arith;
          spent = refl;
          same_owner = refl;
          whole = refl;
          written =
              write_record-IsWritten (consumed r p now) s h
                (consumed-IsSound r p now sound m.pending);
        },
      )

  meant-ConsumeEffect :
      {r : DatabaseRecord} {p : Pending}
      → IsRead id d r
      → (r.lifecycle_revision == expected) ≡ true
      → IsMeant r p operation_id expected
      → ConsumeEffect digest id expected operation_id confirmation now d
          (consume_replace digest id expected operation_id confirmation now d)
  meant-ConsumeEffect {r} {p} h current m = elim (Bool-cases (leb p.expires_at now)) [
    | inl late ↦
        rw (consume_late digest id expected operation_id confirmation now d h current m late) refl
    | inr early ↦ elim (Bool-cases (str_eq (digest confirmation) p.confirmation_sha256)) [
      | inr wrong ↦
          rw
            (consume_wrong digest id expected operation_id confirmation now d h current m early
              wrong)
            refl
      | inl right ↦
          rw
            (consume_success digest id expected operation_id confirmation now d h current m early
              right)
            (consumed-ConsumeEffect h current m early right)
    ]
  ]

  -- On a sound registry, a call of `consume_replace` that raises changes nothing. One that succeeds
  -- has found a healthy record at the expected revision whose challenge names the operation, is
  -- bound to that revision, is not consumed, has not expired and has the digest of the
  -- confirmation; it leaves the record replacing, at the next revision, with the challenge
  -- consumed and the time of the call, and changes nothing else of it and no other file.
  pub consume-ConsumeEffect :
      ConsumeEffect digest id expected operation_id confirmation now d
        (consume_replace digest id expected operation_id confirmation now d)
  consume-ConsumeEffect = elim (IsRead-cases id d) [
    | inr u ↦ rw (consume_unread digest id expected operation_id confirmation now d u) refl
    | inl (r, h) ↦ elim (Bool-cases (r.lifecycle_revision == expected)) [
      | inr stale ↦
          rw (consume_stale digest id expected operation_id confirmation now d h stale) refl
      | inl current ↦ elim (find_pending-cases r operation_id expected) [
        | inr lost ↦
            rw (consume-Lost digest id expected operation_id confirmation now d h current lost) refl
        | inl (p, m) ↦ meant-ConsumeEffect h current m
      ]
    ]
  ]
