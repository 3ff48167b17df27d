-- ===== src/Database/Answering.antt =====
-- The challenge that `prepare_replace` returns, answered by `consume_replace`.
use atenea_remote_worker_spe.Prelude.{
  ℕ, ◌+◌, String, ◌≡◌, refl, sym, subst, subst₂, inl, inr, true, false, Option, Result, ok, err,
  leb, if◌then◌else◌, Bool-cases, ◌==◌, str_eq, eq_refl, arith,
}
use atenea_remote_worker_spe.Database.Names.{is_sha256}
use atenea_remote_worker_spe.Database.Record.{Pending, DatabaseRecord, Error, challenge_time}
use atenea_remote_worker_spe.Database.Registry.{Disk, read, write_record}
use atenea_remote_worker_spe.Database.Replace.{
  Challenge, challenged, prepare_replace, consumed, find_pending, consume_replace,
}
use atenea_remote_worker_spe.Database.Reading.{IsRead}
use atenea_remote_worker_spe.Database.Consumption.{
  IsMeant, consume_late, consume_wrong, consume_success,
}
use atenea_remote_worker_spe.Database.Soundness.{IsSound}
use atenea_remote_worker_spe.Database.Preparation.{PrepareEffect, prepare-PrepareEffect}

-- The record that the right answer writes.
abbrev pub replaced : (String → String) → DatabaseRecord → Challenge → ℕ → ℕ → DatabaseRecord
replaced digest r c now now' =
    consumed (challenged digest r c.operation_id c.confirmation now)
      (record {
        operation_id = c.operation_id;
        confirmation_sha256 = digest c.confirmation;
        bound_revision = r.lifecycle_revision + 1;
        expires_at = now + challenge_time;
        consumed = false;
      })
      now'

module _ (digest : String → String) (id operation confirmation : String) (now : ℕ)
    (r : DatabaseRecord) (d : Disk)
    (h : IsRead id d (challenged digest r operation confirmation now)) (answer : String)
    (now' : ℕ) where
  abbrev pending : Pending
  pending = record {
    operation_id = operation;
    confirmation_sha256 = digest confirmation;
    bound_revision = r.lifecycle_revision + 1;
    expires_at = now + challenge_time;
    consumed = false;
  }

  abbrev call : Result Error DatabaseRecord × Disk
  call = consume_replace digest id (r.lifecycle_revision + 1) operation answer now' d

  meant :
      IsMeant
        (challenged digest r operation confirmation now)
        pending
        operation
        (r.lifecycle_revision + 1)
  unfolding challenged find_pending
  meant = record {
    pending = refl;
    operation = refl;
    bound = refl;
    fresh = refl;
    result = ground (arith, eq_refl operation);
  }

  current :
      ((challenged digest r operation confirmation now).lifecycle_revision
        == r.lifecycle_revision + 1)
      ≡ true
  unfolding challenged
  current = ground arith

  -- The answer, by its time and by its digest.
  answer_lem : call ≡ (
      if leb (now + challenge_time) now'
      then (err Error.replacement_confirmation_expired, d)
      else if str_eq (digest answer) (digest confirmation)
      then (
        ok (consumed (challenged digest r operation confirmation now) pending now'),
        (write_record (consumed (challenged digest r operation confirmation now) pending now') d).1,
      )
      else (err Error.replacement_confirmation_conflict, d))
  answer_lem =
      let k = r.lifecycle_revision + 1 in
      elim (Bool-cases (leb (now + challenge_time) now')) [
        | inl late ↦ rw late (consume_late digest id k operation answer now' d h current meant late)
        | inr early ↦ elim (Bool-cases (str_eq (digest answer) (digest confirmation))) [
          | inl right ↦
              rw (early, right)
                (consume_success digest id k operation answer now' d h current meant early right)
          | inr wrong ↦
              rw (early, wrong)
                (consume_wrong digest id k operation answer now' d h current meant early wrong)
        ]
      ]

module _ (digest : String → String) (hexadecimal : (text : String) → is_sha256 (digest text) ≡ true)
    (id : String) (expected : ℕ) (confirmation operation_id : Option String) (token fresh : String)
    (now : ℕ) (d : Disk) (s : IsSound d) {c : Challenge} {d' : Disk}
    (prepared : prepare_replace digest id expected confirmation operation_id token fresh now d
      ≡ (ok c, d')) where
  -- After a successful `prepare_replace` on a sound registry, `consume_replace` with the returned
  -- revision and operation raises REPLACEMENT_CONFIRMATION_EXPIRED from the expiry on; before it,
  -- it replaces the record if the text that it is given has the digest of the returned
  -- confirmation, and raises REPLACEMENT_CONFIRMATION_CONFLICT if not.
  pub consume-prepare :
      (answer : String) (now' : ℕ)
      → (r : DatabaseRecord) × (read id d ≡ (ok r, d))
        × (consume_replace digest id c.expected_revision c.operation_id answer now' d' ≡ (
            if leb c.expires_at now'
            then (err Error.replacement_confirmation_expired, d')
            else if str_eq (digest answer) (digest c.confirmation)
            then (
              ok (replaced digest r c now now'),
              (write_record (replaced digest r c now now') d').1,
            )
            else (err Error.replacement_confirmation_conflict, d')))
  unfolding challenged
  consume-prepare answer now' =
      let (r, p) =
        subst (PrepareEffect digest id expected confirmation operation_id token fresh now d)
          prepared
          (prepare-PrepareEffect digest hexadecimal id expected confirmation operation_id token
            fresh now d s) in
      let revision : c.expected_revision ≡ r.lifecycle_revision + 1 =
        omega (arith, p.revision, p.current) in
      (
        r,
        p.before.result,
        subst₂
            (λ k t. consume_replace digest id k c.operation_id answer now' d' ≡ (
              if leb t now'
              then (err Error.replacement_confirmation_expired, d')
              else if str_eq (digest answer) (digest c.confirmation)
              then (
                ok (replaced digest r c now now'),
                (write_record (replaced digest r c now now') d').1,
              )
              else (err Error.replacement_confirmation_conflict, d')))
            (sym revision) (sym p.expiry)
            (answer_lem digest id c.operation_id c.confirmation now r d' p.written.stored answer
              now'),
      )
