-- ===== src/Database/Preparation.antt =====
-- What `prepare_replace` does, and how its challenge is answered.
use atenea_remote_worker_spe.Prelude.{
  ℕ, ◌+◌, ◌*◌, ◌≤◌, String, ◌≡◌, ◌≢◌, refl, sym, ap, ◌∙◌, ◌⊎◌, inl, inr, true, false, Option, none,
  some, str_eq, str_eq→eq, eq_iff, Result, ok, err, ltb, ◌==◌, length, arith, Bool-cases,
}
use atenea_remote_worker_spe.Prelude.Pattern.{codes}
use atenea_remote_worker_spe.Database.Names.{is_uuid, is_sha256}
use atenea_remote_worker_spe.Database.Record.{
  State, DatabaseRecord, Error, same_state, challenge_time, protocol,
}
use atenea_remote_worker_spe.Database.Validate.{canonical_uuid}
use atenea_remote_worker_spe.Database.Registry.{Disk, write_record}
use atenea_remote_worker_spe.Database.Replace.{Challenge, or_else_text, challenged, prepare_replace}
use atenea_remote_worker_spe.Database.Reading.{IsRead, IsUnread, IsRead-cases}
use atenea_remote_worker_spe.Database.Soundness.{IsSound, IsRead-IsSound, challenged-IsSound}
use atenea_remote_worker_spe.Database.Writing.{IsWritten, write_record-IsWritten}

-- The challenge that a call returns.
abbrev pub challenge_of : DatabaseRecord → ℕ → String → String → ℕ → Challenge
challenge_of r expected operation value now = record {
  protocol_version = protocol;
  database_id = r.ownership.database_id;
  operation_id = operation;
  confirmation = value;
  expected_revision = r.lifecycle_revision + 1;
  expires_at = now + challenge_time;
}

module _ (digest : String → String) (id : String) (expected : ℕ) (confirmation : Option String)
    (operation_id : Option String) (token fresh : String) (now : ℕ) (d : Disk) where
  abbrev value : String
  value = or_else_text confirmation token

  abbrev operation : String
  operation = or_else_text operation_id fresh

  abbrev call : Result Error Challenge × Disk
  call = prepare_replace digest id expected confirmation operation_id token fresh now d

  -- The tests of a successful call.
  record IsAllowed (r : DatabaseRecord) : Type 0 where
    current : (r.lifecycle_revision == expected) ≡ true
    healthy : same_state r.state State.healthy ≡ true
    long_enough : ltb (length (codes value)) 20 ≡ false
    canonical : is_uuid operation ≡ true

  record IsForbidden (r : DatabaseRecord) : Type 0 where
    error : Error
    result : call ≡ (err error, d)

  prepare_allowed :
      {r : DatabaseRecord}
      → IsRead id d r
      → IsAllowed r
      → let r' = challenged digest r operation value now in
        call ≡ (ok (challenge_of r expected operation value now), (write_record r' d).1)
  unfolding prepare_replace write_record challenged canonical_uuid
  prepare_allowed h a = rw (h.result, a.current, a.healthy, a.long_enough, a.canonical)

  prepare-cases : {r : DatabaseRecord} → IsRead id d r → IsAllowed r ⊎ IsForbidden r
  unfolding prepare_replace write_record challenged canonical_uuid
  prepare-cases {r} h = elim (Bool-cases (r.lifecycle_revision == expected)) [
    | inr stale ↦ inr (record { error = Error.stale_revision; result = rw (h.result, stale) })
    | inl current ↦ elim (Bool-cases (same_state r.state State.healthy)) [
      | inr ill ↦
          inr (record { error = Error.database_not_healthy; result = rw (h.result, current, ill) })
      | inl healthy ↦ elim (Bool-cases (ltb (length (codes value)) 20)) [
        | inl short ↦ inr (record {
          error = Error.confirmation_invalid;
          result = rw (h.result, current, healthy, short);
        })
        | inr long_enough ↦ elim (Bool-cases (is_uuid operation)) [
          | inr bad ↦ inr (record {
            error = Error.operation_id_invalid;
            result = rw (h.result, current, healthy, long_enough, bad);
          })
          | inl canonical ↦ inl (record {
            current = current;
            healthy = healthy;
            long_enough = long_enough;
            canonical = canonical;
          })
        ]
      ]
    ]
  ]

  prepare_unread : (h : IsUnread id d) → call ≡ (err h.error, d)
  unfolding prepare_replace
  prepare_unread h = rw h.result

  -- The text that a caller gave, or another in place of none and of the empty text.
  abbrev pub IsChosen : Option String → String → String → Type 0
  IsChosen given fallback v =
      (((given ≡ none) ⊎ (given ≡ some "")) × (v ≡ fallback)) ⊎ ((given ≡ some v) × (v ≢ ""))

  -- The record with a challenge for 300 seconds, bound to the next revision.
  abbrev pub with_challenge : DatabaseRecord → String → String → DatabaseRecord
  with_challenge r operation_id confirmation = record r {
    lifecycle_revision = r.lifecycle_revision + 1;
    pending_replacement = some (record {
      operation_id = operation_id;
      confirmation_sha256 = digest confirmation;
      bound_revision = r.lifecycle_revision + 1;
      expires_at = now + 300 * 1000000;
      consumed = false;
    });
    updated_at = now;
  }

  -- A challenge `c` for the healthy record `r`, in force at the next revision.
  pub record IsPreparation (r : DatabaseRecord) (c : Challenge) (d' : Disk) : Type 0 where
    pub before : IsRead id d r
    pub healthy : r.state ≡ State.healthy
    pub current : r.lifecycle_revision ≡ expected
    pub revision : c.expected_revision ≡ expected + 1
    pub expiry : c.expires_at ≡ now + 300 * 1000000
    pub version : c.protocol_version ≡ "database-lifecycle/v1"
    pub named : c.database_id ≡ r.ownership.database_id
    pub chosen : IsChosen confirmation token c.confirmation
    pub chosen_operation : IsChosen operation_id fresh c.operation_id
    pub long_enough : 20 ≤ length (codes c.confirmation)
    pub canonical : is_uuid c.operation_id ≡ true
    pub written : IsWritten id d (with_challenge r c.operation_id c.confirmation) d'

  abbrev pub PrepareEffect : Result Error Challenge × Disk → Type 0
  PrepareEffect (ok c, d') = (r : DatabaseRecord) × IsPreparation r c d'
  PrepareEffect (err e, d') = d' ≡ d

or_else_text-IsChosen :
    (given : Option String) (fallback : String)
    → (((given ≡ none) ⊎ (given ≡ some "")) × (or_else_text given fallback ≡ fallback))
      ⊎ ((given ≡ some (or_else_text given fallback)) × (or_else_text given fallback ≢ ""))
or_else_text-IsChosen none fallback = inl (inl refl, refl)
or_else_text-IsChosen (some given) fallback = elim (Bool-cases (str_eq given "")) [
  | inl empty_ ↦ rw empty_ (inl (inr (ap some (str_eq→eq given "" empty_)), refl))
  | inr other ↦ rw other (inr (refl, λ e. cc (sym other ∙ (eq_iff given "").1 e)))
]

same_state→eq : (a b : State) → same_state a b ≡ true → a ≡ b
unfolding same_state
same_state→eq a b h = ground arith

module _ (digest : String → String) (hexadecimal : (text : String) → is_sha256 (digest text) ≡ true)
    (id : String) (expected : ℕ) (confirmation operation_id : Option String) (token fresh : String)
    (now : ℕ) (d : Disk) (s : IsSound d) where
  allowed-PrepareEffect :
      {r : DatabaseRecord}
      → IsRead id d r
      → IsAllowed digest id expected confirmation operation_id token fresh now d r
      → PrepareEffect digest id expected confirmation operation_id token fresh now d
          (prepare_replace digest id expected confirmation operation_id token fresh now d)
  unfolding challenged
  allowed-PrepareEffect {r} h a =
      let value = or_else_text confirmation token in
      let operation = or_else_text operation_id fresh in
      let healthy = same_state→eq r.state State.healthy a.healthy in
      rw (prepare_allowed digest id expected confirmation operation_id token fresh now d h a) (
        r,
        record {
          before = h;
          healthy = healthy;
          current = ground (arith, a.current);
          revision = ground (arith, a.current);
          expiry = refl;
          version = refl;
          named = refl;
          chosen = or_else_text-IsChosen confirmation token;
          chosen_operation = or_else_text-IsChosen operation_id fresh;
          long_enough = ground (arith, a.long_enough);
          canonical = a.canonical;
          written = write_record-IsWritten (challenged digest r operation value now) s h (
              challenged-IsSound digest r operation value now (IsRead-IsSound s h) healthy
                a.canonical (hexadecimal value));
        },
      )

  -- On a sound registry, a call of `prepare_replace` that raises changes nothing. One that
  -- succeeds has found a healthy record at the expected revision. It returns a challenge with the
  -- confirmation and the operation of the caller, or those made for it where none or an empty text
  -- was given, for the next revision and for 300 seconds; the confirmation has at least 20
  -- characters. Of the record it writes the next revision, the same challenge with the digest of
  -- the confirmation, not consumed, and the time of the call, and changes nothing else of it and no
  -- other file.
  pub prepare-PrepareEffect :
      PrepareEffect digest id expected confirmation operation_id token fresh now d
        (prepare_replace digest id expected confirmation operation_id token fresh now d)
  prepare-PrepareEffect = elim (IsRead-cases id d) [
    | inr u ↦
        rw (prepare_unread digest id expected confirmation operation_id token fresh now d u) refl
    | inl (r, h) ↦
        elim (prepare-cases digest id expected confirmation operation_id token fresh now d h) [
          | inl a ↦ allowed-PrepareEffect h a
          | inr f ↦ rw f.result refl
        ]
  ]
