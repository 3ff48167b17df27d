-- ===== src/Database/Replace.antt =====
-- `prepare_replace` and `consume_replace`: a challenge that must be answered once, in time and at
-- the revision at which it was made.
use atenea_remote_worker_spe.Prelude.{
  ℕ, ◌+◌, String, true, false, not, ◌||◌, Option, none, some, Result, ok, err, pure, lift,
  refuse_if, ◌>>=◌, ◌>>◌, ltb, leb, ◌==◌, str_eq, length, if◌then◌else◌,
}
use atenea_remote_worker_spe.Prelude.Pattern.{codes}
use atenea_remote_worker_spe.Database.Record.{
  State, Pending, DatabaseRecord, Error, same_state, challenge_time, protocol,
}
use atenea_remote_worker_spe.Database.Validate.{canonical_uuid}
use atenea_remote_worker_spe.Database.Registry.{Registry, read, write_record, require_revision}

-- What `prepare_replace` returns.
pub record Challenge : Type 0 where
  pub protocol_version : String
  pub database_id : String
  pub operation_id : String
  pub confirmation : String
  pub expected_revision : ℕ
  pub expires_at : ℕ

-- `given or fallback`, where an empty text counts as none.
abbrev pub or_else_text : Option String → String → String
or_else_text none fallback = fallback
or_else_text (some given) fallback = if str_eq given "" then fallback else given

-- The pending challenge, if it is the one that the caller means.
unfoldable pub find_pending : Option Pending → String → ℕ → Result Error Pending
find_pending none operation_id expected = err Error.replacement_confirmation_conflict
find_pending (some p) operation_id expected =
    if not (str_eq p.operation_id operation_id) || not (p.bound_revision == expected) || p.consumed
    then err Error.replacement_confirmation_conflict
    else ok p

-- The record that `consume_replace` writes.
unfoldable pub consumed : DatabaseRecord → Pending → ℕ → DatabaseRecord
consumed r p now = record r {
  state = State.replacing;
  lifecycle_revision = r.lifecycle_revision + 1;
  pending_replacement = some (record p { consumed = true });
  updated_at = now;
}

-- `digest` is `hashlib.sha256(text.encode()).hexdigest()`.
module _ (digest : String → String) where
  -- The record that `prepare_replace` writes.
  unfoldable pub challenged : DatabaseRecord → String → String → ℕ → DatabaseRecord
  challenged r operation confirmation now = record r {
    lifecycle_revision = r.lifecycle_revision + 1;
    pending_replacement = some (record {
      operation_id = operation;
      confirmation_sha256 = digest confirmation;
      bound_revision = r.lifecycle_revision + 1;
      expires_at = now + challenge_time;
      consumed = false;
    });
    updated_at = now;
  }

  -- `prepare_replace`. `token` and `fresh` are the texts that `secrets.token_urlsafe(24)` and
  -- `uuid.uuid4()` would give.
  unfoldable pub prepare_replace :
      String → ℕ → Option String → Option String → String → String → ℕ → Registry Challenge
  prepare_replace database_id expected confirmation operation_id token fresh now = do
    r ← read database_id
    lift (require_revision r expected)
    lift (refuse_if (not (same_state r.state State.healthy)) Error.database_not_healthy)
    let value = or_else_text confirmation token
    lift (refuse_if (ltb (length (codes value)) 20) Error.confirmation_invalid)
    operation ← lift (canonical_uuid (or_else_text operation_id fresh) Error.operation_id_invalid)
    let r' = challenged r operation value now
    write_record r'
    pure (record {
      protocol_version = protocol;
      database_id = r.ownership.database_id;
      operation_id = operation;
      confirmation = value;
      expected_revision = r'.lifecycle_revision;
      expires_at = now + challenge_time;
    })

  -- `consume_replace`
  unfoldable pub consume_replace : String → ℕ → String → String → ℕ → Registry DatabaseRecord
  consume_replace database_id expected operation_id confirmation now = do
    r ← read database_id
    lift (require_revision r expected)
    p ← lift (find_pending r.pending_replacement operation_id expected)
    lift (refuse_if (leb p.expires_at now) Error.replacement_confirmation_expired)
    lift (
        refuse_if (not (str_eq (digest confirmation) p.confirmation_sha256))
          Error.replacement_confirmation_conflict)
    let r' = consumed r p now
    write_record r'
    pure r'
