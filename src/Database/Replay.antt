-- ===== src/Database/Replay.antt =====
-- Revisions only grow, so a replacement that was confirmed cannot be confirmed again.
use atenea_remote_worker_spe.Prelude.{
  ℕ, ◌+◌, ◌≤◌, ◌<◌, String, ◌≡◌, refl, subst, true, false, Option, some, none, List, [], ◌∷◌, ok,
  lookup, arith,
}
use atenea_remote_worker_spe.Database.Names.{is_sha256}
use atenea_remote_worker_spe.Database.Record.{DatabaseRecord}
use atenea_remote_worker_spe.Database.Registry.{Entry, regular, Disk, exists}
use atenea_remote_worker_spe.Database.Replace.{consume_replace}
use atenea_remote_worker_spe.Database.Soundness.{IsSound}
use atenea_remote_worker_spe.Database.Consumption.{ConsumeEffect, consume-ConsumeEffect}
use atenea_remote_worker_spe.Database.History.{Call, after, run, after-IsSound, run-IsSound}
use atenea_remote_worker_spe.Database.Changes.{Change, same, fresh, next, after-Change}

-- The revision of the record at a path, and 0 where no record is.
abbrev pub revision_in : Option (Entry DatabaseRecord) → ℕ
revision_in (some (regular r)) = r.lifecycle_revision
revision_in _ = 0

abbrev pub revision : String → Disk → ℕ
revision k d = revision_in (lookup k d.records)

revision_absent : (x : Option (Entry DatabaseRecord)) → exists x ≡ false → revision_in x ≡ 0
revision_absent none e = refl
revision_absent (some (regular r)) e = cc
revision_absent (some Entry.malformed) e = refl
revision_absent (some Entry.unsafe) e = refl
revision_absent (some Entry.dangling) e = refl

revision-Change :
    (k : String) (c : Call) (d d' : Disk) → Change k c d d' → revision k d ≤ revision k d'
revision-Change k c d d' (same e) = rw e (omega arith)
revision-Change k c d d' (fresh r' free e _) =
    omega (arith, revision_absent (lookup k d.records) free)
revision-Change k c d d' (next r r' e e' grows _) = rw (e, e') (omega arith)

module _ (digest : String → String) (hexadecimal : (t : String) → is_sha256 (digest t) ≡ true) where
  -- Over any calls the revision of every record grows or stays.
  pub revision-run :
      (k : String) (cs : List Call) (d : Disk)
      → IsSound d
      → revision k d ≤ revision k (run digest cs d)
  unfolding run
  revision-run k [] d s = omega arith
  revision-run k (c ∷ cs) d s = omega (
    arith,
    revision-Change k c d (after digest c d) (after-Change digest hexadecimal k c d s),
    revision-run k cs (after digest c d) (after-IsSound digest hexadecimal c d s),
  )

  module _ (id : String) (expected : ℕ) (operation confirmation : String) (now : ℕ) (d : Disk)
      (s : IsSound d) {r' : DatabaseRecord} {d' : Disk}
      (confirmed : consume_replace digest id expected operation confirmation now d
        ≡ (ok r', d')) where
    effect : ConsumeEffect digest id expected operation confirmation now d (ok r', d')
    effect =
        subst (ConsumeEffect digest id expected operation confirmation now d) confirmed
          (consume-ConsumeEffect digest id expected operation confirmation now d s)

    revision_reached : revision id d' ≡ expected + 1
    revision_reached = rw effect.2.written.stored.found effect.2.revision

    later_revision : (cs : List Call) → expected < revision id (run digest cs d')
    later_revision cs =
        omega (arith, revision_reached, revision-run id cs d' effect.2.written.sound)

    -- Once a replacement was confirmed on a sound registry, no call that expects the same revision
    -- of the same record, whatever operation and confirmation it names and whatever calls were
    -- made in between, confirms a replacement again.
    pub consume_once :
        (cs : List Call) (operation' confirmation' : String) (now' : ℕ) {r'' : DatabaseRecord}
        {d'' : Disk}
        → ¬ (
            consume_replace digest id expected operation' confirmation' now' (run digest cs d')
            ≡ (ok r'', d''))
    consume_once cs operation' confirmation' now' {r''} {d''} again =
        let later = run digest cs d' in
        let (r, p, m) =
          subst (ConsumeEffect digest id expected operation' confirmation' now' later) again (
            consume-ConsumeEffect digest id expected operation' confirmation' now' later
              (run-IsSound digest hexadecimal cs d' effect.2.written.sound)) in
        let here : revision id later ≡ expected = rw m.before.found m.current in
        absurd (omega (arith, here, later_revision cs))
