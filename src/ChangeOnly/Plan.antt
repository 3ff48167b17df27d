-- ===== src/ChangeOnly/Plan.antt =====
-- `plan`: the reviewed roots of a manifest against the roots that were observed.
use atenea_remote_worker_spe.Prelude.{
  ℕ, String, Bool, true, false, not, ◌&&◌, ◌||◌, Option, none, some, List, [], ◌∷◌, ◌++◌, map, any,
  all, ◌==◌, str_eq, Dict, lookup, if◌then◌else◌,
}
use atenea_remote_worker_spe.Prelude.Pattern.{codes}
use atenea_remote_worker_spe.Prelude.Sorting.{sorted, text_before}

-- What is known of a record file of a root.
pub record Stamp : Type 0 where
  pub sha256 : String
  pub uid : ℕ
  pub mode : String

-- A root's kind and identity.
pub record Key : Type 0 where
  pub kind : String
  pub id : String

-- The state of a worktree; a value may be `None`.
pub record Observation : Type 0 where
  pub head : Option String
  pub branch : Option String
  pub dirty : Option Bool

-- An entry of `reviewedRoots`.
pub record ReviewedRoot : Type 0 where
  pub key : Key
  pub disposition : String
  pub records : Dict Stamp
  pub observation : Observation
  pub retirement_authorized : Bool

-- A row of `observe_roots`.
pub record Row : Type 0 where
  pub key : Key
  pub records : Dict Stamp
  pub unexpected_structure : Bool
  pub observation : Observation

pub record Manifest : Type 0 where
  pub reviewed_roots : List ReviewedRoot
  pub configuration_sha256 : String

-- A row of `observe_runtime_resources`.
pub record Resource : Type 0 where
  pub kind : String
  pub owner : String

pub record Blocker : Type 0 where
  pub code : String
  pub kind : Option String
  pub id : Option String

pub record Candidate : Type 0 where
  pub key : Key
  pub dirty : Bool

abbrev pub same_key : Key → Key → Bool
same_key a b = str_eq a.kind b.kind && str_eq a.id b.id

abbrev same_stamp : Stamp → Stamp → Bool
same_stamp a b = str_eq a.sha256 b.sha256 && a.uid == b.uid && str_eq a.mode b.mode

abbrev is_stamp : Stamp → Option Stamp → Bool
is_stamp a none = false
is_stamp a (some b) = same_stamp a b

abbrev holds_stamp : Dict Stamp → String × Stamp → Bool
holds_stamp d (name, stamp) = is_stamp stamp (lookup name d)

-- The equality of two dictionaries.
unfoldable pub same_records : Dict Stamp → Dict Stamp → Bool
unfolding all lookup
same_records a b = all (holds_stamp b) a && all (holds_stamp a) b

abbrev pub same_text : Option String → Option String → Bool
same_text none none = true
same_text (some a) (some b) = str_eq a b
same_text _ _ = false

abbrev pub same_flag : Option Bool → Option Bool → Bool
same_flag none none = true
same_flag (some true) (some b) = b
same_flag (some false) (some b) = not b
same_flag _ _ = false

abbrev pub same_observation : Observation → Observation → Bool
same_observation a b =
    same_text a.head b.head && same_text a.branch b.branch && same_flag a.dirty b.dirty

abbrev pub is_known : Option String → Bool
is_known none = false
is_known (some _) = true

abbrev or_else : {A : Type 0} → Option A → Option A → Option A
or_else none b = b
or_else (some a) b = some a

-- `expected.get(key)`: of two entries with one key the later one counts.
unfoldable pub find_reviewed : Key → List ReviewedRoot → Option ReviewedRoot
find_reviewed key [] = none
find_reviewed key (r ∷ rs) =
    or_else (find_reviewed key rs) (if same_key r.key key then some r else none)

-- What a row comes to: a blocker, a root to archive, or a root to leave.
pub data Verdict : Type 0 where
  blocked : String → Verdict
  archived : Verdict
  preserved : Verdict

abbrev pub is_trial : ReviewedRoot → Bool
is_trial old = str_eq old.disposition "TRIAL"

-- The body of the loop over the rows, for a row that was not seen before.
unfoldable pub judge : ReviewedRoot → Row → Verdict
judge old row =
    if not (same_records row.records old.records)
    then blocked "WORKSPACE_RECORD_MOVED"
    else if str_eq old.disposition "UNBOUND_REVIEW_REQUIRED"
    then blocked "UNBOUND_ROOT_NOT_CORRELATED_WITH_PROD"
    else if is_known old.observation.head && not (same_observation row.observation old.observation)
    then blocked "WORKTREE_OBSERVATION_MOVED"
    else if not (is_trial old)
    then preserved
    else if not old.retirement_authorized
        || not (same_text row.observation.branch old.observation.branch)
    then blocked "BRANCH_RETIREMENT_NOT_AUTHORIZED"
    else archived

unfoldable pub judge_found : Option ReviewedRoot → Row → Verdict
unfolding judge
judge_found none row = blocked "UNREVIEWED_ROOT"
judge_found (some old) row =
    if row.unexpected_structure then blocked "UNREVIEWED_ROOT" else judge old row

-- `blockers`, `candidates` and `seen`.
pub record Review : Type 0 where
  pub blockers : List Blocker
  pub candidates : List Candidate
  pub seen : List Key

abbrev pub block : String → Key → Blocker
block code key = record { code = code; kind = some key.kind; id = some key.id }

-- `bool(row.get("dirty"))`
abbrev pub is_dirty : Option Bool → Bool
is_dirty (some b) = b
is_dirty none = false

unfoldable pub conclude : Verdict → Row → Review → Review
conclude (blocked code) row r = record r { blockers = r.blockers ++ (block code row.key ∷ []) }
conclude archived row r = record r {
  candidates =
      r.candidates ++ (record { key = row.key; dirty = is_dirty row.observation.dirty } ∷ []);
}
conclude preserved row r = r

unfoldable pub review_row : Manifest → Row → Review → Review
unfolding any conclude judge_found find_reviewed
review_row m row r =
    if any (same_key row.key) r.seen
    then conclude (blocked "DUPLICATE_ROOT") row r
    else conclude (judge_found (find_reviewed row.key m.reviewed_roots) row) row
        (record r { seen = row.key ∷ r.seen })

unfoldable pub review_rows : Manifest → List Row → Review → Review
unfolding review_row
review_rows m [] r = r
review_rows m (row ∷ rows) r = review_rows m rows (review_row m row r)

abbrev pub has_key : Key → ReviewedRoot → Bool
has_key key r = same_key key r.key

-- The blockers of `expected.keys() - seen`, one for each key.
unfoldable pub missing : List ReviewedRoot → List Key → List Blocker
unfolding any
missing [] seen = []
missing (r ∷ rs) seen =
    let rest = missing rs seen in
    if any (same_key r.key) seen || any (has_key r.key) rs
    then rest
    else block "REVIEWED_ROOT_MISSING" r.key ∷ rest

abbrev pub still_present : Resource → Blocker
still_present x = record {
  code = "OWNED_RUNTIME_STILL_PRESENT";
  kind = some x.kind;
  id = some x.owner;
}

abbrev general : String → Blocker
general code = record { code = code; kind = none; id = none }

-- The blockers that do not depend on a root; `active` counts the executions that have not ended.
abbrev pub first_blockers : Manifest → ℕ → String → List Blocker
first_blockers m active config_hash =
    (if active == 0 then [] else general "NON_TERMINAL_EXECUTION" ∷ [])
    ++ (if str_eq config_hash m.configuration_sha256
        then []
        else general "PROJECT_CONFIGURATION_MOVED" ∷ [])

abbrev or_empty : Option String → String
or_empty none = ""
or_empty (some s) = s

-- `<=` of pairs, where `rest` is `<=` of the second parts.
abbrev then_before : String → String → Bool → Bool
then_before a b rest = text_before (codes a) (codes b) && (not (str_eq a b) || rest)

abbrev pub blocker_before : Blocker → Blocker → Bool
blocker_before a b = then_before a.code b.code (
    then_before (or_empty a.kind) (or_empty b.kind)
      (text_before (codes (or_empty a.id)) (codes (or_empty b.id))))

abbrev pub candidate_before : Candidate → Candidate → Bool
candidate_before a b =
    then_before a.key.kind b.key.kind (text_before (codes a.key.id) (codes b.key.id))

pub data Readiness : Type 0 where
  blocked_plan ready_for_archive : Readiness

abbrev pub readiness : List Blocker → Readiness
readiness [] = Readiness.ready_for_archive
readiness (b ∷ bs) = Readiness.blocked_plan

-- The document that `plan` returns, without its constants.
pub record ArchivePlan : Type 0 where
  pub state : Readiness
  pub non_terminal_executions : ℕ
  pub archive_candidates : List Candidate
  pub blockers : List Blocker

abbrev pub no_review : List Blocker → Review
no_review bs = record { blockers = bs; candidates = []; seen = [] }

abbrev pub finish : Manifest → List Resource → ℕ → Review → ArchivePlan
finish m resources active r =
    let blockers = r.blockers ++ missing m.reviewed_roots r.seen ++ map still_present resources in
    record {
      state = readiness blockers;
      non_terminal_executions = active;
      archive_candidates = sorted candidate_before r.candidates;
      blockers = sorted blocker_before blockers;
    }

-- `plan`
unfoldable pub plan : Manifest → List Row → ℕ → List Resource → String → ArchivePlan
unfolding review_rows missing sorted text_before
plan m rows active resources config_hash =
    finish m resources active (review_rows m rows (no_review (first_blockers m active config_hash)))
