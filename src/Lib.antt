-- ===== src/Lib.antt =====
-- The worker platform of this repository keeps its authority in small files: records of databases,
-- release plans, previews. Python programs read, check and replace these files under a lock. This
-- library models such programs as functions on the files and proves what they promise.
--
-- Parts and their files.
--
-- Prelude and its children hold what the parts share: Boolean tests, lists, dictionaries,
-- exceptions (Outcome: a `Result`, and an `Action` on a state whose effects stay after a raise),
-- the shapes of regular expressions that the sources use (Pattern) and Python's `sorted` (Sorting).
--
-- Database models `DatabaseRegistry` of ops/worker/database-lifecycle-state-v1.py. The state is
-- `Disk`: the record files and the snapshot directories by name. Names holds the compiled patterns,
-- Record the states, documents and errors, Validate the validation of documents; Registry defines
-- `create`, `read` and `transition`, Replace `prepare_replace` and `consume_replace`, and Snapshots
-- `register_snapshot`, `snapshots` (here `list_snapshots`), `retention_candidates` and `reconcile`.
-- Manifest defines `validate_database_manifest` with the help of Paths, Images and Entries; a
-- manifest is a JSON object (Prelude.Json), in which a number like 3.0 is the integer that it
-- equals. The other children prove: Components, Declared and Synthetic are about the manifest;
-- Validity, Reading and Writing carry the files' invariant of Soundness, Transitions, Consumption,
-- Preparation, Creation and Enrolment describe each operation on every branch, and Concurrency,
-- Answering, History, Changes, Replay, Seeding and Retention relate them. Timestamps are instants
-- in microseconds; where the source orders them as texts the order of the texts is kept
-- (`stamp_order`). SHA-256 is a parameter `digest`, of which only the form of its result is
-- assumed; random tokens and identities are arguments. A stored document of another shape than a
-- record's is `malformed`, and reading it raises PERSISTED_STATE_INVALID; bytes that are no UTF-8,
-- and values of another type, at which the source raises other errors, count as such.
--
-- Release models the executor of ops/release/release-control-v1.py: `_execute` and
-- `_execute_guarded` on the plan in memory. Plan holds the records, Platform what the controller is
-- given (targets, artifacts, locks: calls on a world outside that may answer anything and may
-- raise), Execution the steps with a log of the saves and effects. Protocol is the abstract
-- specification: the phases between the saves, and the events that lead from one to the next.
-- Triples and Progress describe the parts of an execution, Refinement and Completion the whole,
-- Disk what a restart reads, Budget and Restarts the sequences of lives in which the program stops
-- at any event. Saving a file does not fail in this model, and the exit of a guard does not raise.
-- Evidence is about the receipts. Requests models the request `accept` on the plans by identity,
-- with the plans whose execution it starts in a thread; Acceptance and Exclusion are about it.
-- Planning models the request `plan` (here `make_plan`) in the same way, and Steps sequences of
-- requests and executions, in which an execution is one step. The keys of a request are checked
-- before (`exact`), and its values are texts. Preparing models `_prepare` (here `prepare_plan`),
-- which a thread runs after a plan was filed: it waits for the artifact, 2700 seconds at most, with
-- a pause of ten between two attempts, so that 271 attempts are enough as its fuel; Waiting and
-- Staging are about it. Recovery models the start-up `recover`, which resumes the unfinished plans,
-- and Startup is about it. Artifacts and receipts have the keys that the controller reads (a
-- receipt without a commit, at which the source raises, is none here), and the directory of a new
-- plan does not exist before its file. The observations and the maintenance are not modelled.
--
-- Preview models `PreviewCoordinator` of ops/worker/session-preview-worker-v1.py. Its state is
-- `Coordinator`: the record files by directory, and the running forwarders by preview. Record holds
-- the documents, the errors and the settings, Request the checks of a request, from its JSON object
-- on (Prelude.Json), Allocation the derivation of a preview's port and path from the files of its
-- session. Store reads and writes the records, Listeners starts and stops forwarders and looks for
-- a port; Lifecycle defines `activate`, `inspect`, `renew`, `stop` and `delete_synthetic`, and
-- Sweep a pass of `_sweep` and `_reconcile_persisted`. An operation returns the record of which
-- `public_view` shows a part. The rest of the machine is the argument `Host`, which may answer
-- anything and differs from call to call. Soundness states the invariant, Changes, Preservation,
-- Listing and Invariant carry it through the operations, Expiry and History are about leases and
-- sequences of calls, and Stopping, Ports and Faults about single operations. A request, a pass of
-- the sweeper and the reconciliation read the clock once each, and writing a file does not fail; a
-- `record.json` with values of other types, which the source reads without an error, and one that
-- is no UTF-8 count as unreadable; the HTTP server and the relay of bytes are not modelled.
--
-- ChangeOnly models `plan` of ops/worker/change-only-resource-plan-v1.py, which decides whether the
-- workspaces of a retired change may be archived. Its input, what was observed of roots and
-- resources, is data here, and the constants of its result are left out. Plan defines it; Review is
-- about the loop over the rows, and Clearance about the whole.
--
-- Not modelled at all: the servers, runners and installers that drive Docker, git, systemd and the
-- network (the other programs of ops/worker and ops/release, and scripts), whose state is outside
-- of the repository.
pub mod Prelude
pub mod Database
pub mod Release
pub mod Preview
pub mod ChangeOnly
