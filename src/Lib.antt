-- ===== src/Lib.antt =====
-- Models of the conversation core and of the agent runtime of connor-agent-core, a Rust workspace,
-- and the theorems about them.
--
-- A conversation is a journal of events. `ConversationKernel` decides each command: it loads the
-- journal, projects it into a state, checks the command against the state, and appends events.
-- `ConversationProjector` folds events into the state, from the beginning or from a snapshot.
-- `SliceBuilder` takes from the state the messages that an agent or a user is shown. Beside it, the
-- agent runtime keeps the runs that it carries out in a run store, in memory or over a file of JSON
-- lines, leases them to workers by a run queue, keeps the approvals that it waits for in an approval
-- queue, writes what a run does in a run journal, retries by a retry policy, and records the
-- outcomes of actions and the results of tool calls so that a restart does not repeat them.
--
-- The action runtime brings these together: it records a request in the conversation, asks the
-- capability policy, calls the executor if the policy allows or a person has approved, records what
-- came of it, and writes an audit event. The policy can be restricted by enterprise permissions, and
-- the audit log is a chain of hashes that can be verified, and mirrored to an enterprise sink.
--
-- Parts, files and source:
-- - Common, Common/*: tests on numbers and texts, lists, dictionaries (`BTreeMap` and `HashMap` with
--   text keys, in the order of the keys), and the interface to `serde_json` that the stores over
--   files use.
-- - Domain/*: the descriptors of crates/entity-core, artifact-core, surface-core and asset-core that
--   the kernel handles, and the action requests and results of crates/action-core.
-- - Conversation/Message, Lifecycle, Event, State: the data of crates/conversation-core/src and of
--   state.rs and snapshot.rs of crates/conversation-kernel/src, field by field.
-- - Conversation/Changes, Projector: `project`, `apply_event`, `snapshot`, `project_from_snapshot` of
--   crates/conversation-kernel/src/projector.rs. Its children prove what replay keeps.
-- - Conversation/Kernel: crates/conversation-kernel/src/kernel.rs and commands.rs. Checks holds the
--   `validate_…` methods; Messages, Resources, Runs and Actions hold one function for each command,
--   which gives the events that the command appends, or its error; Decide joins the 28 commands on an
--   existing conversation; Handle runs a command on a journal, with its loads and appends; Journal
--   holds the trait of crates/conversation-journal/src/lib.rs, with what an append that succeeds does
--   as its law, and the journal of memory.rs, which fulfils it.
-- - Conversation/JsonlJournal: crates/conversation-journal/src/jsonl.rs, the same trait over segment
--   files. The file itself is `verify` and `load`, Append is `append`; the others prove what a load
--   finds after appends, and that the journal fulfils the law on the stores that it alone has
--   written.
-- - Conversation/Slice: crates/conversation-kernel/src/slice_builder.rs.
-- - Runtime/RunStore: crates/agent-runtime/src/run_store.rs, in memory and over a file.
-- - Runtime/RunQueue: crates/agent-runtime/src/run_queue.rs.
-- - Runtime/ApprovalQueue: crates/agent-runtime/src/approval_queue.rs, in memory.
-- - Runtime/RunJournal: crates/agent-runtime/src/run_journal.rs, in memory, and its recovery report.
-- - Runtime/RetryPolicy: crates/agent-runtime/src/retry_policy.rs, from the class of an error on.
-- - Runtime/ToolLoop: crates/agent-runtime/src/tool_loop_checkpoint.rs.
-- - Runtime/ActionStore: crates/agent-runtime/src/action_store.rs, in memory.
-- - Runtime/ActionRuntime: crates/action-runtime/src/lib.rs, `process` and `execute_approved`.
-- - Runtime/Scheduler: crates/scheduler/src/lib.rs, `Scheduler` on its store in memory; the store of
--   jobs over a file and the bridge to notifications are not modelled.
-- - Policy/Permission: crates/enterprise-permission-core/src/lib.rs. Store is `PermissionStore`,
--   Organization the store with organizations, teams and groups, Server the store over a permission
--   server, whose provider is a function of the time.
-- - Policy/Capability: crates/capability-policy/src/lib.rs and approval_receipt.rs, with the side
--   effects and the registry of crates/action-core/src/lib.rs. Evaluate is `CapabilityPolicy`,
--   PolicyFile `PolicyFileDocument`, Receipt the approval receipts.
-- - Policy/DeviceTrust: crates/device-pairing-core/src/lib.rs, without the handshake messages.
-- - Audit: crates/audit-log/src/lib.rs. Integrity is the JSONL log and its hash chain, Mirror the log
--   that sends batches to an enterprise sink.
-- - The modules named Tests, JournalTests, RecoveryTests, ActionTests, SchedulerTests and DeviceTests:
--   concrete conversations, stores, policies, devices and logs.
--
-- How the models read the source: a method that takes a lock or `&mut self` is a function from the
-- state to the result and the state after it; an `Err`, a `bail!` or a `with_context` is a value with
-- what its message prints. `IdGenerator` and the clock are arguments: the identifiers that the
-- generator gives are a sequence, and each reading of the clock is an argument of its own. Times,
-- durations, ids and indices are natural numbers without an upper bound, since they stay far below
-- the range of their machine types, but for the saturating arithmetic of the retry policy and the sums
-- with a caller's `context_after` in the slice builder, whose bounds are written out; a difference
-- that the source saturates is the natural subtraction, which stops at 0. No loop needs fuel: each
-- runs over a list. A command of the kernel that answers the id of what it made answers nothing in the
-- model; the id is in the events. Where the source lists a `HashMap`, whose order is not specified,
-- the model lists the entries of its association list: so in the jobs of a poll and in the search for
-- the agent that sends a suggestion.
--
-- What is taken on trust: a line of JSON that `serde_json` wrote is read back as the same value and
-- is not blank (`JsonLines`), and a journal's append that succeeds puts the event at the end of its
-- conversation (`ConversationJournal`, which both journals are proved to fulfil). A line of the
-- journal over files is read back as its event and is not blank (`JournalCodec`). An audit envelope
-- that was written as a line is read back as that envelope and is not blank (`AuditCodec`); nothing is
-- assumed of SHA-256. A panic of the action runtime is a value that ends the call, as an error does. The
-- durations of a cache policy are taken to be at least 0, a timeout short enough to be added to a time.
-- The ids of conversations in the journal over files are taken to name directories of their own below
-- the root: the source joins them to its path as they are.
--
-- Not modelled: the files behind a policy (TOML), the queries and the export of the audit log, a
-- line of a conversation's journal that is written in part, the files under the approval
-- queue, the run journal and the action store, the search for phrases in the text of an error, the
-- run loop of crates/agent-runtime/src/lib.rs, and the other crates, whose models would be
-- independent of these files. Interleavings inside one operation of the run queue are left out.
pub mod Audit
pub mod Common
pub mod Conversation
pub mod Domain
pub mod Policy
pub mod Runtime
