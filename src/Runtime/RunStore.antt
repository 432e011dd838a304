-- ===== src/Runtime/RunStore.antt =====
-- The run store: crates/agent-runtime/src/run_store.rs. A mutex is held for a whole operation, so
-- each is one step. The time that `Utc::now()` gives is an argument.
pub mod Transitions
pub mod Durable
pub mod Valid
use connor_agent_core.Common.{
  ℕ, String, Bool, true, false, Option, none, some, List, [], ◌∷◌, ◌++◌, if◌then◌else◌,
}
use connor_agent_core.Common.Dict.{Dict, get, contains, insert, values}
use connor_agent_core.Common.JsonLines.{JsonLines}
use connor_agent_core.Domain.Descriptors.{Time}

pub data DurableAgentRunStatus : Type 0 where
  queued running waiting_for_approval completed failed cancelled timed_out : DurableAgentRunStatus

-- `DurableAgentRunStatus::is_terminal`
abbrev pub is_terminal : DurableAgentRunStatus → Bool
is_terminal completed = true
is_terminal failed = true
is_terminal cancelled = true
is_terminal timed_out = true
is_terminal _ = false

-- the derived `==`
abbrev pub status_eq : DurableAgentRunStatus → DurableAgentRunStatus → Bool
status_eq queued queued = true
status_eq running running = true
status_eq waiting_for_approval waiting_for_approval = true
status_eq completed completed = true
status_eq failed failed = true
status_eq cancelled cancelled = true
status_eq timed_out timed_out = true
status_eq _ _ = false

pub record AgentRunRecord : Type 0 where
  pub run_id : String
  pub conversation_id : String
  pub trigger_message_id : String
  pub requested_by : String
  pub status : DurableAgentRunStatus
  pub created_at : Time
  pub updated_at : Time
  pub error_message : Option String

pub data AgentRunStoreError : Type 0 where
  not_found already_exists : String → AgentRunStoreError
  invalid_transition : String → (from to : DurableAgentRunStatus) → AgentRunStoreError
  io json : AgentRunStoreError

pub data StoreResult {ℓ} (A : Type ℓ) : Type ℓ where
  ok : A → StoreResult A
  err : AgentRunStoreError → StoreResult A

-- the `matches!` of `is_valid_transition`
abbrev pub listed_transition : DurableAgentRunStatus → DurableAgentRunStatus → Bool
listed_transition queued running = true
listed_transition queued cancelled = true
listed_transition queued timed_out = true
listed_transition running queued = true
listed_transition running waiting_for_approval = true
listed_transition running completed = true
listed_transition running failed = true
listed_transition running cancelled = true
listed_transition running timed_out = true
listed_transition waiting_for_approval running = true
listed_transition waiting_for_approval cancelled = true
listed_transition waiting_for_approval timed_out = true
listed_transition _ _ = false

-- `is_valid_transition`
unfoldable pub is_valid_transition : DurableAgentRunStatus → DurableAgentRunStatus → Bool
is_valid_transition from to =
    if status_eq from to
    then true
    else if is_terminal from
    then false
    else listed_transition from to

-- `transition_record`
unfoldable pub transition_record :
    AgentRunRecord → DurableAgentRunStatus → Time → StoreResult AgentRunRecord
transition_record r to now =
    if is_valid_transition r.status to
    then ok (record r { status = to; updated_at = now })
    else err (invalid_transition r.run_id r.status to)

abbrev pub MemoryAgentRunStore : Type 0
MemoryAgentRunStore = Dict AgentRunRecord

-- `insert` of the in-memory store
unfoldable pub memory_insert :
    AgentRunRecord → MemoryAgentRunStore → StoreResult (Unit {0}) × MemoryAgentRunStore
memory_insert r m =
    if contains r.run_id m then (err (already_exists r.run_id), m) else (ok tt, insert r.run_id r m)

-- `list`
abbrev pub memory_list : MemoryAgentRunStore → List AgentRunRecord
memory_list = values

-- what `transition` writes back, where the record was found
unfoldable pub write_back :
    String
    → MemoryAgentRunStore
    → StoreResult AgentRunRecord
    → StoreResult AgentRunRecord × MemoryAgentRunStore
write_back run_id m (ok r) = (ok r, insert run_id r m)
write_back run_id m (err e) = (err e, m)

-- `transition`, after `get_mut`
unfoldable pub transition_found :
    String
    → DurableAgentRunStatus
    → Time
    → MemoryAgentRunStore
    → Option AgentRunRecord
    → StoreResult AgentRunRecord × MemoryAgentRunStore
unfolding transition_record write_back
transition_found run_id to now m none = (err (not_found run_id), m)
transition_found run_id to now m (some r) = write_back run_id m (transition_record r to now)

-- `transition`
unfoldable pub memory_transition :
    String
    → DurableAgentRunStatus
    → Time
    → MemoryAgentRunStore
    → StoreResult AgentRunRecord × MemoryAgentRunStore
unfolding transition_found
memory_transition run_id to now m = transition_found run_id to now m (get run_id m)

-- The store over a file: the records in memory, and the lines of the file.
pub record JsonlAgentRunStore (J : JsonLines AgentRunRecord) : Type 0 where
  pub records : MemoryAgentRunStore
  pub lines : List J.Line

module _ (J : JsonLines AgentRunRecord) where
  -- the loop of `open` over the lines of the file
  unfoldable pub load_lines : List J.Line → MemoryAgentRunStore → StoreResult MemoryAgentRunStore
  load_lines [] m = ok m
  load_lines (l ∷ ls) m =
      if J.is_blank l
      then load_lines ls m
      else elim (J.decode l) [ none ↦ err json | some r ↦ load_lines ls (insert r.run_id r m) ]

  -- `Ok(Self { path, records })`, unless a line could not be read
  unfoldable pub opened :
      List J.Line → StoreResult MemoryAgentRunStore → StoreResult (JsonlAgentRunStore J)
  opened lines (err e) = err e
  opened lines (ok m) = ok (record { records = m; lines = lines })

  -- `open`, of a file with these lines
  unfoldable pub open_store : List J.Line → StoreResult (JsonlAgentRunStore J)
  unfolding opened
  open_store lines = opened lines (load_lines lines [])

  -- `append_record`; the flag says whether the file system takes the line
  unfoldable pub append_record :
      Bool → AgentRunRecord → JsonlAgentRunStore J → StoreResult (Unit {0}) × JsonlAgentRunStore J
  append_record true r s = (ok tt, record s { lines = s.lines ++ J.encode r ∷ [] })
  append_record false r s = (err io, s)

  -- `self.append_record(&record).await` after the memory has taken the record
  unfoldable pub append_inserted :
      Bool
      → AgentRunRecord
      → JsonlAgentRunStore J
      → StoreResult (Unit {0}) × MemoryAgentRunStore
      → StoreResult (Unit {0}) × JsonlAgentRunStore J
  unfolding append_record
  append_inserted disk r s (err e, m) = (err e, record s { records = m })
  append_inserted disk r s (ok u, m) = append_record disk r (record s { records = m })

  -- `insert`
  unfoldable pub jsonl_insert :
      Bool → AgentRunRecord → JsonlAgentRunStore J → StoreResult (Unit {0}) × JsonlAgentRunStore J
  unfolding append_inserted
  jsonl_insert disk r s = append_inserted disk r s (memory_insert r s.records)

  -- `self.append_record(&record).await?; Ok(record)` after the memory has moved the record
  unfoldable pub append_moved :
      Bool
      → JsonlAgentRunStore J
      → StoreResult AgentRunRecord × MemoryAgentRunStore
      → StoreResult AgentRunRecord × JsonlAgentRunStore J
  unfolding append_record
  append_moved disk s (err e, m) = (err e, record s { records = m })
  append_moved disk s (ok r, m) =
      let (result, after) = append_record disk r (record s { records = m }) in
      elim result [ err e ↦ (err e, after) | ok _ ↦ (ok r, after) ]

  -- `transition`
  unfoldable pub jsonl_transition :
      Bool
      → String
      → DurableAgentRunStatus
      → Time
      → JsonlAgentRunStore J
      → StoreResult AgentRunRecord × JsonlAgentRunStore J
  unfolding append_moved
  jsonl_transition disk run_id to now s =
      append_moved disk s (memory_transition run_id to now s.records)
