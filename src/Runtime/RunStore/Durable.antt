-- ===== src/Runtime/RunStore/Durable.antt =====
-- Calls of the run store over a file, and what `open` finds afterwards:
-- crates/agent-runtime/src/run_store.rs.
use connor_agent_core.Common.{
  String, ◌≡◌, refl, Bool, true, false, none, some, Option, arith, List, [], ◌∷◌, ◌++◌, ap, sym,
  eq_self, if_rule, subst,
}
use connor_agent_core.Common.Dict.{
  get, get_nil, get-insert, insert, contains, Entries, insert-Entries,
}
use connor_agent_core.Common.JsonLines.{JsonLines}
use connor_agent_core.Domain.Descriptors.{Time}
use connor_agent_core.Runtime.RunStore.{
  DurableAgentRunStatus, AgentRunRecord, MemoryAgentRunStore, is_terminal, transition_record, ok,
  err, memory_transition, memory_insert, JsonlAgentRunStore, load_lines, open_store, opened,
  append_record, append_inserted, append_moved, is_valid_transition, jsonl_insert, jsonl_transition,
  io, write_back, transition_found,
}
use connor_agent_core.Runtime.RunStore.Transitions.{
  status_of, memory_insert-keeps_status, memory_transition-keeps_status,
}

-- A call, with whether the file system takes the line it writes.
pub data StoreCall : Type 0 where
  insert_call : Bool → AgentRunRecord → StoreCall
  transition_call : Bool → String → DurableAgentRunStatus → Time → StoreCall

-- The file system takes the line of the call.
abbrev pub IsWritten : StoreCall → Type 0
IsWritten (insert_call disk _) = disk ≡ true
IsWritten (transition_call disk _ _ _) = disk ≡ true

abbrev pub AreWritten : List StoreCall → Type 0
AreWritten [] = Unit
AreWritten (c ∷ cs) = IsWritten c × AreWritten cs

module _ (J : JsonLines AgentRunRecord) where
  unfoldable pub store_after : StoreCall → JsonlAgentRunStore J → JsonlAgentRunStore J
  unfolding jsonl_insert jsonl_transition
  store_after (insert_call disk r) s = (jsonl_insert J disk r s).1
  store_after (transition_call disk k to now) s = (jsonl_transition J disk k to now s).1

  unfoldable pub run_calls : List StoreCall → JsonlAgentRunStore J → JsonlAgentRunStore J
  unfolding store_after
  run_calls [] s = s
  run_calls (c ∷ cs) s = run_calls cs (store_after c s)

  after-keeps_status :
      (k : String) (status : DurableAgentRunStatus) (c : StoreCall) (s : JsonlAgentRunStore J)
      → is_terminal status ≡ true
      → status_of k s.records ≡ some status
      → status_of k (store_after c s).records ≡ some status
  unfolding store_after jsonl_insert jsonl_transition append_record
  after-keeps_status k status (insert_call disk r) s terminal h =
      ground (arith, memory_insert-keeps_status k status r s.records h)
  after-keeps_status k status (transition_call disk j to now) s terminal h =
      ground (arith, memory_transition-keeps_status k j status to now s.records terminal h)

  -- Whatever calls follow, and whichever of their writes fail, a run that is in a terminal status
  -- stays in that status.
  terminal_record_final :
      (k : String) (status : DurableAgentRunStatus) (cs : List StoreCall) (s : JsonlAgentRunStore J)
      → is_terminal status ≡ true
      → status_of k s.records ≡ some status
      → status_of k (run_calls cs s).records ≡ some status
  unfolding run_calls
  terminal_record_final k status [] s terminal h = h
  terminal_record_final k status (c ∷ cs) s terminal h =
      terminal_record_final k status cs (store_after c s) terminal
        (after-keeps_status k status c s terminal h)

  load_lines-append :
      (ls : List J.Line) (r : AgentRunRecord) (m n : MemoryAgentRunStore)
      → load_lines J ls m ≡ ok n
      → load_lines J (ls ++ J.encode r ∷ []) m ≡ ok (insert r.run_id r n)
  unfolding load_lines
  load_lines-append [] r m n h = ground (arith, J.encode-is_blank r, J.decode-encode r)
  load_lines-append (l ∷ ls) r m n h =
      let rest = (λ (m' : MemoryAgentRunStore). load_lines-append ls r m' n) in grind (arith, rest)

  -- Each record is under its own id, and the file holds what the memory does.
  pub record IsDurable (s : JsonlAgentRunStore J) : Type 0 where
    pub keyed : Entries (λ k r. r.run_id ≡ k) s.records
    pub saved : load_lines J s.lines [] ≡ ok s.records

  abbrev pub empty_store : JsonlAgentRunStore J
  empty_store = record { records = []; lines = [] }

  empty-IsDurable : IsDurable empty_store
  unfolding load_lines
  empty-IsDurable = record {
    keyed = λ k r e. ground (arith, get_nil {V = AgentRunRecord} k);
    saved = refl;
  }

  -- A write of `r` under its own id, taken by the file.
  written-IsDurable :
      (r : AgentRunRecord) (s : JsonlAgentRunStore J)
      → IsDurable s
      → IsDurable
          (record { records = insert r.run_id r s.records; lines = s.lines ++ J.encode r ∷ [] })
  written-IsDurable r s h = record {
    keyed = insert-Entries r.run_id r s.records refl h.keyed;
    saved = load_lines-append s.lines r [] s.records h.saved;
  }

  insert-IsDurable :
      (r : AgentRunRecord) (s : JsonlAgentRunStore J)
      → IsDurable s
      → IsDurable (jsonl_insert J true r s).1
  unfolding jsonl_insert memory_insert append_inserted append_record
  insert-IsDurable r s h =
      if_rule (λ o. IsDurable (append_inserted J true r s o).1) (contains r.run_id s.records) h
        (written-IsDurable r s h)

  found-IsDurable :
      (k : String) (to : DurableAgentRunStatus) (now : Time) (s : JsonlAgentRunStore J)
      → IsDurable s
      → (o : Option AgentRunRecord) → get k s.records ≡ o
      → IsDurable (append_moved J true s (transition_found k to now s.records o)).1
  unfolding append_moved transition_found transition_record write_back append_record
  found-IsDurable k to now s h none e = h
  found-IsDurable k to now s h (some r) e =
      let moved : AgentRunRecord = record r { status = to; updated_at = now } in
      if_rule (λ o. IsDurable (append_moved J true s (write_back k s.records o)).1)
        (is_valid_transition r.status to)
        (subst
          (λ j.
            IsDurable (record {
              records = insert j moved s.records;
              lines = s.lines ++ J.encode moved ∷ [];
            }))
          (h.keyed k r e) (written-IsDurable moved s h))
        h

  after-IsDurable :
      (c : StoreCall) (s : JsonlAgentRunStore J)
      → IsWritten c
      → IsDurable s
      → IsDurable (store_after c s)
  unfolding store_after jsonl_transition memory_transition
  after-IsDurable (insert_call disk r) s w h =
      subst (λ b. IsDurable (jsonl_insert J b r s).1) (sym w) (insert-IsDurable r s h)
  after-IsDurable (transition_call disk k to now) s w h =
      subst (λ b. IsDurable (jsonl_transition J b k to now s).1) (sym w)
        (found-IsDurable k to now s h (get k s.records) refl)

  calls-IsDurable :
      (cs : List StoreCall) (s : JsonlAgentRunStore J)
      → AreWritten cs
      → IsDurable s
      → IsDurable (run_calls cs s)
  unfolding run_calls
  calls-IsDurable [] s w h = h
  calls-IsDurable (c ∷ cs) s w h =
      calls-IsDurable cs (store_after c s) w.1 (after-IsDurable c s w.0 h)

  -- After any calls on a new store whose writes the file takes, `open` on the lines of the file
  -- gives the store as it is.
  pub open_store-run_calls :
      (cs : List StoreCall)
      → AreWritten cs
      → open_store J (run_calls cs empty_store).lines ≡ ok (run_calls cs empty_store)
  unfolding open_store opened
  open_store-run_calls cs w =
      let s = run_calls cs empty_store in
      let h = calls-IsDurable cs empty_store w empty-IsDurable in ap (opened J s.lines) (h.saved)

  -- Where the id of a record is new and the file does not take its line, `insert` reports an error,
  -- but the memory holds the record from then on, and the lines of the file are as they were.
  insert-refused :
      (r : AgentRunRecord) (s : JsonlAgentRunStore J)
      → contains r.run_id s.records ≡ false
      → ((jsonl_insert J false r s).0 ≡ err io)
        × (get r.run_id (jsonl_insert J false r s).1.records ≡ some r)
        × ((jsonl_insert J false r s).1.lines ≡ s.lines)
  unfolding jsonl_insert memory_insert append_inserted append_record
  insert-refused r s h = grind (arith, get-insert r.run_id r.run_id r s.records, eq_self r.run_id)
