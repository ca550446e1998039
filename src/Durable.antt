-- ===== src/Durable.antt =====
-- The durable execution adapter (legion_runtime/durable.py): the records of executions and the
-- operations of `InMemoryDurableExecutionAdapter`. A record that comes back is a copy, so that it
-- is a value here; the adapter's own records are those of the store.
pub mod Lifecycle
pub mod Steps
pub mod Reuse
pub mod Snapshot
mod Tests
pub mod Records
use pantheon_legion.Base.{
  text_eq, ℕ, ◌+◌, String, Bool, true, false, ◌&&◌, ◌||◌, not, Option, none, some, List, [], ◌∷◌,
  ◌==◌, if◌then◌else◌,
}
use pantheon_legion.Base.Dict.{Dict, lookup, insert}
use pantheon_legion.Base.Json.{
  Value, str, arr, obj, Items, no_items, item, Fields, end, field, get, put, value_eq, canonical,
}
use pantheon_legion.Base.Text.{is_empty}
use pantheon_legion.Kernel.State.{pair_eq}
use pantheon_legion.Durable.Records.{
  ExecutionState, state_value, state_in, ExecutionRecord, Sources, Store, Failure, Outcome,
  Operation, fail_with, with_record, same_input, transition_error, or_fail, signal_transition,
  append_item, append_signal, signal_value, starting, running, paused, waiting, cancelling,
  cancelled, completed, failed, unknown_execution, unknown_key, value_error, attribute_error,
  returned, failed_with,
}

module _ (w : Sources) where
  -- The store in which `r` is written with the next reading of the clock as `updated_at`.
  abbrev touched : ExecutionRecord → Store → ExecutionRecord
  touched r st = record r { updated_at = w.now st.nows }

  unfoldable pub write : ExecutionRecord → Operation ExecutionRecord
  write r st = (
    returned (touched r st),
    record st { records = insert r.execution_id (touched r st) st.records; nows = st.nows + 1 },
  )

  -- The record of a new execution
  unfoldable pub new_record :
      (mission_id command_id idempotency_key : String) → Fields → Store → ExecutionRecord
  new_record mission_id command_id idempotency_key input st = record {
    execution_id = w.uuid st.uuids;
    mission_id = mission_id;
    command_id = command_id;
    idempotency_key = idempotency_key;
    state = running;
    attempt = 1;
    input = input;
    created_at = w.now st.nows;
    updated_at = w.now st.nows;
    result = none;
    failure = none;
  }

  unfoldable pub create :
      (mission_id command_id idempotency_key : String) → Fields → Operation ExecutionRecord
  create mission_id command_id idempotency_key input st =
      let r : ExecutionRecord = new_record mission_id command_id idempotency_key input st in
      (
        returned r,
        record st {
          records = insert r.execution_id r st.records;
          by_idempotency = insert (mission_id, idempotency_key) r.execution_id st.by_idempotency;
          uuids = st.uuids + 1;
          nows = st.nows + 1;
        },
      )

  -- The key is known: the same execution, or a reuse of the key.
  unfoldable pub start_again :
      (command_id : String) → Fields → (existing_id : String) → Operation ExecutionRecord
  start_again command_id input existing_id st = elim (lookup existing_id st.records) [
    | none ↦ (failed_with (unknown_key existing_id), st)
    | some existing ↦
        if not (existing.command_id == command_id) || not (same_input existing.input input)
        then (failed_with (value_error "EXECUTION_IDEMPOTENCY_KEY_REUSE"), st)
        else (returned existing, st)
  ]

  -- `start`
  unfoldable pub start :
      (mission_id command_id idempotency_key : String) → Fields → Operation ExecutionRecord
  start mission_id command_id idempotency_key input st =
      elim (lookup (mission_id, idempotency_key) st.by_idempotency) [
        | none ↦ create mission_id command_id idempotency_key input st
        | some existing_id ↦
            if is_empty existing_id
            then create mission_id command_id idempotency_key input st
            else start_again command_id input existing_id st
      ]

  -- `query`
  unfoldable pub query : String → Operation ExecutionRecord
  query id = with_record id (λ r st. (returned r, st))

  -- `if payload: …`, behind the writes of the state
  unfoldable pub attach_payload :
      (name : String) → Option Fields → ExecutionRecord → Operation ExecutionRecord
  attach_payload name none r st = (returned r, st)
  attach_payload name (some end) r st = (returned r, st)
  attach_payload name (some (field j v payload)) r st =
      elim (append_signal r.input (signal_value name (field j v payload))) [
        | none ↦ (failed_with (attribute_error "append"), st)
        | some input ↦ (
          returned (record r { input = input }),
          record st { records = insert r.execution_id (record r { input = input }) st.records },
        )
      ]

  -- The store behind `write`, and the record that it wrote
  unfoldable pub move :
      (name : String) → Option Fields → ExecutionState → ExecutionRecord → Operation ExecutionRecord
  move name payload next r st =
      let moved : ExecutionRecord = record r { state = next } in
      attach_payload name payload (touched moved st) (write moved st).1

  -- `signal`
  unfoldable pub signal : String → (name : String) → Option Fields → Operation ExecutionRecord
  signal id name payload = with_record id (λ r. elim (signal_transition name) [
    | none ↦ fail_with (value_error "UNKNOWN_EXECUTION_SIGNAL")
    | some (allowed_states, next) ↦
        or_fail (transition_error r allowed_states) (move name payload next r)
  ])

  -- `cancel`
  unfoldable pub cancel : String → (reason : String) → Operation ExecutionRecord
  cancel id reason = with_record id (λ r st.
      if state_in r.state (cancelled ∷ completed ∷ [])
      then (returned r, st)
      else write (record r { state = cancelled; failure = some reason }) st)

  -- `recover`
  unfoldable pub recover : String → Operation ExecutionRecord
  recover id = with_record id (λ r st.
      if state_in r.state (cancelled ∷ completed ∷ [])
      then (returned r, st)
      else if state_in r.state (paused ∷ waiting ∷ [])
      then (returned r, st)
      else write (record r { attempt = r.attempt + 1; state = running }) st)

  -- `complete`
  unfoldable pub complete : String → (result : Fields) → Operation ExecutionRecord
  complete id result = with_record id (λ r st.
      if state_in r.state (completed ∷ [])
      then (returned r, st)
      else or_fail (transition_error r (running ∷ []))
          (write (record r { state = completed; result = some result })) st)

  -- `fail`
  unfoldable pub fail : String → (reason : String) → Operation ExecutionRecord
  fail id reason = with_record id (λ r.
      or_fail (transition_error r (running ∷ []))
        (write (record r { state = failed; failure = some reason })))
