-- ===== src/Durable/Records.antt =====
-- The records of executions, the store, and what the operations read of them.
use pantheon_legion.Base.{
  text_eq, ℕ, String, Bool, false, ◌||◌, not, Option, none, some, List, [], ◌∷◌, ◌==◌,
  if◌then◌else◌,
}
use pantheon_legion.Base.Dict.{Dict, lookup}
use pantheon_legion.Base.Json.{
  Value, str, arr, obj, Items, no_items, item, Fields, end, field, get, put, value_eq, canonical,
}
use pantheon_legion.Kernel.State.{pair_eq}

pub data ExecutionState : Type 0 where
  starting running paused waiting cancelling cancelled completed failed : ExecutionState

-- `state.value`
abbrev pub state_value : ExecutionState → String
state_value starting = "STARTING"
state_value running = "RUNNING"
state_value paused = "PAUSED"
state_value waiting = "WAITING"
state_value cancelling = "CANCELLING"
state_value cancelled = "CANCELLED"
state_value completed = "COMPLETED"
state_value failed = "FAILED"

-- `state in {…}`
abbrev pub state_in : ExecutionState → List ExecutionState → Bool
state_in s [] = false
state_in s (t ∷ ts) = state_value s == state_value t || state_in s ts

pub record ExecutionRecord : Type 0 where
  pub execution_id : String
  pub mission_id : String
  pub command_id : String
  pub idempotency_key : String
  pub state : ExecutionState
  pub attempt : ℕ
  pub input : Fields
  pub created_at : String
  pub updated_at : String
  pub result : Option Fields
  pub failure : Option String

-- What the adapter does not implement: the n-th text of `uuid4` and the n-th reading of `_now`.
pub record Sources : Type 0 where
  pub uuid : ℕ → String
  pub now : ℕ → String

-- The two dicts of the adapter, and how often each source was read.
pub record Store : Type 0 where
  pub records : Dict String ExecutionRecord
  pub by_idempotency : Dict (String × String) String
  pub uuids : ℕ
  pub nows : ℕ

pub data Failure : Type 0 where
  unknown_execution unknown_key value_error attribute_error : String → Failure

pub data Outcome {ℓ} (A : Type ℓ) : Type ℓ where
  returned : A → Outcome A
  failed_with : Failure → Outcome A

-- An operation returns or raises, and leaves a store either way.
abbrev pub Operation : Type 0 → Type 0
Operation A = Store → Outcome A × Store

abbrev pub fail_with : {A : Type 0} → Failure → Operation A
fail_with e st = (failed_with e, st)

-- `_record`
unfoldable pub with_record : {A : Type 0} → String → (ExecutionRecord → Operation A) → Operation A
with_record id f st = elim (lookup id st.records) [
  | none ↦ (failed_with (unknown_execution id), st)
  | some r ↦ f r st
]

-- `==` of two dicts, which the order of the keys does not change. Numbers are compared by their
-- text: 1, 1.0 and True, which Python equates, are kept apart.
unfoldable pub same_input : Fields → Fields → Bool
same_input a b = value_eq (canonical (obj a)) (canonical (obj b))

-- `_require_transition`
unfoldable pub transition_error :
    ExecutionRecord → (allowed_states : List ExecutionState) → Option String
transition_error r allowed_states =
    if state_in r.state (cancelled ∷ completed ∷ [])
    then some "EXECUTION_TERMINAL"
    else if not (state_in r.state allowed_states)
    then some "INVALID_EXECUTION_TRANSITION"
    else none

abbrev pub or_fail : {A : Type 0} → Option String → Operation A → Operation A
or_fail none next = next
or_fail (some e) next = fail_with (value_error e)

-- `transitions[name]`
unfoldable pub signal_transition : String → Option (List ExecutionState × ExecutionState)
signal_transition name =
    if name == "PAUSE"
    then some (running ∷ waiting ∷ [], paused)
    else if name == "RESUME"
    then some (paused ∷ waiting ∷ [], running)
    else if name == "WAIT"
    then some (running ∷ [], waiting)
    else none

-- `items.append(value)`
abbrev pub append_item : Items → Value → Items
append_item no_items v = item v no_items
append_item (item u us) v = item u (append_item us v)

-- `input.setdefault("signals", []).append(signal)`; `none` is an entry that is no list.
unfoldable pub append_signal : Fields → Value → Option Fields
append_signal input signal = elim (get input "signals") [
  | none ↦ some (put "signals" (arr (item signal no_items)) input)
  | some (arr signals) ↦ some (put "signals" (arr (append_item signals signal)) input)
  | some _ ↦ none
]

abbrev pub signal_value : String → Fields → Value
signal_value name payload = obj (field "name" (str name) (field "payload" (obj payload) end))
