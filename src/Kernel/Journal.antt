-- ===== src/Kernel/Journal.antt =====
-- What every operation of the kernel writes with: the audit log, refusals, the memory of commands
-- and the expiry of approvals (`_record`, `_reject`, `_remember`, `_expire_approval_if_needed`).
pub mod Step
use pantheon_legion.Base.{
  text_eq, ℕ, ◌+◌, String, Bool, true, false, Option, none, some, List, [], ◌∷◌, ◌++◌,
  if◌then◌else◌, not,
}
use pantheon_legion.Base.Dict.{lookup, insert}
use pantheon_legion.Base.Json.{Value, null, str, Fields, end, field}
use pantheon_legion.Base.Lists.{length}
use pantheon_legion.Base.Text.{is_empty, text_lt}
use pantheon_legion.Kernel.Types.{
  Principal, system, Approval, ApprovalStatus, pending, approved, expired, AuditEvent, Mission,
  CommandResult, rejected,
}
use pantheon_legion.Kernel.State.{
  World, Kernel, pair_eq, key_error, ok, raised, Exec, pure, gets, or_raise, modify, ◌>>=◌, ◌>>◌,
  uuid4, clock, or_uuid, put_approval, put_command,
}

-- The arguments of one call of `_record` behind its Mission. No call gives a causation.
pub record Entry : Type 0 where
  pub event_type : String
  pub actor : Principal
  pub result : String
  pub correlation_id : Option String
  pub command_id : Option String
  pub approval_id : Option String
  pub details : Fields

-- A call that gives none of the three ids.
abbrev pub entry : String → Principal → String → Fields → Entry
entry event_type actor result details = record {
  event_type = event_type;
  actor = actor;
  result = result;
  correlation_id = none;
  command_id = none;
  approval_id = none;
  details = details;
}

abbrev pub one : String → Value → Fields
one k v = field k v end

-- A text or `None`, as a JSON value
abbrev pub str_or_null : Option String → Value
str_or_null none = null
str_or_null (some s) = str s

-- The statuses in which an approval still can be used.
abbrev pub is_open : ApprovalStatus → Bool
is_open pending = true
is_open approved = true
is_open _ = false

abbrev pub is_expired : ApprovalStatus → Bool
is_expired expired = true
is_expired _ = false

-- `invalidation_reason or "EXPIRY"`
abbrev reason_or_expiry : Option String → String
reason_or_expiry none = "EXPIRY"
reason_or_expiry (some s) = if is_empty s then "EXPIRY" else s

-- `events.append(event)`, for the list that stands in the audit dict at the Mission.
unfoldable pub append_event : String → AuditEvent → Exec (Unit {0})
append_event id event k = elim (lookup id k.audit) [
  | none ↦ (raised (key_error id), k)
  | some events ↦ (ok tt, record k { audit = insert id (events ++ event ∷ []) k.audit })
]

module _ (w : World) where
  -- `_record`
  unfoldable pub record_event : Mission → Entry → Exec AuditEvent
  record_event m e = do
    events ← gets (λ k. lookup m.id k.audit)
    earlier ← or_raise events (key_error m.id)
    id ← uuid4 w
    occurred_at ← clock w
    correlation_id ← or_uuid w e.correlation_id
    let event : AuditEvent = record {
      id = id;
      sequence = length earlier + 1;
      mission_id = m.id;
      mission_version = m.version;
      event_type = e.event_type;
      occurred_at = occurred_at;
      actor = e.actor;
      result = e.result;
      correlation_id = correlation_id;
      command_id = e.command_id;
      approval_id = e.approval_id;
      causation_id = none;
      details = e.details;
    }
    append_event m.id event
    pure event

  -- `_reject`
  unfoldable pub reject :
      Mission
      → Principal
      → (error_code message correlation_id : String) → (command_id : Option String)
      → Exec CommandResult
  reject m actor error_code message correlation_id command_id = do
    record_event m (record {
      event_type = "COMMAND_REJECTED";
      actor = actor;
      result = "REJECTED";
      correlation_id = some correlation_id;
      command_id = command_id;
      approval_id = none;
      details = field "error_code" (str error_code) (one "message" (str message));
    })
    id ← or_uuid w command_id
    let result : CommandResult = record {
      command_id = id;
      status = rejected;
      mission_id = m.id;
      mission_version = m.version;
      error_code = some error_code;
      message = some message;
      approval_id = none;
    }
    put_command result
    pure result

  -- `not approval.expires_at or self.clock() < approval.expires_at`
  unfoldable pub not_yet_due : Option String → Exec Bool
  not_yet_due none = pure true
  not_yet_due (some due) =
      if is_empty due then pure true else do now ← clock w; pure (text_lt now due)

  -- The first test: an invalidation does not look at the time.
  unfoldable pub stays_valid : Approval → Option String → Exec Bool
  stays_valid a none = not_yet_due a.expires_at
  stays_valid a (some reason) = pure false

  -- The writes that expire an open approval.
  unfoldable pub expire : Mission → Approval → Option String → Exec Bool
  expire m a reason = do
    put_approval (record a { status = expired })
    record_event m
        (record (entry "APPROVAL_EXPIRED"
          (record { type = system; subject = "approval-expiry"; roles = [] }) "SUCCESS"
          (field "expires_at" (str_or_null a.expires_at)
            (one "invalidation_reason" (str (reason_or_expiry reason))))) {
              approval_id = some a.id;
            })
    pure true

  -- `_expire_approval_if_needed`
  unfoldable pub expire_approval_if_needed : Mission → Approval → Option String → Exec Bool
  expire_approval_if_needed m a reason = do
    valid ← stays_valid a reason
    if valid
        then pure false
        else if not (is_open a.status)
        then pure (is_expired a.status)
        else expire m a reason

-- `_remember`
unfoldable pub remember : String × String → Value → CommandResult → Exec (Unit {0})
remember key fingerprint result =
    modify (λ k. record k { idempotency = insert key (fingerprint, result) k.idempotency })
