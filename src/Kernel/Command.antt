-- ===== src/Kernel/Command.antt =====
-- `submit_command`: its guards, what each command changes, and the common end.
pub mod Effects
pub mod Values
use pantheon_legion.Base.{
  text_eq, ℕ, ◌+◌, String, ◌<>◌, Bool, true, false, Option, none, some, List, [], ◌∷◌, eqb, not,
  if◌then◌else◌,
}
use pantheon_legion.Base.Dict.{lookup}
use pantheon_legion.Base.Json.{
  Value, number, str, Fields, end, field, obj, canonical, merge, value_eq,
}
use pantheon_legion.Base.Text.{show}
use pantheon_legion.Kernel.Types.{
  Principal, Mission, CommandType, parse_command_type, CommandStatus, CommandResult, accepted,
  awaiting,
}
use pantheon_legion.Kernel.State.{
  World, Kernel, pair_eq, Exec, pure, gets, ◌>>=◌, ◌>>◌, uuid4, clock, or_uuid, get_mission,
  put_mission, put_command,
}
use pantheon_legion.Kernel.Rules.{authorize_command, validate_transition}
use pantheon_legion.Kernel.Payload.{payload_error}
use pantheon_legion.Kernel.Journal.{Entry, entry, record_event, reject, remember}
use pantheon_legion.Kernel.Command.Effects.{Change, refused, changed, apply_command}

-- The arguments of one call.
pub record Submission : Type 0 where
  pub mission_id : String
  pub actor : Principal
  pub expected_version : ℕ
  pub idempotency_key : String
  pub command_type : String
  pub payload : Value
  pub requested_by : Option Principal
  pub correlation_id : Option String

-- `requested_by or actor`
abbrev pub requester : Submission → Principal
requester s = elim s.requested_by [ none ↦ s.actor | some p ↦ p ]

-- `_fingerprint`, as the document that is printed
unfoldable pub fingerprint : Submission → Value
fingerprint s = canonical (
    obj (
      field "command_type" (str s.command_type) (
        field "payload" s.payload (
          field "requested_by" (str (requester s).subject) (
            field "actor" (str s.actor.subject)
              (field "expected_version" (number (show s.expected_version)) end))))))

abbrev pub key_of : Submission → String × String
key_of s = (s.mission_id, s.idempotency_key)

-- `"AWAITING_APPROVAL" if approval_id else "ACCEPTED"`
abbrev pub command_status : Option String → CommandStatus
command_status none = accepted
command_status (some id) = awaiting

-- The audit event of an accepted command.
abbrev pub accepted_entry :
    Submission → (correlation_id command_id event_type : String) → Fields → Entry
accepted_entry s correlation_id command_id event_type extra =
    record (entry event_type s.actor "SUCCESS" (
      merge
        (field "command_type" (str s.command_type)
          (field "requested_by" (str (requester s).subject) end))
        extra)) { correlation_id = some correlation_id; command_id = some command_id }

module _ (s : Submission) where
  abbrev pub version_message : Mission → String
  version_message m =
      "Mission version "
      <> show m.version
      <> " is current; command expected "
      <> show s.expected_version
      <> "."

  -- The guards in front of a command of a known type; `none` lets it pass.
  unfoldable pub guard_command : Mission → CommandType → Option (String × String)
  guard_command m c = elim (payload_error c s.payload) [
    | some e ↦ some (e, "Command payload does not match the Mission protocol.")
    | none ↦ elim (authorize_command s.actor c) [
      | some e ↦ some (e, "Actor is not authorized for this command.")
      | none ↦ elim (validate_transition m.status c) [
        | some e ↦ some (e, "Command is not valid for the current Mission state.")
        | none ↦ none
      ]
    ]
  ]

module _ (w : World) (s : Submission) where
  -- A refusal that is remembered under the idempotency key.
  unfoldable pub refuse :
      Mission → (correlation_id command_id error_code message : String) → Exec CommandResult
  refuse m correlation_id command_id error_code message = do
    result ← reject w m s.actor error_code message correlation_id (some command_id)
    remember (key_of s) (fingerprint s) result
    pure result

  -- The end of an accepted command: a new version, its audit event and its result.
  unfoldable pub accept :
      (correlation_id command_id event_type : String)
      → Option String
      → Fields
      → Mission
      → Exec CommandResult
  accept correlation_id command_id event_type approval_id extra m = do
    now ← clock w
    let next : Mission = record m { version = m.version + 1; updated_at = now }
    put_mission next
    record_event w next (accepted_entry s correlation_id command_id event_type extra)
    let result : CommandResult = record {
      command_id = command_id;
      status = command_status approval_id;
      mission_id = next.id;
      mission_version = next.version;
      error_code = none;
      message = none;
      approval_id = approval_id;
    }
    put_command result
    remember (key_of s) (fingerprint s) result
    pure result

  unfoldable pub conclude :
      Mission → (correlation_id command_id : String) → Change → Exec CommandResult
  conclude m correlation_id command_id (refused error_code message) =
      refuse m correlation_id command_id error_code message
  conclude m correlation_id command_id (changed next event_type approval_id extra) =
      accept correlation_id command_id event_type approval_id extra next

  -- The rest of the call for a command of a known type.
  unfoldable pub run_command :
      Mission → (correlation_id command_id : String) → CommandType → Exec CommandResult
  run_command m correlation_id command_id c = elim (guard_command s m c) [
    | some (error_code, message) ↦ refuse m correlation_id command_id error_code message
    | none ↦ do
      change ← apply_command w m s.actor (requester s) command_id c s.payload
      conclude m correlation_id command_id change
  ]

  -- The call once no earlier command has its idempotency key.
  unfoldable pub submit_new : Mission → String → Exec CommandResult
  submit_new m correlation_id = do
    command_id ← uuid4 w
    if not (eqb s.expected_version m.version)
        then refuse m correlation_id command_id "VERSION_CONFLICT" (version_message s m)
        else elim (parse_command_type s.command_type) [
          | none ↦
              refuse m correlation_id command_id "UNKNOWN_COMMAND_TYPE"
                "Command type is not supported by this Mission protocol."
          | some c ↦ run_command m correlation_id command_id c
        ]

  -- The call once an earlier command has its idempotency key.
  unfoldable pub submit_again : Mission → String → Value × CommandResult → Exec CommandResult
  submit_again m correlation_id prior =
      if value_eq prior.0 (fingerprint s)
      then pure prior.1
      else reject w m s.actor "IDEMPOTENCY_KEY_REUSE"
          "Idempotency key was used for a different command." correlation_id none

  -- What the entry under the idempotency key decides.
  unfoldable pub submit_either :
      Mission → String → Option (Value × CommandResult) → Exec CommandResult
  submit_either m correlation_id none = submit_new m correlation_id
  submit_either m correlation_id (some prior) = submit_again m correlation_id prior

  -- `submit_command`
  unfoldable pub submit_command : Exec CommandResult
  submit_command = do
    m ← get_mission s.mission_id
    correlation_id ← or_uuid w s.correlation_id
    existing ← gets (λ k. lookup (key_of s) k.idempotency)
    submit_either m correlation_id existing
