-- ===== src/Kernel/Facts.antt =====
-- The reads, and the operations that only append a fact to the audit log.
use pantheon_legion.Base.{
  text_eq, String, not, Option, none, some, List, [], ◌∷◌, ◌==◌, if◌then◌else◌, contains,
}
use pantheon_legion.Base.Dict.{lookup}
use pantheon_legion.Base.Json.{str, Fields, end, field, merge}
use pantheon_legion.Base.Text.{is_empty}
use pantheon_legion.Kernel.Types.{Principal, AuditEvent}
use pantheon_legion.Kernel.State.{
  World, key_error, value_error, Exec, pure, raise, or_raise, ◌>>=◌, ◌>>◌, get_mission,
}
use pantheon_legion.Kernel.Journal.{Entry, entry, one, str_or_null, record_event}
use pantheon_legion.Kernel.Execution.{get_action}

-- The fields that every authorization fact ends with or contains.
pub record Decision : Type 0 where
  pub decision_id : String
  pub decision : String
  pub reason : String
  pub policy_version : String
  pub evaluated_at : String

-- The five fields, in front of others.
abbrev decision_fields : Decision → Fields → Fields
decision_fields d rest = field "decision_id" (str d.decision_id) (
    field "reason" (str d.reason) (
      field "policy_version" (str d.policy_version)
        (field "evaluated_at" (str d.evaluated_at) rest)))

abbrev success_or : String → (on_success otherwise : String) → String
success_or result on_success otherwise = if result == "SUCCESS" then on_success else otherwise

-- `**({name: value} if value else {})`
abbrev if_given : String → Option String → Fields → Fields
if_given name none rest = rest
if_given name (some s) rest = if is_empty s then rest else field name (str s) rest

abbrev data_or_empty : Option Fields → Fields
data_or_empty none = end
data_or_empty (some fs) = fs

-- The optional ids of `record_external_read_authorization`.
pub record ReadIds : Type 0 where
  pub delegation_id : Option String
  pub binding_id : Option String
  pub binding_version : Option String
  pub work_item_id : Option String
  pub attempt_id : Option String

abbrev read_id_fields : ReadIds → Fields
read_id_fields ids = field "delegation_id" (str_or_null ids.delegation_id) (
    field "binding_id" (str_or_null ids.binding_id) (
      field "binding_version" (str_or_null ids.binding_version) (
        field "work_item_id" (str_or_null ids.work_item_id)
          (one "attempt_id" (str_or_null ids.attempt_id)))))

module _ (w : World) where
  -- Each of the operations below looks the Mission up and appends one event.
  unfoldable pub append_fact : String → Entry → Exec (Unit {0})
  append_fact mission_id e = do m ← get_mission mission_id; record_event w m e; pure tt

  -- `record_execution_authorization`
  unfoldable pub record_execution_authorization :
      (mission_id action_id : String) → Principal → Decision → Option String → Exec (Unit {0})
  record_execution_authorization mission_id action_id worker d delegation_id = do
    m ← get_mission mission_id
    action ← get_action m action_id
    record_event w m
        (record (entry "AUTHORIZATION_EVALUATED" worker d.decision (
          field "action_id" (str action_id) (
            decision_fields d (
              field "operation" (str "EXECUTE_ACTION")
                (one "delegation_id" (str_or_null delegation_id)))))) {
                  command_id = some action.command_id;
                })
    pure tt

  -- `record_tool_authorization`
  unfoldable pub record_tool_authorization :
      (mission_id : String)
      → Principal
      → (capability invocation_id : String) → Decision
      → (correlation_id : String) → (delegation_id : Option String) → Exec (Unit {0})
  record_tool_authorization mission_id actor capability invocation_id d correlation_id
        delegation_id =
      append_fact mission_id
        (record (entry "TOOL_AUTHORIZATION_EVALUATED" actor d.decision (
          field "capability" (str capability) (
            field "invocation_id" (str invocation_id) (
              decision_fields d (
                field "operation" (str "READ_TOOL")
                  (one "delegation_id" (str_or_null delegation_id))))))) {
                    correlation_id = some correlation_id;
                  })

  -- `record_tool_result`
  unfoldable pub record_tool_result :
      (mission_id : String)
      → Principal
      → (capability invocation_id correlation_id result : String) → Option Fields
      → Exec (Unit {0})
  record_tool_result mission_id actor capability invocation_id correlation_id result details =
      append_fact mission_id
        (record (entry (success_or result "TOOL_EXECUTION_COMPLETED" "TOOL_EXECUTION_REJECTED")
          actor result
          (merge (field "capability" (str capability) (one "invocation_id" (str invocation_id)))
            (data_or_empty details))) { correlation_id = some correlation_id })

  -- `record_external_read_authorization`; `ids` are its five optional ids from `delegation_id` on.
  unfoldable pub record_external_read_authorization :
      (mission_id : String)
      → Principal
      → (target_product operation invocation_id : String) → Decision
      → (correlation_id : String) → ReadIds
      → Exec (Unit {0})
  record_external_read_authorization mission_id actor target_product operation invocation_id d
        correlation_id ids =
      append_fact mission_id
        (record (entry "EXTERNAL_READ_AUTHORIZATION_EVALUATED" actor d.decision (
          field "target_product" (str target_product) (
            field "operation" (str operation) (
              field "invocation_id" (str invocation_id)
                (decision_fields d (read_id_fields ids)))))) {
                  correlation_id = some correlation_id;
                })

  -- `record_agent_authorization`
  unfoldable pub record_agent_authorization :
      (mission_id : String)
      → Principal
      → (event_type result correlation_id agent_id : String)
      → (assignment_id binding_id : Option String) → Decision
      → (delegation_id work_item_id attempt_id : Option String) → Exec (Unit {0})
  record_agent_authorization mission_id actor event_type result correlation_id agent_id
        assignment_id binding_id d delegation_id work_item_id attempt_id =
      append_fact mission_id
        (record (entry event_type actor result (
          field "agent_id" (str agent_id) (
            field "assignment_id" (str_or_null assignment_id) (
              field "binding_id" (str_or_null binding_id) (
                decision_fields d (
                  field "grant_id" (str_or_null delegation_id) (
                    if_given "work_item_id" work_item_id
                      (if_given "attempt_id" attempt_id end)))))))) {
                        correlation_id = some correlation_id;
                      })

  -- `record_external_read_result`
  unfoldable pub record_external_read_result :
      (mission_id : String)
      → Principal
      → (target_product operation invocation_id correlation_id result : String) → Fields
      → Exec (Unit {0})
  record_external_read_result mission_id actor target_product operation invocation_id correlation_id
        result details =
      append_fact mission_id
        (record (entry (success_or result "EXTERNAL_READ_COMPLETED" "EXTERNAL_READ_REJECTED") actor
          result
          (merge
            (field "target_product" (str target_product)
              (field "operation" (str operation) (one "invocation_id" (str invocation_id))))
            details)) { correlation_id = some correlation_id })

  -- `record_cognition_fact` and `record_spike_action_fact`, which differ in the event types that
  -- they let through and in the error.
  unfoldable pub record_listed_fact :
      (allowed : List String)
      → (error : String) → (mission_id : String) → Principal
      → (correlation_id event_type result : String) → Fields
      → Exec (Unit {0})
  record_listed_fact allowed error mission_id actor correlation_id event_type result details =
      if not (contains allowed event_type)
      then raise (value_error error)
      else append_fact mission_id
          (record (entry event_type actor result details) { correlation_id = some correlation_id })

  unfoldable pub record_cognition_fact :
      (mission_id : String)
      → Principal
      → (correlation_id event_type result : String) → Fields
      → Exec (Unit {0})
  record_cognition_fact =
      record_listed_fact
        ("COGNITION_AUTHORIZATION_EVALUATED" ∷ "COGNITION_INVOCATION_COMPLETED" ∷ [])
        "INVALID_COGNITION_EVENT"

  unfoldable pub record_spike_action_fact :
      (mission_id : String)
      → Principal
      → (correlation_id event_type result : String) → Fields
      → Exec (Unit {0})
  record_spike_action_fact =
      record_listed_fact
        ("SPIKE_ACTION_PERMIT_ISSUED" ∷ "SPIKE_ACTION_DISPATCH_ADMITTED"
          ∷ "SPIKE_EXTERNAL_EFFECT_RECORDED" ∷ [])
        "INVALID_SPIKE_ACTION_EVENT"

  -- `record_model_invocation`
  unfoldable pub record_model_invocation :
      (mission_id : String)
      → Principal
      → (invocation_id correlation_id result : String) → Fields
      → Exec (Unit {0})
  record_model_invocation mission_id actor invocation_id correlation_id result details =
      append_fact mission_id
        (record (entry (success_or result "MODEL_INVOCATION_COMPLETED" "MODEL_INVOCATION_FAILED")
          actor result (merge (one "invocation_id" (str invocation_id)) details)) {
            correlation_id = some correlation_id;
          })

  -- `record_delegation_event`
  unfoldable pub record_delegation_event :
      (mission_id : String)
      → Principal
      → (event_type result grant_id : String) → Option Fields
      → Exec (Unit {0})
  record_delegation_event mission_id actor event_type result grant_id details =
      append_fact mission_id (
        entry event_type actor result
          (merge (one "grant_id" (str grant_id)) (data_or_empty details)))

  -- `record_command_authorization`
  unfoldable pub record_command_authorization :
      (mission_id : String)
      → Principal
      → (command_type : String) → Decision
      → Option String
      → Exec (Unit {0})
  record_command_authorization mission_id actor command_type d correlation_id =
      append_fact mission_id
        (record (entry "AUTHORIZATION_EVALUATED" actor d.decision (
          field "command_type" (str command_type)
            (decision_fields d (one "operation" (str "SUBMIT_COMMAND"))))) {
              correlation_id = correlation_id;
            })

  -- `record_approval_authorization`
  unfoldable pub record_approval_authorization :
      (mission_id approval_id : String) → Principal → Decision → Exec (Unit {0})
  record_approval_authorization mission_id approval_id actor d =
      append_fact mission_id
        (record (entry "AUTHORIZATION_EVALUATED" actor d.decision
          (decision_fields d (one "operation" (str "DECIDE_APPROVAL")))) {
            approval_id = some approval_id;
          })

-- `timeline`: a missing log raises.
unfoldable pub timeline : String → Exec (List AuditEvent)
timeline id k = or_raise (lookup id k.audit) (key_error id) k
