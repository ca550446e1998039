-- ===== src/Runtime/Service/Delegation.antt =====
-- src/legion_runtime/service.py: `delegate_work`.
use pantheon_legion.Base.{
  ◌+◌, String, Bool, ◌&&◌, ◌||◌, not, ◌==◌, Option, none, some, List, [], ◌∷◌, leb, text_eq,
}
use pantheon_legion.Base.Dict.{lookup}
use pantheon_legion.Base.Lists.{length}
use pantheon_legion.Base.Text.{show}
use pantheon_legion.Base.Json.{
  Value, null, number, str, arr, obj, Items, no_items, item, end, field,
}
use pantheon_legion.Kernel.Types.{Principal}
use pantheon_legion.Runtime.Checks.{text_length, is_given, same_texts}
use pantheon_legion.Runtime.Agent.{
  centurion, await_work_result, execute_work, NextIntent, ActorRef, AgentIdentity,
  MissionAssignment, CoordinationCheckpoint, AgentRuntimeBinding, is_scout, is_assigned,
}
use pantheon_legion.Runtime.AgentChecks.{checkpoint_fault}
use pantheon_legion.Runtime.Work.{
  WorkKind, queued, WorkItem, is_read_only, is_spike, kind_value, profiles,
}
use pantheon_legion.Runtime.WorkChecks.{item_fault}
use pantheon_legion.Runtime.Store.{
  Ports, IdempotencyRecord, operation_error, Session, give, need, checked, guard, ◌>>=◌, ◌>>◌,
  draw_id, read_clock, transaction,
}
use pantheon_legion.Runtime.Repository.{save_checkpoint, save_work_item}
use pantheon_legion.Runtime.Service.{
  check_key, actor_of, actor_document, prior, note, emit, require_agent, require_assignment,
  require_checkpoint, require_binding, require_active_actor, work_lock_keys,
}

-- The arguments of `delegate_work`; `workload` is the caller.
pub record Delegation : Type 0 where
  pub centurion_binding_id : String
  pub caller : Principal
  pub scout_assignment_id : String
  pub objective : String
  pub required_capabilities : List String
  pub correlation_id : String
  pub idempotency_key : String
  pub causation_id : Option String
  pub work_kind : WorkKind

abbrev optional_text : Option String → Value
optional_text none = null
optional_text (some s) = str s

abbrev text_items : List String → Items
text_items [] = no_items
text_items (x ∷ xs) = item (str x) (text_items xs)

abbrev delegation_document : Delegation → ActorRef → Value
delegation_document c actor = obj (
    field "actor" (actor_document actor) (
      field "causation_id" (optional_text c.causation_id) (
        field "centurion_binding_id" (str c.centurion_binding_id) (
          field "correlation_id" (str c.correlation_id) (
            field "objective" (str c.objective) (
              field "required_capabilities" (arr (text_items c.required_capabilities)) (
                field "scout_assignment_id" (str c.scout_assignment_id)
                  (field "work_kind" (str (kind_value c.work_kind)) end))))))))

-- The tests in front of any read. `drivers` is whether an experimental driver is there.
unfoldable pub check_delegation : Bool → Delegation → Session (Unit {0})
check_delegation drivers c = do
  check_key c.idempotency_key
  guard (not (is_spike c.work_kind) || drivers) (operation_error "EXPERIMENTAL_COGNITION_DISABLED")
  guard (same_texts c.required_capabilities (profiles c.work_kind))
      (operation_error "READ_ONLY_CAPABILITY_REQUIRED")
  guard (is_read_only c.work_kind || leb (text_length c.objective) 2000)
      (operation_error "GROUNDED_OBJECTIVE_TOO_LONG")

unfoldable pub remembered_item : IdempotencyRecord → Session WorkItem
remembered_item r s =
    need (lookup r.resource_id s.work_items) (operation_error "IDEMPOTENCY_RESOURCE_MISSING") s

-- Where an agent's attention goes in a checkpoint.
unfoldable pub focused :
    CoordinationCheckpoint → NextIntent → Option String → String → CoordinationCheckpoint
focused c intent focus now = record c {
  revision = c.revision + 1;
  next_intent = intent;
  focus_work_item_id = focus;
  updated_at = now;
}

unfoldable pub save_focus : CoordinationCheckpoint → CoordinationCheckpoint → Session (Unit {0})
save_focus old new = do
  next ← checked checkpoint_fault new
  save_checkpoint next (some old.revision)

-- Centurion and Scout are in one Mission, organization and workspace.
unfoldable pub same_work_scope :
    WorkItem → MissionAssignment → AgentIdentity → MissionAssignment → AgentIdentity → Bool
same_work_scope candidate a agent b other =
    a.mission_id == b.mission_id
    && a.mission_id == candidate.mission_id
    && agent.organization_id == other.organization_id
    && agent.workspace_id == other.workspace_id

module _ (p : Ports) where
  -- The item that is to be written, made before the transaction.
  unfoldable pub candidate_item : Delegation → Session (WorkItem × String)
  candidate_item c = do
    binding ← require_binding c.centurion_binding_id
    id ← draw_id p
    now ← read_clock p
    by ← require_assignment binding.assignment_id
    to ← require_assignment c.scout_assignment_id
    candidate ← checked item_fault (record {
      work_item_id = id;
      mission_id = by.mission_id;
      centurion_agent_id = binding.agent_id;
      centurion_assignment_id = binding.assignment_id;
      scout_agent_id = to.agent_id;
      scout_assignment_id = c.scout_assignment_id;
      objective = c.objective;
      required_capabilities = c.required_capabilities;
      status = queued;
      version = 1;
      correlation_id = c.correlation_id;
      causation_id = c.causation_id;
      created_at = now;
      updated_at = now;
      cancelled_at = none;
      cancellation_reason = none;
      kind = c.work_kind;
      evidence_checkpoint = none;
    })
    give (candidate, now)

  unfoldable pub write_delegation :
      Delegation
      → ActorRef
      → String
      → WorkItem
      → String
      → AgentRuntimeBinding
      → MissionAssignment
      → AgentIdentity
      → AgentIdentity
      → Session WorkItem
  write_delegation c actor fingerprint candidate now binding by agent other = do
    own ← require_checkpoint by.assignment_id
    theirs ← require_checkpoint c.scout_assignment_id
    guard (not (is_given own.focus_work_item_id)) (operation_error "CENTURION_WORK_ALREADY_FOCUSED")
    guard (not (is_given theirs.focus_work_item_id)) (operation_error "SCOUT_WORK_ALREADY_FOCUSED")
    save_work_item candidate none
    save_focus own (record (focused own await_work_result (some candidate.work_item_id) now) {
      correlation_id = c.correlation_id;
    })
    save_focus theirs (record (focused theirs execute_work (some candidate.work_item_id) now) {
      correlation_id = c.correlation_id;
    })
    emit p (record {
      event_type = "ObjectiveDelegated";
      agent_id = agent.agent_id;
      actor = actor;
      result = "SUCCESS";
      correlation_id = c.correlation_id;
      mission_id = some candidate.mission_id;
      assignment_id = some by.assignment_id;
      binding_id = some binding.binding_id;
      causation_id = c.causation_id;
      data_fields = field "work_item_id" (str candidate.work_item_id) (
          field "scout_agent_id" (str other.agent_id) (
            field "required_capability_count" (number (show (length c.required_capabilities)))
              (field "work_kind" (str (kind_value c.work_kind)) end)));
    })
    emit p (record {
      event_type = "WorkAssigned";
      agent_id = other.agent_id;
      actor = actor;
      result = "SUCCESS";
      correlation_id = c.correlation_id;
      mission_id = some candidate.mission_id;
      assignment_id = some c.scout_assignment_id;
      binding_id = none;
      causation_id = none;
      data_fields =
          field "work_item_id" (str candidate.work_item_id)
            (field "centurion_agent_id" (str agent.agent_id) end);
    })
    note by.assignment_id "DELEGATE_WORK" c.idempotency_key fingerprint "work_item"
        candidate.work_item_id
    give candidate

  unfoldable pub item_or_write :
      Delegation
      → ActorRef
      → String
      → WorkItem
      → String
      → AgentRuntimeBinding
      → MissionAssignment
      → AgentIdentity
      → AgentIdentity
      → Option IdempotencyRecord
      → Session WorkItem
  item_or_write c actor fingerprint candidate now binding by agent other none =
      write_delegation c actor fingerprint candidate now binding by agent other
  item_or_write c actor fingerprint candidate now binding by agent other (some r) =
      remembered_item r

  -- The body of the transaction of `delegate_work`.
  unfoldable pub delegate_candidate :
      Delegation → ActorRef → String → WorkItem → String → Session WorkItem
  delegate_candidate c actor fingerprint candidate now = do
    (binding, by, agent) ← require_active_actor c.centurion_binding_id c.caller centurion none
    to ← require_assignment c.scout_assignment_id
    other ← require_agent to.agent_id
    guard (is_scout other.role) (operation_error "SCOUT_ROLE_REQUIRED")
    guard (is_assigned to.status) (operation_error "SCOUT_ASSIGNMENT_NOT_ACTIVE")
    guard (same_work_scope candidate by agent to other) (operation_error "WORK_SCOPE_MISMATCH")
    found ← prior by.assignment_id "DELEGATE_WORK" c.idempotency_key fingerprint
    item_or_write c actor fingerprint candidate now binding by agent other found

  unfoldable pub delegate_work : Bool → Delegation → Session WorkItem
  delegate_work drivers c = do
    check_delegation drivers c
    (candidate, now) ← candidate_item c
    actor ← actor_of c.caller
    let fingerprint = p.sha256_json (delegation_document c actor)
    transaction (work_lock_keys candidate) (delegate_candidate c actor fingerprint candidate now)
