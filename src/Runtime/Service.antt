-- ===== src/Runtime/Service.antt =====
-- src/legion_runtime/service.py: what the operations of `PersistentAgentRuntime` share.
pub mod Completing
pub mod Agents
pub mod Assignments
pub mod Resume
pub mod Delegation
pub mod Claims
pub mod Execution
pub mod Failing
pub mod Finishing
pub mod Evidence
pub mod Scouting
pub mod Cancellation
pub mod Reconciliation
use pantheon_legion.Base.{
  ℕ, String, ◌<>◌, Bool, true, false, ◌&&◌, not, ◌==◌, Option, none, some, List, [], ◌∷◌,
  if◌then◌else◌, leb, text_eq,
}
use pantheon_legion.Base.Dict.{lookup}
use pantheon_legion.Base.Json.{Value, str, obj, Fields, end, field}
use pantheon_legion.Base.Text.{strip}
use pantheon_legion.Kernel.Types.{Principal, PrincipalType, principal_type_value, workload}
use pantheon_legion.Runtime.Checks.{text_length, if_given}
use pantheon_legion.Runtime.Agent.{
  AgentRole, ActorRef, AgentIdentity, MissionAssignment, CoordinationCheckpoint,
  AgentRuntimeBinding, RuntimeEvent, MissionAuthorityView, is_assigned, is_binding_active,
  same_role,
}
use pantheon_legion.Runtime.AgentChecks.{actor_fault, event_fault}
use pantheon_legion.Runtime.Work.{WorkItem, WorkAttempt}
use pantheon_legion.Runtime.Store.{
  Ports, IdempotencyRecord, Tables, Failure, operation_error, Session, give, refuse, reads, need,
  checked, guard, ◌>>=◌, ◌>>◌, draw_id, read_clock,
}
use pantheon_legion.Runtime.Repository.{
  store_event, next_event_sequence, get_idempotency, put_idempotency,
}

-- What a port answers: a value, `AuthorityUnavailable` or `AuthorityDenied`.
pub data Answer {ℓ} (A : Type ℓ) : Type ℓ where
  granted : A → Answer A
  unavailable denied : String → Answer A

-- The keyword arguments of `_event`.
pub record Entry : Type 0 where
  pub event_type : String
  pub agent_id : String
  pub actor : ActorRef
  pub result : String
  pub correlation_id : String
  pub mission_id : Option String
  pub assignment_id : Option String
  pub binding_id : Option String
  pub causation_id : Option String
  pub data_fields : Fields

-- `_idempotency_key`
unfoldable pub check_key : String → Session (Unit {0})
check_key key =
    guard (leb 1 (text_length (strip key)) && leb (text_length (strip key)) 256)
      (operation_error "IDEMPOTENCY_KEY_REQUIRED")

-- `_actor`
unfoldable pub actor_of : Principal → Session ActorRef
actor_of q =
    checked actor_fault (record { type = principal_type_value q.type; subject = q.subject })

-- An actor in the document of `_fingerprint`.
abbrev pub actor_document : ActorRef → Value
actor_document a = obj (field "subject" (str a.subject) (field "type" (str a.type) end))

unfoldable pub require_agent : String → Session AgentIdentity
require_agent id s = need (lookup id s.agents) (operation_error "AGENT_NOT_FOUND") s

unfoldable pub require_assignment : String → Session MissionAssignment
require_assignment id s = need (lookup id s.assignments) (operation_error "ASSIGNMENT_NOT_FOUND") s

unfoldable pub require_checkpoint : String → Session CoordinationCheckpoint
require_checkpoint id s = need (lookup id s.checkpoints) (operation_error "CHECKPOINT_NOT_FOUND") s

unfoldable pub require_binding : String → Session AgentRuntimeBinding
require_binding id s = need (lookup id s.bindings) (operation_error "BINDING_NOT_FOUND") s

unfoldable pub require_work : String → Session WorkItem
require_work id s = need (lookup id s.work_items) (operation_error "WORK_ITEM_NOT_FOUND") s

unfoldable pub require_work_attempt : String → Session WorkAttempt
require_work_attempt id s =
    need (lookup id s.work_attempts) (operation_error "WORK_ATTEMPT_NOT_FOUND") s

-- `_prior`
unfoldable pub prior : String → String → String → String → Session (Option IdempotencyRecord)
prior scope operation key fingerprint = do
  found ← reads (get_idempotency scope operation key)
  guard (if_given (λ (r : IdempotencyRecord). r.fingerprint == fingerprint) found)
      (operation_error "IDEMPOTENCY_KEY_REUSE")
  give found

-- `_remember`
unfoldable pub note : String → String → String → String → String → String → Session (Unit {0})
note scope operation key fingerprint resource_type resource_id = put_idempotency (record {
  scope = scope;
  operation = operation;
  idempotency_key = key;
  fingerprint = fingerprint;
  resource_type = resource_type;
  resource_id = resource_id;
})

-- `_event`
unfoldable pub emit : Ports → Entry → Session (Unit {0})
emit p e = do
  id ← draw_id p
  number ← reads (next_event_sequence e.agent_id)
  now ← read_clock p
  event ← checked (event_fault (p.encoded (obj e.data_fields))) (record {
    event_id = id;
    sequence = number;
    event_type = e.event_type;
    occurred_at = now;
    agent_id = e.agent_id;
    actor = e.actor;
    result = e.result;
    correlation_id = e.correlation_id;
    mission_id = e.mission_id;
    assignment_id = e.assignment_id;
    binding_id = e.binding_id;
    causation_id = e.causation_id;
    data_fields = e.data_fields;
  })
  store_event event

abbrev pub is_workload : PrincipalType → Bool
is_workload workload = true
is_workload _ = false

-- `_require_active_actor`
unfoldable pub require_active_actor :
    String
    → Principal
    → AgentRole
    → Option String
    → Session (AgentRuntimeBinding × MissionAssignment × AgentIdentity)
require_active_actor binding_id q role assignment_id = do
  guard (is_workload q.type) (operation_error "WORKLOAD_IDENTITY_REQUIRED")
  binding ← require_binding binding_id
  guard (is_binding_active binding.status) (operation_error "ACTIVE_BINDING_REQUIRED")
  guard (binding.workload_subject == q.subject) (operation_error "WORKLOAD_BINDING_MISMATCH")
  guard (if_given (λ id. binding.assignment_id == id) assignment_id)
      (operation_error "WORKLOAD_BINDING_MISMATCH")
  assignment ← require_assignment binding.assignment_id
  guard (is_assigned assignment.status) (operation_error "ASSIGNMENT_NOT_ACTIVE")
  agent ← require_agent binding.agent_id
  guard (assignment.agent_id == agent.agent_id && same_role agent.role role)
      (operation_error "AGENT_ROLE_MISMATCH")
  give (binding, assignment, agent)

-- `_scope_matches`
unfoldable pub scope_matches : AgentIdentity → MissionAssignment → MissionAuthorityView → Bool
scope_matches agent assignment view =
    assignment.mission_id == view.mission_id
    && agent.organization_id == view.organization_id
    && agent.workspace_id == view.workspace_id

-- `_work_lock_keys`
abbrev pub work_lock_keys : WorkItem → List String
work_lock_keys w =
    ("work-item:" <> w.work_item_id)
    ∷ ("assignment:" <> w.centurion_assignment_id)
    ∷ ("assignment:" <> w.scout_assignment_id)
    ∷ []
