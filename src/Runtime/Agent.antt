-- ===== src/Runtime/Agent.antt =====
-- src/legion_runtime/agent.py and authority.py: identity and coordination of agents.
use pantheon_legion.Base.{ℕ, String, Bool, true, false, Option}
use pantheon_legion.Base.Json.{Fields}

pub data AgentRole : Type 0 where
  scout centurion : AgentRole

pub data AgentStatus : Type 0 where
  active : AgentStatus

pub data AssignmentStatus : Type 0 where
  pending_authorization assigned blocked rejected : AssignmentStatus

pub data CheckpointState : Type 0 where
  waiting_for_authority ready checkpoint_blocked : CheckpointState

pub data NextIntent : Type 0 where
  authorize_assignment assess_mission await_work_result assess_work_result await_work execute_work :
      NextIntent

pub data BindingStatus : Type 0 where
  pending_authority binding_active binding_blocked released : BindingStatus

pub record ActorRef : Type 0 where
  pub type : String
  pub subject : String

pub record AgentIdentity : Type 0 where
  pub agent_id : String
  pub organization_id : String
  pub workspace_id : String
  pub display_name : String
  pub role : AgentRole
  pub status : AgentStatus
  pub version : ℕ
  pub created_by : ActorRef
  pub created_at : String
  pub updated_at : String

pub record MissionAssignment : Type 0 where
  pub assignment_id : String
  pub agent_id : String
  pub mission_id : String
  pub status : AssignmentStatus
  pub mission_version : Option ℕ
  pub authorization_decision_id : Option String
  pub policy_version : Option String
  pub requested_by : ActorRef
  pub correlation_id : String
  pub last_error_code : Option String
  pub version : ℕ
  pub created_at : String
  pub updated_at : String

pub record CoordinationCheckpoint : Type 0 where
  pub assignment_id : String
  pub revision : ℕ
  pub state : CheckpointState
  pub next_intent : NextIntent
  pub last_observed_mission_version : Option ℕ
  pub correlation_id : String
  pub last_error_code : Option String
  pub updated_at : String
  pub focus_work_item_id : Option String

pub record AgentRuntimeBinding : Type 0 where
  pub binding_id : String
  pub agent_id : String
  pub assignment_id : String
  pub workload_subject : String
  pub grant_id : Option String
  pub status : BindingStatus
  pub version : ℕ
  pub started_at : String
  pub ended_at : Option String
  pub correlation_id : String
  pub last_error_code : Option String

pub record RuntimeEvent : Type 0 where
  pub event_id : String
  pub sequence : ℕ
  pub event_type : String
  pub occurred_at : String
  pub agent_id : String
  pub actor : ActorRef
  pub result : String
  pub correlation_id : String
  pub mission_id : Option String
  pub assignment_id : Option String
  pub binding_id : Option String
  pub causation_id : Option String
  pub data_fields : Fields

-- `MissionAuthorityView`: what the authority grants an assignment on.
pub record MissionAuthorityView : Type 0 where
  pub mission_id : String
  pub organization_id : String
  pub workspace_id : String
  pub mission_status : String
  pub mission_version : ℕ
  pub roe_revision : ℕ
  pub decision_id : String
  pub policy_version : String
  pub evaluated_at : String

abbrev pub is_scout : AgentRole → Bool
is_scout scout = true
is_scout centurion = false

abbrev pub same_role : AgentRole → AgentRole → Bool
same_role scout scout = true
same_role centurion centurion = true
same_role _ _ = false

abbrev pub role_value : AgentRole → String
role_value scout = "SCOUT"
role_value centurion = "CENTURION"

abbrev pub is_pending : AssignmentStatus → Bool
is_pending pending_authorization = true
is_pending _ = false

abbrev pub is_assigned : AssignmentStatus → Bool
is_assigned assigned = true
is_assigned _ = false

abbrev pub is_blocked : AssignmentStatus → Bool
is_blocked blocked = true
is_blocked _ = false

abbrev pub is_rejected : AssignmentStatus → Bool
is_rejected rejected = true
is_rejected _ = false

abbrev pub is_binding_pending : BindingStatus → Bool
is_binding_pending pending_authority = true
is_binding_pending _ = false

abbrev pub is_binding_active : BindingStatus → Bool
is_binding_active binding_active = true
is_binding_active _ = false

abbrev pub same_state : CheckpointState → CheckpointState → Bool
same_state waiting_for_authority waiting_for_authority = true
same_state ready ready = true
same_state checkpoint_blocked checkpoint_blocked = true
same_state _ _ = false

abbrev pub is_authorize : NextIntent → Bool
is_authorize authorize_assignment = true
is_authorize _ = false

abbrev pub intent_value : NextIntent → String
intent_value authorize_assignment = "AUTHORIZE_ASSIGNMENT"
intent_value assess_mission = "ASSESS_MISSION"
intent_value await_work_result = "AWAIT_WORK_RESULT"
intent_value assess_work_result = "ASSESS_WORK_RESULT"
intent_value await_work = "AWAIT_WORK"
intent_value execute_work = "EXECUTE_WORK"

-- `intent in legal_checkpoint_intents(role)`
unfoldable pub legal_checkpoint_intents : AgentRole → NextIntent → Bool
legal_checkpoint_intents centurion authorize_assignment = true
legal_checkpoint_intents centurion assess_mission = true
legal_checkpoint_intents centurion await_work_result = true
legal_checkpoint_intents centurion assess_work_result = true
legal_checkpoint_intents scout authorize_assignment = true
legal_checkpoint_intents scout await_work = true
legal_checkpoint_intents scout execute_work = true
legal_checkpoint_intents _ _ = false

unfoldable pub assigned_intent : AgentRole → NextIntent
assigned_intent centurion = assess_mission
assigned_intent scout = await_work
