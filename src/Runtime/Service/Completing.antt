-- ===== src/Runtime/Service/Completing.antt =====
-- src/legion_runtime/service.py: `_complete_assignment`, what an answer of the authority makes of an
-- assignment.
use pantheon_legion.Base.{
  ◌+◌, String, ◌<>◌, Bool, ◌&&◌, ◌||◌, not, Option, none, some, [], ◌∷◌, if◌then◌else◌, text_eq,
}
use pantheon_legion.Base.Json.{str, Fields, end, field}
use pantheon_legion.Base.Text.{is_empty}
use pantheon_legion.Runtime.Checks.{is_given, same_given}
use pantheon_legion.Runtime.Agent.{
  AssignmentStatus, assigned, blocked, rejected, CheckpointState, ready, checkpoint_blocked,
  NextIntent, authorize_assignment, ActorRef, AgentIdentity, MissionAssignment,
  CoordinationCheckpoint, MissionAuthorityView, is_pending, is_assigned, is_blocked, is_rejected,
  same_state, assigned_intent,
}
use pantheon_legion.Runtime.AgentChecks.{assignment_fault, checkpoint_fault}
use pantheon_legion.Runtime.Store.{
  Ports, Session, give, checked, ◌>>=◌, ◌>>◌, read_clock, transaction,
}
use pantheon_legion.Runtime.Repository.{save_assignment, save_checkpoint}
use pantheon_legion.Runtime.Service.{emit, require_agent, require_assignment, require_checkpoint}

-- How a granted, an unavailable and a refused assignment go on.
pub record Completion : Type 0 where
  pub status : AssignmentStatus
  pub state : CheckpointState
  pub intent : NextIntent
  pub event_type : String
  pub result : String

-- The order of the tests is the source's: without an error and with a view, then unavailable.
unfoldable pub completion :
    AgentIdentity → Option MissionAuthorityView → Option String → Bool → Completion
completion agent view error is_unavailable =
    if not (is_given error) && is_given view
    then record {
      status = assigned;
      state = ready;
      intent = assigned_intent agent.role;
      event_type = "AgentAssigned";
      result = "SUCCESS";
    }
    else if is_unavailable
    then record {
      status = blocked;
      state = checkpoint_blocked;
      intent = authorize_assignment;
      event_type = "AgentRecoveryBlocked";
      result = "BLOCKED";
    }
    else record {
      status = rejected;
      state = checkpoint_blocked;
      intent = authorize_assignment;
      event_type = "AgentAssignmentRejected";
      result = "DENY";
    }

abbrev pub same_status : AssignmentStatus → AssignmentStatus → Bool
same_status a b =
    is_pending a && is_pending b
    || is_assigned a && is_assigned b
    || is_blocked a && is_blocked b
    || is_rejected a && is_rejected b

-- `view.field if view else current`
abbrev from_view {ℓ} :
    {A : Type ℓ} → (MissionAuthorityView → A) → Option MissionAuthorityView → Option A → Option A
from_view f none current = current
from_view f (some view) current = some (f view)

-- `{"error_code": error_code} if error_code else {}`
abbrev error_fields : Option String → Fields
error_fields none = end
error_fields (some code) = if is_empty code then end else field "error_code" (str code) end

module _ (p : Ports) where
  -- The end of `_complete_assignment`.
  unfoldable pub write_completion :
      MissionAssignment
      → CoordinationCheckpoint
      → ActorRef
      → Option MissionAuthorityView
      → Option String
      → Completion
      → Session MissionAssignment
  write_completion current checkpoint actor view error next = do
    now ← read_clock p
    updated ← checked assignment_fault (record current {
      status = next.status;
      mission_version =
          from_view (λ (v : MissionAuthorityView). v.mission_version) view current.mission_version;
      authorization_decision_id =
          from_view (λ (v : MissionAuthorityView). v.decision_id) view
            current.authorization_decision_id;
      policy_version =
          from_view (λ (v : MissionAuthorityView). v.policy_version) view current.policy_version;
      last_error_code = error;
      version = current.version + 1;
      updated_at = now;
    })
    updated_checkpoint ← checked checkpoint_fault (record checkpoint {
      revision = checkpoint.revision + 1;
      state = next.state;
      next_intent = next.intent;
      last_observed_mission_version =
          from_view (λ (v : MissionAuthorityView). v.mission_version) view
            checkpoint.last_observed_mission_version;
      last_error_code = error;
      updated_at = now;
    })
    save_assignment updated (some current.version)
    save_checkpoint updated_checkpoint (some checkpoint.revision)
    emit p (record {
      event_type = next.event_type;
      agent_id = current.agent_id;
      actor = actor;
      result = next.result;
      correlation_id = current.correlation_id;
      mission_id = some current.mission_id;
      assignment_id = some current.assignment_id;
      binding_id = none;
      causation_id = none;
      data_fields = error_fields error;
    })
    give updated

  -- A settled assignment stays, and nothing is written where the same outcome stands already.
  unfoldable pub complete_open :
      MissionAssignment
      → CoordinationCheckpoint
      → ActorRef
      → Option MissionAuthorityView
      → Option String
      → Completion
      → Session MissionAssignment
  complete_open current checkpoint actor view error next =
      if is_assigned current.status || is_rejected current.status
      then give current
      else if same_status current.status next.status
          && same_given current.last_error_code error
          && same_state checkpoint.state next.state
          && same_given checkpoint.last_error_code error
      then give current
      else write_completion current checkpoint actor view error next

  -- `_complete_assignment`
  unfoldable pub complete_assignment :
      String
      → ActorRef
      → Option MissionAuthorityView
      → Option String
      → Bool
      → Session MissionAssignment
  complete_assignment id actor view error is_unavailable =
      transaction (("assignment:" <> id) ∷ []) (do
        current ← require_assignment id
        checkpoint ← require_checkpoint id
        agent ← require_agent current.agent_id
        complete_open current checkpoint actor view error
            (completion agent view error is_unavailable))
