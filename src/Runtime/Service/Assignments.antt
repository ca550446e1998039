-- ===== src/Runtime/Service/Assignments.antt =====
-- src/legion_runtime/service.py: `request_assignment`, `reconcile_assignment` and what completes
-- an assignment. The transaction in front of the authority's answer and the one after it are
-- separate steps.
use pantheon_legion.Base.{
  String, ◌<>◌, Bool, true, false, ◌||◌, not, Option, none, some, [], ◌∷◌, if◌then◌else◌, text_eq,
}
use pantheon_legion.Base.Dict.{lookup}
use pantheon_legion.Base.Json.{Value, str, obj, end, field}
use pantheon_legion.Kernel.Types.{Principal}
use pantheon_legion.Runtime.Checks.{is_given}
use pantheon_legion.Runtime.Agent.{
  pending_authorization, waiting_for_authority, authorize_assignment, ActorRef, AgentIdentity,
  MissionAssignment, CoordinationCheckpoint, MissionAuthorityView, is_pending, is_assigned,
  is_rejected, is_authorize,
}
use pantheon_legion.Runtime.AgentChecks.{assignment_fault, checkpoint_fault}
use pantheon_legion.Runtime.Store.{
  Ports, IdempotencyRecord, operation_error, Session, give, reads, need, checked, guard, ◌>>=◌,
  ◌>>◌, draw_id, read_clock, transaction,
}
use pantheon_legion.Runtime.Repository.{save_assignment, save_checkpoint, get_active_assignment}
use pantheon_legion.Runtime.Service.{
  Answer, granted, unavailable, denied, check_key, actor_of, actor_document, prior, note, emit,
  require_agent, require_assignment, require_checkpoint, scope_matches,
}
use pantheon_legion.Runtime.Service.Completing.{complete_assignment}

-- The arguments of `request_assignment`.
pub record Request : Type 0 where
  pub actor : Principal
  pub agent_id : String
  pub mission_id : String
  pub correlation_id : String
  pub idempotency_key : String

abbrev request_document : Request → ActorRef → Value
request_document c actor = obj (
    field "actor" (actor_document actor) (
      field "agent_id" (str c.agent_id) (
        field "correlation_id" (str c.correlation_id) (field "mission_id" (str c.mission_id) end))))

unfoldable pub remembered_assignment : IdempotencyRecord → Session MissionAssignment
remembered_assignment r s =
    need (lookup r.resource_id s.assignments) (operation_error "IDEMPOTENCY_RESOURCE_MISSING") s

module _ (p : Ports) where
  unfoldable pub new_assignment : Request → ActorRef → String → Session (Bool × MissionAssignment)
  new_assignment c actor fingerprint = do
    agent ← require_agent c.agent_id
    other ← reads (get_active_assignment c.agent_id)
    guard (not (is_given other)) (operation_error "ACTIVE_ASSIGNMENT_EXISTS")
    now ← read_clock p
    id ← draw_id p
    assignment ← checked assignment_fault (record {
      assignment_id = id;
      agent_id = c.agent_id;
      mission_id = c.mission_id;
      status = pending_authorization;
      mission_version = none;
      authorization_decision_id = none;
      policy_version = none;
      requested_by = actor;
      correlation_id = c.correlation_id;
      last_error_code = none;
      version = 1;
      created_at = now;
      updated_at = now;
    })
    checkpoint ← checked checkpoint_fault (record {
      assignment_id = assignment.assignment_id;
      revision = 1;
      state = waiting_for_authority;
      next_intent = authorize_assignment;
      last_observed_mission_version = none;
      correlation_id = c.correlation_id;
      last_error_code = none;
      updated_at = now;
      focus_work_item_id = none;
    })
    save_assignment assignment none
    save_checkpoint checkpoint none
    emit p (record {
      event_type = "AgentAssignmentRequested";
      agent_id = agent.agent_id;
      actor = actor;
      result = "PENDING";
      correlation_id = c.correlation_id;
      mission_id = some c.mission_id;
      assignment_id = some assignment.assignment_id;
      binding_id = none;
      causation_id = none;
      data_fields = end;
    })
    note c.agent_id "REQUEST_ASSIGNMENT" c.idempotency_key fingerprint "assignment"
        assignment.assignment_id
    give (true, assignment)

  -- With whether the authority is still to be asked.
  unfoldable pub assignment_or_new :
      Request → ActorRef → String → Option IdempotencyRecord → Session (Bool × MissionAssignment)
  assignment_or_new c actor fingerprint none = new_assignment c actor fingerprint
  assignment_or_new c actor fingerprint (some r) = do
    assignment ← remembered_assignment r
    give (is_pending assignment.status, assignment)

  -- The transaction of `request_assignment`.
  unfoldable pub open_assignment : Request → Session (Bool × MissionAssignment)
  open_assignment c = do
    check_key c.idempotency_key
    actor ← actor_of c.actor
    let fingerprint = p.sha256_json (request_document c actor)
    transaction (("agent:" <> c.agent_id) ∷ []) (do
      found ← prior c.agent_id "REQUEST_ASSIGNMENT" c.idempotency_key fingerprint
      assignment_or_new c actor fingerprint found)

  unfoldable pub answer_assignment :
      AgentIdentity
      → MissionAssignment
      → ActorRef
      → Answer MissionAuthorityView
      → Session MissionAssignment
  answer_assignment agent assignment actor (unavailable code) =
      complete_assignment p assignment.assignment_id actor none (some code) true
  answer_assignment agent assignment actor (denied code) =
      complete_assignment p assignment.assignment_id actor none (some code) false
  answer_assignment agent assignment actor (granted view) =
      if scope_matches agent assignment view
      then complete_assignment p assignment.assignment_id actor (some view) none false
      else complete_assignment p assignment.assignment_id actor (some view) (some "SCOPE_MISMATCH")
          false

  -- `_authorize_assignment`; `authority` is this call's answer of the authority.
  unfoldable pub authorize :
      (AgentIdentity → MissionAssignment → Answer MissionAuthorityView)
      → String
      → Principal
      → Session MissionAssignment
  authorize authority id q = do
    assignment ← require_assignment id
    agent ← require_agent assignment.agent_id
    actor ← actor_of q
    answer_assignment agent assignment actor (authority agent assignment)

  unfoldable pub request_assignment :
      (AgentIdentity → MissionAssignment → Answer MissionAuthorityView)
      → Request
      → Session MissionAssignment
  request_assignment authority c = do
    (is_asked, assignment) ← open_assignment c
    if is_asked then authorize authority assignment.assignment_id c.actor else give assignment

  abbrev reconcile_document : ActorRef → String → Value
  reconcile_document actor id =
      obj (field "actor" (actor_document actor) (field "assignment_id" (str id) end))

  -- What is still to be done of an assignment that is being reconciled.
  unfoldable pub still_open :
      CoordinationCheckpoint → MissionAssignment → Session (Bool × MissionAssignment)
  still_open checkpoint assignment =
      if is_assigned assignment.status || is_rejected assignment.status
      then give (false, assignment)
      else (do
        guard (is_authorize checkpoint.next_intent) (operation_error "RESUME_REQUIRED")
        give (true, assignment))

  unfoldable pub noted_assignment :
      String
      → String
      → String
      → CoordinationCheckpoint
      → MissionAssignment
      → Option IdempotencyRecord
      → Session (Bool × MissionAssignment)
  noted_assignment id key fingerprint checkpoint assignment none = do
    note id "RECONCILE_ASSIGNMENT" key fingerprint "assignment" id
    still_open checkpoint assignment
  noted_assignment id key fingerprint checkpoint assignment (some r) = do
    again ← require_assignment r.resource_id
    if is_pending again.status then still_open checkpoint again else give (false, again)

  -- The transaction of `reconcile_assignment`.
  unfoldable pub reopen_assignment :
      String → Principal → String → Session (Bool × MissionAssignment)
  reopen_assignment id q key = do
    check_key key
    actor ← actor_of q
    let fingerprint = p.sha256_json (reconcile_document actor id)
    transaction (("assignment:" <> id) ∷ []) (do
      assignment ← require_assignment id
      checkpoint ← require_checkpoint id
      found ← prior id "RECONCILE_ASSIGNMENT" key fingerprint
      noted_assignment id key fingerprint checkpoint assignment found)

  unfoldable pub reconcile_assignment :
      (AgentIdentity → MissionAssignment → Answer MissionAuthorityView)
      → String
      → Principal
      → String
      → Session MissionAssignment
  reconcile_assignment authority id q key = do
    (is_asked, assignment) ← reopen_assignment id q key
    if is_asked then authorize authority id q else give assignment
