-- ===== src/Runtime/Service/Resume.antt =====
-- src/legion_runtime/service.py: `resume_assignment`, which binds a workload to an assignment, and
-- the two transactions after the authority's answer.
use pantheon_legion.Base.{
  ◌+◌, String, ◌<>◌, Bool, ◌&&◌, ◌||◌, not, ◌==◌, Option, none, some, [], ◌∷◌, if◌then◌else◌,
  text_eq,
}
use pantheon_legion.Base.Dict.{lookup}
use pantheon_legion.Base.Json.{Value, str, obj, end, field}
use pantheon_legion.Kernel.Types.{Principal}
use pantheon_legion.Runtime.Agent.{
  assigned, blocked, ready, checkpoint_blocked, pending_authority, binding_active, binding_blocked,
  released, ActorRef, AgentIdentity, MissionAssignment, CoordinationCheckpoint, AgentRuntimeBinding,
  MissionAuthorityView, is_assigned, is_blocked, is_rejected, is_binding_pending, is_authorize,
  legal_checkpoint_intents, intent_value,
}
use pantheon_legion.Runtime.AgentChecks.{assignment_fault, checkpoint_fault, binding_fault}
use pantheon_legion.Runtime.Store.{
  Ports, IdempotencyRecord, operation_error, Session, give, reads, need, checked, guard, ◌>>=◌,
  ◌>>◌, draw_id, read_clock, transaction,
}
use pantheon_legion.Runtime.Repository.{
  save_assignment, save_checkpoint, save_binding, get_active_binding,
}
use pantheon_legion.Runtime.Service.{
  Answer, granted, unavailable, denied, check_key, actor_of, actor_document, prior, note, emit,
  require_agent, require_assignment, require_checkpoint, require_binding, scope_matches,
  is_workload,
}

pub record ResumeResult : Type 0 where
  pub agent : AgentIdentity
  pub assignment : MissionAssignment
  pub checkpoint : CoordinationCheckpoint
  pub binding : AgentRuntimeBinding

-- The arguments of `resume_assignment`; `workload` is the caller.
pub record Resumption : Type 0 where
  pub assignment_id : String
  pub caller : Principal
  pub delegation_id : String
  pub correlation_id : String
  pub idempotency_key : String

abbrev resume_document : Resumption → ActorRef → Value
resume_document c actor = obj (
    field "actor" (actor_document actor) (
      field "assignment_id" (str c.assignment_id) (
        field "correlation_id" (str c.correlation_id)
          (field "delegation_id" (str c.delegation_id) end))))

-- The test of `resume_assignment` on the assignment and its checkpoint.
unfoldable pub may_resume : AgentIdentity → MissionAssignment → CoordinationCheckpoint → Bool
may_resume agent assignment checkpoint =
    (is_assigned assignment.status || is_blocked assignment.status)
    && not (is_authorize checkpoint.next_intent)
    && legal_checkpoint_intents agent.role checkpoint.next_intent

unfoldable pub remembered_binding : IdempotencyRecord → Session AgentRuntimeBinding
remembered_binding r s =
    need (lookup r.resource_id s.bindings) (operation_error "IDEMPOTENCY_RESOURCE_MISSING") s

module _ (p : Ports) where
  unfoldable pub new_binding : Resumption → String → AgentIdentity → Session AgentRuntimeBinding
  new_binding c fingerprint agent = do
    now ← read_clock p
    id ← draw_id p
    binding ← checked binding_fault (record {
      binding_id = id;
      agent_id = agent.agent_id;
      assignment_id = c.assignment_id;
      workload_subject = c.caller.subject;
      grant_id = some c.delegation_id;
      status = pending_authority;
      version = 1;
      started_at = now;
      ended_at = none;
      correlation_id = c.correlation_id;
      last_error_code = none;
    })
    save_binding binding none
    note c.assignment_id "RESUME_ASSIGNMENT" c.idempotency_key fingerprint "binding"
        binding.binding_id
    give binding

  unfoldable pub binding_or_new :
      Resumption → String → AgentIdentity → Option IdempotencyRecord → Session AgentRuntimeBinding
  binding_or_new c fingerprint agent none = new_binding c fingerprint agent
  binding_or_new c fingerprint agent (some r) = remembered_binding r

  -- The transaction of `resume_assignment` in front of the authority's answer; a binding that is
  -- not pending is returned as it stands.
  unfoldable pub open_binding : Resumption → Session ResumeResult
  open_binding c = do
    check_key c.idempotency_key
    guard (is_workload c.caller.type) (operation_error "WORKLOAD_IDENTITY_REQUIRED")
    actor ← actor_of c.caller
    let fingerprint = p.sha256_json (resume_document c actor)
    transaction (("assignment:" <> c.assignment_id) ∷ []) (do
      assignment ← require_assignment c.assignment_id
      guard (not (is_rejected assignment.status)) (operation_error "ASSIGNMENT_REJECTED")
      agent ← require_agent assignment.agent_id
      checkpoint ← require_checkpoint c.assignment_id
      guard (may_resume agent assignment checkpoint) (operation_error "ASSIGNMENT_NOT_AUTHORIZED")
      found ← prior c.assignment_id "RESUME_ASSIGNMENT" c.idempotency_key fingerprint
      binding ← binding_or_new c fingerprint agent found
      give (record {
        agent = agent;
        assignment = assignment;
        checkpoint = checkpoint;
        binding = binding;
      }))

  -- Another active binding of the assignment is released.
  unfoldable pub release_other :
      AgentRuntimeBinding → String → Option AgentRuntimeBinding → Session (Unit {0})
  release_other binding now none = give tt
  release_other binding now (some old) =
      if old.binding_id == binding.binding_id then give tt else (do
        freed ← checked binding_fault (record old {
          status = released;
          version = old.version + 1;
          ended_at = some now;
          last_error_code = none;
        })
        save_binding freed (some old.version))

  unfoldable pub write_activation :
      ResumeResult → ActorRef → MissionAuthorityView → Session ResumeResult
  write_activation r actor view = do
    now ← read_clock p
    other ← reads (get_active_binding r.binding.assignment_id)
    release_other r.binding now other
    bound ← checked binding_fault (record r.binding {
      status = binding_active;
      version = r.binding.version + 1;
      last_error_code = none;
    })
    assignment ← checked assignment_fault (record r.assignment {
      status = assigned;
      mission_version = some view.mission_version;
      authorization_decision_id = some view.decision_id;
      policy_version = some view.policy_version;
      last_error_code = none;
      version = r.assignment.version + 1;
      updated_at = now;
    })
    checkpoint ← checked checkpoint_fault (record r.checkpoint {
      revision = r.checkpoint.revision + 1;
      state = ready;
      last_observed_mission_version = some view.mission_version;
      last_error_code = none;
      updated_at = now;
    })
    save_binding bound (some r.binding.version)
    save_assignment assignment (some r.assignment.version)
    save_checkpoint checkpoint (some r.checkpoint.revision)
    emit p (record {
      event_type = "AgentRuntimeBound";
      agent_id = r.agent.agent_id;
      actor = actor;
      result = "SUCCESS";
      correlation_id = r.binding.correlation_id;
      mission_id = some r.assignment.mission_id;
      assignment_id = some r.assignment.assignment_id;
      binding_id = some r.binding.binding_id;
      causation_id = none;
      data_fields = field "workload_subject" (str r.binding.workload_subject) end;
    })
    emit p (record {
      event_type = "AgentResumed";
      agent_id = r.agent.agent_id;
      actor = actor;
      result = "SUCCESS";
      correlation_id = r.binding.correlation_id;
      mission_id = some r.assignment.mission_id;
      assignment_id = some r.assignment.assignment_id;
      binding_id = some r.binding.binding_id;
      causation_id = none;
      data_fields = field "next_intent" (str (intent_value checkpoint.next_intent)) end;
    })
    give (record {
      agent = r.agent;
      assignment = assignment;
      checkpoint = checkpoint;
      binding = bound;
    })

  unfoldable pub write_block : ResumeResult → ActorRef → String → Session ResumeResult
  write_block r actor code = do
    now ← read_clock p
    bound ← checked binding_fault (record r.binding {
      status = binding_blocked;
      version = r.binding.version + 1;
      last_error_code = some code;
    })
    assignment ← checked assignment_fault (record r.assignment {
      status = blocked;
      last_error_code = some code;
      version = r.assignment.version + 1;
      updated_at = now;
    })
    checkpoint ← checked checkpoint_fault (record r.checkpoint {
      revision = r.checkpoint.revision + 1;
      state = checkpoint_blocked;
      last_error_code = some code;
      updated_at = now;
    })
    save_binding bound (some r.binding.version)
    save_assignment assignment (some r.assignment.version)
    save_checkpoint checkpoint (some r.checkpoint.revision)
    emit p (record {
      event_type = "AgentRecoveryBlocked";
      agent_id = r.agent.agent_id;
      actor = actor;
      result = "BLOCKED";
      correlation_id = r.binding.correlation_id;
      mission_id = some r.assignment.mission_id;
      assignment_id = some r.assignment.assignment_id;
      binding_id = some r.binding.binding_id;
      causation_id = none;
      data_fields = field "error_code" (str code) end;
    })
    give (record {
      agent = r.agent;
      assignment = assignment;
      checkpoint = checkpoint;
      binding = bound;
    })

  -- The beginning of both: what the binding names, read inside the transaction.
  unfoldable pub read_binding : String → Session ResumeResult
  read_binding id = do
    binding ← require_binding id
    assignment ← require_assignment binding.assignment_id
    checkpoint ← require_checkpoint binding.assignment_id
    agent ← require_agent binding.agent_id
    give (record {
      agent = agent;
      assignment = assignment;
      checkpoint = checkpoint;
      binding = binding;
    })

  -- A binding that is no longer pending is returned as it stands.
  unfoldable pub if_binding_pending : ResumeResult → Session ResumeResult → Session ResumeResult
  if_binding_pending r write = if is_binding_pending r.binding.status then write else give r

  -- `_activate_resume`
  unfoldable pub activate_resume : String → ActorRef → MissionAuthorityView → Session ResumeResult
  activate_resume id actor view = do
    first ← require_binding id
    transaction (("assignment:" <> first.assignment_id) ∷ [])
        (do r ← read_binding id; if_binding_pending r (write_activation r actor view))

  -- `_block_resume`
  unfoldable pub block_resume : String → ActorRef → String → Session ResumeResult
  block_resume id actor code = do
    first ← require_binding id
    transaction (("assignment:" <> first.assignment_id) ∷ [])
        (do r ← read_binding id; if_binding_pending r (write_block r actor code))

  unfoldable pub answer_resume :
      ResumeResult → ActorRef → Answer MissionAuthorityView → Session ResumeResult
  answer_resume r actor (unavailable code) = block_resume r.binding.binding_id actor code
  answer_resume r actor (denied code) = block_resume r.binding.binding_id actor code
  answer_resume r actor (granted view) =
      if scope_matches r.agent r.assignment view
      then activate_resume r.binding.binding_id actor view
      else block_resume r.binding.binding_id actor "SCOPE_MISMATCH"

  -- `authority` is this call's answer of the authority.
  unfoldable pub resume_assignment :
      (ResumeResult → Answer MissionAuthorityView) → Resumption → Session ResumeResult
  resume_assignment authority c = do
    r ← open_binding c
    actor ← actor_of c.caller
    if is_binding_pending r.binding.status then answer_resume r actor (authority r) else give r
