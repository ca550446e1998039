-- ===== src/Runtime/Service/Claims.antt =====
-- src/legion_runtime/service.py: `claim_work`.
use pantheon_legion.Base.{◌+◌, String, Option, none, some, [], text_eq}
use pantheon_legion.Base.Dict.{lookup}
use pantheon_legion.Base.Lists.{length}
use pantheon_legion.Base.Json.{Value, str, obj, end, field}
use pantheon_legion.Kernel.Types.{Principal}
use pantheon_legion.Runtime.Agent.{
  scout, ActorRef, AgentIdentity, MissionAssignment, AgentRuntimeBinding,
}
use pantheon_legion.Runtime.Work.{claimed, prepared, WorkItem, WorkAttempt, is_claimable}
use pantheon_legion.Runtime.WorkChecks.{item_fault, attempt_fault}
use pantheon_legion.Runtime.Store.{
  Ports, IdempotencyRecord, operation_error, Session, give, reads, need, checked, guard, ◌>>=◌,
  ◌>>◌, draw_id, read_clock, transaction,
}
use pantheon_legion.Runtime.Repository.{save_work_item, save_work_attempt, list_work_attempts}
use pantheon_legion.Runtime.Service.{
  check_key, actor_of, actor_document, prior, note, emit, require_work, require_active_actor,
  work_lock_keys,
}

-- The arguments of `claim_work`, `execute_scout_work` and `reconcile_work`.
pub record ScoutCall : Type 0 where
  pub work_item_id : String
  pub scout_binding_id : String
  pub caller : Principal
  pub idempotency_key : String

abbrev pub scout_document : ScoutCall → ActorRef → Value
scout_document c actor = obj (
    field "actor" (actor_document actor) (
      field "scout_binding_id" (str c.scout_binding_id)
        (field "work_item_id" (str c.work_item_id) end)))

unfoldable pub remembered_attempt : IdempotencyRecord → Session WorkAttempt
remembered_attempt r s =
    need (lookup r.resource_id s.work_attempts) (operation_error "IDEMPOTENCY_RESOURCE_MISSING") s

module _ (p : Ports) where
  unfoldable pub write_claim :
      ScoutCall
      → ActorRef
      → String
      → WorkItem
      → AgentRuntimeBinding
      → MissionAssignment
      → AgentIdentity
      → Session WorkAttempt
  write_claim c actor fingerprint work binding assignment agent = do
    guard (is_claimable work.status) (operation_error "WORK_NOT_CLAIMABLE")
    attempts ← reads (list_work_attempts c.work_item_id)
    now ← read_clock p
    id ← draw_id p
    attempt ← checked attempt_fault (record {
      attempt_id = id;
      work_item_id = c.work_item_id;
      scout_agent_id = agent.agent_id;
      scout_binding_id = binding.binding_id;
      status = prepared;
      attempt_number = length attempts + 1;
      mission_version = none;
      authorization_decision_id = none;
      error_code = none;
      version = 1;
      created_at = now;
      updated_at = now;
      attempt_stage = none;
      knowledge_authorization_decision_ids = [];
      successful_knowledge_decision_id = none;
      evidence_correlation_id = none;
      tabula_audit_correlation_id = none;
    })
    save_work_attempt attempt none
    taken ←
        checked item_fault
          (record work { status = claimed; version = work.version + 1; updated_at = now })
    save_work_item taken (some work.version)
    emit p (record {
      event_type = "WorkClaimed";
      agent_id = agent.agent_id;
      actor = actor;
      result = "SUCCESS";
      correlation_id = work.correlation_id;
      mission_id = some work.mission_id;
      assignment_id = some assignment.assignment_id;
      binding_id = some binding.binding_id;
      causation_id = none;
      data_fields =
          field "work_item_id" (str c.work_item_id)
            (field "attempt_id" (str attempt.attempt_id) end);
    })
    note c.work_item_id "CLAIM_WORK" c.idempotency_key fingerprint "work_attempt" attempt.attempt_id
    give attempt

  unfoldable pub attempt_or_write :
      ScoutCall
      → ActorRef
      → String
      → WorkItem
      → AgentRuntimeBinding
      → MissionAssignment
      → AgentIdentity
      → Option IdempotencyRecord
      → Session WorkAttempt
  attempt_or_write c actor fingerprint work binding assignment agent none =
      write_claim c actor fingerprint work binding assignment agent
  attempt_or_write c actor fingerprint work binding assignment agent (some r) = remembered_attempt r

  -- The body of the transaction of `claim_work`.
  unfoldable pub claim_locked : ScoutCall → ActorRef → String → Session WorkAttempt
  claim_locked c actor fingerprint = do
    work ← require_work c.work_item_id
    (binding, assignment, agent) ←
        require_active_actor c.scout_binding_id c.caller scout (some work.scout_assignment_id)
    found ← prior c.work_item_id "CLAIM_WORK" c.idempotency_key fingerprint
    attempt_or_write c actor fingerprint work binding assignment agent found

  unfoldable pub claim_work : ScoutCall → Session WorkAttempt
  claim_work c = do
    check_key c.idempotency_key
    initial ← require_work c.work_item_id
    actor ← actor_of c.caller
    let fingerprint = p.sha256_json (scout_document c actor)
    transaction (work_lock_keys initial) (claim_locked c actor fingerprint)
