-- ===== src/Runtime/Service/Cancellation.antt =====
-- src/legion_runtime/service.py: `cancel_work`.
use pantheon_legion.Base.{◌+◌, String, not, ◌==◌, Option, none, some, if◌then◌else◌, text_eq}
use pantheon_legion.Base.Json.{Value, str, obj, end, field}
use pantheon_legion.Kernel.Types.{Principal}
use pantheon_legion.Runtime.Checks.{is_utf8_bounded}
use pantheon_legion.Runtime.Agent.{
  centurion, assess_mission, await_work, ActorRef, AgentIdentity, MissionAssignment,
  AgentRuntimeBinding,
}
use pantheon_legion.Runtime.Work.{cancelled, WorkItem, WorkAttempt, is_final, is_over}
use pantheon_legion.Runtime.WorkChecks.{item_fault}
use pantheon_legion.Runtime.Store.{
  Ports, IdempotencyRecord, operation_error, Session, give, reads, checked, guard, ◌>>=◌, ◌>>◌,
  read_clock, transaction,
}
use pantheon_legion.Runtime.Repository.{save_work_item, get_latest_work_attempt}
use pantheon_legion.Runtime.Service.{
  check_key, actor_of, actor_document, prior, note, emit, require_work, require_checkpoint,
  require_active_actor, work_lock_keys,
}
use pantheon_legion.Runtime.Service.Delegation.{focused, save_focus}
use pantheon_legion.Runtime.Service.Failing.{abandon}

-- The arguments of `cancel_work`; `workload` is the caller.
pub record Cancelling : Type 0 where
  pub work_item_id : String
  pub centurion_binding_id : String
  pub caller : Principal
  pub reason : String
  pub idempotency_key : String

abbrev cancel_document : Cancelling → ActorRef → Value
cancel_document c actor = obj (
    field "actor" (actor_document actor) (
      field "centurion_binding_id" (str c.centurion_binding_id)
        (field "reason" (str c.reason) (field "work_item_id" (str c.work_item_id) end))))

-- The latest attempt is given up where it is prepared or running.
unfoldable pub abandon_latest : Option WorkAttempt → String → Session (Unit {0})
abandon_latest none now = give tt
abandon_latest (some latest) now =
    if is_over latest.status then give tt else abandon latest "WORK_CANCELLED" now

module _ (p : Ports) where
  unfoldable pub emit_cancelled :
      WorkItem → ActorRef → String → String → Option String → Session (Unit {0})
  emit_cancelled work actor agent_id assignment_id binding_id = emit p (record {
    event_type = "WorkCancelled";
    agent_id = agent_id;
    actor = actor;
    result = "SUCCESS";
    correlation_id = work.correlation_id;
    mission_id = some work.mission_id;
    assignment_id = some assignment_id;
    binding_id = binding_id;
    causation_id = none;
    data_fields = field "work_item_id" (str work.work_item_id) end;
  })

  unfoldable pub write_cancel :
      Cancelling
      → ActorRef
      → String
      → WorkItem
      → AgentRuntimeBinding
      → MissionAssignment
      → AgentIdentity
      → Session WorkItem
  write_cancel c actor fingerprint work binding assignment agent = do
    guard (not (is_final work.status)) (operation_error "WORK_TERMINAL")
    now ← read_clock p
    over ← checked item_fault (record work {
      status = cancelled;
      version = work.version + 1;
      updated_at = now;
      cancelled_at = some now;
      cancellation_reason = some c.reason;
    })
    latest ← reads (get_latest_work_attempt c.work_item_id)
    abandon_latest latest now
    own ← require_checkpoint work.centurion_assignment_id
    theirs ← require_checkpoint work.scout_assignment_id
    save_work_item over (some work.version)
    save_focus own (focused own assess_mission none now)
    save_focus theirs (focused theirs await_work none now)
    emit_cancelled work actor agent.agent_id assignment.assignment_id (some binding.binding_id)
    emit_cancelled work actor work.scout_agent_id work.scout_assignment_id
        (if work.scout_agent_id == agent.agent_id then some binding.binding_id else none)
    note c.work_item_id "CANCEL_WORK" c.idempotency_key fingerprint "work_item" c.work_item_id
    give over

  unfoldable pub cancelled_or_write :
      Cancelling
      → ActorRef
      → String
      → WorkItem
      → AgentRuntimeBinding
      → MissionAssignment
      → AgentIdentity
      → Option IdempotencyRecord
      → Session WorkItem
  cancelled_or_write c actor fingerprint work binding assignment agent none =
      write_cancel c actor fingerprint work binding assignment agent
  cancelled_or_write c actor fingerprint work binding assignment agent (some r) =
      require_work r.resource_id

  -- The body of the transaction of `cancel_work`.
  unfoldable pub cancel_locked : Cancelling → ActorRef → String → Session WorkItem
  cancel_locked c actor fingerprint = do
    work ← require_work c.work_item_id
    (binding, assignment, agent) ←
        require_active_actor c.centurion_binding_id c.caller centurion
          (some work.centurion_assignment_id)
    found ← prior c.work_item_id "CANCEL_WORK" c.idempotency_key fingerprint
    cancelled_or_write c actor fingerprint work binding assignment agent found

  unfoldable pub cancel_work : Cancelling → Session WorkItem
  cancel_work c = do
    check_key c.idempotency_key
    guard (is_utf8_bounded 1024 c.reason) (operation_error "CANCELLATION_REASON_INVALID")
    initial ← require_work c.work_item_id
    actor ← actor_of c.caller
    let fingerprint = p.sha256_json (cancel_document c actor)
    transaction (work_lock_keys initial) (cancel_locked c actor fingerprint)
