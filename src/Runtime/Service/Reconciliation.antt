-- ===== src/Runtime/Service/Reconciliation.antt =====
-- src/legion_runtime/service.py: `reconcile_work`, which gives up an attempt whose outcome is not
-- known.
use pantheon_legion.Base.{◌+◌, String, Option, none, some, if◌then◌else◌, text_eq}
use pantheon_legion.Base.Json.{str, end, field}
use pantheon_legion.Runtime.Agent.{
  scout, ActorRef, AgentIdentity, MissionAssignment, AgentRuntimeBinding,
}
use pantheon_legion.Runtime.Work.{
  AttemptStage, mission_context, evidence_retrieval, evidence_reread, cognition,
  cognition_selection, cognition_initial, tool_requested, cognition_continuation, retryable,
  WorkItem, WorkAttempt, is_final, is_running,
}
use pantheon_legion.Runtime.WorkChecks.{item_fault}
use pantheon_legion.Runtime.Store.{
  Ports, IdempotencyRecord, Session, give, reads, checked, ◌>>=◌, ◌>>◌, read_clock, transaction,
}
use pantheon_legion.Runtime.Repository.{save_work_item, get_latest_work_attempt}
use pantheon_legion.Runtime.Service.{
  check_key, actor_of, prior, note, emit, require_work, require_active_actor, work_lock_keys,
}
use pantheon_legion.Runtime.Service.Claims.{ScoutCall, scout_document}
use pantheon_legion.Runtime.Service.Execution.{Attempting, attempt_entry}
use pantheon_legion.Runtime.Service.Failing.{abandon}

-- The stage at which the outcome was lost.
unfoldable pub ambiguous_code : Option AttemptStage → String
ambiguous_code (some mission_context) = "AMBIGUOUS_MISSION_CONTEXT_READ"
ambiguous_code (some evidence_retrieval) = "AMBIGUOUS_EVIDENCE_RETRIEVAL"
ambiguous_code (some evidence_reread) = "AMBIGUOUS_EVIDENCE_REREAD"
ambiguous_code (some cognition) = "AMBIGUOUS_COGNITION_OUTCOME"
ambiguous_code (some cognition_selection) = "AMBIGUOUS_COGNITION_SELECTION"
ambiguous_code (some cognition_initial) = "AMBIGUOUS_COGNITION_INVOCATION"
ambiguous_code (some tool_requested) = "AMBIGUOUS_TOOL_REQUEST"
ambiguous_code (some cognition_continuation) = "AMBIGUOUS_COGNITION_CONTINUATION"
ambiguous_code none = "AMBIGUOUS_COGNITION_OUTCOME"

module _ (p : Ports) where
  unfoldable pub write_recovery : ActorRef → Attempting → Session WorkItem
  write_recovery actor a = do
    now ← read_clock p
    abandon a.attempt (ambiguous_code a.attempt.attempt_stage) now
    next ←
        checked item_fault
          (record a.work { status = retryable; version = a.work.version + 1; updated_at = now })
    save_work_item next (some a.work.version)
    emit p (record (attempt_entry "WorkRecoveryBlocked" "RETRYABLE" actor a) {
      data_fields = field "work_item_id" (str a.work.work_item_id) (
          field "attempt_id" (str a.attempt.attempt_id)
            (field "error_code" (str (ambiguous_code a.attempt.attempt_stage)) end));
    })
    give next

  -- Work without a running attempt stays as it is.
  unfoldable pub recover_latest :
      ActorRef
      → WorkItem
      → AgentRuntimeBinding
      → MissionAssignment
      → AgentIdentity
      → Option WorkAttempt
      → Session WorkItem
  recover_latest actor work binding assignment agent none = give work
  recover_latest actor work binding assignment agent (some attempt) =
      if is_running attempt.status
      then write_recovery actor (record {
        work = work;
        binding = binding;
        assignment = assignment;
        agent = agent;
        attempt = attempt;
      })
      else give work

  unfoldable pub recover_open :
      ActorRef
      → WorkItem
      → AgentRuntimeBinding
      → MissionAssignment
      → AgentIdentity
      → Session WorkItem
  recover_open actor work binding assignment agent = if is_final work.status then give work else (do
    latest ← reads (get_latest_work_attempt work.work_item_id)
    recover_latest actor work binding assignment agent latest)

  unfoldable pub reconciled_or_write :
      ScoutCall
      → ActorRef
      → String
      → WorkItem
      → AgentRuntimeBinding
      → MissionAssignment
      → AgentIdentity
      → Option IdempotencyRecord
      → Session WorkItem
  reconciled_or_write c actor fingerprint work binding assignment agent (some r) =
      require_work r.resource_id
  reconciled_or_write c actor fingerprint work binding assignment agent none = do
    reconciled ← recover_open actor work binding assignment agent
    note c.work_item_id "RECONCILE_WORK" c.idempotency_key fingerprint "work_item" c.work_item_id
    give reconciled

  -- The body of the transaction of `reconcile_work`.
  unfoldable pub reconcile_locked : ScoutCall → ActorRef → String → Session WorkItem
  reconcile_locked c actor fingerprint = do
    work ← require_work c.work_item_id
    (binding, assignment, agent) ←
        require_active_actor c.scout_binding_id c.caller scout (some work.scout_assignment_id)
    found ← prior c.work_item_id "RECONCILE_WORK" c.idempotency_key fingerprint
    reconciled_or_write c actor fingerprint work binding assignment agent found

  unfoldable pub reconcile_work : ScoutCall → Session WorkItem
  reconcile_work c = do
    check_key c.idempotency_key
    initial ← require_work c.work_item_id
    actor ← actor_of c.caller
    let fingerprint = p.sha256_json (scout_document c actor)
    transaction (work_lock_keys initial) (reconcile_locked c actor fingerprint)
