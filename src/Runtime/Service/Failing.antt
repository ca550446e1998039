-- ===== src/Runtime/Service/Failing.antt =====
-- src/legion_runtime/service.py: `_fail_work_attempt`.
use pantheon_legion.Base.{
  ◌+◌, String, Bool, true, false, ◌&&◌, ◌||◌, none, some, if◌then◌else◌, text_eq,
}
use pantheon_legion.Base.Json.{str, end, field}
use pantheon_legion.Runtime.Agent.{ActorRef, assess_mission, await_work, execute_work}
use pantheon_legion.Runtime.Work.{
  retryable, work_failed, attempt_failed, abandoned, evidence_retrieval, evidence_reread, WorkItem,
  WorkAttempt, is_cancelled, is_over, is_grounded, is_provenance_bound, same_stage,
}
use pantheon_legion.Runtime.WorkChecks.{item_fault, attempt_fault}
use pantheon_legion.Runtime.Store.{
  Ports, Session, give, checked, ◌>>=◌, ◌>>◌, read_clock, transaction,
}
use pantheon_legion.Runtime.Repository.{save_work_item, save_work_attempt}
use pantheon_legion.Runtime.Service.{
  Entry, emit, require_work, require_work_attempt, require_checkpoint, work_lock_keys,
}
use pantheon_legion.Runtime.Service.Delegation.{focused, save_focus}

-- An attempt whose work was cancelled is given up.
unfoldable pub abandon : WorkAttempt → String → String → Session (Unit {0})
abandon attempt code now = do
  gone ← checked attempt_fault (record attempt {
    status = abandoned;
    error_code = some code;
    version = attempt.version + 1;
    updated_at = now;
  })
  save_work_attempt gone (some attempt.version)

abbrev pub outcome_text : Bool → String
outcome_text is_retryable = if is_retryable then "RETRYABLE" else "FAILED"

module _ (p : Ports) where
  unfoldable pub failure_entry : String → WorkItem → WorkAttempt → ActorRef → String → Bool → Entry
  failure_entry event_type work attempt actor code is_retryable = record {
    event_type = event_type;
    agent_id = work.scout_agent_id;
    actor = actor;
    result = outcome_text is_retryable;
    correlation_id = work.correlation_id;
    mission_id = some work.mission_id;
    assignment_id = some work.scout_assignment_id;
    binding_id = some attempt.scout_binding_id;
    causation_id = none;
    data_fields =
        field "work_item_id" (str work.work_item_id)
          (field "attempt_id" (str attempt.attempt_id) (field "error_code" (str code) end));
  }

  unfoldable pub free_centurion : WorkItem → String → String → Bool → Session (Unit {0})
  free_centurion work code now true = give tt
  free_centurion work code now false = do
    own ← require_checkpoint work.centurion_assignment_id
    save_focus own (record (focused own assess_mission none now) { last_error_code = some code })

  unfoldable pub evidence_failed :
      WorkItem → WorkAttempt → ActorRef → String → Bool → Session (Unit {0})
  evidence_failed work attempt actor code is_retryable =
      if (is_grounded work.kind || is_provenance_bound work.kind)
        && (same_stage evidence_retrieval attempt.attempt_stage
            || same_stage evidence_reread attempt.attempt_stage)
      then emit p (failure_entry "GroundedEvidenceFailed" work attempt actor code is_retryable)
      else give tt

  unfoldable pub write_failure :
      WorkItem → WorkAttempt → ActorRef → String → Bool → String → Session (Unit {0})
  write_failure work attempt actor code is_retryable now = do
    lost ← checked attempt_fault (record attempt {
      status = attempt_failed;
      error_code = some code;
      version = attempt.version + 1;
      updated_at = now;
    })
    save_work_attempt lost (some attempt.version)
    next ← checked item_fault (record work {
      status = if is_retryable then retryable else work_failed;
      version = work.version + 1;
      updated_at = now;
    })
    save_work_item next (some work.version)
    theirs ← require_checkpoint work.scout_assignment_id
    save_focus theirs
        (record (focused theirs (if is_retryable then execute_work else await_work)
          (if is_retryable then some work.work_item_id else none) now) {
            last_error_code = some code;
          })
    free_centurion work code now is_retryable
    emit p (failure_entry "WorkAttemptFailed" work attempt actor code is_retryable)
    evidence_failed work attempt actor code is_retryable

  unfoldable pub fail_open : WorkItem → WorkAttempt → ActorRef → String → Bool → Session (Unit {0})
  fail_open work attempt actor code is_retryable = do
    now ← read_clock p
    if is_cancelled work.status
        then abandon attempt "WORK_CANCELLED" now
        else write_failure work attempt actor code is_retryable now

  unfoldable pub fail_locked :
      WorkItem → WorkAttempt → ActorRef → String → Bool → Session (Unit {0})
  fail_locked given_work given_attempt actor code is_retryable = do
    work ← require_work given_work.work_item_id
    attempt ← require_work_attempt given_attempt.attempt_id
    if is_over attempt.status then give tt else fail_open work attempt actor code is_retryable

  -- `_fail_work_attempt`
  unfoldable pub fail_work_attempt :
      WorkItem → WorkAttempt → ActorRef → String → Bool → Session (Unit {0})
  fail_work_attempt work attempt actor code is_retryable =
      transaction (work_lock_keys work) (fail_locked work attempt actor code is_retryable)
