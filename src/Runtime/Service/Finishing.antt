-- ===== src/Runtime/Service/Finishing.antt =====
-- src/legion_runtime/service.py: the last transaction of `execute_scout_work`, without a session of
-- its own, and `_result_events`.
use pantheon_legion.Base.{◌+◌, String, ◌&&◌, Option, none, some, if◌then◌else◌, text_eq}
use pantheon_legion.Base.Json.{Fields, number, str, end, field}
use pantheon_legion.Base.Lists.{length}
use pantheon_legion.Base.Text.{show}
use pantheon_legion.Runtime.Agent.{ActorRef, await_work, assess_work_result}
use pantheon_legion.Runtime.Work.{
  completed, succeeded, WorkItem, WorkAttempt, WorkResult, is_claimed, is_cancelled, is_running,
}
use pantheon_legion.Runtime.WorkChecks.{item_fault, attempt_fault}
use pantheon_legion.Runtime.Store.{
  Ports, operation_error, Session, give, reads, checked, guard, ◌>>=◌, ◌>>◌, read_clock,
  transaction,
}
use pantheon_legion.Runtime.Repository.{
  save_work_item, save_work_attempt, save_work_result, get_work_result,
}
use pantheon_legion.Runtime.Service.{
  emit, require_work, require_work_attempt, require_checkpoint, work_lock_keys,
}
use pantheon_legion.Runtime.Service.Delegation.{focused, save_focus}
use pantheon_legion.Runtime.Service.Failing.{abandon}

result_fields : WorkItem → WorkResult → Fields
result_fields work r = field "work_item_id" (str work.work_item_id) (
    field "attempt_id" (str r.attempt_id) (
      field "result_id" (str r.result_id) (
        field "content_digest" (str r.content_digest)
          (field "evidence_reference_count" (number (show (length r.evidence_references))) end))))

module _ (p : Ports) where
  -- `_result_events`
  unfoldable pub result_events : WorkItem → WorkResult → ActorRef → Session (Unit {0})
  unfolding result_fields
  result_events work r actor = do
    emit p (record {
      event_type = "WorkResultAvailable";
      agent_id = work.centurion_agent_id;
      actor = actor;
      result = "SUCCESS";
      correlation_id = work.correlation_id;
      mission_id = some work.mission_id;
      assignment_id = some work.centurion_assignment_id;
      binding_id = none;
      causation_id = none;
      data_fields = result_fields work r;
    })
    emit p (record {
      event_type = "WorkResultAccepted";
      agent_id = work.scout_agent_id;
      actor = actor;
      result = "SUCCESS";
      correlation_id = work.correlation_id;
      mission_id = some work.mission_id;
      assignment_id = some work.scout_assignment_id;
      binding_id = some r.scout_binding_id;
      causation_id = none;
      data_fields = result_fields work r;
    })

  unfoldable pub write_result :
      WorkItem → WorkAttempt → WorkResult → ActorRef → String → Session (Option WorkResult)
  write_result work attempt r actor now = do
    guard (is_claimed work.status && is_running attempt.status)
        (operation_error "WORK_RECONCILIATION_REQUIRED")
    own ← require_checkpoint work.centurion_assignment_id
    theirs ← require_checkpoint work.scout_assignment_id
    save_work_result r
    won ←
        checked attempt_fault
          (record attempt { status = succeeded; version = attempt.version + 1; updated_at = now })
    save_work_attempt won (some attempt.version)
    over ←
        checked item_fault
          (record work { status = completed; version = work.version + 1; updated_at = now })
    save_work_item over (some work.version)
    save_focus theirs (focused theirs await_work none now)
    save_focus own (focused own assess_work_result (some work.work_item_id) now)
    result_events work r actor
    give (some r)

  -- Cancelled work takes no result; its running attempt is given up.
  unfoldable pub drop_result : WorkAttempt → String → Session (Option WorkResult)
  drop_result attempt now =
      if is_running attempt.status
      then (do abandon attempt "WORK_CANCELLED" now; give none)
      else give none

  unfoldable pub finish_open :
      WorkItem
      → WorkAttempt
      → WorkResult
      → ActorRef
      → Option WorkResult
      → Session (Option WorkResult)
  finish_open work attempt r actor (some existing) = give (some existing)
  finish_open work attempt r actor none = do
    now ← read_clock p
    if is_cancelled work.status
        then drop_result attempt now
        else write_result work attempt r actor now

  unfoldable pub finish_locked : WorkResult → ActorRef → Session (Option WorkResult)
  finish_locked r actor = do
    work ← require_work r.work_item_id
    attempt ← require_work_attempt r.attempt_id
    existing ← reads (get_work_result r.work_item_id)
    finish_open work attempt r actor existing

  -- The transaction that accepts a result; `none` is that the work was cancelled.
  unfoldable pub finish_attempt : WorkItem → WorkResult → ActorRef → Session (Option WorkResult)
  finish_attempt work r actor = transaction (work_lock_keys work) (finish_locked r actor)
