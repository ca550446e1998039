-- ===== src/Runtime/Service/Execution.antt =====
-- src/legion_runtime/service.py: the first two transactions of `execute_scout_work`, on either side
-- of the read of the Mission's context.
use pantheon_legion.Base.{
  ℕ, ◌+◌, String, Bool, true, false, ◌&&◌, ◌||◌, not, ◌==◌, Option, none, some, [], ◌∷◌,
  if◌then◌else◌, text_eq, contains,
}
use pantheon_legion.Base.Json.{number, str, end, field}
use pantheon_legion.Base.Text.{show}
use pantheon_legion.Runtime.Checks.{is_given}
use pantheon_legion.Runtime.Agent.{
  scout, ActorRef, AgentIdentity, MissionAssignment, AgentRuntimeBinding,
}
use pantheon_legion.Runtime.Work.{
  running, mission_context, evidence_retrieval, evidence_reread, cognition, cognition_selection,
  AttemptStage, WorkKind, provenance_bound_corpus_analysis, tool_assisted_corpus_analysis,
  cognition_integration_spike, WorkItem, WorkAttempt, WorkResult, is_claimed, is_cancelled,
  is_prepared, is_running, is_read_only, is_grounded, is_provenance_bound, is_spike, same_stage,
}
use pantheon_legion.Runtime.WorkChecks.{attempt_fault}
use pantheon_legion.Runtime.Store.{
  Ports, IdempotencyRecord, operation_error, Session, give, reads, need, checked, guard, ◌>>=◌,
  ◌>>◌, read_clock, transaction,
}
use pantheon_legion.Runtime.Repository.{save_work_attempt, get_work_result, get_latest_work_attempt}
use pantheon_legion.Runtime.Service.{
  Entry, check_key, actor_of, prior, note, emit, require_work, require_work_attempt,
  require_active_actor, work_lock_keys,
}
use pantheon_legion.Runtime.Service.Claims.{ScoutCall, scout_document}

-- `AuthorizedMissionContext`, its texts for the model left out.
pub record MissionContext : Type 0 where
  pub organization_id : String
  pub workspace_id : String
  pub mission_id : String
  pub mission_version : ℕ
  pub mission_status : String
  pub authorization_decision_id : String

-- Which optional parts the runtime was given.
pub record Fitted : Type 0 where
  pub mission_context : Bool
  pub cognition : Bool
  pub cognition_invoker : Bool
  pub evidence_reader : Bool
  pub experimental_driver : Bool

-- What the steps of an execution hand on.
pub record Attempting : Type 0 where
  pub work : WorkItem
  pub binding : AgentRuntimeBinding
  pub assignment : MissionAssignment
  pub agent : AgentIdentity
  pub attempt : WorkAttempt

abbrev pub is_tool_assisted : WorkKind → Bool
is_tool_assisted tool_assisted_corpus_analysis = true
is_tool_assisted _ = false

-- The part that reasons about work of the kind.
has_reasoner : Fitted → WorkKind → Bool
has_reasoner f cognition_integration_spike = true
has_reasoner f tool_assisted_corpus_analysis = f.cognition_invoker
has_reasoner f provenance_bound_corpus_analysis = f.cognition_invoker
has_reasoner f _ = f.cognition

-- The tests on the runtime's parts.
unfoldable pub check_parts : Fitted → WorkKind → Session (Unit {0})
unfolding has_reasoner
check_parts f kind = do
  guard (not (is_spike kind) || f.experimental_driver)
      (operation_error "EXPERIMENTAL_COGNITION_DISABLED")
  guard (has_reasoner f kind) (operation_error "COGNITION_UNAVAILABLE")
  guard (is_read_only kind || f.evidence_reader) (operation_error "GROUNDED_EVIDENCE_UNAVAILABLE")

-- `_work_context_matches`
unfoldable pub work_context_matches : WorkItem → AgentIdentity → MissionContext → Bool
work_context_matches work agent context =
    context.mission_id == work.mission_id
    && context.organization_id == agent.organization_id
    && context.workspace_id == agent.workspace_id
    && not (contains ("CANCELLED" ∷ "COMPLETED" ∷ []) context.mission_status)

-- Where an attempt goes on when the Mission's context is there.
unfoldable pub next_stage : WorkKind → WorkItem → AttemptStage
next_stage kind work =
    if is_tool_assisted kind
    then cognition_selection
    else if is_provenance_bound kind && is_given work.evidence_checkpoint
    then evidence_reread
    else if is_grounded work.kind || is_provenance_bound kind
    then evidence_retrieval
    else cognition

-- An execution that has its result, or a begun attempt.
pub data Begun : Type 0 where
  finished : WorkResult → Begun
  begun : Attempting → Begun

-- The event of an attempt.
unfoldable pub attempt_entry : String → String → ActorRef → Attempting → Entry
attempt_entry event_type result actor a = record {
  event_type = event_type;
  agent_id = a.agent.agent_id;
  actor = actor;
  result = result;
  correlation_id = a.work.correlation_id;
  mission_id = some a.work.mission_id;
  assignment_id = some a.assignment.assignment_id;
  binding_id = some a.binding.binding_id;
  causation_id = none;
  data_fields =
      field "work_item_id" (str a.work.work_item_id)
        (field "attempt_id" (str a.attempt.attempt_id) end);
}

-- What an execution reads again at the beginning of a transaction.
unfoldable pub read_attempting : ScoutCall → String → Session Attempting
read_attempting c attempt_id = do
  work ← require_work c.work_item_id
  attempt ← require_work_attempt attempt_id
  (binding, assignment, agent) ←
      require_active_actor c.scout_binding_id c.caller scout (some work.scout_assignment_id)
  give (record {
    work = work;
    binding = binding;
    assignment = assignment;
    agent = agent;
    attempt = attempt;
  })

module _ (p : Ports) where
  unfoldable pub note_execution :
      ScoutCall → String → WorkAttempt → Option IdempotencyRecord → Session (Unit {0})
  note_execution c fingerprint attempt none =
      note c.work_item_id "EXECUTE_SCOUT_WORK" c.idempotency_key fingerprint "work_attempt"
        attempt.attempt_id
  note_execution c fingerprint attempt (some r) = give tt

  -- A prepared attempt begins with the read of the Mission's context.
  unfoldable pub begin_attempt :
      ScoutCall
      → String
      → Option IdempotencyRecord
      → WorkItem
      → AgentRuntimeBinding
      → MissionAssignment
      → AgentIdentity
      → Session Attempting
  begin_attempt c fingerprint found work binding assignment agent = do
    guard (is_claimed work.status) (operation_error "WORK_NOT_CLAIMED")
    latest ← reads (get_latest_work_attempt c.work_item_id)
    attempt ← need latest (operation_error "WORK_RECONCILIATION_REQUIRED")
    guard (is_prepared attempt.status) (operation_error "WORK_RECONCILIATION_REQUIRED")
    note_execution c fingerprint attempt found
    now ← read_clock p
    first ← checked attempt_fault (record attempt {
      status = running;
      attempt_stage = some mission_context;
      version = attempt.version + 1;
      updated_at = now;
    })
    save_work_attempt first (some attempt.version)
    give (record {
      work = work;
      binding = binding;
      assignment = assignment;
      agent = agent;
      attempt = first;
    })

  -- With the key of an execution that has its result, the result comes back.
  unfoldable pub result_or_begin :
      ScoutCall
      → String
      → WorkItem
      → AgentRuntimeBinding
      → MissionAssignment
      → AgentIdentity
      → Option IdempotencyRecord
      → Option WorkResult
      → Session Begun
  result_or_begin c fingerprint work binding assignment agent (some r) (some result) =
      give (finished result)
  result_or_begin c fingerprint work binding assignment agent (some r) none = do
    a ← begin_attempt c fingerprint (some r) work binding assignment agent
    give (begun a)
  result_or_begin c fingerprint work binding assignment agent none existing = do
    a ← begin_attempt c fingerprint none work binding assignment agent
    give (begun a)

  unfoldable pub begin_locked : ScoutCall → String → Session Begun
  begin_locked c fingerprint = do
    work ← require_work c.work_item_id
    (binding, assignment, agent) ←
        require_active_actor c.scout_binding_id c.caller scout (some work.scout_assignment_id)
    existing ← reads (get_work_result c.work_item_id)
    found ← prior c.work_item_id "EXECUTE_SCOUT_WORK" c.idempotency_key fingerprint
    result_or_begin c fingerprint work binding assignment agent found existing

  -- `execute_scout_work` up to the read of the Mission's context.
  unfoldable pub begin_execution : Fitted → ScoutCall → Session Begun
  begin_execution f c = do
    check_key c.idempotency_key
    guard f.mission_context (operation_error "MISSION_CONTEXT_UNAVAILABLE")
    initial ← require_work c.work_item_id
    check_parts f initial.kind
    actor ← actor_of c.caller
    let fingerprint = p.sha256_json (scout_document c actor)
    transaction (work_lock_keys initial) (begin_locked c fingerprint)

  unfoldable pub request_evidence : WorkKind → ActorRef → Attempting → Session (Unit {0})
  request_evidence kind actor a =
      if is_grounded a.work.kind || is_provenance_bound kind
      then emit p (attempt_entry "GroundedEvidenceRequested" "STARTED" actor a)
      else give tt

  unfoldable pub write_start :
      WorkKind → ActorRef → MissionContext → Attempting → Session Attempting
  write_start kind actor context a = do
    guard (not (is_cancelled a.work.status)) (operation_error "WORK_CANCELLED")
    guard
        (is_claimed a.work.status
          && is_running a.attempt.status
          && same_stage mission_context a.attempt.attempt_stage)
        (operation_error "WORK_RECONCILIATION_REQUIRED")
    now ← read_clock p
    started ← checked attempt_fault (record a.attempt {
      status = running;
      mission_version = some context.mission_version;
      authorization_decision_id = some context.authorization_decision_id;
      attempt_stage = some (next_stage kind a.work);
      version = a.attempt.version + 1;
      updated_at = now;
    })
    save_work_attempt started (some a.attempt.version)
    emit p (record (attempt_entry "WorkAttemptStarted" "SUCCESS" actor a) {
      data_fields = field "work_item_id" (str a.work.work_item_id) (
          field "attempt_id" (str started.attempt_id) (
            field "authorization_decision_id" (str context.authorization_decision_id)
              (field "mission_version" (number (show context.mission_version)) end)));
    })
    request_evidence kind actor a
    give (record a { attempt = started })

  -- The transaction behind the read of the Mission's context.
  unfoldable pub start_attempt :
      ScoutCall → ActorRef → Attempting → MissionContext → Session Attempting
  start_attempt c actor given context = transaction (work_lock_keys given.work) (do
    a ← read_attempting c given.attempt.attempt_id
    write_start given.work.kind actor context a)
