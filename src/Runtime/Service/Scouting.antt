-- ===== src/Runtime/Service/Scouting.antt =====
-- src/legion_runtime/service.py: `execute_scout_work`, composed of its transactions and of what the
-- Mission context, the evidence reader and cognition answer in between. Work that has a session of
-- its own (tools, provenance, the experiment) is a parameter behind its start.
use pantheon_legion.Base.{
  ℕ, String, Bool, true, false, ◌&&◌, ◌||◌, not, ◌==◌, Option, none, some, List, [], map, leb, eqb,
  if◌then◌else◌, text_eq,
}
use pantheon_legion.Base.Lists.{length}
use pantheon_legion.Runtime.Checks.{are_distinct, are_within}
use pantheon_legion.Runtime.Agent.{ActorRef}
use pantheon_legion.Runtime.Work.{
  WorkKind, read_only_analysis, grounded_corpus_analysis, WorkResult, WorkEvidenceReference,
  is_read_only,
}
use pantheon_legion.Runtime.WorkChecks.{result_digest, result_fault}
use pantheon_legion.Runtime.Store.{
  Ports, operation_error, Session, give, refuse, ◌>>=◌, ◌>>◌, draw_id, read_clock,
}
use pantheon_legion.Runtime.Service.{Answer, granted, unavailable, denied, actor_of}
use pantheon_legion.Runtime.Service.Claims.{ScoutCall}
use pantheon_legion.Runtime.Service.Execution.{
  MissionContext, Fitted, Attempting, Begun, finished, begun, work_context_matches, begin_execution,
  start_attempt,
}
use pantheon_legion.Runtime.Service.Evidence.{
  Reading, evidence, reading_unavailable, reading_denied, reading_failed, reading_crashed,
  may_request, new_references, record_evidence,
}
use pantheon_legion.Runtime.Service.Failing.{fail_work_attempt}
use pantheon_legion.Runtime.Service.Finishing.{finish_attempt}

-- `AgentCognitionResult`
pub record CognitionResult : Type 0 where
  pub request_id : String
  pub agent_id : String
  pub work_item_id : String
  pub attempt_id : String
  pub mission_id : String
  pub mission_version : ℕ
  pub summary : String
  pub evidence_references : List String

-- What cognition ends in: a result, `CognitionRejected`, `CognitionUnavailable`, another exception.
pub data Thought : Type 0 where
  thought : CognitionResult → Thought
  thought_rejected thought_unavailable : String → Thought
  thought_crashed : Thought

-- `_cognition_result_matches`, for the request that the runtime makes.
unfoldable pub cognition_result_matches : Attempting → MissionContext → CognitionResult → Bool
cognition_result_matches a context r =
    r.request_id == a.attempt.attempt_id
    && r.agent_id == a.agent.agent_id
    && r.work_item_id == a.work.work_item_id
    && r.attempt_id == a.attempt.attempt_id
    && r.mission_id == a.work.mission_id
    && eqb r.mission_version context.mission_version

-- Grounded work cites between one and eight distinct references, of those that it was given.
unfoldable pub cites_properly : WorkKind → List String → List String → Bool
cites_properly kind allowed cited =
    is_read_only kind
    || leb 1 (length cited)
      && leb (length cited) 8
      && are_distinct cited
      && are_within cited allowed

-- The ports of one execution.
pub record Scouts : Type 0 where
  pub context : Attempting → Answer MissionContext
  pub reader : Attempting → Reading
  pub cognition : Attempting → List WorkEvidenceReference → Thought
  pub session : Attempting → MissionContext → Session WorkResult

module _ (p : Ports) where
  -- The attempt fails with the code, and the call with the same.
  unfoldable pub give_up : {A : Type 0} → Attempting → ActorRef → String → Bool → Session A
  give_up a actor code is_retryable = do
    fail_work_attempt p a.work a.attempt actor code is_retryable
    refuse (operation_error code)

  unfoldable pub accepted_or_cancelled : Option WorkResult → Session WorkResult
  accepted_or_cancelled none = refuse (operation_error "WORK_CANCELLED")
  accepted_or_cancelled (some r) = give r

  -- The `WorkResult` of what cognition returned.
  unfoldable pub result_of :
      Attempting → MissionContext → CognitionResult → String → String → WorkResult
  result_of a context t id now = record {
    result_id = id;
    work_item_id = a.work.work_item_id;
    attempt_id = a.attempt.attempt_id;
    scout_agent_id = a.agent.agent_id;
    scout_binding_id = a.binding.binding_id;
    mission_version = context.mission_version;
    summary = t.summary;
    evidence_references = t.evidence_references;
    content_digest = result_digest p.sha256_text t.summary t.evidence_references;
    produced_at = now;
  }

  unfoldable pub accept_result :
      ActorRef → Attempting → WorkResult → Option String → Session WorkResult
  accept_result actor a r (some fault) = give_up a actor "COGNITION_RESULT_INVALID" false
  accept_result actor a r none = do end ← finish_attempt p a.work r actor; accepted_or_cancelled end

  unfoldable pub conclude_attempt :
      ActorRef → Attempting → MissionContext → CognitionResult → Session WorkResult
  conclude_attempt actor a context t = do
    id ← draw_id p
    now ← read_clock p
    let r = result_of a context t id now
    accept_result actor a r (result_fault p.sha256_text r)

  unfoldable pub judge_thought :
      ActorRef → Attempting → MissionContext → List String → Thought → Session WorkResult
  judge_thought actor a context allowed (thought_rejected code) = give_up a actor code false
  judge_thought actor a context allowed (thought_unavailable code) = give_up a actor code true
  judge_thought actor a context allowed thought_crashed =
      give_up a actor "COGNITION_UNAVAILABLE" true
  judge_thought actor a context allowed (thought t) =
      if not (cognition_result_matches a context t)
      then give_up a actor "COGNITION_IDENTITY_MISMATCH" false
      else if not (cites_properly a.work.kind allowed t.evidence_references)
      then give_up a actor "COGNITION_EVIDENCE_REFERENCES_INVALID" false
      else conclude_attempt actor a context t

  unfoldable pub think :
      Scouts
      → ActorRef
      → MissionContext
      → Attempting
      → List WorkEvidenceReference
      → Session WorkResult
  think o actor context a references =
      judge_thought actor a context
        (map (λ (r : WorkEvidenceReference). r.evidence_reference_id) references)
        (o.cognition a references)

  unfoldable pub use_reading :
      Scouts → ScoutCall → ActorRef → MissionContext → Attempting → Reading → Session WorkResult
  use_reading o c actor context a (reading_unavailable code) = give_up a actor code true
  use_reading o c actor context a (reading_denied code) = give_up a actor code false
  use_reading o c actor context a (reading_failed code is_retryable) =
      give_up a actor code is_retryable
  use_reading o c actor context a reading_crashed =
      give_up a actor "GROUNDED_EVIDENCE_UNAVAILABLE" true
  use_reading o c actor context a (evidence bundle) = do
    references ← new_references p a bundle bundle.records
    next ← record_evidence p c actor a bundle references
    think o actor context (record next { work = a.work }) references

  -- The work of a started attempt, by its kind.
  unfoldable pub run_kind :
      Scouts → ScoutCall → ActorRef → MissionContext → Attempting → WorkKind → Session WorkResult
  run_kind o c actor context a read_only_analysis = think o actor context a []
  run_kind o c actor context a grounded_corpus_analysis =
      use_reading o c actor context a (if may_request a then o.reader a else reading_crashed)
  run_kind o c actor context a _ = o.session a context

  unfoldable pub use_context :
      Scouts → ScoutCall → ActorRef → Attempting → Answer MissionContext → Session WorkResult
  use_context o c actor a (unavailable code) = give_up a actor code true
  use_context o c actor a (denied code) = give_up a actor code false
  use_context o c actor a (granted context) =
      if not (work_context_matches a.work a.agent context)
      then give_up a actor "SCOPE_MISMATCH" false
      else (do
        started ← start_attempt p c actor a context
        let next = record started { work = a.work }
        run_kind o c actor context next a.work.kind)

  unfoldable pub run_begun : Scouts → ScoutCall → ActorRef → Begun → Session WorkResult
  run_begun o c actor (finished existing) = give existing
  run_begun o c actor (begun a) = use_context o c actor a (o.context a)

  unfoldable pub execute_scout_work : Fitted → Scouts → ScoutCall → Session WorkResult
  execute_scout_work f o c = do
    first ← begin_execution p f c
    actor ← actor_of c.caller
    run_begun o c actor first
