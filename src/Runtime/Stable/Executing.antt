-- ===== src/Runtime/Stable/Executing.antt =====
-- `execute_scout_work` and its transactions keep every stable predicate.
use pantheon_legion.Base.{String, Bool, Option, none, some, List, [], ◌∷◌, text_eq}
use pantheon_legion.Runtime.Agent.{ActorRef, AgentIdentity, MissionAssignment, AgentRuntimeBinding}
use pantheon_legion.Runtime.Work.{
  WorkItem, WorkAttempt, WorkResult, WorkEvidenceReference, WorkKind, read_only_analysis,
  grounded_corpus_analysis, provenance_bound_corpus_analysis, tool_assisted_corpus_analysis,
  cognition_integration_spike,
}
use pantheon_legion.Runtime.Store.{Ports, Tables, IdempotencyRecord}
use pantheon_legion.Runtime.Service.{Answer, granted, unavailable, denied}
use pantheon_legion.Runtime.Service.Claims.{ScoutCall}
use pantheon_legion.Runtime.Service.Delegation.{focused}
use pantheon_legion.Runtime.Service.Execution.{
  MissionContext, Fitted, Attempting, Begun, finished, begun, check_parts, note_execution,
  begin_attempt, result_or_begin, begin_locked, begin_execution, request_evidence, write_start,
  read_attempting, start_attempt,
}
use pantheon_legion.Runtime.Service.Finishing.{
  result_events, write_result, drop_result, finish_open, finish_locked, finish_attempt,
}
use pantheon_legion.Runtime.Service.Evidence.{
  Bundle, EvidenceRecord, Reading, evidence, reading_unavailable, reading_denied, reading_failed,
  reading_crashed, save_references, new_reference, new_references, write_references,
  record_evidence,
}
use pantheon_legion.Runtime.Service.Scouting.{
  Thought, thought, thought_rejected, thought_unavailable, thought_crashed, Scouts, give_up,
  accepted_or_cancelled, accept_result, conclude_attempt, judge_thought, think, use_reading,
  run_kind, use_context, run_begun, execute_scout_work,
}
use pantheon_legion.Runtime.Stable.{
  Stable, Keeps, give-Keeps, refuse-Keeps, bind-Keeps, accept-Keeps,
}
use pantheon_legion.Runtime.Stable.Writes.{save_work_evidence_reference-Keeps}
use pantheon_legion.Runtime.Stable.Basics.{note-Keeps}
use pantheon_legion.Runtime.Stable.Working.{working, fail_work_attempt-Keeps}

module _ {P : Tables → Type 0} where
  check_parts-Keeps : (f : Fitted) (kind : WorkKind) → Keeps P (check_parts f kind)
  unfolding check_parts
  check_parts-Keeps f kind = search working depth 12

  read_attempting-Keeps : (c : ScoutCall) (id : String) → Keeps P (read_attempting c id)
  unfolding read_attempting
  read_attempting-Keeps c id = search working depth 12

module _ {P : Tables → Type 0} (S : Stable P) (p : Ports) where
  note_execution-Keeps :
      (c : ScoutCall) (fingerprint : String) (a : WorkAttempt) (found : Option IdempotencyRecord)
      → Keeps P (note_execution p c fingerprint a found)
  unfolding note_execution
  note_execution-Keeps c fingerprint a none = note-Keeps S _ _ _ _ _ _
  note_execution-Keeps c fingerprint a (some r) = give-Keeps tt

  begin_attempt-Keeps :
      (c : ScoutCall) (fingerprint : String) (found : Option IdempotencyRecord) (w : WorkItem)
      (b : AgentRuntimeBinding) (a : MissionAssignment) (agent : AgentIdentity)
      → Keeps P (begin_attempt p c fingerprint found w b a agent)
  unfolding begin_attempt
  begin_attempt-Keeps c fingerprint found w b a agent =
      search (working, note_execution-Keeps) depth 20

  result_or_begin-Keeps :
      (c : ScoutCall) (fingerprint : String) (w : WorkItem) (b : AgentRuntimeBinding)
      (a : MissionAssignment) (agent : AgentIdentity) (found : Option IdempotencyRecord)
      (existing : Option WorkResult)
      → Keeps P (result_or_begin p c fingerprint w b a agent found existing)
  unfolding result_or_begin
  result_or_begin-Keeps c fingerprint w b a agent (some r) (some e) = give-Keeps _
  result_or_begin-Keeps c fingerprint w b a agent (some r) none =
      search (working, begin_attempt-Keeps)
  result_or_begin-Keeps c fingerprint w b a agent none e = search (working, begin_attempt-Keeps)

  begin_locked-Keeps :
      (c : ScoutCall) (fingerprint : String) → Keeps P (begin_locked p c fingerprint)
  unfolding begin_locked
  begin_locked-Keeps c fingerprint = search (working, result_or_begin-Keeps) depth 12

  pub begin_execution-Keeps : (f : Fitted) (c : ScoutCall) → Keeps P (begin_execution p f c)
  unfolding begin_execution
  begin_execution-Keeps f c = search (working, check_parts-Keeps, begin_locked-Keeps) depth 14

  request_evidence-Keeps :
      (kind : WorkKind) (actor : ActorRef) (a : Attempting)
      → Keeps P (request_evidence p kind actor a)
  unfolding request_evidence
  request_evidence-Keeps kind actor a = search working

  write_start-Keeps :
      (kind : WorkKind) (actor : ActorRef) (context : MissionContext) (a : Attempting)
      → Keeps P (write_start p kind actor context a)
  unfolding write_start
  write_start-Keeps kind actor context a = search (working, request_evidence-Keeps) depth 20

  pub start_attempt-Keeps :
      (c : ScoutCall) (actor : ActorRef) (a : Attempting) (context : MissionContext)
      → Keeps P (start_attempt p c actor a context)
  unfolding start_attempt
  start_attempt-Keeps c actor a context =
      search (working, read_attempting-Keeps, write_start-Keeps) depth 8

  result_events-Keeps :
      (w : WorkItem) (r : WorkResult) (actor : ActorRef) → Keeps P (result_events p w r actor)
  unfolding result_events
  result_events-Keeps w r actor = search working

  write_result-Keeps :
      (w : WorkItem) (a : WorkAttempt) (r : WorkResult) (actor : ActorRef) (now : String)
      → Keeps P (write_result p w a r actor now)
  unfolding write_result focused
  write_result-Keeps w a r actor now = search (working, result_events-Keeps) depth 24

  drop_result-Keeps : (a : WorkAttempt) (now : String) → Keeps P (drop_result p a now)
  unfolding drop_result
  drop_result-Keeps a now = search working depth 8

  finish_open-Keeps :
      (w : WorkItem) (a : WorkAttempt) (r : WorkResult) (actor : ActorRef)
      (existing : Option WorkResult)
      → Keeps P (finish_open p w a r actor existing)
  unfolding finish_open
  finish_open-Keeps w a r actor (some e) = give-Keeps _
  finish_open-Keeps w a r actor none =
      search (working, drop_result-Keeps, write_result-Keeps) depth 8

  finish_locked-Keeps : (r : WorkResult) (actor : ActorRef) → Keeps P (finish_locked p r actor)
  unfolding finish_locked
  finish_locked-Keeps r actor = search (working, finish_open-Keeps) depth 8

  pub finish_attempt-Keeps :
      (w : WorkItem) (r : WorkResult) (actor : ActorRef) → Keeps P (finish_attempt p w r actor)
  unfolding finish_attempt
  finish_attempt-Keeps w r actor = search (working, finish_locked-Keeps)

  save_references-Keeps : (rs : List WorkEvidenceReference) → Keeps P (save_references rs)
  unfolding save_references
  save_references-Keeps [] = give-Keeps tt
  save_references-Keeps (r ∷ rs) =
      bind-Keeps _ _ (save_work_evidence_reference-Keeps S r) (λ _. save_references-Keeps rs)

  new_reference-Keeps :
      (a : Attempting) (b : Bundle) (r : EvidenceRecord) → Keeps P (new_reference p a b r)
  unfolding new_reference
  new_reference-Keeps a b r = search (working, accept-Keeps) depth 8

  new_references-Keeps :
      (a : Attempting) (b : Bundle) (rs : List EvidenceRecord) → Keeps P (new_references p a b rs)
  unfolding new_references
  new_references-Keeps a b [] = give-Keeps []
  new_references-Keeps a b (r ∷ rs) =
      bind-Keeps _ _ (new_reference-Keeps a b r)
        (λ first. bind-Keeps _ _ (new_references-Keeps a b rs) (λ rest. give-Keeps _))

  write_references-Keeps :
      (actor : ActorRef) (expected : WorkAttempt) (b : Bundle) (rs : List WorkEvidenceReference)
      (a : Attempting)
      → Keeps P (write_references p actor expected b rs a)
  unfolding write_references
  write_references-Keeps actor expected b rs a = search (working, save_references-Keeps) depth 20

  pub record_evidence-Keeps :
      (c : ScoutCall) (actor : ActorRef) (a : Attempting) (b : Bundle)
      (rs : List WorkEvidenceReference)
      → Keeps P (record_evidence p c actor a b rs)
  unfolding record_evidence
  record_evidence-Keeps c actor a b rs =
      search (working, read_attempting-Keeps, write_references-Keeps) depth 8

  give_up-Keeps :
      {A : Type 0} (a : Attempting) (actor : ActorRef) (code : String) (is_retryable : Bool)
      → Keeps P (give_up p {A = A} a actor code is_retryable)
  unfolding give_up
  give_up-Keeps a actor code is_retryable = search (working, fail_work_attempt-Keeps)

  accepted_or_cancelled-Keeps : (r : Option WorkResult) → Keeps P (accepted_or_cancelled p r)
  unfolding accepted_or_cancelled
  accepted_or_cancelled-Keeps none = refuse-Keeps _
  accepted_or_cancelled-Keeps (some r) = give-Keeps r

  accept_result-Keeps :
      (actor : ActorRef) (a : Attempting) (r : WorkResult) (fault : Option String)
      → Keeps P (accept_result p actor a r fault)
  unfolding accept_result
  accept_result-Keeps actor a r (some fault) = give_up-Keeps _ _ _ _
  accept_result-Keeps actor a r none =
      search (working, finish_attempt-Keeps, accepted_or_cancelled-Keeps)

  judge_thought-Keeps :
      (actor : ActorRef) (a : Attempting) (context : MissionContext) (allowed : List String)
      (t : Thought)
      → Keeps P (judge_thought p actor a context allowed t)
  unfolding judge_thought conclude_attempt
  judge_thought-Keeps actor a context allowed (thought_rejected code) = give_up-Keeps _ _ _ _
  judge_thought-Keeps actor a context allowed (thought_unavailable code) = give_up-Keeps _ _ _ _
  judge_thought-Keeps actor a context allowed thought_crashed = give_up-Keeps _ _ _ _
  judge_thought-Keeps actor a context allowed (thought t) =
      search (working, give_up-Keeps, accept_result-Keeps) depth 12

  think-Keeps :
      (o : Scouts) (actor : ActorRef) (context : MissionContext) (a : Attempting)
      (rs : List WorkEvidenceReference)
      → Keeps P (think p o actor context a rs)
  unfolding think
  think-Keeps o actor context a rs = judge_thought-Keeps _ _ _ _ _

  use_reading-Keeps :
      (o : Scouts) (c : ScoutCall) (actor : ActorRef) (context : MissionContext) (a : Attempting)
      (r : Reading)
      → Keeps P (use_reading p o c actor context a r)
  unfolding use_reading
  use_reading-Keeps o c actor context a (reading_unavailable code) = give_up-Keeps _ _ _ _
  use_reading-Keeps o c actor context a (reading_denied code) = give_up-Keeps _ _ _ _
  use_reading-Keeps o c actor context a (reading_failed code again) = give_up-Keeps _ _ _ _
  use_reading-Keeps o c actor context a reading_crashed = give_up-Keeps _ _ _ _
  use_reading-Keeps o c actor context a (evidence b) =
      search (working, new_references-Keeps, record_evidence-Keeps, think-Keeps) depth 8

-- A session of its own, which is not modelled, must keep the predicate too.
module _ {P : Tables → Type 0} (S : Stable P) (p : Ports) (o : Scouts)
    (session-Keeps : (a : Attempting) (context : MissionContext)
      → Keeps P (o.session a context)) where
  run_kind-Keeps :
      (c : ScoutCall) (actor : ActorRef) (context : MissionContext) (a : Attempting)
      (kind : WorkKind)
      → Keeps P (run_kind p o c actor context a kind)
  unfolding run_kind
  run_kind-Keeps c actor context a read_only_analysis = think-Keeps S p o actor context a []
  run_kind-Keeps c actor context a grounded_corpus_analysis =
      use_reading-Keeps S p o c actor context a _
  run_kind-Keeps c actor context a provenance_bound_corpus_analysis = session-Keeps a context
  run_kind-Keeps c actor context a tool_assisted_corpus_analysis = session-Keeps a context
  run_kind-Keeps c actor context a cognition_integration_spike = session-Keeps a context

  use_context-Keeps :
      (c : ScoutCall) (actor : ActorRef) (a : Attempting) (answer : Answer MissionContext)
      → Keeps P (use_context p o c actor a answer)
  unfolding use_context
  use_context-Keeps c actor a (unavailable code) = give_up-Keeps S p _ _ _ _
  use_context-Keeps c actor a (denied code) = give_up-Keeps S p _ _ _ _
  use_context-Keeps c actor a (granted context) =
      search (working, give_up-Keeps, start_attempt-Keeps, run_kind-Keeps) depth 8

  run_begun-Keeps :
      (c : ScoutCall) (actor : ActorRef) (first : Begun) → Keeps P (run_begun p o c actor first)
  unfolding run_begun
  run_begun-Keeps c actor (finished e) = give-Keeps e
  run_begun-Keeps c actor (begun a) = use_context-Keeps c actor a _

  pub execute_scout_work-Keeps : (f : Fitted) (c : ScoutCall) → Keeps P (execute_scout_work p f o c)
  unfolding execute_scout_work
  execute_scout_work-Keeps f c = search (working, begin_execution-Keeps, run_begun-Keeps) depth 8
