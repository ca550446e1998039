-- ===== src/Runtime/Run.antt =====
-- Any sequence of the runtime's operations, and of the transactions that an operation is made of:
-- between two transactions of one call those of others may come, with whatever they have read.
use pantheon_legion.Base.{String, Bool, Option, List, [], ◌∷◌}
use pantheon_legion.Kernel.Types.{Principal}
use pantheon_legion.Runtime.Agent.{
  AgentRole, ActorRef, AgentIdentity, MissionAssignment, MissionAuthorityView,
}
use pantheon_legion.Runtime.Work.{WorkItem, WorkAttempt, WorkResult, WorkEvidenceReference}
use pantheon_legion.Runtime.Store.{Ports, Tables}
use pantheon_legion.Runtime.Service.{Answer}
use pantheon_legion.Runtime.Service.Agents.{NewAgent, create_agent}
use pantheon_legion.Runtime.Service.Assignments.{
  Request, open_assignment, request_assignment, reopen_assignment, reconcile_assignment,
}
use pantheon_legion.Runtime.Service.Completing.{complete_assignment}
use pantheon_legion.Runtime.Service.Resume.{
  Resumption, ResumeResult, open_binding, activate_resume, block_resume, resume_assignment,
}
use pantheon_legion.Runtime.Service.Delegation.{Delegation, delegate_work}
use pantheon_legion.Runtime.Service.Claims.{ScoutCall, claim_work}
use pantheon_legion.Runtime.Service.Execution.{
  MissionContext, Fitted, Attempting, begin_execution, start_attempt,
}
use pantheon_legion.Runtime.Service.Evidence.{Bundle, record_evidence}
use pantheon_legion.Runtime.Service.Failing.{fail_work_attempt}
use pantheon_legion.Runtime.Service.Finishing.{finish_attempt}
use pantheon_legion.Runtime.Service.Cancellation.{Cancelling, cancel_work}
use pantheon_legion.Runtime.Service.Reconciliation.{reconcile_work}
use pantheon_legion.Runtime.Stable.{Stable}
use pantheon_legion.Runtime.Stable.Coordination.{
  create_agent-Keeps, open_assignment-Keeps, complete_assignment-Keeps, request_assignment-Keeps,
  reopen_assignment-Keeps, reconcile_assignment-Keeps, open_binding-Keeps, activate_resume-Keeps,
  block_resume-Keeps, resume_assignment-Keeps,
}
use pantheon_legion.Runtime.Stable.Working.{
  delegate_work-Keeps, claim_work-Keeps, fail_work_attempt-Keeps, cancel_work-Keeps,
  reconcile_work-Keeps,
}
use pantheon_legion.Runtime.Stable.Executing.{
  begin_execution-Keeps, start_attempt-Keeps, record_evidence-Keeps, finish_attempt-Keeps,
}

pub data Call : Type 0 where
  creates : AgentRole → NewAgent → Call
  requests : (AgentIdentity → MissionAssignment → Answer MissionAuthorityView) → Request → Call
  reconciles :
      (AgentIdentity → MissionAssignment → Answer MissionAuthorityView)
      → String
      → Principal
      → String
      → Call
  resumes : (ResumeResult → Answer MissionAuthorityView) → Resumption → Call
  opens : Request → Call
  reopens : String → Principal → String → Call
  completes : String → ActorRef → Option MissionAuthorityView → Option String → Bool → Call
  binds : Resumption → Call
  activates : String → ActorRef → MissionAuthorityView → Call
  blocks : String → ActorRef → String → Call
  delegates : Bool → Delegation → Call
  claims : ScoutCall → Call
  begins : Fitted → ScoutCall → Call
  starts : ScoutCall → ActorRef → Attempting → MissionContext → Call
  records : ScoutCall → ActorRef → Attempting → Bundle → List WorkEvidenceReference → Call
  fails : WorkItem → WorkAttempt → ActorRef → String → Bool → Call
  finishes : WorkItem → WorkResult → ActorRef → Call
  cancels : Cancelling → Call
  recovers : ScoutCall → Call

module _ (p : Ports) where
  unfoldable pub step : Call → Tables → Tables
  step (creates role c) s = (create_agent p role c s).1
  step (requests authority c) s = (request_assignment p authority c s).1
  step (reconciles authority id q key) s = (reconcile_assignment p authority id q key s).1
  step (resumes authority c) s = (resume_assignment p authority c s).1
  step (opens c) s = (open_assignment p c s).1
  step (reopens id q key) s = (reopen_assignment p id q key s).1
  step (completes id actor view error is_unavailable) s =
      (complete_assignment p id actor view error is_unavailable s).1
  step (binds c) s = (open_binding p c s).1
  step (activates id actor view) s = (activate_resume p id actor view s).1
  step (blocks id actor code) s = (block_resume p id actor code s).1
  step (delegates drivers c) s = (delegate_work p drivers c s).1
  step (claims c) s = (claim_work p c s).1
  step (begins f c) s = (begin_execution p f c s).1
  step (starts c actor a context) s = (start_attempt p c actor a context s).1
  step (records c actor a bundle references) s = (record_evidence p c actor a bundle references s).1
  step (fails w a actor code is_retryable) s = (fail_work_attempt p w a actor code is_retryable s).1
  step (finishes w r actor) s = (finish_attempt p w r actor s).1
  step (cancels c) s = (cancel_work p c s).1
  step (recovers c) s = (reconcile_work p c s).1

  unfoldable pub run : List Call → Tables → Tables
  run [] s = s
  run (c ∷ cs) s = run cs (step c s)

module _ {P : Tables → Type 0} (S : Stable P) (p : Ports) where
  step-Stable : (c : Call) (s : Tables) → P s → P (step p c s)
  unfolding step
  step-Stable (creates role c) s = (create_agent-Keeps S p role c).kept s
  step-Stable (requests authority c) s = (request_assignment-Keeps S p authority c).kept s
  step-Stable (reconciles authority id q key) s =
      (reconcile_assignment-Keeps S p authority id q key).kept s
  step-Stable (resumes authority c) s = (resume_assignment-Keeps S p authority c).kept s
  step-Stable (opens c) s = (open_assignment-Keeps S p c).kept s
  step-Stable (reopens id q key) s = (reopen_assignment-Keeps S p id q key).kept s
  step-Stable (completes id actor view error is_unavailable) s =
      (complete_assignment-Keeps S p id actor view error is_unavailable).kept s
  step-Stable (binds c) s = (open_binding-Keeps S p c).kept s
  step-Stable (activates id actor view) s = (activate_resume-Keeps S p id actor view).kept s
  step-Stable (blocks id actor code) s = (block_resume-Keeps S p id actor code).kept s
  step-Stable (delegates drivers c) s = (delegate_work-Keeps S p drivers c).kept s
  step-Stable (claims c) s = (claim_work-Keeps S p c).kept s
  step-Stable (begins f c) s = (begin_execution-Keeps S p f c).kept s
  step-Stable (starts c actor a context) s = (start_attempt-Keeps S p c actor a context).kept s
  step-Stable (records c actor a bundle references) s =
      (record_evidence-Keeps S p c actor a bundle references).kept s
  step-Stable (fails w a actor code is_retryable) s =
      (fail_work_attempt-Keeps S p w a actor code is_retryable).kept s
  step-Stable (finishes w r actor) s = (finish_attempt-Keeps S p w r actor).kept s
  step-Stable (cancels c) s = (cancel_work-Keeps S p c).kept s
  step-Stable (recovers c) s = (reconcile_work-Keeps S p c).kept s

  -- What every accepted write keeps holds after any sequence of calls.
  pub run-Stable : (cs : List Call) (s : Tables) → P s → P (run p cs s)
  unfolding run
  run-Stable [] s h = h
  run-Stable (c ∷ cs) s h = run-Stable cs (step p c s) (step-Stable c s h)
