-- ===== src/Runtime/Samples.antt =====
-- A Centurion and a Scout of one Mission, and the calls that bring a work item to its result.
use pantheon_legion.Base.{ℕ, ◌+◌, String, ◌<>◌, true, false, none, List, [], ◌∷◌}
use pantheon_legion.Base.Text.{show}
use pantheon_legion.Kernel.Types.{Principal, human, workload}
use pantheon_legion.Runtime.Agent.{
  scout, centurion, AgentIdentity, MissionAssignment, MissionAuthorityView,
}
use pantheon_legion.Runtime.Work.{read_only_analysis}
use pantheon_legion.Runtime.Store.{Ports, refuse, operation_error}
use pantheon_legion.Runtime.Service.{Answer, granted, denied}
use pantheon_legion.Runtime.Service.Agents.{NewAgent}
use pantheon_legion.Runtime.Service.Assignments.{Request}
use pantheon_legion.Runtime.Service.Resume.{Resumption, ResumeResult}
use pantheon_legion.Runtime.Service.Delegation.{Delegation}
use pantheon_legion.Runtime.Service.Claims.{ScoutCall}
use pantheon_legion.Runtime.Service.Execution.{Fitted, MissionContext, Attempting}
use pantheon_legion.Runtime.Service.Evidence.{reading_crashed}
use pantheon_legion.Runtime.Service.Scouting.{CognitionResult, Scouts, thought}
use pantheon_legion.Runtime.Run.{Call, creates, requests, resumes, delegates, claims}

abbrev pub number_id : ℕ → String
number_id n = "00000000-0000-4000-8000-0000000000" <> show (n + 10)

abbrev pub ports : Ports
ports = record {
  new_id = number_id;
  now = λ n. "2026-01-01T00:00:00Z";
  sha256_json = λ v. "fingerprint";
  sha256_text = λ v. "0123456789abcdef0123456789abcdef0123456789abcdef0123456789abcdef";
  encoded = λ v. 100;
}

abbrev pub organization : String
organization = "10000000-0000-4000-8000-000000000001"

abbrev pub workspace : String
workspace = "10000000-0000-4000-8000-000000000002"

abbrev pub mission : String
mission = "10000000-0000-4000-8000-000000000003"

abbrev pub correlation : String
correlation = "10000000-0000-4000-8000-000000000004"

abbrev pub operator : Principal
operator = record { type = human; subject = "operator"; roles = [] }

abbrev pub worker : Principal
worker = record { type = workload; subject = "worker"; roles = [] }

abbrev pub newcomer : NewAgent
newcomer = record {
  actor = operator;
  organization_id = organization;
  workspace_id = workspace;
  display_name = "first";
  idempotency_key = "create";
}

abbrev pub view : MissionAuthorityView
view = record {
  mission_id = mission;
  organization_id = organization;
  workspace_id = workspace;
  mission_status = "ACTIVE";
  mission_version = 3;
  roe_revision = 1;
  decision_id = "decision";
  policy_version = "1";
  evaluated_at = "2026-01-01T00:00:00Z";
}

abbrev pub grants : AgentIdentity → MissionAssignment → Answer MissionAuthorityView
grants g a = granted view

abbrev pub denies : AgentIdentity → MissionAssignment → Answer MissionAuthorityView
denies g a = denied "POLICY_DENIED"

abbrev pub resumes_granted : ResumeResult → Answer MissionAuthorityView
resumes_granted r = granted view

abbrev pub request_of : ℕ → Request
request_of n = record {
  actor = operator;
  agent_id = number_id n;
  mission_id = mission;
  correlation_id = correlation;
  idempotency_key = "request";
}

abbrev pub resumption_of : ℕ → Resumption
resumption_of n = record {
  assignment_id = number_id n;
  caller = worker;
  delegation_id = "grant";
  correlation_id = correlation;
  idempotency_key = "resume";
}

abbrev pub setting : List Call
setting =
    creates centurion newcomer
    ∷ creates scout newcomer
    ∷ requests grants (request_of 0)
    ∷ requests grants (request_of 3)
    ∷ []

abbrev pub delegation : Delegation
delegation = record {
  centurion_binding_id = number_id 12;
  caller = worker;
  scout_assignment_id = number_id 9;
  objective = "Look at the records.";
  required_capabilities = "read_only_analysis" ∷ [];
  correlation_id = correlation;
  idempotency_key = "delegate";
  causation_id = none;
  work_kind = read_only_analysis;
}

abbrev pub scout_call : ScoutCall
scout_call = record {
  work_item_id = number_id 18;
  scout_binding_id = number_id 15;
  caller = worker;
  idempotency_key = "scout";
}

abbrev pub fitted : Fitted
fitted = record {
  mission_context = true;
  cognition = true;
  cognition_invoker = false;
  evidence_reader = false;
  experimental_driver = false;
}

abbrev pub context : MissionContext
context = record {
  organization_id = organization;
  workspace_id = workspace;
  mission_id = mission;
  mission_version = 3;
  mission_status = "ACTIVE";
  authorization_decision_id = "decision";
}

-- Cognition that answers the request in a sentence.
abbrev pub answer : Attempting → CognitionResult
answer a = record {
  request_id = a.attempt.attempt_id;
  agent_id = a.agent.agent_id;
  work_item_id = a.work.work_item_id;
  attempt_id = a.attempt.attempt_id;
  mission_id = a.work.mission_id;
  mission_version = 3;
  summary = "Nothing unusual.";
  evidence_references = [];
}

abbrev pub scouts : Scouts
scouts = record {
  context = λ a. granted context;
  reader = λ a. reading_crashed;
  cognition = λ a references. thought (answer a);
  session = λ a c. refuse (operation_error "COGNITION_UNAVAILABLE");
}

abbrev pub working : List Call
working =
    resumes resumes_granted (resumption_of 6)
    ∷ resumes resumes_granted (resumption_of 9)
    ∷ delegates false delegation
    ∷ claims scout_call
    ∷ []
