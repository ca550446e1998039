-- ===== src/Kernel/Samples.antt =====
-- A concrete world, Mission, action and approval, and states of the kernel with them.
use pantheon_legion.Base.{text_eq, ℕ, String, none, some, [], ◌∷◌}
use pantheon_legion.Base.Dict.{Dict}
use pantheon_legion.Base.Json.{obj, end}
use pantheon_legion.Base.Text.{show}
use pantheon_legion.Kernel.Types.{
  Principal, human, workload, Mission, MissionStatus, draft, active, review, accepted,
  CommandResult, Action, Approval, approved, RulesOfEngagement,
}
use pantheon_legion.Kernel.State.{World, Kernel, pair_eq}
use pantheon_legion.Kernel.Command.{Submission, submit_command}

abbrev pub world : World
world = record {
  uuid = show;
  now = λ n. "2026-01-01T00:00:00Z";
  wall = λ n. "2026-01-01T00:00:00Z";
  sha256_json = λ v. "digest";
  plus_minutes = λ n s. "2026-01-01T00:15:00Z";
}

abbrev pub owner : Principal
owner = record { type = human; subject = "ada"; roles = "MISSION_OWNER" ∷ "APPROVER" ∷ [] }

abbrev pub worker : Principal
worker = record { type = workload; subject = "bee"; roles = "MISSION_WORKER" ∷ [] }

abbrev pub rules : RulesOfEngagement
rules = record {
  revision = 1;
  level = review;
  changed_by = owner;
  effective_at = "2026-01-01T00:00:00Z";
  approval_required_for = "MUTATION" ∷ [];
  allowed_capabilities = [];
  denied_capabilities = [];
  reason = "";
}

abbrev pub deployment : Action
deployment = record {
  id = "deploy";
  command_id = "c0";
  capability = "service.deploy";
  arguments = end;
  target = none;
  side_effect_class = "MUTATION";
  requested_by = owner;
  requested_at = "2026-01-01T00:00:00Z";
}

abbrev pub mission_with : MissionStatus → Dict String Action → Mission
mission_with status actions = record {
  id = "m1";
  organization_id = "org";
  workspace_id = "space";
  title = "Deploy";
  objective = "Deploy the service.";
  created_by = owner;
  status = status;
  version = 1;
  roe = rules;
  constraints = [];
  participants = [];
  created_at = "2026-01-01T00:00:00Z";
  updated_at = "2026-01-01T00:00:00Z";
  actions = actions;
}

abbrev pub approval : Approval
approval = record {
  id = "ap1";
  mission_id = "m1";
  command_id = "c0";
  action = deployment;
  mission_version = 1;
  roe_revision = 1;
  action_hash = "digest";
  requested_by = owner;
  status = approved;
  approver = some owner;
  decision_reason = some "fine";
  decided_at = some "2026-01-01T00:00:00Z";
  expires_at = some "2026-01-01T00:15:00Z";
  consumed_at = none;
}

abbrev pub state_with : Mission → Dict String Approval → Kernel
state_with m approvals = record {
  missions = ("m1", m) ∷ [];
  approvals = approvals;
  audit = ("m1", []) ∷ [];
  commands = [];
  idempotency = [];
  side_effects = [];
  uuids = 0;
  clocks = 0;
  walls = 0;
}

-- A draft Mission, and an active one whose action is approved.
abbrev pub drafted : Kernel
drafted = state_with (mission_with draft []) []

abbrev pub cleared : Kernel
cleared = state_with (mission_with active (("deploy", deployment) ∷ [])) (("ap1", approval) ∷ [])

abbrev pub call_of : String → String → ℕ → Submission
call_of key command_type version = record {
  mission_id = "m1";
  actor = owner;
  expected_version = version;
  idempotency_key = key;
  command_type = command_type;
  payload = obj end;
  requested_by = none;
  correlation_id = some "x1";
}

abbrev pub started : Kernel
started = (submit_command world (call_of "k1" "START" 1) drafted).1

abbrev pub start_result : CommandResult
start_result = record {
  command_id = "0";
  status = accepted;
  mission_id = "m1";
  mission_version = 2;
  error_code = none;
  message = none;
  approval_id = none;
}
