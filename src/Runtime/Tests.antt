-- ===== src/Runtime/Tests.antt =====
-- Runs of the runtime on the samples, and the theorems at the tables they leave.
use pantheon_legion.Base.{eq_iff, arith, ◌≤◌}
use pantheon_legion.Base.{◌+◌, ◌↔◌, ◌≡◌, refl, String, none, some, [], ◌∷◌, ◌++◌, text_eq}
use pantheon_legion.Base.Dict.{lookup, insert, values}
use pantheon_legion.Base.Lists.{length}
use pantheon_legion.Base.Text.{strip, is_uuid, is_space, show}
use pantheon_legion.Runtime.Checks.{is_bounded, is_timestamp, first_fault}
use pantheon_legion.Runtime.Store.{
  IdempotencyRecord, no_rows, Tables, done, ◌>>=◌, transaction, draw_id, read_clock,
}
use pantheon_legion.Runtime.Agent.{pending_authorization}
use pantheon_legion.Runtime.Agent.{
  AgentIdentity, AgentRuntimeBinding, binding_active, active, scout, centurion, assigned,
  MissionAssignment, assigned_intent,
}
use pantheon_legion.Runtime.AgentChecks.{
  actor_fault, agent_fault, assignment_fault, checkpoint_fault, event_fault,
}
use pantheon_legion.Runtime.Repository.{
  save_agent, second_assignment, save_assignment, save_checkpoint, events_of, list_events,
  next_event_sequence, store_event, get_idempotency, put_idempotency, get_work_result,
  get_active_assignment, get_latest_work_attempt, list_work_attempts,
}
use pantheon_legion.Runtime.Queries.{find, keep_if, greatest}
use pantheon_legion.Runtime.Service.{
  check_key, actor_of, require_agent, require_assignment, require_checkpoint, prior, note, emit,
  scope_matches, require_active_actor, require_binding,
}
use pantheon_legion.Runtime.Service.Agents.{create_agent, agent_or_new, new_agent}
use pantheon_legion.Runtime.Service.Assignments.{
  open_assignment, assignment_or_new, new_assignment, authorize, answer_assignment,
}
use pantheon_legion.Runtime.Service.Completing.{
  complete_assignment, complete_open, write_completion, completion,
}
use pantheon_legion.Runtime.Run.{run, step, creates, opens}
use pantheon_legion.Runtime.Numbering.{IsNumberedFrom, run-IsNumberedFrom}
use pantheon_legion.Runtime.Fencing.{IsFenced, run-IsFenced, require_active_actor-fenced}
use pantheon_legion.Runtime.Ordering.{last}
use pantheon_legion.Runtime.Attempts.{AreApart, run-AreApart, run-latest}
use pantheon_legion.Runtime.Growth.{Advances, run-Advances}
use pantheon_legion.Runtime.Remembering.{
  rows_under, results_of_item, results_of_attempt, run-remembered,
}
use pantheon_legion.Runtime.Actors.{IsActing, require_active_actor-IsActing}
use pantheon_legion.Runtime.Work.{WorkResult}
use pantheon_legion.Runtime.Granting.{IsAuthorized, authorize-IsAuthorized}
use pantheon_legion.Runtime.Samples.{
  ports, newcomer, setting, working, number_id, request_of, grants, operator, worker, mission,
  correlation,
}

abbrev granted_assignment : MissionAssignment
granted_assignment = record {
  assignment_id = number_id 3;
  agent_id = number_id 0;
  mission_id = mission;
  status = assigned;
  mission_version = some 3;
  authorization_decision_id = some "decision";
  policy_version = some "1";
  requested_by = record { type = "HUMAN"; subject = "operator" };
  correlation_id = correlation;
  last_error_code = none;
  version = 2;
  created_at = "2026-01-01T00:00:00Z";
  updated_at = "2026-01-01T00:00:00Z";
}

abbrev pending_assignment : MissionAssignment
pending_assignment = record granted_assignment {
  status = pending_authorization;
  mission_version = none;
  authorization_decision_id = none;
  policy_version = none;
  version = 1;
}

-- The tables in front of the authority's answer.
requested : Tables
requested = run ports (creates centurion newcomer ∷ opens (request_of 0) ∷ []) no_rows

authorize_runs :
    authorize ports grants (number_id 3) operator requested
    ≡ (done granted_assignment, (authorize ports grants (number_id 3) operator requested).1)
unfolding requested run step create_agent agent_or_new new_agent check_key actor_of transaction
    prior get_idempotency find draw_id read_clock ◌>>=◌ agent_fault actor_fault first_fault
    is_bounded strip is_uuid is_space is_timestamp save_agent emit next_event_sequence events_of
    keep_if greatest event_fault store_event note put_idempotency open_assignment assignment_or_new
    new_assignment require_agent get_active_assignment assignment_fault checkpoint_fault
    save_assignment second_assignment save_checkpoint authorize require_assignment answer_assignment
    scope_matches complete_assignment require_checkpoint complete_open completion write_completion
    assigned_intent show lookup insert values
authorize_runs = refl

authorize-IsAuthorized_example : IsAuthorized grants (number_id 3) requested granted_assignment
authorize-IsAuthorized_example =
    authorize-IsAuthorized ports grants (number_id 3) operator requested granted_assignment _
      authorize_runs refl

run-IsNumberedFrom_example :
    IsNumberedFrom 1 (list_events (number_id 0) (run ports setting no_rows))
    × (list_events (number_id 0) (run ports setting no_rows)
        ≡ events_of (number_id 0) (run ports setting no_rows))
    × (next_event_sequence (number_id 0) (run ports setting no_rows)
        ≡ length (list_events (number_id 0) (run ports setting no_rows)) + 1)
run-IsNumberedFrom_example = run-IsNumberedFrom ports setting (number_id 0)

run-Advances_example : Advances requested (run ports working requested)
run-Advances_example = run-Advances ports working requested

run-remembered_example :
    ((scope operation key : String) (r : IdempotencyRecord)
      → get_idempotency scope operation key (run ports setting no_rows) ≡ some r
      → rows_under scope operation key (run ports working (run ports setting no_rows)) ≡ r ∷ [])
    × ((item : String) (r : WorkResult)
        → get_work_result item (run ports setting no_rows) ≡ some r
        → results_of_item item (run ports working (run ports setting no_rows)) ≡ r ∷ [])
    × ((attempt : String)
        → length (results_of_attempt attempt (run ports working (run ports setting no_rows))) ≤ 1)
run-remembered_example = run-remembered ports setting working

abbrev worker_agent : AgentIdentity
worker_agent = record {
  agent_id = number_id 0;
  organization_id = mission;
  workspace_id = mission;
  display_name = "first";
  role = scout;
  status = active;
  version = 1;
  created_by = record { type = "HUMAN"; subject = "operator" };
  created_at = "2026-01-01T00:00:00Z";
  updated_at = "2026-01-01T00:00:00Z";
}

abbrev worker_binding : AgentRuntimeBinding
worker_binding = record {
  binding_id = number_id 12;
  agent_id = number_id 0;
  assignment_id = number_id 3;
  workload_subject = "worker";
  grant_id = none;
  status = binding_active;
  version = 1;
  started_at = "2026-01-01T00:00:00Z";
  ended_at = none;
  correlation_id = correlation;
  last_error_code = none;
}

abbrev bound_tables : Tables
bound_tables = record no_rows {
  agents = (number_id 0, worker_agent) ∷ [];
  assignments = (number_id 3, granted_assignment) ∷ [];
  bindings = (number_id 12, worker_binding) ∷ [];
}

require_active_actor-IsActing_example :
    (require_active_actor (number_id 12) worker scout none bound_tables
      ≡ (done (worker_binding, granted_assignment, worker_agent), bound_tables))
    ↔ (IsActing bound_tables
          (number_id 12)
          worker
          scout
          none
          worker_binding
          granted_assignment
          worker_agent
        × (bound_tables ≡ bound_tables))
require_active_actor-IsActing_example =
    require_active_actor-IsActing bound_tables (number_id 12) worker scout none worker_binding
      granted_assignment worker_agent bound_tables

-- The workload of the binding may act.
worker_acts :
    require_active_actor (number_id 12) worker scout none bound_tables
    ≡ (done (worker_binding, granted_assignment, worker_agent), bound_tables)
unfolding require_active_actor require_binding require_assignment require_agent ◌>>=◌ lookup show
worker_acts = refl

run-IsFenced_example : IsFenced (run ports setting no_rows)
run-IsFenced_example = run-IsFenced ports setting

bound_tables-IsFenced : IsFenced bound_tables
unfolding lookup show
bound_tables-IsFenced = record {
  assignments = record {
    keyed = λ i a h. ground (arith, h, eq_iff (number_id 3) i);
    one = λ i j a b h h' live live' same.
        ground (arith, h, h', eq_iff (number_id 3) i, eq_iff (number_id 3) j);
  };
  bindings = record {
    keyed = λ i a h. ground (arith, h, eq_iff (number_id 12) i);
    one = λ i j a b h h' live live' same.
        ground (arith, h, h', eq_iff (number_id 12) i, eq_iff (number_id 12) j);
  };
}

require_active_actor-fenced_example :
    (number_id 12 ≡ number_id 12) × (worker.subject ≡ worker.subject)
require_active_actor-fenced_example =
    require_active_actor-fenced bound_tables (number_id 12) (number_id 12) worker worker scout scout
      none none worker_binding worker_binding granted_assignment granted_assignment worker_agent
      worker_agent bound_tables bound_tables bound_tables-IsFenced worker_acts worker_acts refl

run-AreApart_example : AreApart (run ports (setting ++ working) no_rows)
run-AreApart_example = run-AreApart ports (setting ++ working)

run-latest_example :
    get_latest_work_attempt (number_id 18) (run ports (setting ++ working) no_rows)
    ≡ last (list_work_attempts (number_id 18) (run ports (setting ++ working) no_rows))
run-latest_example = run-latest ports (setting ++ working) (number_id 18)
