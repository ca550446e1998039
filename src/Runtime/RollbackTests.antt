-- ===== src/Runtime/RollbackTests.antt =====
-- The transactions of the runtime on the samples: what they leave where they raise.
use pantheon_legion.Base.{true, false, none, some, [], ◌∷◌, text_eq}
use pantheon_legion.Runtime.Agent.{ActorRef, scout}
use pantheon_legion.Runtime.Work.{
  WorkItem, WorkAttempt, WorkResult, claimed, prepared, mission_context, read_only_analysis,
}
use pantheon_legion.Runtime.Service.Agents.{create_agent}
use pantheon_legion.Runtime.Service.Assignments.{
  open_assignment, reopen_assignment, request_assignment, reconcile_assignment,
}
use pantheon_legion.Runtime.Service.Resume.{open_binding, resume_assignment}
use pantheon_legion.Runtime.Service.Delegation.{delegate_work}
use pantheon_legion.Runtime.Service.Claims.{claim_work}
use pantheon_legion.Runtime.Service.Failing.{fail_work_attempt}
use pantheon_legion.Runtime.Service.Finishing.{finish_attempt}
use pantheon_legion.Runtime.Service.Cancellation.{Cancelling, cancel_work}
use pantheon_legion.Runtime.Service.Reconciliation.{reconcile_work}
use pantheon_legion.Runtime.Rollback.{IsAtomic, work-IsAtomic}
use pantheon_legion.Runtime.Staging.{IsStaged, assignments-IsStaged}
use pantheon_legion.Runtime.Samples.{
  denies, resumes_granted, ports, newcomer, number_id, request_of, resumption_of, delegation,
  scout_call, operator, worker, mission, correlation,
}

abbrev someone : ActorRef
someone = record { type = "WORKLOAD"; subject = "worker" }

abbrev claimed_item : WorkItem
claimed_item = record {
  work_item_id = number_id 18;
  mission_id = mission;
  centurion_agent_id = number_id 0;
  centurion_assignment_id = number_id 6;
  scout_agent_id = number_id 3;
  scout_assignment_id = number_id 9;
  objective = "Look at the records.";
  required_capabilities = "read_only_analysis" ∷ [];
  status = claimed;
  version = 2;
  correlation_id = correlation;
  causation_id = none;
  created_at = "2026-01-01T00:00:00Z";
  updated_at = "2026-01-01T00:00:00Z";
  cancelled_at = none;
  cancellation_reason = none;
  kind = read_only_analysis;
  evidence_checkpoint = none;
}

abbrev first_attempt : WorkAttempt
first_attempt = record {
  attempt_id = number_id 20;
  work_item_id = number_id 18;
  scout_agent_id = number_id 3;
  scout_binding_id = number_id 15;
  status = prepared;
  attempt_number = 1;
  mission_version = none;
  authorization_decision_id = none;
  error_code = none;
  version = 1;
  created_at = "2026-01-01T00:00:00Z";
  updated_at = "2026-01-01T00:00:00Z";
  attempt_stage = some mission_context;
  knowledge_authorization_decision_ids = [];
  successful_knowledge_decision_id = none;
  evidence_correlation_id = none;
  tabula_audit_correlation_id = none;
}

abbrev found_nothing : WorkResult
found_nothing = record {
  result_id = number_id 30;
  work_item_id = number_id 18;
  attempt_id = number_id 20;
  scout_agent_id = number_id 3;
  scout_binding_id = number_id 15;
  mission_version = 3;
  summary = "Nothing unusual.";
  evidence_references = [];
  content_digest = "0123456789abcdef0123456789abcdef0123456789abcdef0123456789abcdef";
  produced_at = "2026-01-01T00:00:00Z";
}

abbrev stop : Cancelling
stop = record {
  work_item_id = number_id 18;
  centurion_binding_id = number_id 12;
  caller = worker;
  reason = "No longer wanted.";
  idempotency_key = "cancel";
}

assignments-IsStaged_example :
    IsStaged (open_assignment ports (request_of 0)) (request_assignment ports denies (request_of 0))
    × IsStaged
        (reopen_assignment ports (number_id 6) operator "again")
        (reconcile_assignment ports denies (number_id 6) operator "again")
    × IsStaged
        (open_binding ports (resumption_of 6))
        (resume_assignment ports resumes_granted (resumption_of 6))
assignments-IsStaged_example =
    assignments-IsStaged ports denies (request_of 0) (number_id 6) operator "again" resumes_granted
      (resumption_of 6)

work-IsAtomic_example :
    IsAtomic (create_agent ports scout newcomer)
    × IsAtomic (delegate_work ports false delegation)
    × IsAtomic (claim_work ports scout_call)
    × IsAtomic (fail_work_attempt ports claimed_item first_attempt someone "COGNITION_FAILED" true)
    × IsAtomic (finish_attempt ports claimed_item found_nothing someone)
    × IsAtomic (cancel_work ports stop)
    × IsAtomic (reconcile_work ports scout_call)
work-IsAtomic_example =
    work-IsAtomic ports scout newcomer false delegation scout_call claimed_item first_attempt
      someone "COGNITION_FAILED" true found_nothing stop
