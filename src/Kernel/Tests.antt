-- ===== src/Kernel/Tests.antt =====
-- A concrete Mission in the kernel, and the theorems at its states.
use pantheon_legion.Base.{
  text_eq, ℕ, ◌+◌, ◌≡◌, ◌≢◌, refl, ap, sym, ◌∙◌, ◌⊎◌, inl, inr, Bool-cases, eq_iff, ◌==◌, String,
  true, false, none, some, List, [], ◌∷◌, arith,
}
use mathlib.Core.Path.{subst}
use pantheon_legion.Base.Dict.{Dict, lookup, insert, values}
use pantheon_legion.Base.Json.{canonical, value_eq}
use pantheon_legion.Base.Text.{show}
use pantheon_legion.Kernel.Types.{
  Mission, CommandType, draft, active, parse_command_type, rejected, CommandResult, Approval,
  AuditEvent,
}
use pantheon_legion.Kernel.State.{
  Kernel, ok, pair_eq, ◌>>=◌, uuid4, clock, or_uuid, get_mission, put_mission, put_approval,
  put_command, put_side_effect,
}
use pantheon_legion.Kernel.Rules.{
  authorize_command, validate_transition, execution_state_error, capability_denied,
}
use pantheon_legion.Kernel.Payload.{payload_error, suspension_error, value_error, object_has_only}
use pantheon_legion.Kernel.Journal.{
  record_event, append_event, remember, reject, expire_approval_if_needed, stays_valid, not_yet_due,
}
use pantheon_legion.Kernel.Command.{
  Submission, submit_command, submit_either, submit_new, submit_again, run_command, conclude,
  accept, refuse, guard_command, fingerprint, key_of,
}
use pantheon_legion.Kernel.Command.Effects.{apply_command, apply_fields}
use pantheon_legion.Kernel.Execution.{
  execute_action, validate_action_execution, deny_or, approval_for_execution, found_approval,
  first_approval, run_action, consume, reactivate, after_effect, has_run, get_action,
  approval_fault, approval_error,
}
use pantheon_legion.Kernel.AuditLog.{
  IsLogged, IsNumbered, Extends, after_all-IsLogged, after_all-Extends,
}
use pantheon_legion.Kernel.Run.{submit, execute, after_all}
use pantheon_legion.Kernel.Keyed.{IsKeyed}
use pantheon_legion.Kernel.AtMostOnce.{made_effect, at_most_once}
use pantheon_legion.Kernel.Retry.{submit_command-replay, submit_command-reuse}
use pantheon_legion.Kernel.Outcomes.{Untouched}
use pantheon_legion.Kernel.Outcomes.Refusal.{submit_command-rejected}
use pantheon_legion.Kernel.Outcomes.Acceptance.{Accepted, submit_command-Accepted}
use pantheon_legion.Kernel.Outcomes.Diagram.{submit_command-edge, submit_command-conflict}
use pantheon_legion.Kernel.Lifecycle.{Documented, FromFailed}
use pantheon_legion.Kernel.Gate.{Opened, execute_action-Gate}
use pantheon_legion.Kernel.Gate.Recovery.{execute_action-recovers}
use pantheon_legion.Kernel.Types.{pending}
use pantheon_legion.Kernel.Samples.{
  world, worker, deployment, mission_with, approval, state_with, drafted, cleared, call_of, started,
  start_result,
}

start_runs : submit_command world (call_of "k1" "START" 1) drafted ≡ (ok start_result, started)
unfolding submit_command submit_either submit_new submit_again run_command conclude accept refuse
    reject guard_command payload_error suspension_error apply_command apply_fields get_mission
    put_mission put_command remember record_event append_event or_uuid uuid4 clock ◌>>=◌ lookup
    insert parse_command_type authorize_command validate_transition fingerprint canonical show
    value_eq object_has_only value_error
start_runs = refl

execution_made : made_effect (execute_action world "m1" "deploy" worker true cleared).0 ≡ true
unfolding execute_action validate_action_execution deny_or approval_for_execution found_approval
    first_approval values run_action consume reactivate after_effect put_side_effect put_approval
    has_run get_action execution_state_error approval_fault approval_error capability_denied
    expire_approval_if_needed stays_valid not_yet_due get_mission put_mission record_event
    append_event or_uuid uuid4 clock ◌>>=◌ lookup insert show
execution_made = refl

-- Keys and logs of these states
state_with-IsKeyed :
    (m : Mission) (approvals : Dict String Approval)
    → m.id ≡ "m1"
    → IsKeyed (state_with m approvals)
unfolding lookup
state_with-IsKeyed m approvals own = record {
  keyed = λ id n found. elim (Bool-cases ("m1" == id)) [
    | inl same ↦
        let is : m ≡ n = ground (arith, rw same at found) in
        ap (λ (x : Mission). x.id) (sym is) ∙ own ∙ (eq_iff "m1" id).0 same
    | inr other ↦ absurd (ground (arith, rw other at found))
  ];
}

drafted-IsKeyed : IsKeyed drafted
drafted-IsKeyed = state_with-IsKeyed (mission_with draft []) [] refl

cleared-IsKeyed : IsKeyed cleared
cleared-IsKeyed =
    state_with-IsKeyed (mission_with active (("deploy", deployment) ∷ [])) (("ap1", approval) ∷ [])
      refl

drafted-IsLogged : IsLogged drafted
unfolding lookup
drafted-IsLogged = record {
  numbered = λ id es found. elim (Bool-cases ("m1" == id)) [
    | inl same ↦
        let is : [] ≡ es = ground (arith, rw same at found) in
        subst (λ (l : List AuditEvent). IsNumbered id 0 l) is tt
    | inr other ↦ absurd (ground (arith, rw other at found))
  ];
}

abbrev stale : Submission
stale = call_of "k2" "PAUSE" 1

abbrev stale_state : Kernel
stale_state = (submit_command world stale started).1

abbrev stale_result : CommandResult
stale_result = record {
  command_id = "2";
  status = rejected;
  mission_id = "m1";
  mission_version = 2;
  error_code = some "VERSION_CONFLICT";
  message = some "Mission version 2 is current; command expected 1.";
  approval_id = none;
}

stale_runs : submit_command world stale started ≡ (ok stale_result, stale_state)
unfolding submit_command submit_either submit_new submit_again run_command conclude accept refuse
    reject guard_command payload_error suspension_error apply_command apply_fields get_mission
    put_mission put_command remember record_event append_event or_uuid uuid4 clock ◌>>=◌ lookup
    insert parse_command_type authorize_command validate_transition fingerprint canonical show
    value_eq object_has_only value_error
stale_runs = refl

start_unused : lookup (key_of (call_of "k1" "START" 1)) drafted.idempotency ≡ none
unfolding lookup
start_unused = refl

stale_unused : lookup (key_of stale) started.idempotency ≡ none
unfolding submit_command submit_either submit_new submit_again run_command conclude accept refuse
    reject guard_command payload_error suspension_error apply_command apply_fields get_mission
    put_mission put_command remember record_event append_event or_uuid uuid4 clock ◌>>=◌ lookup
    insert parse_command_type authorize_command validate_transition fingerprint canonical show
    value_eq object_has_only value_error
stale_unused = refl

start_found : lookup "m1" started.missions ≡ some (record (mission_with active []) { version = 2 })
unfolding submit_command submit_either submit_new submit_again run_command conclude accept refuse
    reject guard_command payload_error suspension_error apply_command apply_fields get_mission
    put_mission put_command remember record_event append_event or_uuid uuid4 clock ◌>>=◌ lookup
    insert parse_command_type authorize_command validate_transition fingerprint canonical show
    value_eq object_has_only value_error
start_found = refl

start_remembered :
    lookup (key_of (call_of "k1" "START" 1)) started.idempotency
    ≡ some (fingerprint (call_of "k1" "START" 1), start_result)
unfolding submit_command submit_either submit_new submit_again run_command conclude accept refuse
    reject guard_command payload_error suspension_error apply_command apply_fields get_mission
    put_mission put_command remember record_event append_event or_uuid uuid4 clock ◌>>=◌ lookup
    insert parse_command_type authorize_command validate_transition fingerprint canonical show
    value_eq object_has_only value_error
start_remembered = refl

cleared_log : lookup "m1" cleared.audit ≡ some []
unfolding lookup
cleared_log = refl

start_accepted : start_result.status ≢ rejected
start_accepted = λ h. ground (arith, h)

-- The witnesses
at_most_once_example :
    made_effect
      (execute_action world "m1" "deploy" worker false (
        after_all world
          (submit (call_of "k1" "PAUSE" 1) ∷ [])
          (execute_action world "m1" "deploy" worker true cleared).1)).0
    ≡ false
at_most_once_example =
    at_most_once world "deploy" "m1" "m1" worker worker true false
      (submit (call_of "k1" "PAUSE" 1) ∷ []) cleared execution_made

after_all-Extends_example :
    Extends cleared (after_all world (execute "m1" "deploy" worker true ∷ []) cleared)
after_all-Extends_example = after_all-Extends world (execute "m1" "deploy" worker true ∷ []) cleared

submit_command-Accepted_example : Accepted (call_of "k1" "START" 1) drafted start_result started
submit_command-Accepted_example =
    submit_command-Accepted world (call_of "k1" "START" 1) drafted start_result started
      drafted-IsKeyed start_unused start_runs start_accepted

submit_command-rejected_example : Untouched started stale_state
submit_command-rejected_example = submit_command-rejected world stale started stale_runs refl

submit_command-edge_example :
    (c : CommandType) × (m : Mission) × (n : Mission) × (parse_command_type "START" ≡ some c)
    × (lookup "m1" drafted.missions ≡ some m)
    × (lookup "m1" started.missions ≡ some n)
    × (Documented c m.status n.status ⊎ FromFailed c m.status n.status)
submit_command-edge_example =
    submit_command-edge world (call_of "k1" "START" 1) drafted start_result started drafted-IsKeyed
      start_unused start_runs start_accepted

submit_command-conflict_example : stale_result.status ≡ rejected
submit_command-conflict_example =
    submit_command-conflict world (call_of "k1" "START" 1) stale drafted start_result stale_result
      started stale_state drafted-IsKeyed start_unused start_runs start_accepted refl refl
      stale_unused stale_runs

-- The START sent again behind a PAUSE
submit_command-replay_example :
    (n : ℕ) × (submit_command world
        (call_of "k1" "START" 1)
        (after_all world (submit (call_of "k2" "PAUSE" 2) ∷ []) started)
      ≡ (
        ok start_result,
        record (after_all world (submit (call_of "k2" "PAUSE" 2) ∷ []) started) { uuids = n },
      ))
submit_command-replay_example =
    submit_command-replay world (call_of "k1" "START" 1) (submit (call_of "k2" "PAUSE" 2) ∷ [])
      drafted start_result started start_unused start_runs

abbrev reused : CommandResult
reused = record {
  command_id = world.uuid (started.uuids + 1);
  status = rejected;
  mission_id = "m1";
  mission_version = 2;
  error_code = some "IDEMPOTENCY_KEY_REUSE";
  message = some "Idempotency key was used for a different command.";
  approval_id = none;
}

reuse_differs :
    value_eq (fingerprint (call_of "k1" "START" 1)) (fingerprint (call_of "k1" "PAUSE" 2)) ≡ false
unfolding value_eq fingerprint canonical show
reuse_differs = refl

reuse_runs :
    submit_command world (call_of "k1" "PAUSE" 2) (after_all world [] started)
    ≡ (ok reused, (submit_command world (call_of "k1" "PAUSE" 2) started).1)
unfolding after_all submit_command submit_either submit_again value_eq reject get_mission
    put_command record_event append_event or_uuid uuid4 clock ◌>>=◌ lookup insert fingerprint
    canonical show submit_new parse_command_type run_command guard_command payload_error
    authorize_command validate_transition apply_command apply_fields conclude accept put_mission
    remember
reuse_runs = refl

submit_command-reuse_example :
    (reused.status ≡ rejected)
    × (reused.error_code ≡ some "IDEMPOTENCY_KEY_REUSE")
    × Untouched
        (after_all world [] started)
        (submit_command world (call_of "k1" "PAUSE" 2) started).1
submit_command-reuse_example =
    submit_command-reuse world (call_of "k1" "START" 1) (call_of "k1" "PAUSE" 2) [] drafted
      start_result reused started (submit_command world (call_of "k1" "PAUSE" 2) started).1
      start_unused start_runs refl reuse_differs reuse_runs

execute_action-Gate_example : Opened cleared "m1" "deploy" worker
execute_action-Gate_example =
    execute_action-Gate world "m1" "deploy" worker true cleared execution_made

execute_action-recovers_example :
    (execute_action world "m1" "deploy" worker false
      (execute_action world "m1" "deploy" worker true cleared).1).0
    ≡ ok "RECOVERED"
execute_action-recovers_example =
    execute_action-recovers world "m1" "deploy" worker true false cleared [] cleared-IsKeyed
      cleared_log execution_made

after_all-IsLogged_example :
    IsLogged (after_all world (submit (call_of "k1" "START" 1) ∷ []) drafted)
after_all-IsLogged_example =
    after_all-IsLogged world (submit (call_of "k1" "START" 1) ∷ []) drafted drafted-IsLogged

abbrev asked : Kernel
asked = state_with (mission_with active (("deploy", deployment) ∷ [])) (
    (
      "ap1",
      record approval {
        status = pending;
        approver = none;
        decision_reason = none;
        decided_at = none;
      },
    )
    ∷ [])
