-- ===== src/Kernel/Stable/Others.antt =====
-- Decisions, executions and facts keep every stable predicate.
use pantheon_legion.Base.{text_eq, ℕ, String, Bool, Option, none, some}
use pantheon_legion.Kernel.Types.{Principal, Action, Approval, ApprovalStatus, Mission}
use pantheon_legion.Kernel.State.{World, Kernel, Exec}
use pantheon_legion.Kernel.Journal.{Entry}
use pantheon_legion.Kernel.Approvals.{get_approval, write_decision, decide_found, decide_approval}
use pantheon_legion.Kernel.Execution.{
  get_action, reject_action_execution, deny, approval_fault, found_approval, approval_for_execution,
  deny_or, validate_action_execution, consume, reactivate, after_effect, run_action, recover_action,
  execute_action,
}
use pantheon_legion.Kernel.Facts.{append_fact, Decision, record_execution_authorization}
use pantheon_legion.Kernel.Stable.{
  Quiet, OnApproval, OnMission, OnEffect, Keeps, pure-Keeps, or_raise-Keeps, control, clock-Keeps,
  put_mission-Keeps, put_approval-Keeps, put_side_effect-Keeps, record_event-Keeps,
  expire_approval_if_needed-Keeps,
}

module _ {P : Kernel → Type 0} where
  get_approval-Keeps : (id : String) → Keeps P (get_approval id)
  unfolding get_approval
  get_approval-Keeps id = record { kept = λ k h. (or_raise-Keeps {P = P} _ _).kept k h }

  pub get_action-Keeps : (m : Mission) (id : String) → Keeps P (get_action m id)
  unfolding get_action
  get_action-Keeps m id = or_raise-Keeps _ _

module _ {P : Kernel → Type 0} (Q : Quiet P) (A : OnApproval P) (w : World) where
  write_decision-Keeps :
      (m : Mission) (a : Approval) (by : Principal) (decision reason : String) (s : ApprovalStatus)
      → Keeps P (write_decision w m a by decision reason s)
  unfolding write_decision
  write_decision-Keeps m a by decision reason s =
      search (control, clock-Keeps, put_approval-Keeps, record_event-Keeps) depth 8

  pub decide_approval-Keeps :
      (id : String) (by : Principal) (expected : ℕ) (decision reason : String)
      → Keeps P (decide_approval w id by expected decision reason)
  unfolding decide_approval decide_found
  decide_approval-Keeps id by expected decision reason =
      search (control, get_approval-Keeps, expire_approval_if_needed-Keeps, write_decision-Keeps)
        depth 12

  pub reject_action_execution-Keeps :
      (id action : String) (worker : Principal) (code : String)
      → Keeps P (reject_action_execution w id action worker code)
  unfolding reject_action_execution
  reject_action_execution-Keeps id action worker code =
      search (control, get_action-Keeps, record_event-Keeps) depth 8

  deny-Keeps :
      {A : Type 0} (id action : String) (worker : Principal) (code : String)
      → Keeps P {A = A} (deny w id action worker code)
  unfolding deny
  deny-Keeps id action worker code = search (control, reject_action_execution-Keeps)

  deny_or-Keeps :
      {A : Type 0} (id action : String) (worker : Principal) (fault : Option String) (m : Exec A)
      → Keeps P m
      → Keeps P (deny_or w id action worker fault m)
  unfolding deny_or
  deny_or-Keeps id action worker none m h = h
  deny_or-Keeps id action worker (some code) m h = deny-Keeps id action worker code

  approval_fault-Keeps :
      (m : Mission) (action : Action) (a : Approval) → Keeps P (approval_fault w m action a)
  unfolding approval_fault
  approval_fault-Keeps m action a = search (control, expire_approval_if_needed-Keeps)

  found_approval-Keeps :
      (m : Mission) (action : Action) (worker : Principal) (a : Option Approval)
      → Keeps P (found_approval w m action worker a)
  unfolding found_approval
  found_approval-Keeps m action worker none = pure-Keeps none
  found_approval-Keeps m action worker (some a) =
      search (control, approval_fault-Keeps, deny_or-Keeps)

  approval_for_execution-Keeps :
      (m : Mission) (action : Action) (worker : Principal)
      → Keeps P (approval_for_execution w m action worker)
  unfolding approval_for_execution
  approval_for_execution-Keeps m action worker = search (control, found_approval-Keeps)

  pub validate_action_execution-Keeps :
      (id action : String) (worker : Principal)
      → Keeps P (validate_action_execution w id action worker)
  unfolding validate_action_execution
  validate_action_execution-Keeps id action worker =
      search (control, get_action-Keeps, deny_or-Keeps, approval_for_execution-Keeps) depth 10

  pub consume-Keeps : (a : Option Approval) → Keeps P (consume w a)
  unfolding consume
  consume-Keeps none = pure-Keeps tt
  consume-Keeps (some a) = search (control, clock-Keeps, put_approval-Keeps)

module _ {P : Kernel → Type 0} (Q : Quiet P) (w : World) where
  pub after_effect-Keeps :
      (m : Mission) (action : String) (worker : Principal) (a : Option Approval) (fails : Bool)
      → Keeps P (after_effect w m action worker a fails)
  unfolding after_effect
  after_effect-Keeps m action worker a fails = search (control, record_event-Keeps) depth 8

  pub recover_action-Keeps :
      (m : Mission) (action : String) (worker : Principal)
      → Keeps P (recover_action w m action worker)
  unfolding recover_action
  recover_action-Keeps m action worker = search (control, record_event-Keeps) depth 8

  pub append_fact-Keeps : (id : String) (e : Entry) → Keeps P (append_fact w id e)
  unfolding append_fact
  append_fact-Keeps id e = search (control, record_event-Keeps) depth 8

  pub record_execution_authorization-Keeps :
      (id action : String) (worker : Principal) (d : Decision) (delegation : Option String)
      → Keeps P (record_execution_authorization w id action worker d delegation)
  unfolding record_execution_authorization
  record_execution_authorization-Keeps id action worker d delegation =
      search (control, get_action-Keeps, record_event-Keeps) depth 8

module _ {P : Kernel → Type 0} (Q : Quiet P) (A : OnApproval P) (M : OnMission P) (E : OnEffect P)
    (w : World) where
  reactivate-Keeps : (m : Mission) → Keeps P (reactivate w m)
  unfolding reactivate
  reactivate-Keeps m = search (control, clock-Keeps, put_mission-Keeps) depth 8

  run_action-Keeps :
      (m : Mission) (action : String) (worker : Principal) (a : Option Approval) (fails : Bool)
      → Keeps P (run_action w m action worker a fails)
  unfolding run_action
  run_action-Keeps m action worker a fails =
      search (control, consume-Keeps, reactivate-Keeps, put_side_effect-Keeps, after_effect-Keeps)
        depth 14

  pub execute_action-Keeps :
      (id action : String) (worker : Principal) (fails : Bool)
      → Keeps P (execute_action w id action worker fails)
  unfolding execute_action
  execute_action-Keeps id action worker fails =
      search
        (
          control, get_action-Keeps, validate_action_execution-Keeps, run_action-Keeps,
          recover_action-Keeps,
        )
        depth 12
