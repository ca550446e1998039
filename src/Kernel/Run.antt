-- ===== src/Kernel/Run.antt =====
-- A run of the kernel: any sequence of calls of its operations, each from the state that the one
-- before left, whether it returned or raised.
use pantheon_legion.Base.{ℕ, String, Bool, List, [], ◌∷◌, Option}
use pantheon_legion.Kernel.Types.{Principal}
use pantheon_legion.Kernel.State.{World, Kernel}
use pantheon_legion.Kernel.Journal.{Entry}
use pantheon_legion.Kernel.Command.{Submission, submit_command, key_of}
use pantheon_legion.Kernel.Approvals.{decide_approval}
use pantheon_legion.Kernel.Execution.{
  execute_action, validate_action_execution, reject_action_execution,
}
use pantheon_legion.Kernel.Facts.{append_fact, Decision, record_execution_authorization}
use pantheon_legion.Kernel.Stable.{Stable}
use pantheon_legion.Kernel.Stable.Commands.{submit_command-Keeps}
use pantheon_legion.Kernel.Stable.Others.{
  decide_approval-Keeps, execute_action-Keeps, validate_action_execution-Keeps,
  reject_action_execution-Keeps, append_fact-Keeps, record_execution_authorization-Keeps,
}

-- The calls other than `create_mission`. `fact` stands for the operations that append one event of
-- their own making: each of them is `append_fact`, or raises before it.
pub data Call : Type 0 where
  submit : Submission → Call
  decide : (approval_id : String) → Principal → ℕ → (decision reason : String) → Call
  execute : (mission_id action_id : String) → Principal → Bool → Call
  validate : (mission_id action_id : String) → Principal → Call
  reject_execution : (mission_id action_id : String) → Principal → (error_code : String) → Call
  execution_authorization :
      (mission_id action_id : String) → Principal → Decision → Option String → Call
  fact : (mission_id : String) → Entry → Call

-- The state that a call leaves.
unfoldable pub after : World → Call → Kernel → Kernel
after w (submit s) k = (submit_command w s k).1
after w (decide id by expected decision reason) k =
    (decide_approval w id by expected decision reason k).1
after w (execute id action worker fails) k = (execute_action w id action worker fails k).1
after w (validate id action worker) k = (validate_action_execution w id action worker k).1
after w (reject_execution id action worker code) k =
    (reject_action_execution w id action worker code k).1
after w (execution_authorization id action worker d delegation) k =
    (record_execution_authorization w id action worker d delegation k).1
after w (fact id e) k = (append_fact w id e k).1

unfoldable pub after_all : World → List Call → Kernel → Kernel
unfolding after
after_all w [] k = k
after_all w (c ∷ cs) k = after_all w cs (after w c k)

module _ {P : Kernel → Type 0} (S : Stable P) (w : World) where
  pub after-stable : (c : Call) (k : Kernel) → P k → P (after w c k)
  unfolding after
  after-stable (submit s) k h =
      (submit_command-Keeps S.quiet S.approvals S.missions w s (S.memories (key_of s))).kept k h
  after-stable (decide id by expected decision reason) k h =
      (decide_approval-Keeps S.quiet S.approvals w id by expected decision reason).kept k h
  after-stable (execute id action worker fails) k h =
      (execute_action-Keeps S.quiet S.approvals S.missions S.effects w id action worker fails).kept
        k h
  after-stable (validate id action worker) k h =
      (validate_action_execution-Keeps S.quiet S.approvals w id action worker).kept k h
  after-stable (reject_execution id action worker code) k h =
      (reject_action_execution-Keeps S.quiet S.approvals w id action worker code).kept k h
  after-stable (execution_authorization id action worker d delegation) k h =
      (record_execution_authorization-Keeps S.quiet w id action worker d delegation).kept k h
  after-stable (fact id e) k h = (append_fact-Keeps S.quiet w id e).kept k h

  pub after_all-stable : (cs : List Call) (k : Kernel) → P k → P (after_all w cs k)
  unfolding after_all
  after_all-stable [] k h = h
  after_all-stable (c ∷ cs) k h = after_all-stable cs (after w c k) (after-stable c k h)
