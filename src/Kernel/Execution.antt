-- ===== src/Kernel/Execution.antt =====
-- `execute_action` and the gate in front of it.
use pantheon_legion.Base.{
  text_eq, ℕ, ◌+◌, String, Bool, true, false, not, Option, none, some, List, [], ◌∷◌, ◌==◌, eqb,
  if◌then◌else◌,
}
use pantheon_legion.Base.Dict.{lookup, values}
use pantheon_legion.Base.Json.{number, str, field, Fields}
use pantheon_legion.Base.Text.{show}
use pantheon_legion.Kernel.Types.{
  Principal, awaiting_approval, active, status_in, ApprovalStatus, approved, consumed, Action,
  Approval, Mission,
}
use pantheon_legion.Kernel.State.{
  World, Kernel, key_error, authorization_error, worker_killed, Exec, pure, raise, gets, or_raise,
  ◌>>=◌, ◌>>◌, clock, get_mission, put_mission, put_approval, put_side_effect,
}
use pantheon_legion.Kernel.Rules.{execution_state_error, capability_denied}
use pantheon_legion.Kernel.Journal.{entry, one, record_event, expire_approval_if_needed}

-- `mission.actions[action_id]`
unfoldable pub get_action : Mission → String → Exec Action
get_action m action_id = or_raise (lookup action_id m.actions) (key_error action_id)

-- `next((item for item in self.approvals.values() if item.action.id == action.id), None)`
unfoldable pub first_approval : String → List Approval → Option Approval
first_approval action_id [] = none
first_approval action_id (a ∷ rest) =
    if a.action.id == action_id then some a else first_approval action_id rest

-- `self.side_effects.get(action_id)` is true: a count that is there and not zero.
unfoldable pub has_run : Kernel → String → Bool
has_run k action_id = elim (lookup action_id k.side_effects) [
  | none ↦ false
  | some n ↦ not (eqb n 0)
]

abbrev pub is_approved : ApprovalStatus → Bool
is_approved approved = true
is_approved _ = false

-- The ladder of `_approval_for_execution` behind the test of expiry.
unfoldable pub approval_error : Mission → Action → Approval → Option String
approval_error m action a =
    if not (is_approved a.status)
    then some "APPROVAL_STALE"
    else if not (eqb m.version a.mission_version)
    then some "APPROVAL_STALE"
    else if not (eqb m.roe.revision a.roe_revision)
    then some "ROE_DENIED"
    else if capability_denied m.roe action
    then some "ROE_DENIED"
    else none

abbrev action_fields : String → Fields
action_fields action_id = one "action_id" (str action_id)

abbrev approval_id_of : Option Approval → Option String
approval_id_of none = none
approval_id_of (some a) = some a.id

module _ (w : World) where
  -- `reject_action_execution`
  unfoldable pub reject_action_execution :
      (mission_id action_id : String) → Principal → (error_code : String) → Exec (Unit {0})
  reject_action_execution mission_id action_id worker error_code = do
    m ← get_mission mission_id
    action ← get_action m action_id
    record_event w m
        (record (entry "EXECUTION_REJECTED" worker "REJECTED"
          (field "action_id" (str action_id) (one "error_code" (str error_code)))) {
            command_id = some action.command_id;
          })
    pure tt

  -- A denial is recorded, and raised.
  unfoldable pub deny :
      {A : Type 0} → (mission_id action_id : String) → Principal → (error_code : String) → Exec A
  deny mission_id action_id worker error_code = do
    reject_action_execution mission_id action_id worker error_code
    raise (authorization_error error_code)

  -- The error code of an approval that may not be used.
  unfoldable pub approval_fault : Mission → Action → Approval → Exec (Option String)
  approval_fault m action a = do
    stale ← expire_approval_if_needed w m a none
    pure (if stale then some "APPROVAL_STALE" else approval_error m action a)

  -- An error code is denied; with none the call goes on.
  unfoldable pub deny_or :
      {A : Type 0} → (mission_id action_id : String) → Principal → Option String → Exec A → Exec A
  deny_or mission_id action_id worker none next = next
  deny_or mission_id action_id worker (some error_code) next =
      deny mission_id action_id worker error_code

  unfoldable pub found_approval :
      Mission → Action → Principal → Option Approval → Exec (Option Approval)
  found_approval m action worker none = pure none
  found_approval m action worker (some a) = do
    fault ← approval_fault m action a
    deny_or m.id action.id worker fault (pure (some a))

  -- `_approval_for_execution`
  unfoldable pub approval_for_execution : Mission → Action → Principal → Exec (Option Approval)
  approval_for_execution m action worker = do
    found ← gets (λ k. first_approval action.id (values k.approvals))
    found_approval m action worker found

  -- `validate_action_execution`
  unfoldable pub validate_action_execution :
      (mission_id action_id : String) → Principal → Exec (Option Approval)
  validate_action_execution mission_id action_id worker = do
    m ← get_mission mission_id
    action ← get_action m action_id
    deny_or mission_id action_id worker (execution_state_error m worker) (do
      ran ← gets (λ k. has_run k action_id)
      if ran then pure none else approval_for_execution m action worker)

  -- `approval.status = "CONSUMED"`
  unfoldable pub consume : Option Approval → Exec (Unit {0})
  consume none = pure tt
  consume (some a) = do
    now ← clock w
    put_approval (record a { status = consumed; consumed_at = some now })

  -- A Mission that waited for the approval is active again, in a new version.
  unfoldable pub reactivate : Mission → Exec Mission
  reactivate m = if not (status_in m.status (awaiting_approval ∷ [])) then pure m else do
    now ← clock w
    let next : Mission = record m { status = active; version = m.version + 1; updated_at = now }
    put_mission next
    pure next

  -- The facts of an execution whose side effect is recorded.
  unfoldable pub after_effect :
      Mission → (action_id : String) → Principal → Option Approval → (fails : Bool) → Exec String
  after_effect m action_id worker approval fails = do
    record_event w m
        (record (entry "EXECUTION_STARTED" worker "SUCCESS"
          (field "action_id" (str action_id) (one "side_effect_count" (number "1")))) {
            approval_id = approval_id_of approval;
          })
    if fails then raise (worker_killed "worker killed after external side effect") else do
      record_event w m
          (record (entry "EXECUTION_COMPLETED" worker "SUCCESS" (action_fields action_id)) {
            approval_id = approval_id_of approval;
          })
      pure "EXECUTED"

  -- The part of `execute_action` that runs the action.
  unfoldable pub run_action :
      Mission → (action_id : String) → Principal → Option Approval → (fails : Bool) → Exec String
  run_action m action_id worker approval fails = do
    consume approval
    next ← reactivate m
    put_side_effect action_id
    after_effect next action_id worker approval fails

  abbrev count_text : Option ℕ → String
  count_text none = "null"
  count_text (some n) = show n

  -- The part of `execute_action` for an action whose side effect is there.
  unfoldable pub recover_action : Mission → (action_id : String) → Principal → Exec String
  recover_action m action_id worker = do
    count ← gets (λ k. lookup action_id k.side_effects)
    record_event w m (
        entry "EXECUTION_RETRIED" worker "DUPLICATE"
          (field "action_id" (str action_id) (one "side_effect_count" (number (count_text count)))))
    pure "RECOVERED"

  -- `execute_action`
  unfoldable pub execute_action :
      (mission_id action_id : String) → Principal → (fail_after_side_effect : Bool) → Exec String
  execute_action mission_id action_id worker fail_after_side_effect = do
    m ← get_mission mission_id
    get_action m action_id
    approval ← validate_action_execution mission_id action_id worker
    ran ← gets (λ k. has_run k action_id)
    if ran
        then recover_action m action_id worker
        else run_action m action_id worker approval fail_after_side_effect
