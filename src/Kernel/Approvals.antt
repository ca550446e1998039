-- ===== src/Kernel/Approvals.antt =====
-- `decide_approval`
use pantheon_legion.Base.{
  text_eq, ℕ, String, Bool, ◌||◌, not, Option, none, some, [], ◌∷◌, ◌==◌, eqb, if◌then◌else◌,
}
use pantheon_legion.Base.Dict.{lookup}
use pantheon_legion.Base.Json.{str, field}
use pantheon_legion.Kernel.Types.{
  Principal, has_any_role, ApprovalStatus, pending, approved, denied, revoked, Approval, Mission,
}
use pantheon_legion.Kernel.State.{
  World, key_error, authorization_error, value_error, Exec, pure, raise, or_raise, ◌>>=◌, ◌>>◌,
  clock, get_mission, put_approval,
}
use pantheon_legion.Kernel.Journal.{entry, one, record_event, expire_approval_if_needed}

-- The dict of the three decisions; `none` is a decision outside it.
unfoldable pub decided_status : String → Option ApprovalStatus
decided_status decision =
    if decision == "APPROVE"
    then some approved
    else if decision == "DENY"
    then some denied
    else if decision == "REVOKE"
    then some revoked
    else none

abbrev pub is_pending : ApprovalStatus → Bool
is_pending pending = Bool.true
is_pending _ = Bool.false

-- `self.approvals[approval_id]`
unfoldable pub get_approval : String → Exec Approval
get_approval id k = or_raise (lookup id k.approvals) (key_error id) k

module _ (w : World) where
  -- The writes of a decision that passed the guards.
  unfoldable pub write_decision :
      Mission → Approval → Principal → (decision reason : String) → ApprovalStatus → Exec Approval
  write_decision m a approver decision reason status = do
    now ← clock w
    let decided : Approval = record a {
      status = status;
      approver = some approver;
      decision_reason = some reason;
      decided_at = some now;
    }
    put_approval decided
    record_event w m
        (record (entry "APPROVAL_DECIDED" approver "SUCCESS"
          (field "decision" (str decision) (one "reason" (str reason)))) {
            approval_id = some a.id;
          })
    pure decided

  -- The guards and writes of `decide_approval`, behind its two lookups.
  unfoldable pub decide_found :
      Mission
      → Approval
      → Principal
      → (expected_mission_version : ℕ) → (decision reason : String) → Exec Approval
  decide_found m a approver expected_mission_version decision reason =
      if not (has_any_role approver ("APPROVER" ∷ "MISSION_OWNER" ∷ []))
      then raise (authorization_error "FORBIDDEN")
      else do
        stale ← expire_approval_if_needed w m a none
        if stale
            then raise (authorization_error "APPROVAL_STALE")
            else if not (is_pending a.status)
            then raise (authorization_error "APPROVAL_ALREADY_DECIDED")
            else if not (eqb expected_mission_version m.version)
                || not (eqb m.version a.mission_version)
            then raise (authorization_error "APPROVAL_STALE")
            else do
              status ←
                  or_raise (decided_status decision) (value_error "Unsupported approval decision")
              write_decision m a approver decision reason status

  -- `decide_approval`
  unfoldable pub decide_approval :
      (approval_id : String)
      → (approver : Principal) → (expected_mission_version : ℕ) → (decision reason : String)
      → Exec Approval
  decide_approval approval_id approver expected_mission_version decision reason = do
    a ← get_approval approval_id
    m ← get_mission a.mission_id
    decide_found m a approver expected_mission_version decision reason
