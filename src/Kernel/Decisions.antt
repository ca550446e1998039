-- ===== src/Kernel/Decisions.antt =====
-- What a decision on an approval presupposes, and what it writes.
use pantheon_legion.Base.{text_eq, ℕ, ◌≡◌, String, true, some, List, [], ◌∷◌, ◌++◌}
use pantheon_legion.Base.Dict.{lookup, insert}
use pantheon_legion.Base.Json.{str, field}
use pantheon_legion.Kernel.Types.{Principal, has_any_role, Approval, Mission, AuditEvent}
use pantheon_legion.Kernel.State.{World, Kernel}
use pantheon_legion.Kernel.Journal.{Entry, entry, one}
use pantheon_legion.Kernel.Approvals.{decided_status, is_pending}
use pantheon_legion.Kernel.Leaves.{Leaves}

-- The decided approval, and the state behind the decision.
pub record Decided (k : Kernel) (m : Mission) (a a' : Approval) (approver : Principal)
    (decision reason : String) (k' : Kernel) : Type 0 where
  pub status : decided_status decision ≡ some a'.status
  pub by : a'.approver ≡ some approver
  pub because : a'.decision_reason ≡ some reason
  pub same_id : a'.id ≡ a.id
  pub same_mission : a'.mission_id ≡ a.mission_id
  pub same_action : a'.action ≡ a.action
  pub same_version : a'.mission_version ≡ a.mission_version
  pub stored : k'.approvals ≡ insert a.id a' k.approvals
  pub missions : k'.missions ≡ k.missions
  pub side_effects : k'.side_effects ≡ k.side_effects
  pub idempotency : k'.idempotency ≡ k.idempotency
  pub earlier : List AuditEvent
  pub event : AuditEvent
  pub log : lookup m.id k.audit ≡ some earlier
  pub logged : k'.audit ≡ insert m.id (earlier ++ event ∷ []) k.audit
  pub event_type : event.event_type ≡ "APPROVAL_DECIDED"

module _ (w : World) (m : Mission) (a : Approval) (approver : Principal)
    (decision reason : String) where
  abbrev decision_entry : Entry
  decision_entry =
      record (entry "APPROVAL_DECIDED" approver "SUCCESS"
        (field "decision" (str decision) (one "reason" (str reason)))) { approval_id = some a.id }

-- What a decision on an approval of the Mission needs, and what it does.
pub record Made (k : Kernel) (m : Mission) (a : Approval) (approver : Principal) (expected : ℕ)
    (decision reason : String) (a' : Approval) (k' : Kernel) : Type 0 where
  pub role : has_any_role approver ("APPROVER" ∷ "MISSION_OWNER" ∷ []) ≡ true
  pub undecided : is_pending a.status ≡ true
  pub expected_version : expected ≡ m.version
  pub asked_version : m.version ≡ a.mission_version
  pub decided : Decided k m a a' approver decision reason k'

-- What holds in the states in front of and behind a decision.
pub record Decision (k : Kernel) (id : String) (approver : Principal) (expected : ℕ)
    (decision reason : String) (a' : Approval) (k' : Kernel) : Type 0 where
  pub approval : Approval
  pub mission : Mission
  pub found : lookup id k.approvals ≡ some approval
  pub of_mission : lookup approval.mission_id k.missions ≡ some mission
  pub made : Made k mission approval approver expected decision reason a' k'
