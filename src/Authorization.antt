-- ===== src/Authorization.antt =====
-- The authorization engine of the control plane (aquila_api/authorization.py): requests, grants,
-- the policy, and the ladder of tests of `AuthorizationEngine._evaluate`.
pub mod Meaning
mod Tests
use pantheon_legion.Base.{
  text_eq, ℕ, String, Bool, true, false, ◌&&◌, ◌||◌, not, Option, none, some, List, [], ◌∷◌, ◌==◌,
  if◌then◌else◌, contains, ltb,
}
use pantheon_legion.Base.Text.{is_empty, text_lt}
use pantheon_legion.Kernel.Types.{
  Principal, PrincipalType, has_any_role, MissionStatus, completed, cancelled, status_in, RoeLevel,
  observe, recommend, review, bounded_autonomous, roe_order,
}
use pantheon_legion.Kernel.Rules.{is_human, is_workload}

pub data Verdict : Type 0 where
  allow deny : Verdict

pub record DelegationGrant : Type 0 where
  pub grant_id : String
  pub issuer : Principal
  pub subject : Principal
  pub mission_id : String
  pub allowed_operations : List String
  pub roe_ceiling : RoeLevel
  pub expires_at : String
  pub issued_at : String
  pub revoked : Bool
  pub revoked_at : Option String
  pub revoked_by : Option Principal
  pub revocation_reason : Option String

pub record AuthorizationRequest : Type 0 where
  pub principal : Principal
  pub mission_id : String
  pub operation : String
  pub roe_level : RoeLevel
  pub mission_status : MissionStatus
  pub side_effect_class : String
  pub capability : Option String
  pub approval_present : Bool
  pub delegation : Option DelegationGrant
  pub delegation_id : Option String

pub record AuthorizationDecision : Type 0 where
  pub decision_id : String
  pub decision : Verdict
  pub reason : String
  pub policy_version : String
  pub evaluated_at : String
  pub principal : Principal
  pub operation : String

pub record AuthorizationPolicy : Type 0 where
  pub version : String
  pub read_operations : List String
  pub approver_roles : List String
  pub operator_roles : List String
  pub reader_roles : List String

-- The defaults of `AuthorizationPolicy`
abbrev pub mvp_policy : AuthorizationPolicy
mvp_policy = record {
  version = "mvp-1";
  read_operations =
      "READ_MISSION" ∷ "READ_TIMELINE" ∷ "READ_ARTIFACT" ∷ "READ_TOOL" ∷ "READ_KNOWLEDGE"
      ∷ "INVOKE_COGNITION" ∷ [];
  approver_roles = "APPROVER" ∷ "MISSION_OWNER" ∷ [];
  operator_roles = "MISSION_OWNER" ∷ "OPERATOR" ∷ [];
  reader_roles = "MISSION_OWNER" ∷ "OPERATOR" ∷ "OBSERVER" ∷ "APPROVER" ∷ "MISSION_WORKER" ∷ [];
}

-- `bool(request.delegation_id)`
abbrev pub is_given : Option String → Bool
is_given none = false
is_given (some s) = not (is_empty s)

abbrev pub is_terminal : MissionStatus → Bool
is_terminal s = status_in s (cancelled ∷ completed ∷ [])

abbrev pub is_bounded_autonomous : RoeLevel → Bool
is_bounded_autonomous bounded_autonomous = true
is_bounded_autonomous _ = false

-- An error, or else the next test.
infixr 20 ◌or_else◌
abbrev pub ◌or_else◌ : Option String → Option String → Option String
none or_else next = next
(some e) or_else next = some e

-- The tests of the grant; `now` is the reading of the clock that the test of expiry makes.
unfoldable pub grant_error : (now : String) → AuthorizationRequest → DelegationGrant → Option String
grant_error now r g =
    if not (g.subject.subject == r.principal.subject) || not (g.mission_id == r.mission_id)
    then some "DELEGATION_SCOPE_MISMATCH"
    else if g.revoked
    then some "DELEGATION_REVOKED"
    else if not (text_lt now g.expires_at)
    then some "DELEGATION_EXPIRED"
    else if not (contains g.allowed_operations r.operation)
    then some "DELEGATED_OPERATION_DENIED"
    else if ltb (roe_order g.roe_ceiling) (roe_order r.roe_level)
    then some "DELEGATED_ROE_EXCEEDED"
    else none

unfoldable pub held_grant_error :
    (now : String) → AuthorizationRequest → Option DelegationGrant → Option String
held_grant_error now r none =
    some (if is_given r.delegation_id then "DELEGATION_INVALID" else "DELEGATION_REQUIRED")
held_grant_error now r (some g) = grant_error now r g

-- A workload acts by delegation, except where it is assigned to the Mission.
unfoldable pub delegation_error : (now : String) → AuthorizationRequest → Option String
delegation_error now r =
    if is_workload r.principal.type && not (r.operation == "ASSIGN_AGENT")
    then held_grant_error now r r.delegation
    else none

unfoldable pub cognition_error : AuthorizationRequest → Option String
cognition_error r =
    if r.operation == "INVOKE_COGNITION" && is_terminal r.mission_status
    then some "MISSION_TERMINAL"
    else none

unfoldable pub read_error : AuthorizationPolicy → Principal → Option String
read_error p principal =
    if is_workload principal.type
    then none
    else if not (is_human principal.type)
    then some "READ_ROLE_REQUIRED"
    else if not (has_any_role principal p.reader_roles)
    then some "READ_ROLE_REQUIRED"
    else none

-- The test `type != HUMAN or not has_any_role(*roles)`
unfoldable pub human_error : List String → (error : String) → Principal → Option String
human_error roles error principal =
    if not (is_human principal.type)
    then some error
    else if not (has_any_role principal roles)
    then some error
    else none

abbrev level_error : (approval_present : Bool) → RoeLevel → Option String
level_error present observe = some "ROE_DENIED"
level_error present recommend = some "ROE_DENIED"
level_error present review = if not present then some "APPROVAL_REQUIRED" else none
level_error present bounded_autonomous = none

-- The tests of an operation with a side effect
unfoldable pub effect_error : AuthorizationRequest → Option String
effect_error r = if r.side_effect_class == "READ" then none else elim r.capability [
  | none ↦ some "CAPABILITY_REQUIRED"
  | some c ↦ level_error r.approval_present r.roe_level
]

-- The operations that the ladder does not name
unfoldable pub operation_error : AuthorizationPolicy → AuthorizationRequest → Option String
operation_error p r =
    if is_human r.principal.type && not (has_any_role r.principal p.operator_roles)
    then some "OPERATOR_ROLE_REQUIRED"
    else if (r.operation == "SET_ROE" && is_bounded_autonomous r.roe_level)
        && not (has_any_role r.principal ("MISSION_OWNER" ∷ []))
    then some "OWNER_REQUIRED_FOR_AUTONOMY"
    else effect_error r

-- The operations on a Mission that is not terminal
unfoldable pub live_error : AuthorizationPolicy → AuthorizationRequest → Option String
live_error p r =
    if r.operation == "ASSIGN_AGENT"
    then human_error p.operator_roles "OPERATOR_ROLE_REQUIRED" r.principal
    else if r.operation == "ISSUE_DELEGATION"
    then human_error ("MISSION_OWNER" ∷ []) "MISSION_OWNER_REQUIRED" r.principal
    else if r.operation == "DECIDE_APPROVAL"
    then (if not (has_any_role r.principal p.approver_roles)
        then some "APPROVER_REQUIRED"
        else none)
    else operation_error p r

unfoldable pub policy_error : AuthorizationPolicy → AuthorizationRequest → Option String
policy_error p r =
    if contains p.read_operations r.operation
    then read_error p r.principal
    else if r.operation == "REVOKE_DELEGATION"
    then human_error ("MISSION_OWNER" ∷ []) "MISSION_OWNER_REQUIRED" r.principal
    else if is_terminal r.mission_status
    then some "MISSION_TERMINAL"
    else live_error p r

-- `_evaluate`; `none` is the authorized case
unfoldable pub evaluate :
    AuthorizationPolicy → (now : String) → AuthorizationRequest → Option String
evaluate p now r =
    if is_empty r.principal.subject
    then some "MISSING_SUBJECT"
    else delegation_error now r or_else cognition_error r or_else policy_error p r

abbrev verdict_of : Option String → Verdict
verdict_of none = allow
verdict_of (some reason) = deny

-- `reason or "AUTHORIZED"`
abbrev reason_of : Option String → String
reason_of none = "AUTHORIZED"
reason_of (some reason) = if is_empty reason then "AUTHORIZED" else reason

-- `decide`, with the id that `uuid4` gives and the two readings of the clock
unfoldable pub decide :
    AuthorizationPolicy
    → (decision_id now evaluated_at : String) → AuthorizationRequest
    → AuthorizationDecision
decide p decision_id now evaluated_at r = record {
  decision_id = decision_id;
  decision = verdict_of (evaluate p now r);
  reason = reason_of (evaluate p now r);
  policy_version = p.version;
  evaluated_at = evaluated_at;
  principal = r.principal;
  operation = r.operation;
}
