-- ===== src/Kernel/Types.antt =====
-- The enumerations and dataclasses of legion_kernel/kernel.py.
use pantheon_legion.Base.{
  ℕ, String, Bool, false, ◌||◌, Option, none, some, List, [], ◌∷◌, ◌==◌, if◌then◌else◌, intersects,
}
use pantheon_legion.Base.Dict.{Dict}
use pantheon_legion.Base.Json.{Fields}

pub data PrincipalType : Type 0 where
  human workload system external : PrincipalType

pub data MissionStatus : Type 0 where
  draft active paused awaiting_approval suspended completed cancelled failed : MissionStatus

pub data RoeLevel : Type 0 where
  observe recommend review bounded_autonomous : RoeLevel

-- `ROE_ORDER`
abbrev pub roe_order : RoeLevel → ℕ
roe_order observe = 0
roe_order recommend = 1
roe_order review = 2
roe_order bounded_autonomous = 3

-- The values of the enumerations, and the constructors applied to a value.
abbrev pub mission_status_value : MissionStatus → String
mission_status_value draft = "DRAFT"
mission_status_value active = "ACTIVE"
mission_status_value paused = "PAUSED"
mission_status_value awaiting_approval = "AWAITING_APPROVAL"
mission_status_value suspended = "SUSPENDED"
mission_status_value completed = "COMPLETED"
mission_status_value cancelled = "CANCELLED"
mission_status_value failed = "FAILED"

abbrev pub principal_type_value : PrincipalType → String
principal_type_value human = "HUMAN"
principal_type_value workload = "WORKLOAD"
principal_type_value system = "SYSTEM"
principal_type_value external = "EXTERNAL"

-- `status in {…}`, with the statuses compared by their texts.
abbrev pub status_in : MissionStatus → List MissionStatus → Bool
status_in s [] = false
status_in s (t ∷ ts) = mission_status_value s == mission_status_value t || status_in s ts

unfoldable pub parse_principal_type : String → Option PrincipalType
parse_principal_type s =
    if s == "HUMAN"
    then some human
    else if s == "WORKLOAD"
    then some workload
    else if s == "SYSTEM"
    then some system
    else if s == "EXTERNAL"
    then some external
    else none

unfoldable pub parse_roe_level : String → Option RoeLevel
parse_roe_level s =
    if s == "OBSERVE"
    then some observe
    else if s == "RECOMMEND"
    then some recommend
    else if s == "REVIEW"
    then some review
    else if s == "BOUNDED_AUTONOMOUS"
    then some bounded_autonomous
    else none

-- The members of `COMMAND_TYPES`.
pub data CommandType : Type 0 where
  update_objective add_constraint remove_constraint set_roe add_participant : CommandType
  remove_participant start pause suspend resume request_action : CommandType
  request_investigation cancel complete : CommandType

-- `none` is a command type outside `COMMAND_TYPES`.
unfoldable pub parse_command_type : String → Option CommandType
parse_command_type s =
    if s == "UPDATE_OBJECTIVE"
    then some update_objective
    else if s == "ADD_CONSTRAINT"
    then some add_constraint
    else if s == "REMOVE_CONSTRAINT"
    then some remove_constraint
    else if s == "SET_ROE"
    then some set_roe
    else if s == "ADD_PARTICIPANT"
    then some add_participant
    else if s == "REMOVE_PARTICIPANT"
    then some remove_participant
    else if s == "START"
    then some start
    else if s == "PAUSE"
    then some pause
    else if s == "SUSPEND"
    then some suspend
    else if s == "RESUME"
    then some resume
    else if s == "REQUEST_ACTION"
    then some request_action
    else if s == "REQUEST_INVESTIGATION"
    then some request_investigation
    else if s == "CANCEL"
    then some cancel
    else if s == "COMPLETE"
    then some complete
    else none

pub record Principal : Type 0 where
  pub type : PrincipalType
  pub subject : String
  pub roles : List String

-- `Principal.has_any_role`
abbrev pub has_any_role : Principal → List String → Bool
has_any_role p wanted = intersects p.roles wanted

pub record Constraint : Type 0 where
  pub id : String
  pub text : String
  pub severity : String
  pub added_by : Principal
  pub added_at : String

pub record Participant : Type 0 where
  pub principal : Principal
  pub role : String
  pub scope : Option String

pub record RulesOfEngagement : Type 0 where
  pub revision : ℕ
  pub level : RoeLevel
  pub changed_by : Principal
  pub effective_at : String
  pub approval_required_for : List String
  pub allowed_capabilities : List String
  pub denied_capabilities : List String
  pub reason : String

-- The default of `approval_required_for`.
abbrev pub approval_classes : List String
approval_classes = "MUTATION" ∷ "EXTERNAL_SIDE_EFFECT" ∷ "CREDENTIAL_USE" ∷ "PRODUCTION_ACCESS" ∷ []

pub record Action : Type 0 where
  pub id : String
  pub command_id : String
  pub capability : String
  pub arguments : Fields
  pub target : Option String
  pub side_effect_class : String
  pub requested_by : Principal
  pub requested_at : String

-- The texts that `Approval.status` takes.
pub data ApprovalStatus : Type 0 where
  pending approved denied revoked expired consumed : ApprovalStatus

pub record Approval : Type 0 where
  pub id : String
  pub mission_id : String
  pub command_id : String
  pub action : Action
  pub mission_version : ℕ
  pub roe_revision : ℕ
  pub action_hash : String
  pub requested_by : Principal
  pub status : ApprovalStatus
  pub approver : Option Principal
  pub decision_reason : Option String
  pub decided_at : Option String
  pub expires_at : Option String
  pub consumed_at : Option String

pub record AuditEvent : Type 0 where
  pub id : String
  pub sequence : ℕ
  pub mission_id : String
  pub mission_version : ℕ
  pub event_type : String
  pub occurred_at : String
  pub actor : Principal
  pub result : String
  pub correlation_id : String
  pub command_id : Option String
  pub approval_id : Option String
  pub causation_id : Option String
  pub details : Fields

-- Every Mission is made by `create_mission`, which gives it rules of engagement, so that field is
-- no `Option` here.
pub record Mission : Type 0 where
  pub id : String
  pub organization_id : String
  pub workspace_id : String
  pub title : String
  pub objective : String
  pub created_by : Principal
  pub status : MissionStatus
  pub version : ℕ
  pub roe : RulesOfEngagement
  pub constraints : List Constraint
  pub participants : List Participant
  pub created_at : String
  pub updated_at : String
  pub actions : Dict String Action

-- The texts that `CommandResult.status` takes.
pub data CommandStatus : Type 0 where
  rejected accepted awaiting : CommandStatus

pub record CommandResult : Type 0 where
  pub command_id : String
  pub status : CommandStatus
  pub mission_id : String
  pub mission_version : ℕ
  pub error_code : Option String
  pub message : Option String
  pub approval_id : Option String
