-- ===== src/Kernel/Rules.antt =====
-- The guards of the kernel that read a Mission and change nothing.
use pantheon_legion.Base.{
  String, Bool, true, false, ◌&&◌, not, Option, none, some, List, [], ◌∷◌, if◌then◌else◌, contains,
  ltb,
}
use pantheon_legion.Kernel.Types.{
  PrincipalType, human, workload, MissionStatus, draft, active, paused, awaiting_approval,
  suspended, completed, cancelled, failed, status_in, bounded_autonomous, roe_order, CommandType,
  start, pause, suspend, resume, cancel, complete, request_action, request_investigation, Principal,
  has_any_role, RulesOfEngagement, Action, Mission,
}

abbrev pub is_human : PrincipalType → Bool
is_human human = true
is_human _ = false

abbrev pub is_workload : PrincipalType → Bool
is_workload workload = true
is_workload _ = false

abbrev is_request_action : CommandType → Bool
is_request_action request_action = true
is_request_action _ = false

-- `_authorize_command`; `none` is the authorized case
unfoldable pub authorize_command : Principal → CommandType → Option String
authorize_command actor c =
    if is_human actor.type && has_any_role actor ("MISSION_OWNER" ∷ "OPERATOR" ∷ [])
    then none
    else if is_workload actor.type
        && is_request_action c
        && has_any_role actor ("MISSION_WORKER" ∷ [])
    then none
    else some "FORBIDDEN"

-- The table `allowed` of `_validate_transition`; `none` is a command that it does not list.
abbrev pub allowed_from : CommandType → Option (List MissionStatus)
allowed_from start = some (draft ∷ [])
allowed_from pause = some (active ∷ [])
allowed_from suspend = some (active ∷ paused ∷ awaiting_approval ∷ [])
allowed_from resume = some (paused ∷ suspended ∷ failed ∷ [])
allowed_from cancel = some (draft ∷ active ∷ paused ∷ awaiting_approval ∷ suspended ∷ failed ∷ [])
allowed_from complete = some (active ∷ [])
allowed_from request_action = some (active ∷ [])
allowed_from request_investigation = some (active ∷ [])
allowed_from _ = none

-- `_validate_transition`
unfoldable pub validate_transition : MissionStatus → CommandType → Option String
validate_transition s c =
    if status_in s (completed ∷ cancelled ∷ [])
    then some "MISSION_TERMINAL"
    else elim (allowed_from c) [
      | none ↦ none
      | some from ↦ if status_in s from then none else some "INVALID_STATE_TRANSITION"
    ]

-- `_execution_state_error`
unfoldable pub execution_state_error : Mission → Principal → Option String
execution_state_error m worker =
    if not (has_any_role worker ("MISSION_WORKER" ∷ "OPERATOR" ∷ []))
    then some "FORBIDDEN"
    else if status_in m.status (completed ∷ cancelled ∷ failed ∷ [])
    then some "MISSION_TERMINAL"
    else if status_in m.status (paused ∷ [])
    then some "MISSION_PAUSED"
    else if status_in m.status (suspended ∷ [])
    then some "MISSION_SUSPENDED"
    else none

-- `bool(names)`
abbrev pub is_nonempty : List String → Bool
is_nonempty [] = false
is_nonempty (x ∷ xs) = true

-- `_capability_denied`
unfoldable pub capability_denied : RulesOfEngagement → Action → Bool
capability_denied roe a =
    if contains roe.denied_capabilities a.capability
    then true
    else is_nonempty roe.allowed_capabilities
      && not (contains roe.allowed_capabilities a.capability)

-- `_requires_approval`
unfoldable pub requires_approval : RulesOfEngagement → Action → Bool
requires_approval roe a =
    if contains roe.approval_required_for a.side_effect_class
    then true
    else if contains ("READ" ∷ []) a.side_effect_class
    then false
    else ltb (roe_order roe.level) (roe_order bounded_autonomous)
