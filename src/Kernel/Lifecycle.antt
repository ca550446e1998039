-- ===== src/Kernel/Lifecycle.antt =====
-- The life of a Mission, as a specification: which status may follow which, and what each command
-- does to the status and to the rules of engagement.
use pantheon_legion.Base.{◌+◌, ◌≡◌, ◌⊎◌}
use pantheon_legion.Kernel.Types.{
  MissionStatus, draft, active, paused, awaiting_approval, suspended, completed, cancelled, failed,
  CommandType, update_objective, add_constraint, remove_constraint, add_participant,
  remove_participant, start, pause, suspend, resume, cancel, complete, request_action,
  request_investigation, set_roe, RulesOfEngagement,
}

-- The statuses that docs/mission/mission-lifecycle.md does not call terminal.
pub data IsOpen : MissionStatus → Type 0 where
  open_draft : IsOpen draft
  open_active : IsOpen active
  open_paused : IsOpen paused
  open_awaiting : IsOpen awaiting_approval
  open_suspended : IsOpen suspended

-- The commands that do not change the life cycle.
pub data Configures : CommandType → Type 0 where
  objective : Configures update_objective
  constrains : Configures add_constraint
  relaxes : Configures remove_constraint
  rules : Configures set_roe
  joins : Configures add_participant
  leaves : Configures remove_participant

-- What docs/mission/command-protocol.md says that a command does to the status of a Mission, with
-- the terminal statuses of docs/mission/mission-lifecycle.md: CANCELLED, COMPLETED, and FAILED but
-- for RESUME.
pub data Documented : CommandType → MissionStatus → MissionStatus → Type 0 where
  starts : Documented start draft active
  pauses : Documented pause active paused
  suspends_active : Documented suspend active suspended
  suspends_paused : Documented suspend paused suspended
  suspends_awaiting : Documented suspend awaiting_approval suspended
  resumes_paused : Documented resume paused active
  resumes_suspended : Documented resume suspended active
  retries : Documented resume failed active
  acts : Documented request_action active active
  awaits : Documented request_action active awaiting_approval
  investigates : Documented request_investigation active active
  cancels : {s : MissionStatus} → IsOpen s → Documented cancel s cancelled
  completes : Documented complete active completed
  configures : {c : CommandType} {s : MissionStatus} → Configures c → IsOpen s → Documented c s s

-- What the code accepts of a FAILED Mission beyond these documents.
pub data FromFailed : CommandType → MissionStatus → MissionStatus → Type 0 where
  cancels_failed : FromFailed cancel failed cancelled
  configures_failed : {c : CommandType} → Configures c → FromFailed c failed failed

-- The status that a command leads to.
abbrev pub SetsStatus : CommandType → MissionStatus → MissionStatus → Type 0
SetsStatus start s t = t ≡ active
SetsStatus pause s t = t ≡ paused
SetsStatus suspend s t = t ≡ suspended
SetsStatus resume s t = t ≡ active
SetsStatus cancel s t = t ≡ cancelled
SetsStatus complete s t = t ≡ completed
SetsStatus request_action s t = (t ≡ s) ⊎ (t ≡ awaiting_approval)
SetsStatus _ s t = t ≡ s

-- Only SET_ROE writes the rules of engagement, and gives them the next revision.
abbrev pub SetsRules : CommandType → RulesOfEngagement → RulesOfEngagement → Type 0
SetsRules set_roe r r' = r'.revision ≡ r.revision + 1
SetsRules _ r r' = r' ≡ r
