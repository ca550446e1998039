-- ===== src/Kernel/Command/Effects.antt =====
-- What each command of `submit_command` changes, behind the guards: one branch of the source's
-- ladder over `command_type` for each clause of `apply_command`.
use pantheon_legion.Base.{
  text_eq, ◌+◌, String, Bool, ◌&&◌, not, Option, none, some, List, [], ◌∷◌, ◌++◌, ◌==◌,
  if◌then◌else◌,
}
use pantheon_legion.Base.Dict.{insert, values}
use pantheon_legion.Base.Lists.{any}
use pantheon_legion.Base.Json.{Value, str, Fields, end, get, canonical}
use pantheon_legion.Base.Text.{is_empty, strip}
use pantheon_legion.Kernel.Types.{
  Principal, active, paused, awaiting_approval, suspended, completed, cancelled, RulesOfEngagement,
  parse_roe_level, approval_classes, Constraint, Action, Approval, pending, Mission, CommandType,
  update_objective, add_constraint, remove_constraint, set_roe, add_participant, remove_participant,
  start, pause, suspend, resume, request_action, request_investigation, cancel, complete,
}
use pantheon_legion.Kernel.State.{
  World, value_error, Exec, pure, gets, or_raise, ◌>>=◌, ◌>>◌, uuid4, clock, wall_now, put_approval,
}
use pantheon_legion.Kernel.Rules.{capability_denied, requires_approval}
use pantheon_legion.Kernel.Journal.{one, expire_approval_if_needed}
use pantheon_legion.Kernel.Command.Values.{
  value_at, text_at, object_of, object_at, capability_set, make_participant, same_subject,
  put_participant, participant_fields, keep_if, conflicts, optional_target, fields_or_empty,
  text_or, action_document,
}

-- A branch refuses with an error code and a message, or leaves the Mission as it will be stored,
-- but for the new version, with the type of its audit event, the approval that it asked for and
-- the further data of the event.
pub data Change : Type 0 where
  refused : (error_code message : String) → Change
  changed : Mission → (event_type : String) → Option String → Fields → Change

abbrev pub accepted_as : Mission → Change
accepted_as m = changed m "COMMAND_ACCEPTED" none end

module _ (w : World) where
  -- `_make_action`
  unfoldable pub make_action : Fields → Principal → String → Exec Action
  make_action payload requested_by command_id = do
    id ← text_at payload "action_id"
    capability ← text_at payload "capability"
    requested_at ← wall_now w
    pure (record {
      id = id;
      command_id = command_id;
      capability = capability;
      arguments = fields_or_empty (get payload "arguments");
      target = optional_target (get payload "target");
      side_effect_class = text_or (get payload "side_effect_class") "READ";
      requested_by = requested_by;
      requested_at = requested_at;
    })

  -- `_action_hash`
  unfoldable pub action_hash : Action → String
  action_hash a = w.sha256_json (canonical (action_document a))

  -- The loop of CANCEL over the approvals.
  unfoldable pub cancel_approvals : Mission → List Approval → Exec (Unit {0})
  cancel_approvals m [] = pure tt
  cancel_approvals m (a ∷ rest) =
      let others = cancel_approvals m rest in
      if a.mission_id == m.id
      then expire_approval_if_needed w m a (some "MISSION_CANCELLED") >>= (λ _. others)
      else others

  -- The approval that REQUEST_ACTION asks for.
  unfoldable pub request_approval : Mission → Action → Principal → String → Exec Change
  request_approval m action requested_by command_id = do
    approval_id ← uuid4 w
    now ← clock w
    put_approval (record {
      id = approval_id;
      mission_id = m.id;
      command_id = command_id;
      action = action;
      mission_version = m.version + 1;
      roe_revision = m.roe.revision;
      action_hash = action_hash action;
      requested_by = requested_by;
      status = pending;
      approver = none;
      decision_reason = none;
      decided_at = none;
      expires_at = some (w.plus_minutes 15 now);
      consumed_at = none;
    })
    pure (
        changed (record m { status = awaiting_approval }) "APPROVAL_REQUESTED" (some approval_id)
          end)

  -- The branch REQUEST_ACTION.
  unfoldable pub apply_request : Mission → Principal → String → Fields → Exec Change
  apply_request m requested_by command_id p = do
    action ← make_action p requested_by command_id
    if capability_denied m.roe action
        then pure (refused "ROE_DENIED" "Current Rules of Engagement deny this capability.")
        else do
          let next : Mission = record m { actions = insert action.id action m.actions }
          if requires_approval m.roe action
              then request_approval next action requested_by command_id
              else pure (accepted_as next)

  -- The branch ADD_CONSTRAINT.
  unfoldable pub apply_add_constraint : Mission → Principal → Fields → Exec Change
  apply_add_constraint m actor p = do
    raw ← object_at p "constraint"
    severity ← text_at raw "severity"
    text ← text_at raw "text"
    if severity == "PROHIBITED" && any (conflicts text) m.constraints
        then pure (refused "CONSTRAINT_CONFLICT" "Required and prohibited constraints conflict.")
        else do
          id ← text_at raw "id"
          now ← clock w
          let added : Constraint = record {
            id = id;
            text = text;
            severity = severity;
            added_by = actor;
            added_at = now;
          }
          pure (accepted_as (record m { constraints = m.constraints ++ added ∷ [] }))

  -- The branch SET_ROE.
  unfoldable pub apply_set_roe : Mission → Principal → Fields → Exec Change
  apply_set_roe m actor p = do
    name ← text_at p "level"
    level ← or_raise (parse_roe_level name) (value_error "not a valid RoeLevel")
    now ← clock w
    allowed ← capability_set (get p "allowed_capabilities")
    denied ← capability_set (get p "denied_capabilities")
    reason ← text_at p "reason"
    let roe : RulesOfEngagement = record {
      revision = m.roe.revision + 1;
      level = level;
      changed_by = actor;
      effective_at = now;
      approval_required_for = approval_classes;
      allowed_capabilities = allowed;
      denied_capabilities = denied;
      reason = reason;
    }
    pure (changed (record m { roe = roe }) "ROE_CHANGED" none end)

  -- The branch CANCEL.
  unfoldable pub apply_cancel : Mission → Exec Change
  apply_cancel m = do
    let next : Mission = record m { status = cancelled }
    approvals ← gets (λ k. values k.approvals)
    cancel_approvals next approvals
    pure (accepted_as next)

  -- The ladder over `command_type`, on the keys of a payload that is an object.
  unfoldable pub apply_fields :
      Mission → Principal → Principal → String → CommandType → Fields → Exec Change
  apply_fields m actor requested_by command_id update_objective p = do
    objective ← text_at p "objective"
    pure (accepted_as (record m { objective = objective }))
  apply_fields m actor requested_by command_id add_constraint p = apply_add_constraint m actor p
  apply_fields m actor requested_by command_id remove_constraint p = do
    id ← text_at p "constraint_id"
    if not (any (λ c. c.id == id) m.constraints)
        then pure (refused "CONSTRAINT_NOT_FOUND" "Constraint is not part of this Mission.")
        else pure
            (accepted_as (record m { constraints = keep_if (λ c. not (c.id == id)) m.constraints }))
  apply_fields m actor requested_by command_id add_participant p = do
    participant ← make_participant p
    let known : Bool = any (same_subject participant.principal.subject) m.participants
    pure (
        changed (record m { participants = put_participant participant m.participants })
          (if known then "PARTICIPANT_UPDATED" else "PARTICIPANT_ADDED") none
          (participant_fields participant))
  apply_fields m actor requested_by command_id remove_participant p = do
    subject ← text_at p "subject"
    if not (any (same_subject subject) m.participants)
        then pure (refused "PARTICIPANT_NOT_FOUND" "Participant is not part of this Mission.")
        else pure (
            changed
              (record m {
                participants = keep_if (λ q. not (same_subject subject q)) m.participants;
              })
              "PARTICIPANT_REMOVED" none (one "subject" (str subject)))
  apply_fields m actor requested_by command_id set_roe p = apply_set_roe m actor p
  apply_fields m actor requested_by command_id start p =
      pure (accepted_as (record m { status = active }))
  apply_fields m actor requested_by command_id pause p =
      pure (accepted_as (record m { status = paused }))
  apply_fields m actor requested_by command_id suspend p =
      let reason = text_or (get p "reason") "" in
      if is_empty (strip reason)
      then pure (refused "SUSPENSION_REASON_REQUIRED" "Suspending a Mission requires a reason.")
      else pure (
          changed (record m { status = suspended }) "COMMAND_ACCEPTED" none
            (one "reason" (str (strip reason))))
  apply_fields m actor requested_by command_id resume p =
      pure (accepted_as (record m { status = active }))
  apply_fields m actor requested_by command_id cancel p = apply_cancel m
  apply_fields m actor requested_by command_id complete p =
      pure (accepted_as (record m { status = completed }))
  apply_fields m actor requested_by command_id request_investigation p = do
    profile ← value_at p "profile"
    pure (changed m "INVESTIGATION_REQUESTED" none (one "profile" profile))
  apply_fields m actor requested_by command_id request_action p =
      apply_request m requested_by command_id p

  -- A payload that is no object was refused before.
  unfoldable pub apply_command :
      Mission → Principal → Principal → String → CommandType → Value → Exec Change
  apply_command m actor requested_by command_id c payload = do
    fields ← object_of payload
    apply_fields m actor requested_by command_id c fields
