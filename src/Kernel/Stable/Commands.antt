-- ===== src/Kernel/Stable/Commands.antt =====
-- `submit_command` keeps every stable predicate.
use pantheon_legion.Base.{
  inl, inr, Option-cases, text_eq, String, Option, none, some, List, [], ◌∷◌, ◌==◌,
}
use pantheon_legion.Base.Json.{Value, null, str, arr, obj, Fields}
use pantheon_legion.Kernel.Types.{
  Principal, Action, Approval, Mission, CommandType, update_objective, CommandResult,
  parse_command_type,
}
use pantheon_legion.Kernel.State.{World, Kernel, pair_eq}
use pantheon_legion.Kernel.Command.Effects.{
  Change, refused, changed, make_action, cancel_approvals, request_approval, apply_request,
  apply_add_constraint, apply_set_roe, apply_cancel, apply_fields, apply_command,
}
use pantheon_legion.Kernel.Command.Values.{
  text_of, text_at, object_of, object_at, capability_set, optional_text, make_participant,
}
use pantheon_legion.Kernel.Command.{
  Submission, refuse, accept, conclude, guard_command, run_command, submit_new, submit_again,
  submit_either, submit_command, key_of,
}
use pantheon_legion.Kernel.Stable.{
  Quiet, OnMemory, OnApproval, OnMission, Keeps, pure-Keeps, raise-Keeps, if-Keeps, bind-Keeps,
  control, uuid4-Keeps, clock-Keeps, wall_now-Keeps, or_uuid-Keeps, put_mission-Keeps,
  put_approval-Keeps, put_command-Keeps, remember-Keeps, record_event-Keeps, reject-Keeps,
  expire_approval_if_needed-Keeps,
}

module _ {P : Kernel → Type 0} where
  text_of-Keeps : (v : Value) → Keeps P (text_of v)
  text_of-Keeps (str s) = pure-Keeps s
  text_of-Keeps _ = raise-Keeps _

  pub text_at-Keeps : (fs : Fields) (name : String) → Keeps P (text_at fs name)
  unfolding text_at
  text_at-Keeps fs name = search (control, text_of-Keeps)

  pub object_of-Keeps : (v : Value) → Keeps P (object_of v)
  object_of-Keeps (obj fs) = pure-Keeps fs
  object_of-Keeps _ = raise-Keeps _

  pub object_at-Keeps : (fs : Fields) (name : String) → Keeps P (object_at fs name)
  unfolding object_at
  object_at-Keeps fs name = search (control, object_of-Keeps)

  pub capability_set-Keeps : (v : Option Value) → Keeps P (capability_set v)
  unfolding capability_set
  capability_set-Keeps none = pure-Keeps _
  capability_set-Keeps (some (arr vs)) = pure-Keeps _
  capability_set-Keeps (some (obj vs)) = pure-Keeps _
  capability_set-Keeps (some null) = raise-Keeps _
  capability_set-Keeps (some _) = raise-Keeps _

  optional_text-Keeps : (v : Option Value) → Keeps P (optional_text v)
  optional_text-Keeps none = pure-Keeps _
  optional_text-Keeps (some null) = pure-Keeps _
  optional_text-Keeps (some (str s)) = pure-Keeps _
  optional_text-Keeps (some _) = raise-Keeps _

  pub make_participant-Keeps : (p : Fields) → Keeps P (make_participant p)
  unfolding make_participant
  make_participant-Keeps p =
      search (control, object_at-Keeps, text_at-Keeps, optional_text-Keeps) depth 12

pub ruleset reads =
    (control, text_at-Keeps, object_at-Keeps, capability_set-Keeps, make_participant-Keeps)

module _ {P : Kernel → Type 0} (Q : Quiet P) (w : World) where
  pub make_action-Keeps :
      (p : Fields) (by : Principal) (id : String) → Keeps P (make_action w p by id)
  unfolding make_action
  make_action-Keeps p by id = search (reads, wall_now-Keeps) depth 8

module _ {P : Kernel → Type 0} (Q : Quiet P) (A : OnApproval P) (w : World) where
  cancel_approvals-Keeps :
      (m : Mission) (list : List Approval) → Keeps P (cancel_approvals w m list)
  unfolding cancel_approvals
  cancel_approvals-Keeps m [] = search control
  cancel_approvals-Keeps m (a ∷ rest) =
      let ih = cancel_approvals-Keeps m rest in
      if-Keeps (a.mission_id == m.id)
        (bind-Keeps _ _ (expire_approval_if_needed-Keeps Q A w m a (some "MISSION_CANCELLED"))
          (λ _. ih))
        ih

  request_approval-Keeps :
      (m : Mission) (a : Action) (by : Principal) (id : String)
      → Keeps P (request_approval w m a by id)
  unfolding request_approval
  request_approval-Keeps m a by id =
      search (control, uuid4-Keeps, clock-Keeps, put_approval-Keeps) depth 8

  apply_request-Keeps :
      (m : Mission) (by : Principal) (id : String) (p : Fields)
      → Keeps P (apply_request w m by id p)
  unfolding apply_request
  apply_request-Keeps m by id p =
      search (control, make_action-Keeps, request_approval-Keeps) depth 8

  apply_add_constraint-Keeps :
      (m : Mission) (actor : Principal) (p : Fields) → Keeps P (apply_add_constraint w m actor p)
  unfolding apply_add_constraint
  apply_add_constraint-Keeps m actor p = search (reads, clock-Keeps) depth 12

  apply_set_roe-Keeps :
      (m : Mission) (actor : Principal) (p : Fields) → Keeps P (apply_set_roe w m actor p)
  unfolding apply_set_roe
  apply_set_roe-Keeps m actor p = search (reads, clock-Keeps) depth 14

  apply_cancel-Keeps : (m : Mission) → Keeps P (apply_cancel w m)
  unfolding apply_cancel
  apply_cancel-Keeps m = search (control, cancel_approvals-Keeps) depth 8

  apply_fields-Keeps :
      (m : Mission) (actor by : Principal) (id : String) (c : CommandType) (p : Fields)
      → Keeps P (apply_fields w m actor by id c p)
  unfolding apply_fields
  apply_fields-Keeps m actor by id update_objective p = search reads depth 8
  apply_fields-Keeps m actor by id _ p =
      search
        (
          reads, apply_request-Keeps, apply_add_constraint-Keeps, apply_set_roe-Keeps,
          apply_cancel-Keeps,
        )
        depth 8

  pub apply_command-Keeps :
      (m : Mission) (actor by : Principal) (id : String) (c : CommandType) (payload : Value)
      → Keeps P (apply_command w m actor by id c payload)
  unfolding apply_command
  apply_command-Keeps m actor by id c payload =
      search (control, object_of-Keeps, apply_fields-Keeps)

module _ {P : Kernel → Type 0} (Q : Quiet P) (w : World) (s : Submission) where
  pub submit_again-Keeps :
      (m : Mission) (correlation : String) (prior : Value × CommandResult)
      → Keeps P (submit_again w s m correlation prior)
  unfolding submit_again
  submit_again-Keeps m correlation prior = search (control, reject-Keeps)

module _ {P : Kernel → Type 0} (Q : Quiet P) (w : World) (s : Submission)
    (R : OnMemory P (key_of s)) where
  pub refuse-Keeps :
      (m : Mission) (correlation id code message : String)
      → Keeps P (refuse w s m correlation id code message)
  unfolding refuse
  refuse-Keeps m correlation id code message =
      search (control, reject-Keeps, remember-Keeps) depth 8

module _ {P : Kernel → Type 0} (Q : Quiet P) (A : OnApproval P) (M : OnMission P) (w : World)
    (s : Submission) (R : OnMemory P (key_of s)) where
  accept-Keeps :
      (correlation id type : String) (approval : Option String) (extra : Fields) (m : Mission)
      → Keeps P (accept w s correlation id type approval extra m)
  unfolding accept
  accept-Keeps correlation id type approval extra m =
      search
        (
          control, clock-Keeps, put_mission-Keeps, record_event-Keeps, put_command-Keeps,
          remember-Keeps,
        )
        depth 12

  conclude-Keeps :
      (m : Mission) (correlation id : String) (c : Change)
      → Keeps P (conclude w s m correlation id c)
  unfolding conclude
  conclude-Keeps m correlation id (refused code message) =
      refuse-Keeps Q w s R m correlation id code message
  conclude-Keeps m correlation id (changed next type approval extra) =
      accept-Keeps correlation id type approval extra next

  run_command-Keeps :
      (m : Mission) (correlation id : String) (c : CommandType)
      → Keeps P (run_command w s m correlation id c)
  unfolding run_command
  run_command-Keeps m correlation id c = elim (Option-cases (guard_command s m c)) [
    | inl pass ↦ rw (pass, run_command) (search (control, apply_command-Keeps, conclude-Keeps))
    | inr (e, fail) ↦ rw (fail, run_command) (refuse-Keeps Q w s R m correlation id e.0 e.1)
  ]

  submit_new-Keeps : (m : Mission) (correlation : String) → Keeps P (submit_new w s m correlation)
  unfolding submit_new
  submit_new-Keeps m correlation = elim (Option-cases (parse_command_type s.command_type)) [
    | inl unknown ↦ rw unknown (search (control, uuid4-Keeps, refuse-Keeps))
    | inr (c, known) ↦ rw known (search (control, uuid4-Keeps, refuse-Keeps, run_command-Keeps))
  ]

  submit_either-Keeps :
      (m : Mission) (correlation : String) (prior : Option (Value × CommandResult))
      → Keeps P (submit_either w s m correlation prior)
  unfolding submit_either
  submit_either-Keeps m correlation none = submit_new-Keeps m correlation
  submit_either-Keeps m correlation (some prior) = submit_again-Keeps Q w s m correlation prior

  pub submit_command-Keeps : Keeps P (submit_command w s)
  unfolding submit_command
  submit_command-Keeps = search (control, or_uuid-Keeps, submit_either-Keeps)
