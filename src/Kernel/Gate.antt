-- ===== src/Kernel/Gate.antt =====
-- The gate in front of an action: what holds where `execute_action` makes the side effect.
pub mod Recovery
use pantheon_legion.Base.{
  text_eq, ℕ, ◌≡◌, ◌⊎◌, refl, sym, ap, ◌∙◌, inl, inr, String, Bool, true, false, Option, none, some,
  List, Option-cases, Bool-cases, arith, if◌then◌else◌, eqb, eqb_iff, not, ◌==◌,
}
use pantheon_legion.Base.Dict.{lookup, values}
use pantheon_legion.Kernel.Types.{Principal, Action, Approval, Mission, ApprovalStatus, approved}
use pantheon_legion.Kernel.State.{
  World, Kernel, Result, ok, raised, Raised, Exec, pure, raise, gets, ◌>>=◌, get_mission,
}
use pantheon_legion.Kernel.Rules.{execution_state_error, capability_denied}
use pantheon_legion.Kernel.Execution.{
  get_action, first_approval, has_run, is_approved, approval_error, deny, deny_or, approval_fault,
  found_approval, approval_for_execution, validate_action_execution, execute_action,
}
use pantheon_legion.Kernel.Results.{bind-post, validate_action_execution-IsCalm}
use pantheon_legion.Kernel.Outcomes.{
  Returns, bind-Returns, bind_after-Returns, pure-Returns, raise-Returns,
}
use pantheon_legion.Kernel.AtMostOnce.{made_effect, execute_action-IsSilent, calm_made}

-- The approval lets the action run now.
pub record Allows (m : Mission) (action : Action) (a : Approval) : Type 0 where
  pub approved_status : is_approved a.status ≡ true
  pub same_version : m.version ≡ a.mission_version
  pub same_rules : m.roe.revision ≡ a.roe_revision
  pub not_denied : capability_denied m.roe action ≡ false

approval_error-Allows :
    (m : Mission) (action : Action) (a : Approval)
    → approval_error m action a ≡ none
    → Allows m action a
unfolding approval_error
approval_error-Allows m action a passed = record {
  approved_status = ground (arith, passed);
  same_version = ground (arith, passed, eqb_iff m.version a.mission_version);
  same_rules = ground (arith, passed, eqb_iff m.roe.revision a.roe_revision);
  not_denied = ground (arith, passed);
}

module _ (w : World) where
  deny-Returns :
      {A : Type 0} {S : A → Type 0} (id action_id : String) (worker : Principal) (code : String)
      → Returns {A = A} S (deny w id action_id worker code)
  unfolding deny
  deny-Returns id action_id worker code = bind-Returns _ _ (λ done. raise-Returns _)

  deny_or-none :
      {A : Type 0} (id action_id : String) (worker : Principal) (fault : Option String)
      → (next : Exec A) → (k : Kernel) → (a : A) → (k' : Kernel)
      → deny_or w id action_id worker fault next k ≡ (ok a, k')
      → (fault ≡ none) × (next k ≡ (ok a, k'))
  unfolding deny_or
  deny_or-none id action_id worker none next k a k' same = (refl, same)
  deny_or-none id action_id worker (some code) next k a k' same =
      (deny-Returns {S = λ b. (some code ≡ none) × (next k ≡ (ok a, k'))} id action_id worker
          code).at
        k a k' same

  approval_fault-Returns :
      (m : Mission) (action : Action) (a : Approval)
      → Returns (λ f. f ≡ none → approval_error m action a ≡ none) (approval_fault w m action a)
  unfolding approval_fault
  approval_fault-Returns m action a =
      bind-Returns _ _ (λ stale. pure-Returns _ (λ h. ground (arith, h)))

  -- An approval that comes through the gate allows the action.
  found_approval-Returns :
      (m : Mission) (action : Action) (worker : Principal) (a : Approval)
      → Returns (λ b. Allows m action a) (found_approval w m action worker (some a))
  unfolding found_approval deny_or
  found_approval-Returns m action worker a =
      bind_after-Returns (λ f. f ≡ none → approval_error m action a ≡ none) _ _
        (approval_fault-Returns m action a) go
    where
      go :
          (f : Option String)
          → (f ≡ none → approval_error m action a ≡ none)
          → Returns (λ b. Allows m action a) (deny_or w m.id action.id worker f (pure (some a)))
      go none h = pure-Returns (some a) (approval_error-Allows m action a (h refl))
      go (some code) h = deny-Returns m.id action.id worker code

-- What holds in the state in which an action is started.
pub record Gate (k : Kernel) (mission_id action_id : String) (worker : Principal) : Type 0 where
  pub mission : Mission
  pub action : Action
  pub found : lookup mission_id k.missions ≡ some mission
  pub listed : lookup action_id mission.actions ≡ some action
  pub permitted : execution_state_error mission worker ≡ none
  pub allowed :
      has_run k action_id ≡ false
      → (a : Approval) → first_approval action.id (values k.approvals) ≡ some a
      → Allows mission action a

-- The same, where the effect of the action is not recorded yet.
pub record Opened (k : Kernel) (mission_id action_id : String) (worker : Principal) : Type 0 where
  pub mission : Mission
  pub action : Action
  pub found : lookup mission_id k.missions ≡ some mission
  pub listed : lookup action_id mission.actions ≡ some action
  pub permitted : execution_state_error mission worker ≡ none
  pub fresh : has_run k action_id ≡ false
  pub allowed :
      (a : Approval)
      → first_approval action.id (values k.approvals) ≡ some a
      → Allows mission action a

module _ (w : World) where
  validate_at :
      (m : Mission) (action : Action) (worker : Principal) (action_id : String) (k : Kernel)
      → (r : Option Approval) → (k' : Kernel)
      → (gets (λ k. has_run k action_id) >>= λ ran.
            if ran then pure none else approval_for_execution w m action worker)
          k
        ≡ (ok r, k')
      → has_run k action_id ≡ false
      → (a : Approval) → first_approval action.id (values k.approvals) ≡ some a
      → Allows m action a
  unfolding ◌>>=◌ approval_for_execution
  validate_at m action worker action_id k r k' same fresh a is =
      (found_approval-Returns w m action worker a).at k r k' (rw (fresh, is) at same)

  validate_action_execution-Gate :
      (id action_id : String) (worker : Principal) (k : Kernel) (r : Option Approval) (k' : Kernel)
      → validate_action_execution w id action_id worker k ≡ (ok r, k')
      → Gate k id action_id worker
  unfolding validate_action_execution get_mission get_action ◌>>=◌
  validate_action_execution-Gate id action_id worker k r k' same =
      elim (Option-cases (lookup id k.missions)) [
        | inl missing ↦ absurd (ground (arith, rw missing at same))
        | inr (m, found) ↦ elim (Option-cases (lookup action_id m.actions)) [
          | inl missing ↦ absurd (ground (arith, rw (found, missing) at same))
          | inr (action, listed) ↦
              let (permitted, goes) =
                deny_or-none w id action_id worker (execution_state_error m worker) _ k r k'
                  (rw (found, listed) at same) in
              record {
                mission = m;
                action = action;
                found = found;
                listed = listed;
                permitted = permitted;
                allowed = validate_at m action worker action_id k r k' goes;
              }
        ]
      ]

  -- What comes behind a gate of which the state is that of the call.
  behind-Gate :
      (id action_id : String) (worker : Principal) (k : Kernel)
      → (f : Option Approval → Exec String)
      → made_effect ((validate_action_execution w id action_id worker >>= f) k).0 ≡ true
      → Gate k id action_id worker
  behind-Gate id action_id worker k f =
      bind-post (λ x. made_effect x.0 ≡ true → Gate k id action_id worker)
        (validate_action_execution w id action_id worker) f k
        (λ e k' same made. absurd (
          ground (
            arith,
            made,
            calm_made _ e ((validate_action_execution-IsCalm w id action_id worker).calm k)
                (ap (λ x. x.0) same),
          )))
        (λ a k' same made. validate_action_execution-Gate id action_id worker k a k' same)

  execute_action-found :
      (id action_id : String) (worker : Principal) (fails : Bool) (k : Kernel)
      → made_effect (execute_action w id action_id worker fails k).0 ≡ true
      → Gate k id action_id worker
  unfolding execute_action get_mission get_action ◌>>=◌
  execute_action-found id action_id worker fails k made =
      elim (Option-cases (lookup id k.missions)) [
        | inl missing ↦ absurd (ground (arith, rw missing at made))
        | inr (m, found) ↦ elim (Option-cases (lookup action_id m.actions)) [
          | inl missing ↦ absurd (ground (arith, rw (found, missing) at made))
          | inr (action, listed) ↦ behind-Gate id action_id worker k _ (rw (found, listed) at made)
        ]
      ]

-- The external side effect of an action is made only where the Mission and the action are known,
-- the worker's role and the status of the Mission permit it and the effect is not recorded yet;
-- and if any approval names the action's id, then the first of them is APPROVED, was asked for in
-- the Mission's current version and under its current rules of engagement, and these do not deny
-- the capability. All of it is said of the state in which the call begins.
pub execute_action-Gate :
    (w : World) (id action_id : String) (worker : Principal) (fails : Bool) (k : Kernel)
    → made_effect (execute_action w id action_id worker fails k).0 ≡ true
    → Opened k id action_id worker
execute_action-Gate w id action_id worker fails k made =
    let gate = execute_action-found w id action_id worker fails k made in
    let fresh : has_run k action_id ≡ false = elim (Bool-cases (has_run k action_id)) [
      | inl ran ↦
          absurd (
            ground
              (arith, made, (execute_action-IsSilent w action_id id worker fails).silent k ran))
      | inr not_yet ↦ not_yet
    ] in
    record {
      mission = gate.mission;
      action = gate.action;
      found = gate.found;
      listed = gate.listed;
      permitted = gate.permitted;
      fresh = fresh;
      allowed = gate.allowed fresh;
    }
