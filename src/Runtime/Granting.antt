-- ===== src/Runtime/Granting.antt =====
-- An assignment is granted only by the authority: `_complete_assignment`, `_authorize_assignment`
-- and `request_assignment` fail closed.
use mathlib.Core.Path.{subst}
use pantheon_legion.Base.{
  ◌≡◌, refl, sym, ap, ◌∙◌, ◌⊎◌, String, Bool, true, false, ◌&&◌, ◌||◌, Option, none, some, inl, inr,
  arith, text_eq,
}
use pantheon_legion.Base.Dict.{lookup}
use pantheon_legion.Kernel.Types.{Principal}
use pantheon_legion.Runtime.Agent.{
  ActorRef, AgentIdentity, MissionAssignment, CoordinationCheckpoint, MissionAuthorityView,
  is_assigned, is_rejected, same_state,
}
use pantheon_legion.Runtime.Checks.{same_given}
use pantheon_legion.Runtime.Store.{Ports, Tables, done, give}
use pantheon_legion.Runtime.Service.{
  Answer, granted, unavailable, denied, require_agent, require_assignment, scope_matches,
}
use pantheon_legion.Runtime.Service.Assignments.{answer_assignment, authorize}
use pantheon_legion.Runtime.Service.Completing.{
  completion, write_completion, complete_open, complete_assignment, same_status,
}
use pantheon_legion.Runtime.Stable.Basics.{actor_of-Keeps}
use pantheon_legion.Runtime.Ends.{
  Ends, bind-Ends, give-Ends, Keeps-Ends, looking-Ends, if-Ends, weaken-Ends, transaction-Ends,
  skip-Ends, accept_then-Ends, given-Ends, given_also-Ends,
}

-- The row under the key was ASSIGNED already.
abbrev pub WasAssigned : Tables → String → Type 0
WasAssigned s id =
    (c : MissionAssignment) × (lookup id s.assignments ≡ some c) × (is_assigned c.status ≡ true)

-- What the view leaves in an assignment.
abbrev pub IsGrantedBy : MissionAssignment → MissionAuthorityView → Type 0
IsGrantedBy r v =
    (r.mission_version ≡ some v.mission_version)
    × (r.authorization_decision_id ≡ some v.decision_id)
    × (r.policy_version ≡ some v.policy_version)

-- A completion without an error, by a view.
abbrev IsViewed : MissionAssignment → Option MissionAuthorityView → Option String → Type 0
IsViewed r view error =
    (error ≡ none) × (v : MissionAuthorityView) × (view ≡ some v) × IsGrantedBy r v

-- The row was ASSIGNED already, or this answer of the authority granted it.
abbrev pub IsAuthorized :
    (AgentIdentity → MissionAssignment → Answer MissionAuthorityView)
    → String
    → Tables
    → MissionAssignment
    → Type 0
IsAuthorized authority id s r =
    (a : MissionAssignment) × (g : AgentIdentity) × (lookup id s.assignments ≡ some a)
    × (lookup a.agent_id s.agents ≡ some g)
    × (WasAssigned s a.assignment_id
        ⊎ ((v : MissionAuthorityView) × (authority g a ≡ granted v)
            × (scope_matches g a v ≡ true)
            × IsGrantedBy r v))

completion-assigned :
    (agent : AgentIdentity) (view : Option MissionAuthorityView) (error : Option String) (u : Bool)
    → is_assigned (completion agent view error u).status ≡ true
    → (error ≡ none) × (v : MissionAuthorityView) × (view ≡ some v)
unfolding completion
completion-assigned agent (some v) none u h = (refl, v, refl)
completion-assigned agent (some v) (some e) true h = absurd (ground (arith, h))
completion-assigned agent (some v) (some e) false h = absurd (ground (arith, h))
completion-assigned agent none none true h = absurd (ground (arith, h))
completion-assigned agent none none false h = absurd (ground (arith, h))
completion-assigned agent none (some e) true h = absurd (ground (arith, h))
completion-assigned agent none (some e) false h = absurd (ground (arith, h))

module _ (p : Ports) where
  write_completion-Ends :
      {P : Tables → Type 0} (current : MissionAssignment) (checkpoint : CoordinationCheckpoint)
      (actor : ActorRef) (agent : AgentIdentity) (view : Option MissionAuthorityView)
      (error : Option String) (u : Bool)
      → Ends P
          (λ r t. is_assigned r.status ≡ true → IsViewed r view error)
          (write_completion p current checkpoint actor view error (completion agent view error u))
  unfolding write_completion
  write_completion-Ends current checkpoint actor agent view error u = skip-Ends _ _ λ now.
      accept_then-Ends _ _ _ (
        accept_then-Ends _ _ _ (
          skip-Ends _ _ λ _. skip-Ends _ _ λ _. skip-Ends _ _ λ _. give-Ends _ (λ s _ h.
            let (clean, v, viewed) = completion-assigned agent view error u h in
            (clean, v, viewed, (rw viewed refl, rw viewed refl, rw viewed refl)))))

  complete_open-Ends :
      {P : Tables → Type 0} {X : Type 0} (current : MissionAssignment)
      (checkpoint : CoordinationCheckpoint) (actor : ActorRef) (agent : AgentIdentity)
      (view : Option MissionAuthorityView) (error : Option String) (u : Bool)
      → (is_assigned current.status ≡ true → X)
      → Ends P
          (λ r t. is_assigned r.status ≡ true → X ⊎ IsViewed r view error)
          (complete_open p current checkpoint actor view error (completion agent view error u))
  unfolding complete_open
  complete_open-Ends current checkpoint actor agent view error u before =
      let next = completion agent view error u in
      if-Ends (is_assigned current.status || is_rejected current.status) (give current) _
        (λ _. give-Ends current (λ s _ h. inl (before h)))
        (λ _.
          if-Ends
            (same_status current.status next.status
              && same_given current.last_error_code error
              && same_state checkpoint.state next.state
              && same_given checkpoint.last_error_code error)
            (give current) (write_completion p current checkpoint actor view error next)
            (λ _. give-Ends current (λ s _ h. inl (before h)))
            (λ _.
              weaken-Ends _ (write_completion-Ends current checkpoint actor agent view error u)
                (λ s q. q) (λ r t q h. inr (q h))))

  complete_assignment-Ends :
      (s₀ : Tables) (id : String) (actor : ActorRef) (view : Option MissionAuthorityView)
      (error : Option String) (u : Bool)
      → Ends
          (λ s. s ≡ s₀)
          (λ r t. is_assigned r.status ≡ true → WasAssigned s₀ id ⊎ IsViewed r view error)
          (complete_assignment p id actor view error u)
  unfolding complete_assignment require_assignment
  complete_assignment-Ends s₀ id actor view error u = transaction-Ends _ _ (
      bind-Ends (λ c s. lookup id s₀.assignments ≡ some c) _ _
        (weaken-Ends _ (looking-Ends (λ s. lookup id s.assignments) _) (λ s q. q)
          (λ c s q. ap (λ t. lookup id t.assignments) (sym q.0) ∙ q.1))
        (λ c. given-Ends λ found. skip-Ends _ _ λ checkpoint.
          skip-Ends _ _
            λ agent. complete_open-Ends c checkpoint actor agent view error u (λ h. (c, found, h))))

  -- The answer was a grant, and its view is of the assignment's Mission and of the agent's
  -- organization and workspace.
  answer_assignment-Ends :
      (s₀ : Tables) (agent : AgentIdentity) (a : MissionAssignment) (actor : ActorRef)
      (answer : Answer MissionAuthorityView)
      → Ends
          (λ s. s ≡ s₀)
          (λ r t.
            is_assigned r.status ≡ true
            → WasAssigned s₀ a.assignment_id
              ⊎ ((v : MissionAuthorityView) × (answer ≡ granted v)
                  × (scope_matches agent a v ≡ true)
                  × IsGrantedBy r v))
          (answer_assignment p agent a actor answer)
  unfolding answer_assignment
  answer_assignment-Ends s₀ agent a actor (unavailable code) =
      weaken-Ends _ (complete_assignment-Ends s₀ a.assignment_id actor none (some code) true)
        (λ s q. q)
        (λ r t q h. elim (q h) [ inl w ↦ inl w | inr viewed ↦ absurd (ground (arith, viewed.0)) ])
  answer_assignment-Ends s₀ agent a actor (denied code) =
      weaken-Ends _ (complete_assignment-Ends s₀ a.assignment_id actor none (some code) false)
        (λ s q. q)
        (λ r t q h. elim (q h) [ inl w ↦ inl w | inr viewed ↦ absurd (ground (arith, viewed.0)) ])
  answer_assignment-Ends s₀ agent a actor (granted view) =
      if-Ends (scope_matches agent a view) _ _
        (λ fits.
          weaken-Ends _ (complete_assignment-Ends s₀ a.assignment_id actor (some view) none false)
            (λ s q. q)
            (λ r t q h. elim (q h) [
              | inl w ↦ inl w
              | inr (clean, v, viewed, by) ↦
                  let same : view ≡ v = ground (arith, viewed) in
                  inr
                    (v, ap granted same, subst (λ x. scope_matches agent a x ≡ true) same fits, by)
            ]))
        (λ _.
          weaken-Ends _
            (complete_assignment-Ends s₀ a.assignment_id actor (some view) (some "SCOPE_MISMATCH")
              false)
            (λ s q. q)
            (λ r t q h. elim (q h) [
              | inl w ↦ inl w
              | inr viewed ↦ absurd (ground (arith, viewed.0))
            ]))

  authorize-Ends :
      (authority : AgentIdentity → MissionAssignment → Answer MissionAuthorityView) (id : String)
      (q : Principal) (s₀ : Tables)
      → Ends
          (λ s. s ≡ s₀)
          (λ r t. is_assigned r.status ≡ true → IsAuthorized authority id s₀ r)
          (authorize p authority id q)
  unfolding authorize require_assignment require_agent
  authorize-Ends authority id q s₀ =
      bind-Ends (λ a s. (s ≡ s₀) × (lookup id s₀.assignments ≡ some a)) _ _
        (weaken-Ends _ (looking-Ends (λ s. lookup id s.assignments) _) (λ s e. e)
          (λ a s e. (e.0, ap (λ t. lookup id t.assignments) (sym e.0) ∙ e.1)))
        (λ a.
          bind-Ends
            (λ g s.
              (s ≡ s₀)
              × ((lookup id s₀.assignments ≡ some a) × (lookup a.agent_id s₀.agents ≡ some g)))
            _ _
            (weaken-Ends _ (looking-Ends (λ s. lookup a.agent_id s.agents) _) (λ s e. e)
              (λ g s e. (e.0.0, (e.0.1, ap (λ t. lookup a.agent_id t.agents) (sym e.0.0) ∙ e.1))))
            (λ g.
              bind-Ends
                (λ actor s.
                  (s ≡ s₀)
                  × ((lookup id s₀.assignments ≡ some a) × (lookup a.agent_id s₀.agents ≡ some g)))
                _ _ (Keeps-Ends _ (actor_of-Keeps q))
                (λ actor. given_also-Ends λ found.
                  weaken-Ends _ (answer_assignment-Ends s₀ g a actor (authority g a)) (λ s e. e)
                    (λ r t e h. (a, g, found.0, found.1, e h)))))

  -- An assignment that `_authorize_assignment` returns as ASSIGNED was ASSIGNED before, or this
  -- call's answer of the authority was a grant, whose view is of the assignment's Mission and of
  -- the agent's organization and workspace, and the assignment carries the view's Mission version,
  -- decision and policy version.
  pub authorize-IsAuthorized :
      (authority : AgentIdentity → MissionAssignment → Answer MissionAuthorityView) (id : String)
      (q : Principal) (s : Tables) (r : MissionAssignment) (t : Tables)
      → authorize p authority id q s ≡ (done r, t)
      → is_assigned r.status ≡ true
      → IsAuthorized authority id s r
  authorize-IsAuthorized authority id q s r t same h =
      (authorize-Ends authority id q s).at s refl r t same h
