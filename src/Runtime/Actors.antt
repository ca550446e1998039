-- ===== src/Runtime/Actors.antt =====
-- `_require_active_actor`: which workloads may act, and in whose place.
use pantheon_legion.Base.{
  ◌≡◌, refl, sym, ap, ◌∙◌, ◌↔◌, String, ◌==◌, true, ◌&&◌, Option, some, arith, text_eq,
}
use pantheon_legion.Base.Dict.{lookup}
use pantheon_legion.Kernel.Types.{Principal}
use pantheon_legion.Runtime.Checks.{if_given}
use pantheon_legion.Runtime.Agent.{
  AgentRole, AgentIdentity, MissionAssignment, AgentRuntimeBinding, is_assigned, is_binding_active,
  same_role,
}
use pantheon_legion.Runtime.Store.{Tables, done, ◌>>=◌}
use pantheon_legion.Runtime.Service.{
  require_agent, require_assignment, require_binding, require_active_actor, is_workload,
}

-- The workload of an active binding to an assigned assignment, for an agent in the role.
pub record IsActing (s : Tables) (id : String) (q : Principal) (role : AgentRole)
    (asked : Option String) (b : AgentRuntimeBinding) (a : MissionAssignment) (g : AgentIdentity)
    : Type 0 where
  pub workload : is_workload q.type ≡ true
  pub bound : lookup id s.bindings ≡ some b
  pub active : is_binding_active b.status ≡ true
  pub subject : (b.workload_subject == q.subject) ≡ true
  pub asked_for : if_given (λ i. b.assignment_id == i) asked ≡ true
  pub assignment : lookup b.assignment_id s.assignments ≡ some a
  pub assigned : is_assigned a.status ≡ true
  pub agent : lookup b.agent_id s.agents ≡ some g
  pub own : (a.agent_id == g.agent_id && same_role g.role role) ≡ true

-- The workload that may act gets its binding, its assignment and its agent, and the tables stay.
require_active_actor-acting :
    (s : Tables) (id : String) (q : Principal) (role : AgentRole) (asked : Option String)
    (b : AgentRuntimeBinding) (a : MissionAssignment) (g : AgentIdentity)
    → IsActing s id q role asked b a g
    → require_active_actor id q role asked s ≡ (done (b, a, g), s)
unfolding require_active_actor require_agent require_assignment require_binding ◌>>=◌
require_active_actor-acting s id q role asked b a g h =
    rw
      (
        h.workload, h.bound, h.active, h.subject, h.asked_for, h.assignment, h.assigned, h.agent,
        h.own,
      )
      refl

IsActing-only :
    (s : Tables) (id : String) (q : Principal) (role : AgentRole) (asked : Option String)
    (b : AgentRuntimeBinding) (a : MissionAssignment) (g : AgentIdentity) (t : Tables)
    → require_active_actor id q role asked s ≡ (done (b, a, g), t)
    → IsActing s id q role asked b a g × (t ≡ s)
unfolding require_active_actor require_agent require_assignment require_binding ◌>>=◌
IsActing-only s id q role asked b a g t same = (
  record {
    workload = ground (arith, same);
    bound = ground (arith, same);
    active = ground (arith, same);
    subject = ground (arith, same);
    asked_for = ground (arith, same);
    assignment = ground (arith, same);
    assigned = ground (arith, same);
    agent = ground (arith, same);
    own = ground (arith, same);
  },
  ground (arith, same),
)

-- `_require_active_actor` returns a binding, an assignment and an agent exactly where the caller is
-- a workload, the named binding is active, of this workload and, where an assignment is asked for,
-- of that one, its assignment is ASSIGNED, and its agent is the assignment's and has the role. The
-- tables stay as they are.
pub require_active_actor-IsActing :
    (s : Tables) (id : String) (q : Principal) (role : AgentRole) (asked : Option String)
    (b : AgentRuntimeBinding) (a : MissionAssignment) (g : AgentIdentity) (t : Tables)
    → (require_active_actor id q role asked s ≡ (done (b, a, g), t))
      ↔ (IsActing s id q role asked b a g × (t ≡ s))
require_active_actor-IsActing s id q role asked b a g t = (
  IsActing-only s id q role asked b a g t,
  λ h.
      require_active_actor-acting s id q role asked b a g h.0
      ∙ ap (λ u. (done (b, a, g), u)) (sym h.1),
)
