-- ===== src/Runtime/Fencing.antt =====
-- One open assignment for an agent, one active binding for an assignment, and so one workload that
-- acts for it: the partial unique indexes of database.py, through any calls.
use mathlib.Core.Path.{subst}
use pantheon_legion.Base.{
  ◌≡◌, sym, ◌∙◌, ap, String, ◌==◌, Bool, true, false, ◌&&◌, not, Option, some, List, arith, eq_iff,
  text_eq,
}
use pantheon_legion.Base.Dict.{lookup}
use pantheon_legion.Kernel.Types.{Principal}
use pantheon_legion.Runtime.Agent.{
  AgentRole, AgentIdentity, MissionAssignment, AgentRuntimeBinding, is_binding_active,
}
use pantheon_legion.Runtime.Store.{Ports, Tables, no_rows, done}
use pantheon_legion.Runtime.Repository.{is_open, second_assignment, second_binding}
use pantheon_legion.Runtime.Service.{require_active_actor}
use pantheon_legion.Runtime.Stable.{Stable}
use pantheon_legion.Runtime.Run.{Call, run, run-Stable}
use pantheon_legion.Runtime.Actors.{require_active_actor-IsActing}
use pantheon_legion.Runtime.Owners.{IsOnePerOwner, insert-IsOnePerOwner, any-lookup}

abbrev pub assignment_key : MissionAssignment → String
assignment_key a = a.assignment_id

abbrev pub assignment_owner : MissionAssignment → String
assignment_owner a = a.agent_id

abbrev pub binding_key : AgentRuntimeBinding → String
binding_key b = b.binding_id

abbrev pub binding_owner : AgentRuntimeBinding → String
binding_owner b = b.assignment_id

abbrev pub is_bound : AgentRuntimeBinding → Bool
is_bound b = is_binding_active b.status

pub record IsFenced (s : Tables) : Type 0 where
  pub assignments : IsOnePerOwner assignment_key assignment_owner is_open s.assignments
  pub bindings : IsOnePerOwner binding_key binding_owner is_bound s.bindings

assignment_alone :
    (a : MissionAssignment) (s : Tables)
    → second_assignment a s ≡ false
    → IsOnePerOwner assignment_key assignment_owner is_open s.assignments
    → (j : String) (b : MissionAssignment) → lookup j s.assignments ≡ some b
    → is_open a ≡ true
    → is_open b ≡ true
    → b.agent_id ≡ a.agent_id
    → j ≡ a.assignment_id
unfolding second_assignment
assignment_alone a s alone h j b found live live' same =
    let here : b.assignment_id ≡ j = h.keyed j b found in
    let test =
      any-lookup
        (λ c. c.agent_id == a.agent_id && not (c.assignment_id == a.assignment_id) && is_open c)
        s.assignments j b (ground (arith, alone, live)) found in
    sym here
    ∙ ground (
      arith,
      test,
      live',
      eq_iff b.agent_id a.agent_id,
      eq_iff b.assignment_id a.assignment_id,
      same,
    )

binding_alone :
    (a : AgentRuntimeBinding) (s : Tables)
    → second_binding a s ≡ false
    → IsOnePerOwner binding_key binding_owner is_bound s.bindings
    → (j : String) (b : AgentRuntimeBinding) → lookup j s.bindings ≡ some b
    → is_bound a ≡ true
    → is_bound b ≡ true
    → b.assignment_id ≡ a.assignment_id
    → j ≡ a.binding_id
unfolding second_binding
binding_alone a s alone h j b found live live' same =
    let here : b.binding_id ≡ j = h.keyed j b found in
    let test =
      any-lookup
        (λ c.
          c.assignment_id == a.assignment_id
          && not (c.binding_id == a.binding_id)
          && is_binding_active c.status)
        s.bindings j b (ground (arith, alone, live)) found in
    sym here
    ∙ ground (
      arith,
      test,
      live',
      eq_iff b.assignment_id a.assignment_id,
      eq_iff b.binding_id a.binding_id,
      same,
    )

IsFenced-Stable : Stable IsFenced
IsFenced-Stable = record {
  drawn = λ s i c h. record { assignments = h.assignments; bindings = h.bindings };
  agent = λ s a new h. record { assignments = h.assignments; bindings = h.bindings };
  assignment = λ s a next alone h. record {
    assignments =
        insert-IsOnePerOwner assignment_key assignment_owner is_open a s.assignments
          (assignment_alone a s alone h.assignments) h.assignments;
    bindings = h.bindings;
  };
  checkpoint = λ s a next h. record { assignments = h.assignments; bindings = h.bindings };
  binding = λ s a next alone h. record {
    assignments = h.assignments;
    bindings =
        insert-IsOnePerOwner binding_key binding_owner is_bound a s.bindings
          (binding_alone a s alone h.bindings) h.bindings;
  };
  work_item = λ s a next h. record { assignments = h.assignments; bindings = h.bindings };
  work_attempt = λ s a next alone h. record { assignments = h.assignments; bindings = h.bindings };
  work_result = λ s r new h. record { assignments = h.assignments; bindings = h.bindings };
  reference = λ s r h. record { assignments = h.assignments; bindings = h.bindings };
  event = λ s e same h. record { assignments = h.assignments; bindings = h.bindings };
  memory = λ s r new h. record { assignments = h.assignments; bindings = h.bindings };
}

no_rows-IsFenced : IsFenced no_rows
unfolding lookup
no_rows-IsFenced = record {
  assignments = record {
    keyed = λ i a h. absurd (ground (arith, h));
    one = λ i j a b h. absurd (ground (arith, h));
  };
  bindings = record {
    keyed = λ i a h. absurd (ground (arith, h));
    one = λ i j a b h. absurd (ground (arith, h));
  };
}

-- From empty tables, after any sequence of calls and of transactions of calls, every assignment and
-- every binding stands under its own id, an agent has at most one assignment that is not REJECTED,
-- and an assignment has at most one ACTIVE binding.
pub run-IsFenced : (p : Ports) (cs : List Call) → IsFenced (run p cs no_rows)
run-IsFenced p cs = run-Stable IsFenced-Stable p cs no_rows no_rows-IsFenced

-- In tables with at most one ACTIVE binding for an assignment, two callers that
-- `_require_active_actor` lets act for one assignment come through one binding and are the same
-- workload.
pub require_active_actor-fenced :
    (s : Tables) (i j : String) (q r : Principal) (role role' : AgentRole)
    (asked asked' : Option String) (b c : AgentRuntimeBinding) (a d : MissionAssignment)
    (g e : AgentIdentity) (t u : Tables)
    → IsFenced s
    → require_active_actor i q role asked s ≡ (done (b, a, g), t)
    → require_active_actor j r role' asked' s ≡ (done (c, d, e), u)
    → b.assignment_id ≡ c.assignment_id
    → (i ≡ j) × (q.subject ≡ r.subject)
require_active_actor-fenced s i j q r role role' asked asked' b c a d g e t u fenced acts acts'
      same =
    let h = ((require_active_actor-IsActing s i q role asked b a g t).0 acts).0 in
    let h' = ((require_active_actor-IsActing s j r role' asked' c d e u).0 acts').0 in
    let here : i ≡ j = fenced.bindings.one i j b c h.bound h'.bound h.active h'.active same in
    let found : lookup j s.bindings ≡ some b =
      subst (λ x. lookup x s.bindings ≡ some b) here h.bound in
    let one : b ≡ c = ground (arith, found, h'.bound) in
    (
      here,
      sym ((eq_iff b.workload_subject q.subject).0 h.subject)
          ∙ ap (λ (x : AgentRuntimeBinding). x.workload_subject) one
          ∙ (eq_iff c.workload_subject r.subject).0 h'.subject,
    )
