-- ===== src/Runtime/Stable/Basics.antt =====
-- What the operations share keeps every stable predicate.
use pantheon_legion.Base.{◌+◌, String, ◌≡◌, refl, Option, text_eq}
use pantheon_legion.Base.Dict.{lookup}
use pantheon_legion.Kernel.Types.{Principal}
use pantheon_legion.Runtime.Agent.{AgentRole, CoordinationCheckpoint}
use pantheon_legion.Runtime.Work.{WorkAttempt}
use pantheon_legion.Runtime.Store.{Ports, Tables}
use pantheon_legion.Runtime.Service.{
  Entry, check_key, actor_of, require_agent, require_assignment, require_checkpoint,
  require_binding, require_work, require_work_attempt, prior, note, emit, require_active_actor,
}
use pantheon_legion.Runtime.Service.Delegation.{save_focus}
use pantheon_legion.Runtime.Service.Failing.{abandon}
use pantheon_legion.Runtime.Stable.{
  Stable, Keeps, control, looking-Keeps, give-Keeps, if-Keeps, refuse-Keeps, accept_bind-Keeps,
  need-Keeps, accept-Keeps,
}
use pantheon_legion.Runtime.Stable.Writes.{
  draw_id-Keeps, read_clock-Keeps, store_event-Keeps, put_idempotency-Keeps, save_checkpoint-Keeps,
  save_work_attempt-Keeps,
}

module _ {P : Tables → Type 0} where
  pub check_key-Keeps : (key : String) → Keeps P (check_key key)
  unfolding check_key
  check_key-Keeps key = search control

  pub actor_of-Keeps : (q : Principal) → Keeps P (actor_of q)
  unfolding actor_of
  actor_of-Keeps q = accept-Keeps _ _

  pub require_agent-Keeps : (id : String) → Keeps P (require_agent id)
  unfolding require_agent
  require_agent-Keeps id = looking-Keeps (λ s. lookup id s.agents) _

  pub require_assignment-Keeps : (id : String) → Keeps P (require_assignment id)
  unfolding require_assignment
  require_assignment-Keeps id = looking-Keeps (λ s. lookup id s.assignments) _

  pub require_checkpoint-Keeps : (id : String) → Keeps P (require_checkpoint id)
  unfolding require_checkpoint
  require_checkpoint-Keeps id = looking-Keeps (λ s. lookup id s.checkpoints) _

  pub require_binding-Keeps : (id : String) → Keeps P (require_binding id)
  unfolding require_binding
  require_binding-Keeps id = looking-Keeps (λ s. lookup id s.bindings) _

  pub require_work-Keeps : (id : String) → Keeps P (require_work id)
  unfolding require_work
  require_work-Keeps id = looking-Keeps (λ s. lookup id s.work_items) _

  pub require_work_attempt-Keeps : (id : String) → Keeps P (require_work_attempt id)
  unfolding require_work_attempt
  require_work_attempt-Keeps id = looking-Keeps (λ s. lookup id s.work_attempts) _

  pub prior-Keeps :
      (scope operation key fingerprint : String) → Keeps P (prior scope operation key fingerprint)
  unfolding prior
  prior-Keeps scope operation key fingerprint = search control

  pub require_active_actor-Keeps :
      (binding : String) (q : Principal) (role : AgentRole) (assignment : Option String)
      → Keeps P (require_active_actor binding q role assignment)
  unfolding require_active_actor
  require_active_actor-Keeps binding q role assignment =
      search (control, require_binding-Keeps, require_assignment-Keeps, require_agent-Keeps) depth
        20

pub ruleset reading = (
  control, check_key-Keeps, actor_of-Keeps, require_agent-Keeps, require_assignment-Keeps,
  require_checkpoint-Keeps, require_binding-Keeps, require_work-Keeps, require_work_attempt-Keeps,
  prior-Keeps, require_active_actor-Keeps,
)

module _ {P : Tables → Type 0} (S : Stable P) where
  pub note-Keeps :
      (scope operation key fingerprint kind id : String)
      → Keeps P (note scope operation key fingerprint kind id)
  unfolding note
  note-Keeps scope operation key fingerprint kind id = put_idempotency-Keeps S _

  pub emit-Keeps : (p : Ports) (e : Entry) → Keeps P (emit p e)
  unfolding emit
  emit-Keeps p e = search (control, draw_id-Keeps, read_clock-Keeps, store_event-Keeps) depth 12

  pub save_focus-Keeps :
      (old new : CoordinationCheckpoint)
      → new.revision ≡ old.revision + 1
      → Keeps P (save_focus old new)
  unfolding save_focus
  save_focus-Keeps old new next =
      accept_bind-Keeps _ _ _ (save_checkpoint-Keeps S new old.revision next)

  pub abandon-Keeps : (a : WorkAttempt) (code now : String) → Keeps P (abandon a code now)
  unfolding abandon
  abandon-Keeps a code now = accept_bind-Keeps _ _ _ (save_work_attempt-Keeps S _ a.version refl)
