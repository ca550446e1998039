-- ===== src/Runtime/Stable/Coordination.antt =====
-- Agents, assignments and bindings: their operations keep every stable predicate.
use pantheon_legion.Base.{String, refl, Bool, Option, none, some, text_eq}
use pantheon_legion.Base.Dict.{lookup}
use pantheon_legion.Kernel.Types.{Principal}
use pantheon_legion.Runtime.Agent.{
  AgentRole, ActorRef, AgentIdentity, MissionAssignment, CoordinationCheckpoint,
  AgentRuntimeBinding, MissionAuthorityView,
}
use pantheon_legion.Runtime.Store.{Ports, Tables, Session, IdempotencyRecord}
use pantheon_legion.Runtime.Service.{Answer, granted, unavailable, denied}
use pantheon_legion.Runtime.Service.Agents.{
  NewAgent, remembered_agent, new_agent, agent_or_new, create_agent,
}
use pantheon_legion.Runtime.Service.Assignments.{
  Request, remembered_assignment, new_assignment, assignment_or_new, open_assignment,
  answer_assignment, authorize, request_assignment, still_open, noted_assignment, reopen_assignment,
  reconcile_assignment,
}
use pantheon_legion.Runtime.Service.Completing.{
  Completion, write_completion, complete_open, complete_assignment,
}
use pantheon_legion.Runtime.Service.Resume.{
  Resumption, ResumeResult, remembered_binding, new_binding, binding_or_new, open_binding,
  release_other, write_activation, write_block, read_binding, if_binding_pending, activate_resume,
  block_resume, answer_resume, resume_assignment,
}
use pantheon_legion.Runtime.Stable.{Stable, Keeps, give-Keeps, looking-Keeps, if-Keeps}
use pantheon_legion.Runtime.Stable.Writes.{
  draw_id-Keeps, read_clock-Keeps, save_agent-Keeps, new_assignment-Keeps, save_assignment-Keeps,
  new_checkpoint-Keeps, save_checkpoint-Keeps, new_binding-Keeps, save_binding-Keeps,
  transaction-Keeps,
}
use pantheon_legion.Runtime.Stable.Basics.{reading, note-Keeps, emit-Keeps}

ruleset writing = (
  reading, refl, draw_id-Keeps, read_clock-Keeps, note-Keeps, emit-Keeps, save_agent-Keeps,
  new_assignment-Keeps, save_assignment-Keeps, new_checkpoint-Keeps, save_checkpoint-Keeps,
  new_binding-Keeps, save_binding-Keeps, transaction-Keeps,
)

module _ {P : Tables → Type 0} where
  remembered_assignment-Keeps : (r : IdempotencyRecord) → Keeps P (remembered_assignment r)
  unfolding remembered_assignment
  remembered_assignment-Keeps r = looking-Keeps (λ s. lookup r.resource_id s.assignments) _

module _ {P : Tables → Type 0} (S : Stable P) (p : Ports) where
  agent_or_new-Keeps :
      (role : AgentRole) (c : NewAgent) (actor : ActorRef) (fingerprint : String)
      (found : Option IdempotencyRecord)
      → Keeps P (agent_or_new p role c actor fingerprint found)
  unfolding agent_or_new new_agent remembered_agent
  agent_or_new-Keeps role c actor fingerprint none = search writing depth 20
  agent_or_new-Keeps role c actor fingerprint (some r) =
      looking-Keeps (λ s. lookup r.resource_id s.agents) _

  pub create_agent-Keeps : (role : AgentRole) (c : NewAgent) → Keeps P (create_agent p role c)
  unfolding create_agent
  create_agent-Keeps role c = search (writing, agent_or_new-Keeps) depth 12

  assignment_or_new-Keeps :
      (c : Request) (actor : ActorRef) (fingerprint : String) (found : Option IdempotencyRecord)
      → Keeps P (assignment_or_new p c actor fingerprint found)
  unfolding assignment_or_new new_assignment
  assignment_or_new-Keeps c actor fingerprint none = search writing depth 24
  assignment_or_new-Keeps c actor fingerprint (some r) =
      search (writing, remembered_assignment-Keeps)

  pub open_assignment-Keeps : (c : Request) → Keeps P (open_assignment p c)
  unfolding open_assignment
  open_assignment-Keeps c = search (writing, assignment_or_new-Keeps) depth 12

  write_completion-Keeps :
      (current : MissionAssignment) (checkpoint : CoordinationCheckpoint) (actor : ActorRef)
      (view : Option MissionAuthorityView) (error : Option String) (next : Completion)
      → Keeps P (write_completion p current checkpoint actor view error next)
  unfolding write_completion
  write_completion-Keeps current checkpoint actor view error next = search writing depth 20

  pub complete_assignment-Keeps :
      (id : String) (actor : ActorRef) (view : Option MissionAuthorityView) (error : Option String)
      (is_unavailable : Bool)
      → Keeps P (complete_assignment p id actor view error is_unavailable)
  unfolding complete_assignment complete_open
  complete_assignment-Keeps id actor view error is_unavailable =
      search (writing, write_completion-Keeps) depth 12

  answer_assignment-Keeps :
      (agent : AgentIdentity) (a : MissionAssignment) (actor : ActorRef)
      (answer : Answer MissionAuthorityView)
      → Keeps P (answer_assignment p agent a actor answer)
  unfolding answer_assignment
  answer_assignment-Keeps agent a actor (unavailable code) = complete_assignment-Keeps _ _ _ _ _
  answer_assignment-Keeps agent a actor (denied code) = complete_assignment-Keeps _ _ _ _ _
  answer_assignment-Keeps agent a actor (granted view) = search (writing, complete_assignment-Keeps)

  pub authorize-Keeps :
      (authority : AgentIdentity → MissionAssignment → Answer MissionAuthorityView) (id : String)
      (q : Principal)
      → Keeps P (authorize p authority id q)
  unfolding authorize
  authorize-Keeps authority id q = search (writing, answer_assignment-Keeps) depth 8

  pub request_assignment-Keeps :
      (authority : AgentIdentity → MissionAssignment → Answer MissionAuthorityView) (c : Request)
      → Keeps P (request_assignment p authority c)
  unfolding request_assignment
  request_assignment-Keeps authority c =
      search (writing, open_assignment-Keeps, authorize-Keeps) depth 8

  still_open-Keeps :
      (checkpoint : CoordinationCheckpoint) (a : MissionAssignment)
      → Keeps P (still_open p checkpoint a)
  unfolding still_open
  still_open-Keeps checkpoint a = search writing depth 8

  noted_assignment-Keeps :
      (id key fingerprint : String) (checkpoint : CoordinationCheckpoint) (a : MissionAssignment)
      (found : Option IdempotencyRecord)
      → Keeps P (noted_assignment p id key fingerprint checkpoint a found)
  unfolding noted_assignment
  noted_assignment-Keeps id key fingerprint checkpoint a none = search (writing, still_open-Keeps)
  noted_assignment-Keeps id key fingerprint checkpoint a (some r) =
      search (writing, still_open-Keeps)

  pub reopen_assignment-Keeps :
      (id : String) (q : Principal) (key : String) → Keeps P (reopen_assignment p id q key)
  unfolding reopen_assignment
  reopen_assignment-Keeps id q key = search (writing, noted_assignment-Keeps) depth 12

  pub reconcile_assignment-Keeps :
      (authority : AgentIdentity → MissionAssignment → Answer MissionAuthorityView) (id : String)
      (q : Principal) (key : String)
      → Keeps P (reconcile_assignment p authority id q key)
  unfolding reconcile_assignment
  reconcile_assignment-Keeps authority id q key =
      search (writing, reopen_assignment-Keeps, authorize-Keeps) depth 8

  binding_or_new-Keeps :
      (c : Resumption) (fingerprint : String) (agent : AgentIdentity)
      (found : Option IdempotencyRecord)
      → Keeps P (binding_or_new p c fingerprint agent found)
  unfolding binding_or_new new_binding remembered_binding
  binding_or_new-Keeps c fingerprint agent none = search writing depth 12
  binding_or_new-Keeps c fingerprint agent (some r) =
      looking-Keeps (λ s. lookup r.resource_id s.bindings) _

  pub open_binding-Keeps : (c : Resumption) → Keeps P (open_binding p c)
  unfolding open_binding
  open_binding-Keeps c = search (writing, binding_or_new-Keeps) depth 20

  release_other-Keeps :
      (b : AgentRuntimeBinding) (now : String) (other : Option AgentRuntimeBinding)
      → Keeps P (release_other p b now other)
  unfolding release_other
  release_other-Keeps b now none = give-Keeps tt
  release_other-Keeps b now (some old) = search writing depth 8

  write_activation-Keeps :
      (r : ResumeResult) (actor : ActorRef) (view : MissionAuthorityView)
      → Keeps P (write_activation p r actor view)
  unfolding write_activation
  write_activation-Keeps r actor view = search (writing, release_other-Keeps) depth 24

  write_block-Keeps :
      (r : ResumeResult) (actor : ActorRef) (code : String) → Keeps P (write_block p r actor code)
  unfolding write_block
  write_block-Keeps r actor code = search writing depth 24

  read_binding-Keeps : (id : String) → Keeps P (read_binding p id)
  unfolding read_binding
  read_binding-Keeps id = search writing depth 8

  if_binding_pending-Keeps :
      (r : ResumeResult) (m : Session ResumeResult) → Keeps P m → Keeps P (if_binding_pending p r m)
  unfolding if_binding_pending
  if_binding_pending-Keeps r m hm = if-Keeps _ hm (give-Keeps r)

  pub activate_resume-Keeps :
      (id : String) (actor : ActorRef) (view : MissionAuthorityView)
      → Keeps P (activate_resume p id actor view)
  unfolding activate_resume
  activate_resume-Keeps id actor view =
      search (writing, read_binding-Keeps, if_binding_pending-Keeps, write_activation-Keeps) depth 8

  pub block_resume-Keeps :
      (id : String) (actor : ActorRef) (code : String) → Keeps P (block_resume p id actor code)
  unfolding block_resume
  block_resume-Keeps id actor code =
      search (writing, read_binding-Keeps, if_binding_pending-Keeps, write_block-Keeps) depth 8

  answer_resume-Keeps :
      (r : ResumeResult) (actor : ActorRef) (answer : Answer MissionAuthorityView)
      → Keeps P (answer_resume p r actor answer)
  unfolding answer_resume
  answer_resume-Keeps r actor (unavailable code) = block_resume-Keeps _ _ _
  answer_resume-Keeps r actor (denied code) = block_resume-Keeps _ _ _
  answer_resume-Keeps r actor (granted view) =
      search (writing, activate_resume-Keeps, block_resume-Keeps)

  pub resume_assignment-Keeps :
      (authority : ResumeResult → Answer MissionAuthorityView) (c : Resumption)
      → Keeps P (resume_assignment p authority c)
  unfolding resume_assignment
  resume_assignment-Keeps authority c =
      search (writing, open_binding-Keeps, answer_resume-Keeps) depth 8
