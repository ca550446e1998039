-- ===== src/Runtime/Staging.antt =====
-- `request_assignment`, `reconcile_assignment` and `resume_assignment` as wholes: two transactions
-- with the authority's answer in between.
use pantheon_legion.Base.{◌≡◌, refl, String, text_eq}
use pantheon_legion.Kernel.Types.{Principal}
use pantheon_legion.Runtime.Agent.{ActorRef, MissionAuthorityView}
use pantheon_legion.Runtime.Store.{Ports, Tables, Reply, done, failed, Session, follow, ◌>>=◌}
use pantheon_legion.Runtime.Service.Assignments.{Request, open_assignment, reopen_assignment}
use pantheon_legion.Runtime.Service.Resume.{Resumption, open_binding}
use pantheon_legion.Runtime.Rollback.{
  HasRowsOf, IsUndone, IsAtomic, give-IsAtomic, choice-IsAtomic, undoing,
  complete_assignment-IsAtomic, block_resume-IsAtomic, activate_resume-IsAtomic,
  open_assignment-IsAtomic, reopen_assignment-IsAtomic, open_binding-IsAtomic,
}
use pantheon_legion.Base.{◌⊎◌, inl, inr}
use pantheon_legion.Runtime.Agent.{AgentIdentity, MissionAssignment}
use pantheon_legion.Runtime.Service.{Answer, unavailable, denied, granted, scope_matches}
use pantheon_legion.Runtime.Service.Assignments.{
  answer_assignment, authorize, request_assignment, reconcile_assignment,
}
use pantheon_legion.Runtime.Service.Resume.{ResumeResult, answer_resume, resume_assignment}

-- What raised left the rows of `s`, or those that the whole of `first` had left.
abbrev pub IsUndoneBehind : {A B : Type 0} → Session B → Tables → Reply A → Tables → Type 0
IsUndoneBehind first s (done a) t = Unit
IsUndoneBehind {B = B} first s (failed e) t =
    HasRowsOf s t ⊎ ((b : B) × (u : Tables) × (first s ≡ (done b, u)) × HasRowsOf u t)

-- Where the action raises, the rows are those from before, or those behind its first transaction.
pub record IsStaged {A B : Type 0} (first : Session B) (m : Session A) : Type 0 where
  pub staged : (s : Tables) → IsUndoneBehind first s (m s).0 (m s).1

bind-IsStaged :
    {A B : Type 0} (first : Session B) (f : B → Session A)
    → IsAtomic first
    → ((b : B) → IsAtomic (f b))
    → IsStaged first (first >>= f)
unfolding ◌>>=◌
bind-IsStaged {A} {B} first f hm hf = record {
  staged = λ s. go s (first s).0 (first s).1 refl (hm.undone s);
}
  where
    carry :
        (s u : Tables) (b : B)
        → first s ≡ (done b, u)
        → (r : Reply A) (t : Tables) → IsUndone u r t
        → IsUndoneBehind first s r t
    carry s u b same (done a) t h = tt
    carry s u b same (failed e) t h = inr (b, u, same, h)

    go :
        (s : Tables) (r : Reply B) (u : Tables)
        → first s ≡ (r, u)
        → IsUndone s r u
        → IsUndoneBehind first s (follow r f u).0 (follow r f u).1
    go s (failed e) u same h = inl h
    go s (done b) u same h = carry s u b same (f b u).0 (f b u).1 ((hf b).undone u)

ruleset settling = (undoing, give-IsAtomic, choice-IsAtomic)

module _ (p : Ports) where
  answer_assignment-IsAtomic :
      (g : AgentIdentity) (a : MissionAssignment) (actor : ActorRef)
      (answer : Answer MissionAuthorityView)
      → IsAtomic (answer_assignment p g a actor answer)
  unfolding answer_assignment
  answer_assignment-IsAtomic g a actor (unavailable code) = complete_assignment-IsAtomic p _ _ _ _ _
  answer_assignment-IsAtomic g a actor (denied code) = complete_assignment-IsAtomic p _ _ _ _ _
  answer_assignment-IsAtomic g a actor (granted view) =
      choice-IsAtomic (scope_matches g a view) (complete_assignment-IsAtomic p _ _ _ _ _)
        (complete_assignment-IsAtomic p _ _ _ _ _)

  authorize-IsAtomic :
      (authority : AgentIdentity → MissionAssignment → Answer MissionAuthorityView) (id : String)
      (q : Principal)
      → IsAtomic (authorize p authority id q)
  unfolding authorize
  authorize-IsAtomic authority id q = search (settling, answer_assignment-IsAtomic)

  answer_resume-IsAtomic :
      (r : ResumeResult) (actor : ActorRef) (answer : Answer MissionAuthorityView)
      → IsAtomic (answer_resume p r actor answer)
  unfolding answer_resume
  answer_resume-IsAtomic r actor (unavailable code) = block_resume-IsAtomic p _ _ _
  answer_resume-IsAtomic r actor (denied code) = block_resume-IsAtomic p _ _ _
  answer_resume-IsAtomic r actor (granted view) =
      choice-IsAtomic (scope_matches r.agent r.assignment view) (activate_resume-IsAtomic p _ _ _)
        (block_resume-IsAtomic p _ _ _)

  request_assignment-IsStaged :
      (authority : AgentIdentity → MissionAssignment → Answer MissionAuthorityView) (c : Request)
      → IsStaged (open_assignment p c) (request_assignment p authority c)
  unfolding request_assignment
  request_assignment-IsStaged authority c =
      bind-IsStaged (open_assignment p c) _ (open_assignment-IsAtomic p c) (λ (is_asked, a).
        choice-IsAtomic is_asked (authorize-IsAtomic authority _ _) (give-IsAtomic a))

  reconcile_assignment-IsStaged :
      (authority : AgentIdentity → MissionAssignment → Answer MissionAuthorityView) (id : String)
      (q : Principal) (key : String)
      → IsStaged (reopen_assignment p id q key) (reconcile_assignment p authority id q key)
  unfolding reconcile_assignment
  reconcile_assignment-IsStaged authority id q key =
      bind-IsStaged (reopen_assignment p id q key) _ (reopen_assignment-IsAtomic p id q key)
        (λ (is_asked, a).
          choice-IsAtomic is_asked (authorize-IsAtomic authority _ _) (give-IsAtomic a))

  resume_assignment-IsStaged :
      (authority : ResumeResult → Answer MissionAuthorityView) (c : Resumption)
      → IsStaged (open_binding p c) (resume_assignment p authority c)
  unfolding resume_assignment
  resume_assignment-IsStaged authority c =
      bind-IsStaged (open_binding p c) _ (open_binding-IsAtomic p c)
        (λ r. search (settling, answer_resume-IsAtomic))

-- For any arguments and any answers of the authority, where `request_assignment`,
-- `reconcile_assignment` or `resume_assignment` as a whole raises, the rows of every table are those
-- from before the call, or those that its first transaction, in front of the authority's answer,
-- left when it was completed; nothing of the second transaction stays.
pub assignments-IsStaged :
    (p : Ports) (authority : AgentIdentity → MissionAssignment → Answer MissionAuthorityView)
    (c : Request) (id : String) (q : Principal) (key : String)
    (answers : ResumeResult → Answer MissionAuthorityView) (b : Resumption)
    → IsStaged (open_assignment p c) (request_assignment p authority c)
      × IsStaged (reopen_assignment p id q key) (reconcile_assignment p authority id q key)
      × IsStaged (open_binding p b) (resume_assignment p answers b)
assignments-IsStaged p authority c id q key answers b = (
  request_assignment-IsStaged p authority c,
  reconcile_assignment-IsStaged p authority id q key,
  resume_assignment-IsStaged p answers b,
)
