-- ===== src/Runtime/Rollback.antt =====
-- An operation that is one transaction and raises leaves the rows as they were.
use pantheon_legion.Base.{
  ◌+◌, ◌≡◌, refl, ap, ◌∙◌, String, Bool, true, false, ◌||◌, Option, List, [], ◌∷◌, text_eq,
  if◌then◌else◌,
}
use pantheon_legion.Base.Lists.{any}
use pantheon_legion.Base.Text.{is_empty, strip}
use pantheon_legion.Kernel.Types.{Principal}
use pantheon_legion.Runtime.Agent.{AgentRole, ActorRef, MissionAuthorityView}
use pantheon_legion.Runtime.Work.{WorkItem, WorkAttempt, WorkResult}
use pantheon_legion.Runtime.Store.{
  Ports, Tables, Reply, done, failed, Session, follow, ◌>>=◌, transaction, settle, give,
  rolled_back, draw_id, read_clock, refuse,
}
use pantheon_legion.Runtime.Service.Agents.{NewAgent, create_agent}
use pantheon_legion.Runtime.Service.Assignments.{Request, open_assignment, reopen_assignment}
use pantheon_legion.Runtime.Service.Completing.{complete_assignment}
use pantheon_legion.Runtime.Service.Resume.{Resumption, open_binding, activate_resume, block_resume}
use pantheon_legion.Runtime.Service.Delegation.{
  Delegation, delegate_work, check_delegation, candidate_item,
}
use pantheon_legion.Runtime.Service.Claims.{ScoutCall, claim_work}
use pantheon_legion.Runtime.Service.Failing.{fail_work_attempt}
use pantheon_legion.Runtime.Service.Finishing.{finish_attempt}
use pantheon_legion.Runtime.Service.Cancellation.{Cancelling, cancel_work}
use pantheon_legion.Runtime.Service.Reconciliation.{reconcile_work}
use pantheon_legion.Runtime.Stable.{Keeps}
use pantheon_legion.Runtime.Stable.Basics.{reading}

-- The tables have the rows of `s`; identifiers and times may have been drawn.
abbrev pub HasRowsOf : Tables → Tables → Type 0
HasRowsOf s t = t ≡ rolled_back s t

-- What raised left the rows of `s`.
abbrev pub IsUndone : {A : Type 0} → Tables → Reply A → Tables → Type 0
IsUndone s (done a) t = Unit
IsUndone s (failed e) t = HasRowsOf s t

-- Where the action raises, the rows are those from before.
pub record IsAtomic {A : Type 0} (m : Session A) : Type 0 where
  pub undone : (s : Tables) → IsUndone s (m s).0 (m s).1

HasRowsOf-trans : (s t u : Tables) → HasRowsOf s t → HasRowsOf t u → HasRowsOf s u
HasRowsOf-trans s t u h h' = h' ∙ ap (λ x. rolled_back x u) h

module _ {A : Type 0} where
  settle-IsUndone :
      (s : Tables) (r : Reply A) (t : Tables) → IsUndone s (settle s r t).0 (settle s r t).1
  settle-IsUndone s (done a) t = tt
  settle-IsUndone s (failed e) t = refl

  pub give-IsAtomic : (a : A) → IsAtomic (give a)
  give-IsAtomic a = record { undone = λ s. tt }

  pub choice-IsAtomic :
      (b : Bool) {m n : Session A} → IsAtomic m → IsAtomic n → IsAtomic (if b then m else n)
  choice-IsAtomic true hm hn = hm
  choice-IsAtomic false hm hn = hn

  if-IsAtomic :
      (b : Bool) (m n : Session A)
      → IsAtomic m
      → IsAtomic n
      → IsAtomic (λ s. if b then m s else n s)
  if-IsAtomic true m n hm hn = record { undone = λ s. hm.undone s }
  if-IsAtomic false m n hm hn = record { undone = λ s. hn.undone s }

  pub transaction-IsAtomic : (keys : List String) (m : Session A) → IsAtomic (transaction keys m)
  unfolding transaction
  transaction-IsAtomic [] m = record { undone = λ s. refl }
  transaction-IsAtomic (key ∷ keys) m =
      if-IsAtomic (is_empty (strip key) || any (λ k. is_empty (strip k)) keys) (refuse _)
        (λ s. settle s (m s).0 (m s).1) (record { undone = λ s. refl })
        (record { undone = λ s. settle-IsUndone s (m s).0 (m s).1 })

module _ {A B : Type 0} where
  follow-IsUndone :
      (s u : Tables) (r : Reply A) (f : A → Session B)
      → HasRowsOf s u
      → ((a : A) → IsAtomic (f a))
      → IsUndone s (follow r f u).0 (follow r f u).1
  follow-IsUndone s u (failed e) f h hf = h
  follow-IsUndone s u (done a) f h hf = carry (f a u).0 (f a u).1 ((hf a).undone u)
    where
      carry : (r : Reply B) (t : Tables) → IsUndone u r t → IsUndone s r t
      carry (done b) t q = tt
      carry (failed e) t q = HasRowsOf-trans s u t h q

  pub bind-IsAtomic :
      (m : Session A) (f : A → Session B)
      → ((s : Tables) → Keeps (HasRowsOf s) m)
      → ((a : A) → IsAtomic (f a))
      → IsAtomic (m >>= f)
  unfolding ◌>>=◌
  bind-IsAtomic m f hm hf = record {
    undone = λ s. follow-IsUndone s (m s).1 (m s).0 f ((hm s).kept s refl) hf;
  }

module _ (p : Ports) (s : Tables) where
  draw_id-HasRowsOf : Keeps (HasRowsOf s) (draw_id p)
  unfolding draw_id
  draw_id-HasRowsOf = record {
    kept = λ t h. ap {A = Tables} {B = Tables} (λ x. record x { ids = t.ids + 1 }) h;
  }

  read_clock-HasRowsOf : Keeps (HasRowsOf s) (read_clock p)
  unfolding read_clock
  read_clock-HasRowsOf = record {
    kept = λ t h. ap {A = Tables} {B = Tables} (λ x. record x { clocks = t.clocks + 1 }) h;
  }

  check_delegation-HasRowsOf :
      (drivers : Bool) (c : Delegation) → Keeps (HasRowsOf s) (check_delegation drivers c)
  unfolding check_delegation
  check_delegation-HasRowsOf drivers c = search reading depth 12

  candidate_item-HasRowsOf : (c : Delegation) → Keeps (HasRowsOf s) (candidate_item p c)
  unfolding candidate_item
  candidate_item-HasRowsOf c = search (reading, draw_id-HasRowsOf, read_clock-HasRowsOf) depth 12

pub ruleset undoing = (reading, bind-IsAtomic, transaction-IsAtomic)

module _ (p : Ports) where
  create_agent-IsAtomic : (role : AgentRole) (c : NewAgent) → IsAtomic (create_agent p role c)
  unfolding create_agent
  create_agent-IsAtomic role c = search undoing

  pub open_assignment-IsAtomic : (c : Request) → IsAtomic (open_assignment p c)
  unfolding open_assignment
  open_assignment-IsAtomic c = search undoing

  pub reopen_assignment-IsAtomic :
      (id : String) (q : Principal) (key : String) → IsAtomic (reopen_assignment p id q key)
  unfolding reopen_assignment
  reopen_assignment-IsAtomic id q key = search undoing

  pub complete_assignment-IsAtomic :
      (id : String) (actor : ActorRef) (view : Option MissionAuthorityView) (code : Option String)
      (is_unavailable : Bool)
      → IsAtomic (complete_assignment p id actor view code is_unavailable)
  unfolding complete_assignment
  complete_assignment-IsAtomic id actor view code is_unavailable = search undoing

  pub activate_resume-IsAtomic :
      (id : String) (actor : ActorRef) (view : MissionAuthorityView)
      → IsAtomic (activate_resume p id actor view)
  unfolding activate_resume
  activate_resume-IsAtomic id actor view = search undoing

  pub block_resume-IsAtomic :
      (id : String) (actor : ActorRef) (code : String) → IsAtomic (block_resume p id actor code)
  unfolding block_resume
  block_resume-IsAtomic id actor code = search undoing

  pub open_binding-IsAtomic : (c : Resumption) → IsAtomic (open_binding p c)
  unfolding open_binding
  open_binding-IsAtomic c = search undoing

  delegate_work-IsAtomic : (drivers : Bool) (c : Delegation) → IsAtomic (delegate_work p drivers c)
  unfolding delegate_work
  delegate_work-IsAtomic drivers c =
      search (undoing, check_delegation-HasRowsOf, candidate_item-HasRowsOf)

  claim_work-IsAtomic : (c : ScoutCall) → IsAtomic (claim_work p c)
  unfolding claim_work
  claim_work-IsAtomic c = search undoing

  fail_work_attempt-IsAtomic :
      (w : WorkItem) (a : WorkAttempt) (actor : ActorRef) (code : String) (is_retryable : Bool)
      → IsAtomic (fail_work_attempt p w a actor code is_retryable)
  unfolding fail_work_attempt
  fail_work_attempt-IsAtomic w a actor code is_retryable = search undoing

  finish_attempt-IsAtomic :
      (w : WorkItem) (r : WorkResult) (actor : ActorRef) → IsAtomic (finish_attempt p w r actor)
  unfolding finish_attempt
  finish_attempt-IsAtomic w r actor = search undoing

  cancel_work-IsAtomic : (c : Cancelling) → IsAtomic (cancel_work p c)
  unfolding cancel_work
  cancel_work-IsAtomic c = search undoing

  reconcile_work-IsAtomic : (c : ScoutCall) → IsAtomic (reconcile_work p c)
  unfolding reconcile_work
  reconcile_work-IsAtomic c = search undoing

-- For any arguments, where `create_centurion`, `create_scout`, `delegate_work`, `claim_work`,
-- `cancel_work`, `reconcile_work` or `_fail_work_attempt` raises, or the transaction that accepts a
-- Scout's result, every row of every table is as before, whatever the operation had written: only
-- identifiers and times may have been drawn.
pub work-IsAtomic :
    (p : Ports) (role : AgentRole) (n : NewAgent) (drivers : Bool) (d : Delegation) (c : ScoutCall)
    (w : WorkItem) (a : WorkAttempt) (actor : ActorRef) (code : String) (is_retryable : Bool)
    (r : WorkResult) (x : Cancelling)
    → IsAtomic (create_agent p role n)
      × IsAtomic (delegate_work p drivers d)
      × IsAtomic (claim_work p c)
      × IsAtomic (fail_work_attempt p w a actor code is_retryable)
      × IsAtomic (finish_attempt p w r actor)
      × IsAtomic (cancel_work p x)
      × IsAtomic (reconcile_work p c)
work-IsAtomic p role n drivers d c w a actor code is_retryable r x = (
  create_agent-IsAtomic p role n,
  delegate_work-IsAtomic p drivers d,
  claim_work-IsAtomic p c,
  fail_work_attempt-IsAtomic p w a actor code is_retryable,
  finish_attempt-IsAtomic p w r actor,
  cancel_work-IsAtomic p x,
  reconcile_work-IsAtomic p c,
)
