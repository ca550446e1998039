-- ===== src/Kernel/Results.antt =====
-- How an action ends: the rule for a sequence, and the actions that never kill the worker.
use pantheon_legion.Base.{
  text_eq, ◌≡◌, refl, String, Bool, true, false, Option, none, some, inl, inr, Option-cases,
  if◌then◌else◌,
}
use pantheon_legion.Base.Dict.{lookup}
use pantheon_legion.Kernel.Types.{Action, Approval, Mission, Principal}
use pantheon_legion.Kernel.State.{
  World, Kernel, Raised, key_error, authorization_error, worker_killed, Result, ok, raised, Exec,
  pure, raise, gets, or_raise, continue, ◌>>=◌, clock, get_mission, put_mission, put_approval,
}
use pantheon_legion.Kernel.Journal.{
  Entry, record_event, not_yet_due, stays_valid, expire, expire_approval_if_needed,
}
use pantheon_legion.Kernel.Journal.Step.{record_event_step, record_event_missing}
use pantheon_legion.Kernel.Execution.{
  get_action, reject_action_execution, deny, deny_or, approval_fault, found_approval,
  approval_for_execution, validate_action_execution, recover_action, consume, reactivate,
}

-- A postcondition of a sequence, from its two parts.
pub bind-post :
    {A B : Type 0} (Q : Result B × Kernel → Type 0) (m : Exec A) (f : A → Exec B) (k : Kernel)
    → ((e : Raised) (k' : Kernel) → m k ≡ (raised e, k') → Q (raised e, k'))
    → ((a : A) (k' : Kernel) → m k ≡ (ok a, k') → Q (f a k'))
    → Q ((m >>= f) k)
unfolding ◌>>=◌
bind-post {A} {B} Q m f k on_raise on_value = go (m k).0 (m k).1 refl
  where
    go : (r : Result A) (k' : Kernel) → m k ≡ (r, k') → Q (continue r f k')
    go (ok a) k' e = on_value a k' e
    go (raised x) k' e = on_raise x k' e

abbrev pub is_killed : {A : Type 0} → Result A → Bool
is_killed (ok a) = false
is_killed (raised (worker_killed s)) = true
is_killed (raised _) = false

-- `m` never ends in `WorkerKilled`.
pub record IsCalm {A : Type 0} (m : Exec A) : Type 0 where
  pub calm : (k : Kernel) → is_killed (m k).0 ≡ false

module _ {A : Type 0} where
  pure-IsCalm : (a : A) → IsCalm (pure a)
  pure-IsCalm a = record { calm = λ k. refl }

  pub gets-IsCalm : (f : Kernel → A) → IsCalm (gets f)
  gets-IsCalm f = record { calm = λ k. refl }

  denied-IsCalm : (s : String) → IsCalm (raise {A = A} (authorization_error s))
  denied-IsCalm s = record { calm = λ k. refl }

  or_raise-IsCalm : (o : Option A) (s : String) → IsCalm (or_raise o (key_error s))
  or_raise-IsCalm none s = record { calm = λ k. refl }
  or_raise-IsCalm (some a) s = record { calm = λ k. refl }

  if-IsCalm : (b : Bool) {m n : Exec A} → IsCalm m → IsCalm n → IsCalm (if b then m else n)
  if-IsCalm true hm hn = hm
  if-IsCalm false hm hn = hn

bind-IsCalm :
    {A B : Type 0} (m : Exec A) (f : A → Exec B)
    → IsCalm m
    → ((a : A) → IsCalm (f a))
    → IsCalm (m >>= f)
bind-IsCalm m f hm hf = record {
  calm = λ k.
      bind-post (λ x. is_killed x.0 ≡ false) m f k (λ e k' same. rw same at (hm.calm k))
        (λ a k' same. (hf a).calm k');
}

pub get_mission-IsCalm : (id : String) → IsCalm (get_mission id)
unfolding get_mission
get_mission-IsCalm id = record { calm = λ k. (or_raise-IsCalm (lookup id k.missions) id).calm k }

pub get_action-IsCalm : (m : Mission) (id : String) → IsCalm (get_action m id)
unfolding get_action
get_action-IsCalm m id = or_raise-IsCalm (lookup id m.actions) id

put_approval-IsCalm : (a : Approval) → IsCalm (put_approval a)
unfolding put_approval
put_approval-IsCalm a = record { calm = λ k. refl }

put_mission-IsCalm : (m : Mission) → IsCalm (put_mission m)
unfolding put_mission
put_mission-IsCalm m = record { calm = λ k. refl }

ruleset calm_control = (
  pure-IsCalm, gets-IsCalm, denied-IsCalm, or_raise-IsCalm, if-IsCalm, bind-IsCalm,
  get_mission-IsCalm, get_action-IsCalm,
)

module _ (w : World) where
  clock-IsCalm : IsCalm (clock w)
  unfolding clock
  clock-IsCalm = record { calm = λ k. refl }

  pub record_event-IsCalm : (m : Mission) (e : Entry) → IsCalm (record_event w m e)
  record_event-IsCalm m e = record {
    calm = λ k. elim (Option-cases (lookup m.id k.audit)) [
      | inl missing ↦ rw (record_event_missing w m e k missing)
      | inr (earlier, found) ↦
          let (ev, u, c, same, next, more) = record_event_step w m e k earlier found in rw same
    ];
  }

  not_yet_due-IsCalm : (due : Option String) → IsCalm (not_yet_due w due)
  unfolding not_yet_due
  not_yet_due-IsCalm none = search calm_control
  not_yet_due-IsCalm (some due) = search (calm_control, clock-IsCalm)

  stays_valid-IsCalm : (a : Approval) (reason : Option String) → IsCalm (stays_valid w a reason)
  unfolding stays_valid
  stays_valid-IsCalm a none = not_yet_due-IsCalm a.expires_at
  stays_valid-IsCalm a (some reason) = search calm_control

  expire-IsCalm :
      (m : Mission) (a : Approval) (reason : Option String) → IsCalm (expire w m a reason)
  unfolding expire
  expire-IsCalm m a reason = search (calm_control, put_approval-IsCalm, record_event-IsCalm)

  expire_approval_if_needed-IsCalm :
      (m : Mission) (a : Approval) (reason : Option String)
      → IsCalm (expire_approval_if_needed w m a reason)
  unfolding expire_approval_if_needed
  expire_approval_if_needed-IsCalm m a reason =
      search (calm_control, stays_valid-IsCalm, expire-IsCalm)

  reject_action_execution-IsCalm :
      (id action : String) (worker : Principal) (code : String)
      → IsCalm (reject_action_execution w id action worker code)
  unfolding reject_action_execution
  reject_action_execution-IsCalm id action worker code =
      search (calm_control, record_event-IsCalm) depth 8

  deny_or-IsCalm :
      {A : Type 0} (id action : String) (worker : Principal) (fault : Option String) (m : Exec A)
      → IsCalm m
      → IsCalm (deny_or w id action worker fault m)
  unfolding deny_or deny
  deny_or-IsCalm id action worker none m h = h
  deny_or-IsCalm id action worker (some code) m h =
      search (calm_control, reject_action_execution-IsCalm)

  found_approval-IsCalm :
      (m : Mission) (action : Action) (worker : Principal) (a : Option Approval)
      → IsCalm (found_approval w m action worker a)
  unfolding found_approval approval_fault
  found_approval-IsCalm m action worker none = pure-IsCalm none
  found_approval-IsCalm m action worker (some a) =
      search (calm_control, expire_approval_if_needed-IsCalm, deny_or-IsCalm) depth 8

  pub validate_action_execution-IsCalm :
      (id action : String) (worker : Principal)
      → IsCalm (validate_action_execution w id action worker)
  unfolding validate_action_execution approval_for_execution
  validate_action_execution-IsCalm id action worker =
      search (calm_control, deny_or-IsCalm, found_approval-IsCalm) depth 12

  pub recover_action-IsCalm :
      (m : Mission) (id : String) (worker : Principal) → IsCalm (recover_action w m id worker)
  unfolding recover_action
  recover_action-IsCalm m id worker = search (calm_control, record_event-IsCalm) depth 8

  pub consume-IsCalm : (a : Option Approval) → IsCalm (consume w a)
  unfolding consume
  consume-IsCalm none = pure-IsCalm tt
  consume-IsCalm (some a) = search (calm_control, clock-IsCalm, put_approval-IsCalm)

  pub reactivate-IsCalm : (m : Mission) → IsCalm (reactivate w m)
  unfolding reactivate
  reactivate-IsCalm m = search (calm_control, clock-IsCalm, put_mission-IsCalm) depth 8
