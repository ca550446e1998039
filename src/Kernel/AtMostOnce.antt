-- ===== src/Kernel/AtMostOnce.antt =====
-- The external side effect of an action happens at most once, crashes and retries included.
use pantheon_legion.Base.{
  text_eq, ◌≡◌, refl, ap, String, Bool, true, false, Option, List, arith, if◌then◌else◌, ◌==◌,
}
use pantheon_legion.Base.Dict.{insert, lookup-insert, lookup-insert_self}
use pantheon_legion.Kernel.Types.{Principal, Approval, Mission}
use pantheon_legion.Kernel.State.{
  World, Kernel, Result, ok, raised, Raised, Exec, pure, gets, ◌>>=◌, put_side_effect,
}
use pantheon_legion.Kernel.Stable.{
  Stable, Quiet, OnApproval, Keeps, Keeps-at, gets-Keeps, get_mission-Keeps, record_event-Keeps,
}
use pantheon_legion.Kernel.Stable.Others.{
  validate_action_execution-Keeps, get_action-Keeps, after_effect-Keeps,
}
use pantheon_legion.Kernel.Run.{Call, after_all, after_all-stable}
use pantheon_legion.Kernel.Results.{
  bind-post, is_killed, IsCalm, validate_action_execution-IsCalm, record_event-IsCalm,
  get_mission-IsCalm, get_action-IsCalm, gets-IsCalm, consume-IsCalm, reactivate-IsCalm,
}
use pantheon_legion.Kernel.Execution.{has_run, run_action, recover_action, execute_action}

abbrev pub HasRun : String → Kernel → Type 0
HasRun action k = has_run k action ≡ true

HasRun-Stable : (action : String) → Stable (HasRun action)
unfolding has_run
HasRun-Stable action = record {
  quiet = record {
    drawn = λ k u c n more h. h;
    command = λ k r h. h;
    event = λ k id earlier ev found s o h. h;
  };
  memories = λ key. record { memory = λ k v h. h };
  approvals = record { approval = λ k a h. h };
  missions = record { mission = λ k m h. h };
  effects = record {
    side_effect = λ k id h. ground (arith, lookup-insert id action 1 k.side_effects);
  };
}

HasRun-Quiet : (action : String) → Quiet (HasRun action)
HasRun-Quiet action = (HasRun-Stable action).quiet

HasRun-OnApproval : (action : String) → OnApproval (HasRun action)
HasRun-OnApproval action = (HasRun-Stable action).approvals

ruleset HasRun-parts = (HasRun-Quiet, HasRun-OnApproval)

-- The call made the external side effect: it returned EXECUTED, or the worker died behind it.
abbrev pub made_effect : Result String → Bool
made_effect (ok s) = s == "EXECUTED"
made_effect (raised e) = is_killed {A = String} (raised e)

pub calm_made :
    {A : Type 0} (r : Result A) (e : Raised)
    → is_killed r ≡ false
    → r ≡ raised e
    → made_effect (raised e) ≡ false
calm_made r e h same = rw same at h

module _ (action : String) where
  -- `m` makes no effect once the effect of the action is recorded.
  pub record IsSilent (m : Exec String) : Type 0 where
    pub silent : (k : Kernel) → HasRun action k → made_effect (m k).0 ≡ false

  -- Where `m` makes the effect, the effect is recorded.
  pub record Records (m : Exec String) : Type 0 where
    pub recorded : (k : Kernel) → made_effect (m k).0 ≡ true → HasRun action (m k).1

  bind-IsSilent :
      {A : Type 0} (m : Exec A) (f : A → Exec String)
      → Keeps (HasRun action) m
      → IsCalm m
      → ((a : A) → IsSilent (f a))
      → IsSilent (m >>= f)
  bind-IsSilent m f keeps calm hf = record {
    silent = λ k h.
        bind-post (λ x. made_effect x.0 ≡ false) m f k
          (λ e k' same. calm_made (m k).0 e (calm.calm k) (ap (λ x. x.0) same))
          (λ a k' same. (hf a).silent k' (Keeps-at m k (ok a) k' keeps h same));
  }

  bind-Records :
      {A : Type 0} (m : Exec A) (f : A → Exec String)
      → IsCalm m
      → ((a : A) → Records (f a))
      → Records (m >>= f)
  bind-Records m f calm hf = record {
    recorded = λ k.
        bind-post (λ x. made_effect x.0 ≡ true → HasRun action x.1) m f k
          (λ e k' same made. cc (calm_made (m k).0 e (calm.calm k) (ap (λ x. x.0) same), made))
          (λ a k' same made. (hf a).recorded k' made);
  }

  if-Records : (b : Bool) {m n : Exec String} → Records m → Records n → Records (if b then m else n)
  if-Records true hm hn = hm
  if-Records false hm hn = hn

  -- The record of the effect, in front of what keeps it.
  put_side_effect-Records :
      (f : Unit {0} → Exec String)
      → Keeps (HasRun action) (f tt)
      → Records (put_side_effect action >>= f)
  unfolding put_side_effect ◌>>=◌ has_run
  put_side_effect-Records f keeps = record {
    recorded = λ k made.
        keeps.kept (record k { side_effects = insert action 1 k.side_effects })
          (ground (arith, lookup-insert_self action 1 k.side_effects));
  }

module _ (w : World) (action : String) where
  recover_action-IsSilent :
      (m : Mission) (worker : Principal) → IsSilent action (recover_action w m action worker)
  unfolding recover_action
  recover_action-IsSilent m worker = search (
    bind-IsSilent, gets-Keeps, gets-IsCalm, record_event-Keeps, record_event-IsCalm, HasRun-Quiet,
    recovered,
  )
    where
      recovered : IsSilent action (pure "RECOVERED")
      recovered = record { silent = λ k h. refl }

  recover_or_run-IsSilent :
      (m : Mission) (worker : Principal) (run : Exec String)
      → IsSilent action (
          gets (λ k. has_run k action) >>= λ ran.
          if ran then recover_action w m action worker else run)
  unfolding ◌>>=◌
  recover_or_run-IsSilent m worker run = record {
    silent = λ k h. rw h ((recover_action-IsSilent m worker).silent k h);
  }

  -- An execution of an action whose effect is recorded makes no effect.
  pub execute_action-IsSilent :
      (id : String) (worker : Principal) (fails : Bool)
      → IsSilent action (execute_action w id action worker fails)
  unfolding execute_action
  execute_action-IsSilent id worker fails =
      search
        (
          bind-IsSilent, get_mission-Keeps, get_mission-IsCalm, get_action-Keeps, get_action-IsCalm,
          validate_action_execution-Keeps, validate_action_execution-IsCalm, HasRun-parts,
          recover_or_run-IsSilent,
        )
        depth 8

  run_action-Records :
      (m : Mission) (worker : Principal) (approval : Option Approval) (fails : Bool)
      → Records action (run_action w m action worker approval fails)
  unfolding run_action
  run_action-Records m worker approval fails = search (
    bind-Records, consume-IsCalm, reactivate-IsCalm, put_side_effect-Records, after_effect-Keeps,
    HasRun-parts,
  )

  recover_action-Records :
      (m : Mission) (worker : Principal) → Records action (recover_action w m action worker)
  unfolding recover_action
  recover_action-Records m worker =
      search (bind-Records, gets-IsCalm, record_event-IsCalm, recovered)
    where
      recovered : Records action (pure "RECOVERED")
      recovered = record { recorded = λ k made. cc made }

  pub execute_action-Records :
      (id : String) (worker : Principal) (fails : Bool)
      → Records action (execute_action w id action worker fails)
  unfolding execute_action
  execute_action-Records id worker fails =
      search
        (
          bind-Records, if-Records, get_mission-IsCalm, get_action-IsCalm, gets-IsCalm,
          validate_action_execution-IsCalm, recover_action-Records, run_action-Records,
        )
        depth 8

-- The external side effect of an action is made at most once: behind an execution that made it,
-- also one whose worker died before it could report, no later execution of the action makes it
-- again, whichever Mission and worker it names and whatever calls but `create_mission` lie between.
pub at_most_once :
    (w : World) (action first_mission later_mission : String)
    → (first_worker later_worker : Principal) → (first_fails later_fails : Bool)
    → (between : List Call) → (k : Kernel)
    → made_effect (execute_action w first_mission action first_worker first_fails k).0 ≡ true
    → made_effect
        (execute_action w later_mission action later_worker later_fails (
          after_all w between
            (execute_action w first_mission action first_worker first_fails k).1)).0
      ≡ false
at_most_once w action m m' worker worker' fails fails' between k made =
    (execute_action-IsSilent w action m' worker' fails').silent _ (
      after_all-stable (HasRun-Stable action) w between _
        ((execute_action-Records w action m worker fails).recorded k made))
