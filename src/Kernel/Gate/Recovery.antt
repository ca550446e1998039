-- ===== src/Kernel/Gate/Recovery.antt =====
-- A crash behind the side effect, and the retry: `RECOVERED`.
use pantheon_legion.Base.{
  text_eq, ℕ, ◌+◌, ◌≡◌, refl, ap, ◌∙◌, inl, inr, String, Bool, true, Option, none, some, List, [],
  ◌∷◌, ◌++◌, Bool-cases, arith, if◌then◌else◌, eq_iff, ◌==◌,
}
use pantheon_legion.Base.Dict.{lookup, insert, lookup-insert}
use pantheon_legion.Kernel.Types.{
  Principal, Action, Approval, Mission, AuditEvent, active, status_in, awaiting_approval,
}
use pantheon_legion.Kernel.State.{
  World, Kernel, ok, pure, gets, ◌>>=◌, get_mission, put_mission, clock,
}
use pantheon_legion.Kernel.Rules.{execution_state_error}
use pantheon_legion.Kernel.Journal.{Entry, record_event}
use pantheon_legion.Kernel.Journal.Step.{record_event_step}
use pantheon_legion.Kernel.Stable.{
  Quiet, OnApproval, OnEffect, Keeps, control, put_side_effect-Keeps,
}
use pantheon_legion.Kernel.Stable.Others.{
  validate_action_execution-Keeps, consume-Keeps, after_effect-Keeps, recover_action-Keeps,
}
use pantheon_legion.Kernel.Execution.{
  get_action, has_run, deny_or, validate_action_execution, reactivate, run_action, recover_action,
  execute_action,
}
use pantheon_legion.Kernel.Keyed.{IsKeyed}
use pantheon_legion.Kernel.AtMostOnce.{made_effect, execute_action-Records}
use pantheon_legion.Kernel.Gate.{execute_action-Gate}

module _ (id action_id : String) (worker : Principal) where
  -- The worker may execute the action of the Mission, which has an audit log.
  record Ready (k : Kernel) : Type 0 where
    mission : Mission
    found : lookup id k.missions ≡ some mission
    own : mission.id ≡ id
    action : Action
    listed : lookup action_id mission.actions ≡ some action
    permitted : execution_state_error mission worker ≡ none
    log : List AuditEvent
    logged : lookup id k.audit ≡ some log

  logged_behind :
      (k : Kernel) (j : String) (earlier : List AuditEvent) (ev : AuditEvent)
      (log : List AuditEvent)
      → lookup id k.audit ≡ some log
      → (more : List AuditEvent) × (lookup id (insert j (earlier ++ ev ∷ []) k.audit) ≡ some more)
  logged_behind k j earlier ev log logged = elim (Bool-cases (j == id)) [
    | inl same ↦
        (earlier ++ ev ∷ [], ground (arith, same, lookup-insert j id (earlier ++ ev ∷ []) k.audit))
    | inr other ↦
        (log, ground (arith, other, logged, lookup-insert j id (earlier ++ ev ∷ []) k.audit))
  ]

  -- Only the Missions and the log count.
  Ready-same : (k k' : Kernel) → k'.missions ≡ k.missions → k'.audit ≡ k.audit → Ready k → Ready k'
  Ready-same k k' missions audit h = record {
    mission = h.mission;
    found = ap (λ d. lookup id d) missions ∙ h.found;
    own = h.own;
    action = h.action;
    listed = h.listed;
    permitted = h.permitted;
    log = h.log;
    logged = ap (λ d. lookup id d) audit ∙ h.logged;
  }

  Ready-Quiet : Quiet Ready
  Ready-Quiet = record {
    drawn = λ k u c n more h. Ready-same k _ refl refl h;
    command = λ k r h. Ready-same k _ refl refl h;
    event = λ k j earlier ev there s o h.
        let (more, logged) = logged_behind k j earlier ev h.log h.logged in
        record {
          mission = h.mission;
          found = h.found;
          own = h.own;
          action = h.action;
          listed = h.listed;
          permitted = h.permitted;
          log = more;
          logged = logged;
        };
  }

  Ready-OnApproval : OnApproval Ready
  Ready-OnApproval = record { approval = λ k a h. Ready-same k _ refl refl h }

  Ready-OnEffect : OnEffect Ready
  Ready-OnEffect = record { side_effect = λ k j h. Ready-same k _ refl refl h }

  -- A worker that may execute the action may execute it in the active Mission too.
  active-permitted :
      (m : Mission) (version : ℕ) (now : String)
      → execution_state_error m worker ≡ none
      → execution_state_error
          (record m { status = active; version = version; updated_at = now })
          worker
        ≡ none
  unfolding execution_state_error
  active-permitted m version now permitted = ground (arith, permitted)

  put_active-Ready :
      (k : Kernel) (m : Mission) (version : ℕ) (now : String)
      → (own : m.id ≡ id) → (a : Action) → lookup action_id m.actions ≡ some a
      → execution_state_error m worker ≡ none
      → Ready k
      → Ready (record k {
        missions =
            insert m.id
              (record m { status = active; version = version; updated_at = now })
              k.missions;
      })
  put_active-Ready k m version now own a listed permitted h = record {
    mission = record m { status = active; version = version; updated_at = now };
    found = ground (
      arith,
      eq_iff m.id id,
      own,
      lookup-insert m.id id (record m { status = active; version = version; updated_at = now })
          k.missions,
    );
    own = own;
    action = a;
    listed = listed;
    permitted = active-permitted m version now permitted;
    log = h.log;
    logged = h.logged;
  }

  module _ (w : World) (m : Mission) (own : m.id ≡ id) (a : Action)
      (listed : lookup action_id m.actions ≡ some a)
      (permitted : execution_state_error m worker ≡ none) where
    reactivate-Ready : Keeps Ready (reactivate w m)
    unfolding reactivate put_mission clock ◌>>=◌
    reactivate-Ready = elim (Bool-cases (status_in m.status (awaiting_approval ∷ []))) [
      | inl waits ↦ record {
        kept = λ k h. rw waits (
            put_active-Ready _ m _ _ own a listed permitted
              (Ready-Quiet.drawn k k.uuids (k.clocks + 1) k.walls (omega arith) h));
      }
      | inr runs ↦ record { kept = λ k h. rw runs h }
    ]

    ruleset Ready-parts = (Ready-Quiet, Ready-OnApproval, Ready-OnEffect)

    run_action-Ready :
        (approval : Option Approval) (fails : Bool)
        → Keeps Ready (run_action w m action_id worker approval fails)
    unfolding run_action
    run_action-Ready approval fails =
        search
          (
            control, Ready-parts, consume-Keeps, reactivate-Ready, put_side_effect-Keeps,
            after_effect-Keeps,
          )
          depth 14

    run_or_recover-Ready :
        (fails : Bool)
        → Keeps Ready (
            validate_action_execution w id action_id worker >>= λ approval.
            gets (λ k. has_run k action_id) >>= λ ran.
            if ran
            then recover_action w m action_id worker
            else run_action w m action_id worker approval fails)
    run_or_recover-Ready fails =
        search
          (
            control, Ready-parts, validate_action_execution-Keeps, recover_action-Keeps,
            run_action-Ready,
          )
          depth 14

  module _ (w : World) where
    execute_action-Ready :
        (fails : Bool) (k : Kernel)
        → Ready k
        → Ready (execute_action w id action_id worker fails k).1
    unfolding execute_action get_mission get_action ◌>>=◌
    execute_action-Ready fails k h =
        rw (h.found, h.listed)
          ((run_or_recover-Ready w h.mission h.own h.action h.listed h.permitted fails).kept k h)

    reported :
        (m : Mission) (e : Entry) (k : Kernel) (log : List AuditEvent)
        → lookup m.id k.audit ≡ some log
        → ((record_event w m e >>= λ ev. pure {A = String} "RECOVERED") k).0 ≡ ok "RECOVERED"
    unfolding ◌>>=◌
    reported m e k log logged =
        let (ev, u, c, step, next, more) = record_event_step w m e k log logged in rw step refl

    validate_ran :
        (k : Kernel) (m : Mission) (a : Action)
        → lookup id k.missions ≡ some m
        → lookup action_id m.actions ≡ some a
        → execution_state_error m worker ≡ none
        → has_run k action_id ≡ true
        → validate_action_execution w id action_id worker k ≡ (ok none, k)
    unfolding validate_action_execution deny_or get_mission get_action ◌>>=◌
    validate_ran k m a found listed permitted ran =
        rw
          (found, validate_action_execution, ◌>>=◌, get_mission, get_action, listed, permitted, ran)
          refl

    -- With its effect recorded, the action is recovered.
    execute_action-again :
        (fails : Bool) (k : Kernel)
        → Ready k
        → has_run k action_id ≡ true
        → (execute_action w id action_id worker fails k).0 ≡ ok "RECOVERED"
    unfolding execute_action recover_action get_mission get_action ◌>>=◌
    execute_action-again fails k h ran =
        let logged : lookup h.mission.id k.audit ≡ some h.log = rw h.own h.logged in
        let passes = validate_ran k h.mission h.action h.found h.listed h.permitted ran in
        rw (h.found, h.listed, passes, ran) (reported h.mission _ k h.log logged)

-- Where an execution made the side effect, be it that it returned EXECUTED or that the worker died
-- behind the effect, the same worker's next execution of the action, made on the state that the
-- first left, returns RECOVERED. Asked of the first state: Missions are stored under their ids,
-- and the Mission has an audit log.
pub execute_action-recovers :
    (w : World) (id action_id : String) (worker : Principal) (fails fails_again : Bool)
    → (k : Kernel) → (log : List AuditEvent) → IsKeyed k
    → lookup id k.audit ≡ some log
    → made_effect (execute_action w id action_id worker fails k).0 ≡ true
    → (execute_action w id action_id worker fails_again
        (execute_action w id action_id worker fails k).1).0
      ≡ ok "RECOVERED"
execute_action-recovers w id action_id worker fails fails_again k log keyed logged made =
    let gate = execute_action-Gate w id action_id worker fails k made in
    execute_action-again id action_id worker w fails_again _
      (execute_action-Ready id action_id worker w fails k (record {
        mission = gate.mission;
        found = gate.found;
        own = keyed.keyed id gate.mission gate.found;
        action = gate.action;
        listed = gate.listed;
        permitted = gate.permitted;
        log = log;
        logged = logged;
      }))
      ((execute_action-Records w action_id id worker fails).recorded k made)
