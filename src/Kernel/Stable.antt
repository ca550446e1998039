-- ===== src/Kernel/Stable.antt =====
-- Invariants of the kernel: a predicate that every primitive write keeps is kept by every
-- operation, whether it returns or raises.
pub mod Commands
pub mod Others
use mathlib.Core.Path.{subst, ap}
use pantheon_legion.Base.{
  text_eq, ℕ, ◌+◌, ◌≤◌, ◌<◌, ◌≡◌, refl, String, Bool, true, false, Option, none, some, List, [],
  ◌∷◌, ◌++◌, inl, inr, Option-cases, Bool-cases, arith, if◌then◌else◌,
}
use pantheon_legion.Base.Dict.{lookup, insert}
use pantheon_legion.Base.Json.{Value}
use pantheon_legion.Base.Lists.{length}
use pantheon_legion.Base.Text.{is_empty}
use pantheon_legion.Kernel.Types.{AuditEvent, Mission, Approval, CommandResult, Principal}
use pantheon_legion.Kernel.State.{
  World, Kernel, pair_eq, ok, raised, key_error, Result, Raised, Exec, pure, raise, gets, or_raise,
  ◌>>=◌, continue, uuid4, clock, wall_now, or_uuid, put_mission, put_approval, put_command,
  put_side_effect, get_mission,
}
use pantheon_legion.Kernel.Journal.{
  Entry, record_event, reject, expire, not_yet_due, stays_valid, expire_approval_if_needed,
  remember, is_open,
}
use pantheon_legion.Kernel.Journal.Step.{
  or_uuid_step, record_event_step, record_event_missing, appended,
}

-- `P` survives draws, and the writes to the audit log and the results.
pub record Quiet (P : Kernel → Type 0) : Type 0 where
  pub drawn :
      (k : Kernel) (u c n : ℕ)
      → k.uuids ≤ u
      → P k
      → P (record k { uuids = u; clocks = c; walls = n })
  pub command :
      (k : Kernel) (r : CommandResult)
      → P k
      → P (record k { commands = insert r.command_id r k.commands })
  pub event :
      (k : Kernel) (id : String) (earlier : List AuditEvent) (ev : AuditEvent)
      → lookup id k.audit ≡ some earlier
      → ev.sequence ≡ length earlier + 1
      → ev.mission_id ≡ id
      → P k
      → P (record k { audit = insert id (earlier ++ ev ∷ []) k.audit })

-- `P` survives what is remembered under the key.
pub record OnMemory (P : Kernel → Type 0) (key : String × String) : Type 0 where
  pub memory :
      (k : Kernel) (v : Value × CommandResult)
      → P k
      → P (record k { idempotency = insert key v k.idempotency })

-- `P` survives the writes of approvals, of Missions, of side effects.
pub record OnApproval (P : Kernel → Type 0) : Type 0 where
  pub approval :
      (k : Kernel) (a : Approval) → P k → P (record k { approvals = insert a.id a k.approvals })

pub record OnMission (P : Kernel → Type 0) : Type 0 where
  pub mission :
      (k : Kernel) (m : Mission) → P k → P (record k { missions = insert m.id m k.missions })

pub record OnEffect (P : Kernel → Type 0) : Type 0 where
  pub side_effect :
      (k : Kernel) (id : String) → P k → P (record k { side_effects = insert id 1 k.side_effects })

-- `P` survives every write that the operations other than `create_mission` make.
pub record Stable (P : Kernel → Type 0) : Type 0 where
  pub quiet : Quiet P
  pub memories : (key : String × String) → OnMemory P key
  pub approvals : OnApproval P
  pub missions : OnMission P
  pub effects : OnEffect P

-- `m` keeps `P`, however it ends.
pub record Keeps (P : Kernel → Type 0) {A : Type 0} (m : Exec A) : Type 0 where
  pub kept : (k : Kernel) → P k → P (m k).1

-- The state behind a call that keeps `P`.
pub Keeps-at :
    {P : Kernel → Type 0} {A : Type 0} (m : Exec A) (k : Kernel) (r : Result A) (k' : Kernel)
    → Keeps P m
    → P k
    → m k ≡ (r, k')
    → P k'
Keeps-at {P} m k r k' h p same = subst P (ap (λ (x : Result _ × Kernel). x.1) same) (h.kept k p)

module _ {P : Kernel → Type 0} {A : Type 0} where
  pub pure-Keeps : (a : A) → Keeps P (pure a)
  pure-Keeps a = record { kept = λ k h. h }

  pub raise-Keeps : (e : Raised) → Keeps P (raise {A = A} e)
  raise-Keeps e = record { kept = λ k h. h }

  pub gets-Keeps : (f : Kernel → A) → Keeps P (gets f)
  gets-Keeps f = record { kept = λ k h. h }

  pub or_raise-Keeps : (o : Option A) (e : Raised) → Keeps P (or_raise o e)
  or_raise-Keeps none e = raise-Keeps e
  or_raise-Keeps (some a) e = pure-Keeps a

  pub if-Keeps : (b : Bool) {m n : Exec A} → Keeps P m → Keeps P n → Keeps P (if b then m else n)
  if-Keeps true hm hn = hm
  if-Keeps false hm hn = hn

module _ {P : Kernel → Type 0} {A B : Type 0} where
  continue-Keeps :
      (r : Result A) (f : A → Exec B) (k : Kernel)
      → ((a : A) → Keeps P (f a))
      → P k
      → P (continue r f k).1
  continue-Keeps (ok a) f k hf h = (hf a).kept k h
  continue-Keeps (raised e) f k hf h = h

  pub bind-Keeps :
      (m : Exec A) (f : A → Exec B) → Keeps P m → ((a : A) → Keeps P (f a)) → Keeps P (m >>= f)
  unfolding ◌>>=◌
  bind-Keeps m f hm hf = record { kept = λ k h. continue-Keeps (m k).0 f (m k).1 hf (hm.kept k h) }

pub get_mission-Keeps : {P : Kernel → Type 0} (id : String) → Keeps P (get_mission id)
unfolding get_mission
get_mission-Keeps {P} id = record {
  kept = λ k h. (or_raise-Keeps {P = P} (lookup id k.missions) (key_error id)).kept k h;
}

pub ruleset control =
    (pure-Keeps, raise-Keeps, gets-Keeps, or_raise-Keeps, if-Keeps, bind-Keeps, get_mission-Keeps)

pub put_mission-Keeps :
    {P : Kernel → Type 0} → OnMission P → (m : Mission) → Keeps P (put_mission m)
unfolding put_mission
put_mission-Keeps M m = record { kept = λ k h. M.mission k m h }

pub put_approval-Keeps :
    {P : Kernel → Type 0} → OnApproval P → (a : Approval) → Keeps P (put_approval a)
unfolding put_approval
put_approval-Keeps A a = record { kept = λ k h. A.approval k a h }

pub put_side_effect-Keeps :
    {P : Kernel → Type 0} → OnEffect P → (id : String) → Keeps P (put_side_effect id)
unfolding put_side_effect
put_side_effect-Keeps E id = record { kept = λ k h. E.side_effect k id h }

pub remember-Keeps :
    {P : Kernel → Type 0} (key : String × String)
    → OnMemory P key
    → (v : Value) (r : CommandResult) → Keeps P (remember key v r)
unfolding remember
remember-Keeps key R v r = record { kept = λ k h. R.memory k (v, r) h }

module _ {P : Kernel → Type 0} (Q : Quiet P) (w : World) where
  pub uuid4-Keeps : Keeps P (uuid4 w)
  unfolding uuid4
  uuid4-Keeps = record { kept = λ k h. Q.drawn k (k.uuids + 1) k.clocks k.walls (omega arith) h }

  pub clock-Keeps : Keeps P (clock w)
  unfolding clock
  clock-Keeps = record { kept = λ k h. Q.drawn k k.uuids (k.clocks + 1) k.walls (omega arith) h }

  pub wall_now-Keeps : Keeps P (wall_now w)
  unfolding wall_now
  wall_now-Keeps = record { kept = λ k h. Q.drawn k k.uuids k.clocks (k.walls + 1) (omega arith) h }

  pub or_uuid-Keeps : (given : Option String) → Keeps P (or_uuid w given)
  or_uuid-Keeps given = record {
    kept = λ k h.
        let (s, n, e, more) = or_uuid_step w given k in rw e (Q.drawn k n k.clocks k.walls more h);
  }

  pub put_command-Keeps : (r : CommandResult) → Keeps P (put_command r)
  unfolding put_command
  put_command-Keeps r = record { kept = λ k h. Q.command k r h }

  pub record_event-Keeps : (m : Mission) (e : Entry) → Keeps P (record_event w m e)
  record_event-Keeps m e = record {
    kept = λ k h. elim (Option-cases (lookup m.id k.audit)) [
      | inl missing ↦ rw (record_event_missing w m e k missing) h
      | inr (earlier, found) ↦
          let (ev, u, c, same, next, more) = record_event_step w m e k earlier found in
          rw same (
            Q.drawn (record k { audit = insert m.id (earlier ++ ev ∷ []) k.audit }) u c k.walls more
              (Q.event k m.id earlier ev found next.numbered next.owned h))
    ];
  }

  pub reject-Keeps :
      (m : Mission) (actor : Principal) (code message correlation : String) (id : Option String)
      → Keeps P (reject w m actor code message correlation id)
  unfolding reject
  reject-Keeps m actor code message correlation id =
      search (control, record_event-Keeps, or_uuid-Keeps, put_command-Keeps)

  not_yet_due-Keeps : (due : Option String) → Keeps P (not_yet_due w due)
  unfolding not_yet_due
  not_yet_due-Keeps none = search control
  not_yet_due-Keeps (some due) = search (control, clock-Keeps)

  stays_valid-Keeps : (a : Approval) (reason : Option String) → Keeps P (stays_valid w a reason)
  unfolding stays_valid
  stays_valid-Keeps a none = not_yet_due-Keeps a.expires_at
  stays_valid-Keeps a (some reason) = search control

module _ {P : Kernel → Type 0} (Q : Quiet P) (A : OnApproval P) (w : World) where
  pub expire-Keeps :
      (m : Mission) (a : Approval) (reason : Option String) → Keeps P (expire w m a reason)
  unfolding expire
  expire-Keeps m a reason = search (control, record_event-Keeps, put_approval-Keeps)

  pub expire_approval_if_needed-Keeps :
      (m : Mission) (a : Approval) (reason : Option String)
      → Keeps P (expire_approval_if_needed w m a reason)
  unfolding expire_approval_if_needed
  expire_approval_if_needed-Keeps m a reason = search (control, stays_valid-Keeps, expire-Keeps)
