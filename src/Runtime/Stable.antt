-- ===== src/Runtime/Stable.antt =====
-- Invariants of the runtime's tables: a predicate that every accepted write keeps is kept by every
-- operation, whether it returns or raises.
pub mod Writes
pub mod Basics
pub mod Coordination
pub mod Working
pub mod Executing
use mathlib.Core.Path.{subst}
use pantheon_legion.Base.{
  text_eq, ℕ, ◌+◌, ◌≡◌, refl, String, Bool, true, false, ◌&&◌, ◌||◌, not, Option, none, some, List,
  [], ◌∷◌, ◌++◌, ◌⊎◌, inl, inr, Option-cases, Bool-cases, arith, if◌then◌else◌, eqb, eqb_iff,
}
use pantheon_legion.Base.Dict.{lookup, insert}
use pantheon_legion.Base.Lists.{any}
use pantheon_legion.Base.Text.{is_empty, strip}
use pantheon_legion.Runtime.Checks.{is_given}
use pantheon_legion.Runtime.Agent.{
  AgentIdentity, MissionAssignment, CoordinationCheckpoint, AgentRuntimeBinding, RuntimeEvent,
}
use pantheon_legion.Runtime.Work.{WorkItem, WorkAttempt, WorkResult, WorkEvidenceReference}
use pantheon_legion.Runtime.Store.{
  Ports, IdempotencyRecord, Tables, Failure, Reply, done, failed, Session, give, refuse, reads,
  need, accept, checked, follow, ◌>>=◌, transaction, settle, rolled_back, draw_id, read_clock,
}
use pantheon_legion.Runtime.Repository.{
  insert_row, update_row, in_version, item_matches, save_agent, save_assignment, save_checkpoint,
  save_binding, save_work_item, save_work_attempt, save_work_result, second_assignment,
  second_binding, second_number, second_result, get_idempotency, attempt_clash,
  save_work_evidence_reference, store_event, put_idempotency, next_event_sequence, get_idempotency,
  get_work_result,
}

-- A row is new, or the next version of the one that is there.
abbrev pub IsNext {ℓ} : {A : Type ℓ} → (A → ℕ) → A → Option A → Type ℓ
IsNext {A} version new old =
    (old ≡ none) ⊎ ((b : A) × (old ≡ some b) × (version new ≡ version b + 1))

abbrev pub assignment_version : MissionAssignment → ℕ
assignment_version a = a.version

abbrev pub checkpoint_revision : CoordinationCheckpoint → ℕ
checkpoint_revision a = a.revision

abbrev pub binding_version : AgentRuntimeBinding → ℕ
binding_version a = a.version

abbrev pub item_version : WorkItem → ℕ
item_version a = a.version

abbrev pub attempt_version : WorkAttempt → ℕ
attempt_version a = a.version

-- `P` survives draws and accepted writes.
pub record Stable (P : Tables → Type 0) : Type 0 where
  pub drawn : (s : Tables) (i c : ℕ) → P s → P (record s { ids = i; clocks = c })
  pub agent :
      (s : Tables) (a : AgentIdentity)
      → lookup a.agent_id s.agents ≡ none
      → P s
      → P (record s { agents = insert a.agent_id a s.agents })
  pub assignment :
      (s : Tables) (a : MissionAssignment)
      → IsNext assignment_version a (lookup a.assignment_id s.assignments)
      → second_assignment a s ≡ false
      → P s
      → P (record s { assignments = insert a.assignment_id a s.assignments })
  pub checkpoint :
      (s : Tables) (a : CoordinationCheckpoint)
      → IsNext checkpoint_revision a (lookup a.assignment_id s.checkpoints)
      → P s
      → P (record s { checkpoints = insert a.assignment_id a s.checkpoints })
  pub binding :
      (s : Tables) (a : AgentRuntimeBinding)
      → IsNext binding_version a (lookup a.binding_id s.bindings)
      → second_binding a s ≡ false
      → P s
      → P (record s { bindings = insert a.binding_id a s.bindings })
  pub work_item :
      (s : Tables) (a : WorkItem)
      → IsNext item_version a (lookup a.work_item_id s.work_items)
      → P s
      → P (record s { work_items = insert a.work_item_id a s.work_items })
  pub work_attempt :
      (s : Tables) (a : WorkAttempt)
      → IsNext attempt_version a (lookup a.attempt_id s.work_attempts)
      → second_number a s ≡ false
      → P s
      → P (record s { work_attempts = insert a.attempt_id a s.work_attempts })
  pub work_result :
      (s : Tables) (r : WorkResult)
      → second_result r s ≡ false
      → P s
      → P (record s { work_results = s.work_results ++ r ∷ [] })
  pub reference :
      (s : Tables) (r : WorkEvidenceReference)
      → P s
      → P (record s { evidence_references = s.evidence_references ++ r ∷ [] })
  pub event :
      (s : Tables) (e : RuntimeEvent)
      → e.sequence ≡ next_event_sequence e.agent_id s
      → P s
      → P (record s { events = s.events ++ e ∷ [] })
  pub memory :
      (s : Tables) (r : IdempotencyRecord)
      → get_idempotency r.scope r.operation r.idempotency_key s ≡ none
      → P s
      → P (record s { idempotency = s.idempotency ++ r ∷ [] })

-- `m` keeps `P`, however it ends.
pub record Keeps (P : Tables → Type 0) {A : Type 0} (m : Session A) : Type 0 where
  pub kept : (s : Tables) → P s → P (m s).1

module _ {P : Tables → Type 0} {A : Type 0} where
  pub give-Keeps : (a : A) → Keeps P (give a)
  give-Keeps a = record { kept = λ s h. h }

  pub refuse-Keeps : (e : Failure) → Keeps P (refuse {A = A} e)
  refuse-Keeps e = record { kept = λ s h. h }

  pub reads-Keeps : (f : Tables → A) → Keeps P (reads f)
  reads-Keeps f = record { kept = λ s h. h }

  pub need-Keeps : (o : Option A) (e : Failure) → Keeps P (need o e)
  need-Keeps none e = refuse-Keeps e
  need-Keeps (some a) e = give-Keeps a

  pub accept-Keeps : (fault : Option String) (a : A) → Keeps P (accept fault a)
  accept-Keeps none a = give-Keeps a
  accept-Keeps (some fault) a = refuse-Keeps _

  -- An action that looks a row up.
  pub looking-Keeps : (o : Tables → Option A) (e : Failure) → Keeps P (λ s. need (o s) e s)
  looking-Keeps o e = record { kept = λ s h. (need-Keeps (o s) e).kept s h }

  pub if-Keeps : (b : Bool) {m n : Session A} → Keeps P m → Keeps P n → Keeps P (if b then m else n)
  if-Keeps true hm hn = hm
  if-Keeps false hm hn = hn

module _ {P : Tables → Type 0} {A B : Type 0} where
  follow-Keeps :
      (r : Reply A) (f : A → Session B) (s : Tables)
      → ((a : A) → Keeps P (f a))
      → P s
      → P (follow r f s).1
  follow-Keeps (done a) f s hf h = (hf a).kept s h
  follow-Keeps (failed e) f s hf h = h

  pub bind-Keeps :
      (m : Session A) (f : A → Session B)
      → Keeps P m
      → ((a : A) → Keeps P (f a))
      → Keeps P (m >>= f)
  unfolding ◌>>=◌
  bind-Keeps m f hm hf = record { kept = λ s h. follow-Keeps (m s).0 f (m s).1 hf (hm.kept s h) }

  -- A value that its constructor accepts is the value.
  pub accept_bind-Keeps :
      (fault : Option String) (a : A) (f : A → Session B)
      → Keeps P (f a)
      → Keeps P (accept fault a >>= f)
  unfolding ◌>>=◌
  accept_bind-Keeps none a f h = h
  accept_bind-Keeps (some fault) a f h = record { kept = λ s q. q }

pub ruleset control =
    (give-Keeps, refuse-Keeps, reads-Keeps, need-Keeps, if-Keeps, accept_bind-Keeps, bind-Keeps)
