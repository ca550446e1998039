-- ===== src/Runtime/Stable/Working.antt =====
-- Delegation, claims, executions, cancellation and reconciliation keep every stable predicate.
use pantheon_legion.Base.{
  ℕ, ◌+◌, String, ◌≡◌, refl, Bool, true, false, Option, none, some, text_eq, if◌then◌else◌,
}
use pantheon_legion.Base.Dict.{lookup}
use pantheon_legion.Runtime.Agent.{ActorRef, AgentIdentity, MissionAssignment, AgentRuntimeBinding}
use pantheon_legion.Runtime.Work.{WorkItem, WorkAttempt}
use pantheon_legion.Runtime.Store.{Ports, Tables, IdempotencyRecord}
use pantheon_legion.Runtime.Service.Delegation.{
  Delegation, check_delegation, remembered_item, focused, candidate_item, write_delegation,
  item_or_write, delegate_candidate, delegate_work,
}
use pantheon_legion.Runtime.Service.Claims.{
  ScoutCall, remembered_attempt, write_claim, attempt_or_write, claim_locked, claim_work,
}
use pantheon_legion.Runtime.Service.Failing.{
  free_centurion, evidence_failed, write_failure, fail_open, fail_locked, fail_work_attempt,
}
use pantheon_legion.Runtime.Service.Cancellation.{
  Cancelling, abandon_latest, emit_cancelled, write_cancel, cancelled_or_write, cancel_locked,
  cancel_work,
}
use pantheon_legion.Runtime.Service.Reconciliation.{
  write_recovery, recover_latest, recover_open, reconciled_or_write, reconcile_locked,
  reconcile_work,
}
use pantheon_legion.Runtime.Service.Execution.{Attempting}
use pantheon_legion.Runtime.Stable.{Stable, Keeps, give-Keeps, looking-Keeps}
use pantheon_legion.Runtime.Stable.Writes.{
  draw_id-Keeps, read_clock-Keeps, new_work_item-Keeps, save_work_item-Keeps,
  new_work_attempt-Keeps, save_work_attempt-Keeps, transaction-Keeps, save_work_result-Keeps,
  save_work_evidence_reference-Keeps,
}
use pantheon_legion.Runtime.Stable.Basics.{
  reading, require_work-Keeps, require_checkpoint-Keeps, note-Keeps, emit-Keeps, save_focus-Keeps,
  abandon-Keeps,
}

pub ruleset working = (
  reading, refl, draw_id-Keeps, read_clock-Keeps, note-Keeps, emit-Keeps, save_focus-Keeps,
  abandon-Keeps, new_work_item-Keeps, save_work_item-Keeps, new_work_attempt-Keeps,
  save_work_attempt-Keeps, save_work_result-Keeps, save_work_evidence_reference-Keeps,
  transaction-Keeps,
)

module _ {P : Tables → Type 0} where
  check_delegation-Keeps : (drivers : Bool) (c : Delegation) → Keeps P (check_delegation drivers c)
  unfolding check_delegation
  check_delegation-Keeps drivers c = search reading depth 12

module _ {P : Tables → Type 0} (S : Stable P) (p : Ports) where
  candidate_item-Keeps : (c : Delegation) → Keeps P (candidate_item p c)
  unfolding candidate_item
  candidate_item-Keeps c = search working depth 12

  item_or_write-Keeps :
      (c : Delegation) (actor : ActorRef) (fingerprint : String) (w : WorkItem) (now : String)
      (b : AgentRuntimeBinding) (by : MissionAssignment) (agent other : AgentIdentity)
      (found : Option IdempotencyRecord)
      → Keeps P (item_or_write p c actor fingerprint w now b by agent other found)
  unfolding item_or_write write_delegation remembered_item focused
  item_or_write-Keeps c actor fingerprint w now b by agent other none = search working depth 24
  item_or_write-Keeps c actor fingerprint w now b by agent other (some r) =
      looking-Keeps (λ s. lookup r.resource_id s.work_items) _

  delegate_candidate-Keeps :
      (c : Delegation) (actor : ActorRef) (fingerprint : String) (w : WorkItem) (now : String)
      → Keeps P (delegate_candidate p c actor fingerprint w now)
  unfolding delegate_candidate
  delegate_candidate-Keeps c actor fingerprint w now =
      search (working, item_or_write-Keeps) depth 20

  pub delegate_work-Keeps : (drivers : Bool) (c : Delegation) → Keeps P (delegate_work p drivers c)
  unfolding delegate_work
  delegate_work-Keeps drivers c =
      search (working, check_delegation-Keeps, candidate_item-Keeps, delegate_candidate-Keeps) depth
        12

  attempt_or_write-Keeps :
      (c : ScoutCall) (actor : ActorRef) (fingerprint : String) (w : WorkItem)
      (b : AgentRuntimeBinding) (a : MissionAssignment) (agent : AgentIdentity)
      (found : Option IdempotencyRecord)
      → Keeps P (attempt_or_write p c actor fingerprint w b a agent found)
  unfolding attempt_or_write write_claim remembered_attempt
  attempt_or_write-Keeps c actor fingerprint w b a agent none = search working depth 24
  attempt_or_write-Keeps c actor fingerprint w b a agent (some r) =
      looking-Keeps (λ s. lookup r.resource_id s.work_attempts) _

  claim_locked-Keeps :
      (c : ScoutCall) (actor : ActorRef) (fingerprint : String)
      → Keeps P (claim_locked p c actor fingerprint)
  unfolding claim_locked
  claim_locked-Keeps c actor fingerprint = search (working, attempt_or_write-Keeps) depth 12

  pub claim_work-Keeps : (c : ScoutCall) → Keeps P (claim_work p c)
  unfolding claim_work
  claim_work-Keeps c = search (working, claim_locked-Keeps) depth 12

  free_centurion-Keeps :
      (w : WorkItem) (code now : String) (is_retryable : Bool)
      → Keeps P (free_centurion p w code now is_retryable)
  unfolding free_centurion focused
  free_centurion-Keeps w code now true = give-Keeps tt
  free_centurion-Keeps w code now false = search working

  evidence_failed-Keeps :
      (w : WorkItem) (a : WorkAttempt) (actor : ActorRef) (code : String) (is_retryable : Bool)
      → Keeps P (evidence_failed p w a actor code is_retryable)
  unfolding evidence_failed
  evidence_failed-Keeps w a actor code is_retryable = search working

  write_failure-Keeps :
      (w : WorkItem) (a : WorkAttempt) (actor : ActorRef) (code : String) (is_retryable : Bool)
      (now : String)
      → Keeps P (write_failure p w a actor code is_retryable now)
  unfolding write_failure focused
  write_failure-Keeps w a actor code is_retryable now =
      search (working, free_centurion-Keeps, evidence_failed-Keeps) depth 20

  fail_locked-Keeps :
      (w : WorkItem) (a : WorkAttempt) (actor : ActorRef) (code : String) (is_retryable : Bool)
      → Keeps P (fail_locked p w a actor code is_retryable)
  unfolding fail_locked fail_open
  fail_locked-Keeps w a actor code is_retryable = search (working, write_failure-Keeps) depth 12

  pub fail_work_attempt-Keeps :
      (w : WorkItem) (a : WorkAttempt) (actor : ActorRef) (code : String) (is_retryable : Bool)
      → Keeps P (fail_work_attempt p w a actor code is_retryable)
  unfolding fail_work_attempt
  fail_work_attempt-Keeps w a actor code is_retryable = search (working, fail_locked-Keeps)

  abandon_latest-Keeps :
      (latest : Option WorkAttempt) (now : String) → Keeps P (abandon_latest latest now)
  unfolding abandon_latest
  abandon_latest-Keeps none now = give-Keeps tt
  abandon_latest-Keeps (some a) now = search working

  emit_cancelled-Keeps :
      (w : WorkItem) (actor : ActorRef) (agent assignment : String) (b : Option String)
      → Keeps P (emit_cancelled p w actor agent assignment b)
  unfolding emit_cancelled
  emit_cancelled-Keeps w actor agent assignment b = emit-Keeps S p _

  cancelled_or_write-Keeps :
      (c : Cancelling) (actor : ActorRef) (fingerprint : String) (w : WorkItem)
      (b : AgentRuntimeBinding) (a : MissionAssignment) (agent : AgentIdentity)
      (found : Option IdempotencyRecord)
      → Keeps P (cancelled_or_write p c actor fingerprint w b a agent found)
  unfolding cancelled_or_write write_cancel focused
  cancelled_or_write-Keeps c actor fingerprint w b a agent none =
      search (working, abandon_latest-Keeps, emit_cancelled-Keeps) depth 30
  cancelled_or_write-Keeps c actor fingerprint w b a agent (some r) = require_work-Keeps _

  cancel_locked-Keeps :
      (c : Cancelling) (actor : ActorRef) (fingerprint : String)
      → Keeps P (cancel_locked p c actor fingerprint)
  unfolding cancel_locked
  cancel_locked-Keeps c actor fingerprint = search (working, cancelled_or_write-Keeps) depth 12

  pub cancel_work-Keeps : (c : Cancelling) → Keeps P (cancel_work p c)
  unfolding cancel_work
  cancel_work-Keeps c = search (working, cancel_locked-Keeps) depth 12

  write_recovery-Keeps : (actor : ActorRef) (a : Attempting) → Keeps P (write_recovery p actor a)
  unfolding write_recovery
  write_recovery-Keeps actor a = search working depth 12

  recover_latest-Keeps :
      (actor : ActorRef) (w : WorkItem) (b : AgentRuntimeBinding) (a : MissionAssignment)
      (agent : AgentIdentity) (latest : Option WorkAttempt)
      → Keeps P (recover_latest p actor w b a agent latest)
  unfolding recover_latest
  recover_latest-Keeps actor w b a agent none = give-Keeps w
  recover_latest-Keeps actor w b a agent (some t) = search (working, write_recovery-Keeps)

  reconciled_or_write-Keeps :
      (c : ScoutCall) (actor : ActorRef) (fingerprint : String) (w : WorkItem)
      (b : AgentRuntimeBinding) (a : MissionAssignment) (agent : AgentIdentity)
      (found : Option IdempotencyRecord)
      → Keeps P (reconciled_or_write p c actor fingerprint w b a agent found)
  unfolding reconciled_or_write recover_open
  reconciled_or_write-Keeps c actor fingerprint w b a agent none =
      search (working, recover_latest-Keeps) depth 12
  reconciled_or_write-Keeps c actor fingerprint w b a agent (some r) = require_work-Keeps _

  reconcile_locked-Keeps :
      (c : ScoutCall) (actor : ActorRef) (fingerprint : String)
      → Keeps P (reconcile_locked p c actor fingerprint)
  unfolding reconcile_locked
  reconcile_locked-Keeps c actor fingerprint = search (working, reconciled_or_write-Keeps) depth 12

  pub reconcile_work-Keeps : (c : ScoutCall) → Keeps P (reconcile_work p c)
  unfolding reconcile_work
  reconcile_work-Keeps c = search (working, reconcile_locked-Keeps) depth 12
