-- ===== src/Runtime/Repository.antt =====
-- src/legion_runtime/postgres.py: the queries and the writes, with the keys, the unique indexes and
-- the foreign keys of database.py. A refused insert or a row in another version is a conflict.
use pantheon_legion.Base.{
  ℕ, ◌+◌, String, Bool, true, false, ◌&&◌, ◌||◌, not, ◌==◌, Option, none, some, List, [], ◌∷◌, ◌++◌,
  eqb, if◌then◌else◌, text_eq,
}
use pantheon_legion.Base.Dict.{lookup, insert, values}
use pantheon_legion.Base.Lists.{any}
use pantheon_legion.Runtime.Checks.{if_given, is_given, same_texts}
use pantheon_legion.Runtime.Agent.{
  AgentIdentity, MissionAssignment, CoordinationCheckpoint, AgentRuntimeBinding, RuntimeEvent,
  is_rejected, is_binding_active,
}
use pantheon_legion.Runtime.Work.{
  EvidenceCheckpoint, WorkItem, WorkAttempt, WorkResult, WorkEvidenceReference,
}
use pantheon_legion.Runtime.Store.{
  IdempotencyRecord, Tables, Failure, store_conflict, duplicate_event, integrity_error, Reply, done,
  failed, Session,
}
use pantheon_legion.Runtime.Queries.{find, keep_if, order_by, greatest}

-- `_insert` and `_require_updated`
abbrev pub insert_row : Bool → Failure → Tables → Tables → Reply (Unit {0}) × Tables
insert_row clash e s' s = if clash then (failed e, s) else (done tt, s')

abbrev pub update_row : Bool → Bool → String → Tables → Tables → Reply (Unit {0}) × Tables
update_row matches broken code s' s =
    if not matches
    then (failed (store_conflict code), s)
    else if broken
    then (failed integrity_error, s)
    else (done tt, s')

-- The stored row is there in the expected version.
abbrev pub in_version {ℓ} : {A : Type ℓ} → (A → ℕ) → ℕ → Option A → Bool
in_version version expected none = false
in_version version expected (some a) = eqb (version a) expected

abbrev pub has_agent : Tables → String → Bool
has_agent s id = is_given (lookup id s.agents)

abbrev pub has_assignment : Tables → String → Bool
has_assignment s id = is_given (lookup id s.assignments)

abbrev pub has_binding : Tables → String → Bool
has_binding s id = is_given (lookup id s.bindings)

abbrev pub has_item : Tables → String → Bool
has_item s id = is_given (lookup id s.work_items)

abbrev pub has_attempt : Tables → String → Bool
has_attempt s id = is_given (lookup id s.work_attempts)

unfoldable pub save_agent : AgentIdentity → Option ℕ → Session (Unit {0})
save_agent a none s =
    insert_row (is_given (lookup a.agent_id s.agents)) (store_conflict "AGENT_ALREADY_EXISTS")
      (record s { agents = insert a.agent_id a s.agents }) s
save_agent a (some expected) s =
    update_row (in_version (λ (b : AgentIdentity). b.version) expected (lookup a.agent_id s.agents))
      false "AGENT_VERSION_CONFLICT" (record s { agents = insert a.agent_id a s.agents }) s

-- An active assignment: `status in (PENDING_AUTHORIZATION, ASSIGNED, BLOCKED)`.
abbrev pub is_open : MissionAssignment → Bool
is_open a = not (is_rejected a.status)

-- The index one_active_assignment_per_agent is violated.
unfoldable pub second_assignment : MissionAssignment → Tables → Bool
second_assignment a s =
    is_open a
    && any (λ b. b.agent_id == a.agent_id && not (b.assignment_id == a.assignment_id) && is_open b)
        (values s.assignments)

unfoldable pub save_assignment : MissionAssignment → Option ℕ → Session (Unit {0})
save_assignment a none s =
    insert_row
      (has_assignment s a.assignment_id || not (has_agent s a.agent_id) || second_assignment a s)
      (store_conflict "ASSIGNMENT_CONFLICT")
      (record s { assignments = insert a.assignment_id a s.assignments }) s
save_assignment a (some expected) s =
    update_row
      (in_version (λ (b : MissionAssignment). b.version) expected
        (lookup a.assignment_id s.assignments))
      (not (has_agent s a.agent_id) || second_assignment a s) "ASSIGNMENT_VERSION_CONFLICT"
      (record s { assignments = insert a.assignment_id a s.assignments }) s

unfoldable pub save_checkpoint : CoordinationCheckpoint → Option ℕ → Session (Unit {0})
save_checkpoint c none s =
    insert_row
      (is_given (lookup c.assignment_id s.checkpoints)
        || not (has_assignment s c.assignment_id)
        || not (if_given (has_item s) c.focus_work_item_id))
      (store_conflict "CHECKPOINT_CONFLICT")
      (record s { checkpoints = insert c.assignment_id c s.checkpoints }) s
save_checkpoint c (some expected) s =
    update_row
      (in_version (λ (b : CoordinationCheckpoint). b.revision) expected
        (lookup c.assignment_id s.checkpoints))
      (not (if_given (has_item s) c.focus_work_item_id)) "CHECKPOINT_REVISION_CONFLICT"
      (record s { checkpoints = insert c.assignment_id c s.checkpoints }) s

-- The index one_active_binding_per_assignment is violated.
unfoldable pub second_binding : AgentRuntimeBinding → Tables → Bool
second_binding a s =
    is_binding_active a.status
    && any
        (λ b.
          b.assignment_id == a.assignment_id
          && not (b.binding_id == a.binding_id)
          && is_binding_active b.status)
        (values s.bindings)

unfoldable pub save_binding : AgentRuntimeBinding → Option ℕ → Session (Unit {0})
save_binding a none s =
    insert_row
      (has_binding s a.binding_id
        || not (has_agent s a.agent_id)
        || not (has_assignment s a.assignment_id)
        || second_binding a s)
      (store_conflict "BINDING_CONFLICT") (record s { bindings = insert a.binding_id a s.bindings })
      s
save_binding a (some expected) s =
    update_row
      (in_version (λ (b : AgentRuntimeBinding). b.version) expected
        (lookup a.binding_id s.bindings))
      (not (has_agent s a.agent_id) || not (has_assignment s a.assignment_id) || second_binding a s)
      "BINDING_VERSION_CONFLICT" (record s { bindings = insert a.binding_id a s.bindings }) s

-- The rows that a work item names are there.
unfoldable pub has_parties : WorkItem → Tables → Bool
has_parties w s =
    has_agent s w.centurion_agent_id
    && has_assignment s w.centurion_assignment_id
    && has_agent s w.scout_agent_id
    && has_assignment s w.scout_assignment_id

same_seal : Option EvidenceCheckpoint → Option EvidenceCheckpoint → Bool
same_seal none new = true
same_seal (some old) none = false
same_seal (some old) (some new) =
    old.projection == new.projection && same_texts old.reference_ids new.reference_ids

-- A row in the expected version, whose evidence checkpoint is not there yet or stays.
unfoldable pub item_matches : ℕ → WorkItem → Option WorkItem → Bool
unfolding same_seal
item_matches expected w none = false
item_matches expected w (some old) =
    eqb old.version expected && same_seal old.evidence_checkpoint w.evidence_checkpoint

unfoldable pub save_work_item : WorkItem → Option ℕ → Session (Unit {0})
save_work_item w none s =
    insert_row (has_item s w.work_item_id || not (has_parties w s))
      (store_conflict "WORK_ITEM_CONFLICT")
      (record s { work_items = insert w.work_item_id w s.work_items }) s
save_work_item w (some expected) s =
    update_row (item_matches expected w (lookup w.work_item_id s.work_items))
      (not (has_parties w s)) "WORK_ITEM_VERSION_CONFLICT"
      (record s { work_items = insert w.work_item_id w s.work_items }) s

-- The index uq_runtime_work_attempt_number is violated.
unfoldable pub second_number : WorkAttempt → Tables → Bool
second_number a s =
    any
      (λ b.
        b.work_item_id == a.work_item_id
        && eqb b.attempt_number a.attempt_number
        && not (b.attempt_id == a.attempt_id))
      (values s.work_attempts)

-- That index or a foreign key is violated.
unfoldable pub attempt_clash : WorkAttempt → Tables → Bool
attempt_clash a s =
    second_number a s
    || not (has_item s a.work_item_id)
    || not (has_agent s a.scout_agent_id)
    || not (has_binding s a.scout_binding_id)

unfoldable pub save_work_attempt : WorkAttempt → Option ℕ → Session (Unit {0})
save_work_attempt a none s =
    insert_row (has_attempt s a.attempt_id || attempt_clash a s)
      (store_conflict "WORK_ATTEMPT_CONFLICT")
      (record s { work_attempts = insert a.attempt_id a s.work_attempts }) s
save_work_attempt a (some expected) s =
    update_row
      (in_version (λ (b : WorkAttempt). b.version) expected (lookup a.attempt_id s.work_attempts))
      (attempt_clash a s) "WORK_ATTEMPT_VERSION_CONFLICT"
      (record s { work_attempts = insert a.attempt_id a s.work_attempts }) s

-- Results are unique by their id, by their work item and by their attempt.
unfoldable pub second_result : WorkResult → Tables → Bool
second_result r s =
    any
      (λ (q : WorkResult).
        q.result_id == r.result_id
        || q.work_item_id == r.work_item_id
        || q.attempt_id == r.attempt_id)
      s.work_results

unfoldable pub result_clash : WorkResult → Tables → Bool
result_clash r s =
    second_result r s
    || not (has_item s r.work_item_id)
    || not (has_attempt s r.attempt_id)
    || not (has_agent s r.scout_agent_id)
    || not (has_binding s r.scout_binding_id)

unfoldable pub save_work_result : WorkResult → Session (Unit {0})
save_work_result r s =
    insert_row (result_clash r s) (store_conflict "WORK_RESULT_CONFLICT")
      (record s { work_results = s.work_results ++ r ∷ [] }) s

unfoldable pub reference_clash : WorkEvidenceReference → Tables → Bool
reference_clash r s =
    any
      (λ (q : WorkEvidenceReference).
        q.evidence_reference_id == r.evidence_reference_id
        || q.attempt_id == r.attempt_id
          && q.external_record_id == r.external_record_id
          && q.external_revision == r.external_revision)
      s.evidence_references
    || not (has_item s r.work_item_id)
    || not (has_attempt s r.attempt_id)

unfoldable pub save_work_evidence_reference : WorkEvidenceReference → Session (Unit {0})
save_work_evidence_reference r s =
    insert_row (reference_clash r s) (store_conflict "WORK_EVIDENCE_REFERENCE_CONFLICT")
      (record s { evidence_references = s.evidence_references ++ r ∷ [] }) s

-- The rows of an agent's events.
unfoldable pub events_of : String → Tables → List RuntimeEvent
events_of id s = keep_if (λ e. e.agent_id == id) s.events

unfoldable pub list_events : String → Tables → List RuntimeEvent
list_events id s = order_by (λ (e : RuntimeEvent). e.sequence) (events_of id s)

unfoldable pub next_event_sequence : String → Tables → ℕ
next_event_sequence id s = greatest (λ (e : RuntimeEvent). e.sequence) (events_of id s) + 1

unfoldable pub store_event : RuntimeEvent → Session (Unit {0})
store_event e s =
    if not (eqb e.sequence (next_event_sequence e.agent_id s))
    then (failed (duplicate_event "RUNTIME_EVENT_SEQUENCE_CONFLICT"), s)
    else insert_row
        (any (λ (b : RuntimeEvent). b.event_id == e.event_id) s.events
          || not (has_agent s e.agent_id))
        (duplicate_event "RUNTIME_EVENT_CONFLICT") (record s { events = s.events ++ e ∷ [] }) s

-- `.first()`, where the primary key leaves one row at most.
unfoldable pub get_idempotency : String → String → String → Tables → Option IdempotencyRecord
get_idempotency scope operation key s =
    find (λ r. r.scope == scope && r.operation == operation && r.idempotency_key == key)
      s.idempotency

unfoldable pub put_idempotency : IdempotencyRecord → Session (Unit {0})
put_idempotency r s =
    insert_row (is_given (get_idempotency r.scope r.operation r.idempotency_key s))
      (store_conflict "IDEMPOTENCY_CONFLICT") (record s { idempotency = s.idempotency ++ r ∷ [] }) s

-- By `created_at` in the source: the index one_active_assignment_per_agent leaves one row at most.
unfoldable pub get_active_assignment : String → Tables → Option MissionAssignment
get_active_assignment agent s = find (λ b. b.agent_id == agent && is_open b) (values s.assignments)

unfoldable pub get_active_binding : String → Tables → Option AgentRuntimeBinding
get_active_binding assignment s =
    find (λ b. b.assignment_id == assignment && is_binding_active b.status) (values s.bindings)

abbrev pub attempts_of : String → Tables → List WorkAttempt
attempts_of item s = keep_if (λ a. a.work_item_id == item) (values s.work_attempts)

unfoldable pub list_work_attempts : String → Tables → List WorkAttempt
list_work_attempts item s = order_by (λ (a : WorkAttempt). a.attempt_number) (attempts_of item s)

-- The row of the greatest number; the numbers of an item's attempts are distinct.
unfoldable pub get_latest_work_attempt : String → Tables → Option WorkAttempt
get_latest_work_attempt item s =
    find
      (λ a.
        eqb a.attempt_number
          (greatest (λ (b : WorkAttempt). b.attempt_number) (attempts_of item s)))
      (attempts_of item s)

-- `.first()`, where the unique column work_item_id leaves one row at most.
unfoldable pub get_work_result : String → Tables → Option WorkResult
get_work_result item s = find (λ r. r.work_item_id == item) s.work_results

unfoldable pub references_of_work : String → Tables → List WorkEvidenceReference
references_of_work item s = keep_if (λ r. r.work_item_id == item) s.evidence_references
