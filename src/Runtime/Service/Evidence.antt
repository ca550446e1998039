-- ===== src/Runtime/Service/Evidence.antt =====
-- src/legion_runtime/service.py: the evidence of grounded work, between its read and cognition.
use pantheon_legion.Base.{
  ◌+◌, String, Bool, false, ◌&&◌, not, Option, none, some, List, [], ◌∷◌, leb, text_eq,
}
use pantheon_legion.Base.Json.{Items, no_items, item, number, str, arr, end, field}
use pantheon_legion.Base.Lists.{length}
use pantheon_legion.Base.Text.{is_uuid, show, strip, is_empty}
use pantheon_legion.Runtime.Checks.{text_length, is_bounded}
use pantheon_legion.Runtime.Agent.{ActorRef}
use pantheon_legion.Runtime.Work.{
  cognition, evidence_retrieval, WorkEvidenceReference, is_claimed, is_cancelled, is_running,
  same_stage, WorkAttempt,
}
use pantheon_legion.Runtime.WorkChecks.{attempt_fault, reference_fault}
use pantheon_legion.Base.{eqb}
use pantheon_legion.Runtime.Store.{
  Ports, operation_error, Session, give, checked, guard, ◌>>=◌, ◌>>◌, draw_id, read_clock,
  transaction,
}
use pantheon_legion.Runtime.Repository.{save_work_attempt, save_work_evidence_reference}
use pantheon_legion.Runtime.Service.{emit, work_lock_keys}
use pantheon_legion.Runtime.Service.Claims.{ScoutCall}
use pantheon_legion.Runtime.Service.Execution.{Attempting, read_attempting, attempt_entry}

-- `GroundedEvidenceRecord`
pub record EvidenceRecord : Type 0 where
  pub record_id : String
  pub revision : String
  pub canonical_uri : String
  pub content : String
  pub retrieved_at : String

-- `GroundedEvidenceBundle`, as far as the runtime reads it.
pub record Bundle : Type 0 where
  pub authorization_decision_ids : List String
  pub successful_authorization_decision_id : String
  pub scope_binding_id : String
  pub scope_binding_version : String
  pub correlation_id : String
  pub tabula_audit_correlation_id : String
  pub records : List EvidenceRecord

-- What the reader ends in: a bundle, the authority's refusals, `EvidenceReadError` with whether it
-- may be tried again, or another exception.
pub data Reading : Type 0 where
  evidence : Bundle → Reading
  reading_unavailable reading_denied : String → Reading
  reading_failed : String → Bool → Reading
  reading_crashed : Reading

-- The constructor of `GroundedEvidenceReadRequest` accepts the request that the runtime makes.
unfoldable pub may_request : Attempting → Bool
may_request a =
    is_uuid a.agent.organization_id
    && is_uuid a.agent.workspace_id
    && is_uuid a.work.mission_id
    && is_uuid a.agent.agent_id
    && is_uuid a.assignment.assignment_id
    && is_uuid a.work.work_item_id
    && is_uuid a.attempt.attempt_id
    && is_uuid a.work.correlation_id
    && given_grant a.binding.grant_id
    && not (is_empty (strip a.work.objective))
    && leb (text_length a.work.objective) 2000
  where
    given_grant : Option String → Bool
    given_grant none = false
    given_grant (some g) = is_bounded 512 g

abbrev reference_items : List WorkEvidenceReference → Items
reference_items [] = no_items
reference_items (r ∷ rs) = item (str r.evidence_reference_id) (reference_items rs)

abbrev decision_items : List String → Items
decision_items [] = no_items
decision_items (d ∷ ds) = item (str d) (decision_items ds)

unfoldable pub save_references : List WorkEvidenceReference → Session (Unit {0})
save_references [] = give tt
save_references (r ∷ rs) = do save_work_evidence_reference r; save_references rs

module _ (p : Ports) where
  unfoldable pub new_reference :
      Attempting → Bundle → EvidenceRecord → Session WorkEvidenceReference
  new_reference a bundle r = do
    id ← draw_id p
    now ← read_clock p
    checked reference_fault (record {
      evidence_reference_id = id;
      work_item_id = a.work.work_item_id;
      attempt_id = a.attempt.attempt_id;
      external_record_id = r.record_id;
      external_revision = r.revision;
      canonical_uri = r.canonical_uri;
      scope_binding_id = bundle.scope_binding_id;
      scope_binding_version = bundle.scope_binding_version;
      successful_authorization_decision_id = bundle.successful_authorization_decision_id;
      tabula_audit_correlation_id = bundle.tabula_audit_correlation_id;
      retrieved_at = r.retrieved_at;
      created_at = now;
      content_sha256 = none;
      content_bytes = none;
    })

  -- The tuple of references, in the order of the records.
  unfoldable pub new_references :
      Attempting → Bundle → List EvidenceRecord → Session (List WorkEvidenceReference)
  new_references a bundle [] = give []
  new_references a bundle (r ∷ rs) = do
    first ← new_reference a bundle r
    rest ← new_references a bundle rs
    give (first ∷ rest)

  unfoldable pub write_references :
      ActorRef → WorkAttempt → Bundle → List WorkEvidenceReference → Attempting → Session Attempting
  write_references actor expected bundle references a = do
    guard (not (is_cancelled a.work.status)) (operation_error "WORK_CANCELLED")
    guard
        (is_claimed a.work.status
          && is_running a.attempt.status
          && eqb a.attempt.version expected.version
          && same_stage evidence_retrieval a.attempt.attempt_stage)
        (operation_error "WORK_RECONCILIATION_REQUIRED")
    save_references references
    now ← read_clock p
    next ← checked attempt_fault (record a.attempt {
      attempt_stage = some cognition;
      knowledge_authorization_decision_ids = bundle.authorization_decision_ids;
      successful_knowledge_decision_id = some bundle.successful_authorization_decision_id;
      evidence_correlation_id = some bundle.correlation_id;
      tabula_audit_correlation_id = some bundle.tabula_audit_correlation_id;
      version = a.attempt.version + 1;
      updated_at = now;
    })
    save_work_attempt next (some a.attempt.version)
    emit p (record (attempt_entry "GroundedEvidenceReferencesRecorded" "SUCCESS" actor a) {
      data_fields = field "work_item_id" (str a.work.work_item_id) (
          field "attempt_id" (str next.attempt_id) (
            field "evidence_reference_ids" (arr (reference_items references)) (
              field "evidence_count" (number (show (length references))) (
                field "authorization_decision_ids"
                  (arr (decision_items bundle.authorization_decision_ids))
                  (field "tabula_audit_correlation_id" (str bundle.tabula_audit_correlation_id)
                    end)))));
    })
    give (record a { attempt = next })

  -- The transaction that records the references of grounded work.
  unfoldable pub record_evidence :
      ScoutCall → ActorRef → Attempting → Bundle → List WorkEvidenceReference → Session Attempting
  record_evidence c actor started bundle references = transaction (work_lock_keys started.work) (do
    a ← read_attempting c started.attempt.attempt_id
    write_references actor started.attempt bundle references a)
