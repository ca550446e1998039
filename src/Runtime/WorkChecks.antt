-- ===== src/Runtime/WorkChecks.antt =====
-- src/legion_runtime/work.py: what the constructors of the dataclasses refuse, and the digest of
-- a result.
use pantheon_legion.Base.{
  ℕ, String, Bool, true, false, ◌&&◌, ◌||◌, not, ◌==◌, Option, none, some, List, [], ◌∷◌, leb, eqb,
  contains,
}
use pantheon_legion.Base.Json.{Value, str, arr, obj, Items, no_items, item, end, field}
use pantheon_legion.Base.Lists.{length, all}
use pantheon_legion.Base.Text.{codes, is_uuid}
use pantheon_legion.Runtime.Checks.{
  text_length, is_positive, is_bounded, is_utf8_bounded, if_given, is_given, is_timestamp,
  are_distinct, same_texts, first_fault, uuid_test, positive_test, timestamp_test, bounded_test,
  optional_test,
}
use pantheon_legion.Runtime.Work.{
  EvidenceCheckpoint, WorkItem, WorkAttempt, WorkEvidenceReference, WorkResult, is_cancelled,
  is_provenance_bound, is_read_only, profiles,
}

unfoldable pub is_valid_seal : EvidenceCheckpoint → Bool
is_valid_seal c =
    c.projection == "utf8-prefix-v1"
    && leb 1 (length c.reference_ids)
    && leb (length c.reference_ids) 8
    && are_distinct c.reference_ids
    && all is_uuid c.reference_ids

-- A cancelled item carries when and why; no other does.
unfoldable pub has_cancellation : WorkItem → Bool
has_cancellation w = elim (is_cancelled w.status) [
  | true ↦ is_given w.cancelled_at && is_given w.cancellation_reason
  | false ↦ not (is_given w.cancelled_at) && not (is_given w.cancellation_reason)
]

unfoldable pub item_fault : WorkItem → Option String
item_fault w = first_fault (
    uuid_test "work_item_id" w.work_item_id
    ∷ uuid_test "mission_id" w.mission_id
    ∷ uuid_test "centurion_agent_id" w.centurion_agent_id
    ∷ uuid_test "centurion_assignment_id" w.centurion_assignment_id
    ∷ uuid_test "scout_agent_id" w.scout_agent_id
    ∷ uuid_test "scout_assignment_id" w.scout_assignment_id
    ∷ uuid_test "correlation_id" w.correlation_id
    ∷ (is_utf8_bounded 4096 w.objective, "objective is out of bounds")
    ∷ (
      leb 1 (length w.required_capabilities) && leb (length w.required_capabilities) 16,
      "required_capabilities must contain 1..16 values",
    )
    ∷ (all (is_bounded 128) w.required_capabilities, "required capability is out of bounds")
    ∷ (are_distinct w.required_capabilities, "required_capabilities must be distinct")
    ∷ positive_test "version" w.version
    ∷ optional_test "causation_id" 512 w.causation_id
    ∷ timestamp_test "created_at" w.created_at
    ∷ timestamp_test "updated_at" w.updated_at
    ∷ (if_given is_timestamp w.cancelled_at, "cancelled_at must be a UTC timestamp")
    ∷ (
      if_given (is_utf8_bounded 1024) w.cancellation_reason,
      "cancellation_reason is out of bounds",
    )
    ∷ (has_cancellation w, "cancellation provenance does not match the status")
    ∷ (same_texts w.required_capabilities (profiles w.kind), "work requires exact capabilities")
    ∷ (
      not (is_given w.evidence_checkpoint) || is_provenance_bound w.kind,
      "EVIDENCE_CHECKPOINT_INVALID",
    )
    ∷ (
      is_read_only w.kind || leb (text_length w.objective) 2000,
      "grounded objective exceeds Corpus query limit",
    )
    ∷ [])

unfoldable pub attempt_fault : WorkAttempt → Option String
attempt_fault a = first_fault (
    uuid_test "attempt_id" a.attempt_id
    ∷ uuid_test "work_item_id" a.work_item_id
    ∷ uuid_test "scout_agent_id" a.scout_agent_id
    ∷ uuid_test "scout_binding_id" a.scout_binding_id
    ∷ positive_test "attempt_number" a.attempt_number
    ∷ (if_given is_positive a.mission_version, "mission_version must be a positive integer")
    ∷ optional_test "authorization_decision_id" 512 a.authorization_decision_id
    ∷ optional_test "error_code" 256 a.error_code
    ∷ (
      leb (length a.knowledge_authorization_decision_ids) 4,
      "knowledge authorization decision IDs exceed limit",
    )
    ∷ (
      all (is_bounded 512) a.knowledge_authorization_decision_ids,
      "knowledge authorization decision ID is out of bounds",
    )
    ∷ (
      are_distinct a.knowledge_authorization_decision_ids,
      "knowledge authorization decision IDs must be distinct",
    )
    ∷ optional_test "successful knowledge decision ID" 512 a.successful_knowledge_decision_id
    ∷ (
      if_given (contains a.knowledge_authorization_decision_ids) a.successful_knowledge_decision_id,
      "successful knowledge decision must be in decision IDs",
    )
    ∷ (if_given is_uuid a.evidence_correlation_id, "evidence_correlation_id must be a UUID")
    ∷ (if_given is_uuid a.tabula_audit_correlation_id, "tabula_audit_correlation_id must be a UUID")
    ∷ positive_test "version" a.version
    ∷ timestamp_test "created_at" a.created_at
    ∷ timestamp_test "updated_at" a.updated_at
    ∷ [])

is_hex_lower : ℕ → Bool
is_hex_lower c = leb b'0' c && leb c b'9' || leb b'a' c && leb c b'f'

-- A digest of 64 lower-case digits.
unfoldable pub is_digest : String → Bool
unfolding is_hex_lower
is_digest s = eqb (text_length s) 64 && all is_hex_lower (codes s)

-- Both parts of a content's measure are there and in range, or neither is.
unfoldable pub has_measure : WorkEvidenceReference → Bool
has_measure r = elim r.content_bytes [
  | some n ↦
      leb 1 n && leb n 8192 && is_given r.content_sha256 && if_given is_digest r.content_sha256
  | none ↦ not (is_given r.content_sha256)
]

unfoldable pub reference_fault : WorkEvidenceReference → Option String
reference_fault r = first_fault (
    (has_measure r, "EVIDENCE_CHECKPOINT_INVALID")
    ∷ uuid_test "evidence_reference_id" r.evidence_reference_id
    ∷ uuid_test "work_item_id" r.work_item_id
    ∷ uuid_test "attempt_id" r.attempt_id
    ∷ uuid_test "tabula_audit_correlation_id" r.tabula_audit_correlation_id
    ∷ bounded_test "external_record_id" 512 r.external_record_id
    ∷ bounded_test "external_revision" 256 r.external_revision
    ∷ bounded_test "canonical_uri" 2048 r.canonical_uri
    ∷ bounded_test "scope_binding_id" 512 r.scope_binding_id
    ∷ bounded_test "scope_binding_version" 256 r.scope_binding_version
    ∷ bounded_test "successful_authorization_decision_id" 512 r.successful_authorization_decision_id
    ∷ timestamp_test "retrieved_at" r.retrieved_at
    ∷ timestamp_test "created_at" r.created_at
    ∷ [])

abbrev texts : List String → Items
texts [] = no_items
texts (x ∷ xs) = item (str x) (texts xs)

-- `sha256` is the digest of the printed document.
unfoldable pub result_digest : (Value → String) → String → List String → String
result_digest sha256 summary evidence_references = sha256 (
    obj (
      field "evidence_references" (arr (texts evidence_references))
        (field "summary" (str summary) end)))

unfoldable pub result_fault : (Value → String) → WorkResult → Option String
result_fault sha256 r = first_fault (
    uuid_test "result_id" r.result_id
    ∷ uuid_test "work_item_id" r.work_item_id
    ∷ uuid_test "attempt_id" r.attempt_id
    ∷ uuid_test "scout_agent_id" r.scout_agent_id
    ∷ uuid_test "scout_binding_id" r.scout_binding_id
    ∷ positive_test "mission_version" r.mission_version
    ∷ (is_utf8_bounded 8192 r.summary, "summary is out of bounds")
    ∷ (leb (length r.evidence_references) 32, "evidence_references must contain at most 32 values")
    ∷ (all (is_bounded 1024) r.evidence_references, "evidence reference is out of bounds")
    ∷ (are_distinct r.evidence_references, "evidence_references must be distinct")
    ∷ (is_digest r.content_digest, "content_digest must be a lowercase SHA-256 digest")
    ∷ (
      r.content_digest == result_digest sha256 r.summary r.evidence_references,
      "content_digest does not match result content",
    )
    ∷ timestamp_test "produced_at" r.produced_at
    ∷ [])
