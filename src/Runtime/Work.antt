-- ===== src/Runtime/Work.antt =====
-- src/legion_runtime/work.py: work items, attempts, results, references to evidence.
use pantheon_legion.Base.{ℕ, String, Bool, true, false, Option, some, List, [], ◌∷◌}

pub data WorkStatus : Type 0 where
  queued claimed retryable completed work_failed cancelled : WorkStatus

pub data AttemptStatus : Type 0 where
  prepared running succeeded attempt_failed abandoned : AttemptStatus

pub data WorkKind : Type 0 where
  read_only_analysis grounded_corpus_analysis provenance_bound_corpus_analysis
        tool_assisted_corpus_analysis cognition_integration_spike :
      WorkKind

pub data AttemptStage : Type 0 where
  mission_context evidence_retrieval evidence_reread cognition cognition_selection cognition_initial
        tool_requested cognition_continuation :
      AttemptStage

pub record EvidenceCheckpoint : Type 0 where
  pub reference_ids : List String
  pub projection : String

pub record WorkItem : Type 0 where
  pub work_item_id : String
  pub mission_id : String
  pub centurion_agent_id : String
  pub centurion_assignment_id : String
  pub scout_agent_id : String
  pub scout_assignment_id : String
  pub objective : String
  pub required_capabilities : List String
  pub status : WorkStatus
  pub version : ℕ
  pub correlation_id : String
  pub causation_id : Option String
  pub created_at : String
  pub updated_at : String
  pub cancelled_at : Option String
  pub cancellation_reason : Option String
  pub kind : WorkKind
  pub evidence_checkpoint : Option EvidenceCheckpoint

pub record WorkAttempt : Type 0 where
  pub attempt_id : String
  pub work_item_id : String
  pub scout_agent_id : String
  pub scout_binding_id : String
  pub status : AttemptStatus
  pub attempt_number : ℕ
  pub mission_version : Option ℕ
  pub authorization_decision_id : Option String
  pub error_code : Option String
  pub version : ℕ
  pub created_at : String
  pub updated_at : String
  pub attempt_stage : Option AttemptStage
  pub knowledge_authorization_decision_ids : List String
  pub successful_knowledge_decision_id : Option String
  pub evidence_correlation_id : Option String
  pub tabula_audit_correlation_id : Option String

-- The one `EvidenceSourceType`, TABULA_CORPUS, has no field.
pub record WorkEvidenceReference : Type 0 where
  pub evidence_reference_id : String
  pub work_item_id : String
  pub attempt_id : String
  pub external_record_id : String
  pub external_revision : String
  pub canonical_uri : String
  pub scope_binding_id : String
  pub scope_binding_version : String
  pub successful_authorization_decision_id : String
  pub tabula_audit_correlation_id : String
  pub retrieved_at : String
  pub created_at : String
  pub content_sha256 : Option String
  pub content_bytes : Option ℕ

pub record WorkResult : Type 0 where
  pub result_id : String
  pub work_item_id : String
  pub attempt_id : String
  pub scout_agent_id : String
  pub scout_binding_id : String
  pub mission_version : ℕ
  pub summary : String
  pub evidence_references : List String
  pub content_digest : String
  pub produced_at : String

abbrev pub is_claimable : WorkStatus → Bool
is_claimable queued = true
is_claimable retryable = true
is_claimable _ = false

abbrev pub is_claimed : WorkStatus → Bool
is_claimed claimed = true
is_claimed _ = false

abbrev pub is_cancelled : WorkStatus → Bool
is_cancelled cancelled = true
is_cancelled _ = false

-- `status in {COMPLETED, FAILED, CANCELLED}`
abbrev pub is_final : WorkStatus → Bool
is_final completed = true
is_final work_failed = true
is_final cancelled = true
is_final _ = false

abbrev pub is_prepared : AttemptStatus → Bool
is_prepared prepared = true
is_prepared _ = false

abbrev pub is_running : AttemptStatus → Bool
is_running running = true
is_running _ = false

-- `status in {SUCCEEDED, FAILED, ABANDONED}`
abbrev pub is_over : AttemptStatus → Bool
is_over prepared = false
is_over running = false
is_over _ = true

abbrev pub is_read_only : WorkKind → Bool
is_read_only read_only_analysis = true
is_read_only _ = false

abbrev pub is_grounded : WorkKind → Bool
is_grounded grounded_corpus_analysis = true
is_grounded _ = false

abbrev pub is_provenance_bound : WorkKind → Bool
is_provenance_bound provenance_bound_corpus_analysis = true
is_provenance_bound _ = false

abbrev pub is_spike : WorkKind → Bool
is_spike cognition_integration_spike = true
is_spike _ = false

abbrev pub kind_value : WorkKind → String
kind_value read_only_analysis = "READ_ONLY_ANALYSIS"
kind_value grounded_corpus_analysis = "GROUNDED_CORPUS_ANALYSIS"
kind_value provenance_bound_corpus_analysis = "PROVENANCE_BOUND_CORPUS_ANALYSIS"
kind_value tool_assisted_corpus_analysis = "TOOL_ASSISTED_CORPUS_ANALYSIS"
kind_value cognition_integration_spike = "COGNITION_INTEGRATION_SPIKE"

abbrev pub same_stage : AttemptStage → Option AttemptStage → Bool
same_stage mission_context (some mission_context) = true
same_stage evidence_retrieval (some evidence_retrieval) = true
same_stage evidence_reread (some evidence_reread) = true
same_stage _ _ = false

-- The exact capabilities of each kind, which `WorkItem` and `delegate_work` both list.
abbrev pub profiles : WorkKind → List String
profiles read_only_analysis = "read_only_analysis" ∷ []
profiles grounded_corpus_analysis = "read_only_analysis" ∷ "tabula_corpus_read" ∷ []
profiles provenance_bound_corpus_analysis =
    "read_only_analysis" ∷ "model_reasoning" ∷ "tabula_corpus_read" ∷ []
profiles tool_assisted_corpus_analysis =
    "read_only_analysis" ∷ "model_reasoning" ∷ "tabula_corpus_read" ∷ []
profiles cognition_integration_spike =
    "experimental_cognition" ∷ "model_reasoning" ∷ "tabula_corpus_read" ∷ "fixture_effect" ∷ []
