-- ===== src/Runtime/AgentChecks.antt =====
-- src/legion_runtime/agent.py: what the constructors of the dataclasses refuse.
use pantheon_legion.Base.{ℕ, String, Option, [], ◌∷◌, leb}
use pantheon_legion.Base.Text.{is_uuid}
use pantheon_legion.Runtime.Checks.{
  is_positive, if_given, first_fault, uuid_test, positive_test, timestamp_test, bounded_test,
  optional_test, is_timestamp,
}
use pantheon_legion.Runtime.Agent.{
  ActorRef, AgentIdentity, MissionAssignment, CoordinationCheckpoint, AgentRuntimeBinding,
  RuntimeEvent,
}

-- The `__post_init__` methods.
unfoldable pub actor_fault : ActorRef → Option String
actor_fault a =
    first_fault
      (bounded_test "actor type" 64 a.type ∷ bounded_test "actor subject" 512 a.subject ∷ [])

unfoldable pub agent_fault : AgentIdentity → Option String
agent_fault a = first_fault (
    uuid_test "agent_id" a.agent_id
    ∷ uuid_test "organization_id" a.organization_id
    ∷ uuid_test "workspace_id" a.workspace_id
    ∷ bounded_test "display_name" 200 a.display_name
    ∷ positive_test "version" a.version
    ∷ timestamp_test "created_at" a.created_at
    ∷ timestamp_test "updated_at" a.updated_at
    ∷ [])

unfoldable pub assignment_fault : MissionAssignment → Option String
assignment_fault a = first_fault (
    uuid_test "assignment_id" a.assignment_id
    ∷ uuid_test "agent_id" a.agent_id
    ∷ uuid_test "mission_id" a.mission_id
    ∷ uuid_test "correlation_id" a.correlation_id
    ∷ positive_test "version" a.version
    ∷ (if_given is_positive a.mission_version, "mission_version must be a positive integer")
    ∷ optional_test "authorization_decision_id" 512 a.authorization_decision_id
    ∷ optional_test "policy_version" 256 a.policy_version
    ∷ optional_test "last_error_code" 256 a.last_error_code
    ∷ timestamp_test "created_at" a.created_at
    ∷ timestamp_test "updated_at" a.updated_at
    ∷ [])

unfoldable pub checkpoint_fault : CoordinationCheckpoint → Option String
checkpoint_fault c = first_fault (
    uuid_test "assignment_id" c.assignment_id
    ∷ uuid_test "correlation_id" c.correlation_id
    ∷ positive_test "revision" c.revision
    ∷ (
      if_given is_positive c.last_observed_mission_version,
      "last_observed_mission_version must be a positive integer",
    )
    ∷ optional_test "last_error_code" 256 c.last_error_code
    ∷ (if_given is_uuid c.focus_work_item_id, "focus_work_item_id must be a UUID")
    ∷ timestamp_test "updated_at" c.updated_at
    ∷ [])

unfoldable pub binding_fault : AgentRuntimeBinding → Option String
binding_fault b = first_fault (
    uuid_test "binding_id" b.binding_id
    ∷ uuid_test "agent_id" b.agent_id
    ∷ uuid_test "assignment_id" b.assignment_id
    ∷ bounded_test "workload_subject" 512 b.workload_subject
    ∷ optional_test "grant_id" 512 b.grant_id
    ∷ positive_test "version" b.version
    ∷ timestamp_test "started_at" b.started_at
    ∷ (if_given is_timestamp b.ended_at, "ended_at must be a UTC timestamp")
    ∷ uuid_test "correlation_id" b.correlation_id
    ∷ optional_test "last_error_code" 256 b.last_error_code
    ∷ [])

-- `encoded` is the number of bytes in which `json.dumps` writes the event's data.
unfoldable pub event_fault : ℕ → RuntimeEvent → Option String
event_fault encoded e = first_fault (
    uuid_test "event_id" e.event_id
    ∷ positive_test "sequence" e.sequence
    ∷ bounded_test "event_type" 128 e.event_type
    ∷ timestamp_test "occurred_at" e.occurred_at
    ∷ uuid_test "agent_id" e.agent_id
    ∷ bounded_test "result" 64 e.result
    ∷ uuid_test "correlation_id" e.correlation_id
    ∷ (if_given is_uuid e.mission_id, "mission_id must be a UUID")
    ∷ (if_given is_uuid e.assignment_id, "assignment_id must be a UUID")
    ∷ (if_given is_uuid e.binding_id, "binding_id must be a UUID")
    ∷ optional_test "causation_id" 512 e.causation_id
    ∷ (leb encoded 8192, "event data must not exceed 8192 bytes")
    ∷ [])
