-- ===== src/Runtime/Service/Agents.antt =====
-- src/legion_runtime/service.py: `create_centurion` and `create_scout`.
use pantheon_legion.Base.{String, ◌<>◌, Option, none, some, [], ◌∷◌, text_eq}
use pantheon_legion.Base.Dict.{lookup}
use pantheon_legion.Base.Json.{Value, str, obj, end, field}
use pantheon_legion.Kernel.Types.{Principal}
use pantheon_legion.Runtime.Agent.{
  AgentRole, scout, centurion, active, ActorRef, AgentIdentity, role_value,
}
use pantheon_legion.Runtime.AgentChecks.{agent_fault}
use pantheon_legion.Runtime.Store.{
  Ports, IdempotencyRecord, operation_error, Session, give, need, checked, ◌>>=◌, ◌>>◌, draw_id,
  read_clock, transaction,
}
use pantheon_legion.Runtime.Repository.{save_agent}
use pantheon_legion.Runtime.Service.{check_key, actor_of, actor_document, prior, note, emit}

-- The arguments of both operations.
pub record NewAgent : Type 0 where
  pub actor : Principal
  pub organization_id : String
  pub workspace_id : String
  pub display_name : String
  pub idempotency_key : String

-- `f"{organization_id}:{workspace_id}"`
abbrev agent_scope : NewAgent → String
agent_scope c = c.organization_id <> ":" <> c.workspace_id

abbrev agent_document : NewAgent → ActorRef → Value
agent_document c actor = obj (
    field "actor" (actor_document actor) (
      field "display_name" (str c.display_name) (
        field "organization_id" (str c.organization_id)
          (field "workspace_id" (str c.workspace_id) end))))

abbrev create_operation : AgentRole → String
create_operation centurion = "CREATE_CENTURION"
create_operation scout = "CREATE_SCOUT"

-- The agent that the first use of the key made.
unfoldable pub remembered_agent : IdempotencyRecord → Session AgentIdentity
remembered_agent r s =
    need (lookup r.resource_id s.agents) (operation_error "IDEMPOTENCY_RESOURCE_MISSING") s

module _ (p : Ports) where
  unfoldable pub new_agent : AgentRole → NewAgent → ActorRef → String → Session AgentIdentity
  new_agent role c actor fingerprint = do
    now ← read_clock p
    id ← draw_id p
    agent ← checked agent_fault (record {
      agent_id = id;
      organization_id = c.organization_id;
      workspace_id = c.workspace_id;
      display_name = c.display_name;
      role = role;
      status = active;
      version = 1;
      created_by = actor;
      created_at = now;
      updated_at = now;
    })
    save_agent agent none
    correlation ← draw_id p
    emit p (record {
      event_type = "AgentCreated";
      agent_id = agent.agent_id;
      actor = actor;
      result = "SUCCESS";
      correlation_id = correlation;
      mission_id = none;
      assignment_id = none;
      binding_id = none;
      causation_id = none;
      data_fields = field "role" (str (role_value agent.role)) end;
    })
    note (agent_scope c) (create_operation role) c.idempotency_key fingerprint "agent"
        agent.agent_id
    give agent

  unfoldable pub agent_or_new :
      AgentRole → NewAgent → ActorRef → String → Option IdempotencyRecord → Session AgentIdentity
  agent_or_new role c actor fingerprint none = new_agent role c actor fingerprint
  agent_or_new role c actor fingerprint (some r) = remembered_agent r

  -- `create_centurion` and `create_scout` differ in the role only.
  unfoldable pub create_agent : AgentRole → NewAgent → Session AgentIdentity
  create_agent role c = do
    check_key c.idempotency_key
    actor ← actor_of c.actor
    let fingerprint = p.sha256_json (agent_document c actor)
    transaction (("organization:" <> c.organization_id <> ":workspace:" <> c.workspace_id) ∷ []) (do
      found ← prior (agent_scope c) (create_operation role) c.idempotency_key fingerprint
      agent_or_new role c actor fingerprint found)
