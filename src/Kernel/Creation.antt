-- ===== src/Kernel/Creation.antt =====
-- `create_mission`: a draft Mission with its audit log.
use pantheon_legion.Base.{text_eq, String, not, [], ◌∷◌, if◌then◌else◌}
use pantheon_legion.Base.Dict.{insert}
use pantheon_legion.Base.Json.{str}
use pantheon_legion.Kernel.Types.{
  Principal, has_any_role, draft, mission_status_value, RoeLevel, approval_classes, Mission,
}
use pantheon_legion.Kernel.State.{
  World, authorization_error, Exec, pure, raise, modify, ◌>>=◌, ◌>>◌, uuid4, clock, wall_now,
  put_mission,
}
use pantheon_legion.Kernel.Journal.{entry, one, record_event}

-- `self.audit[mission_id] = []`
unfoldable pub open_log : String → Exec (Unit {0})
open_log id = modify (λ k. record k { audit = insert id [] k.audit })

module _ (w : World) where
  -- `create_mission`
  unfoldable pub create_mission :
      (actor : Principal)
      → (organization_id workspace_id title objective : String) → RoeLevel
      → Exec Mission
  create_mission actor organization_id workspace_id title objective roe_level =
      if not (has_any_role actor ("MISSION_OWNER" ∷ "OPERATOR" ∷ []))
      then raise (authorization_error "MISSION_CREATE_FORBIDDEN")
      else do
        id ← uuid4 w
        effective_at ← clock w
        created_at ← wall_now w
        updated_at ← wall_now w
        let m : Mission = record {
          id = id;
          organization_id = organization_id;
          workspace_id = workspace_id;
          title = title;
          objective = objective;
          created_by = actor;
          status = draft;
          version = 1;
          roe = record {
            revision = 1;
            level = roe_level;
            changed_by = actor;
            effective_at = effective_at;
            approval_required_for = approval_classes;
            allowed_capabilities = [];
            denied_capabilities = [];
            reason = "";
          };
          constraints = [];
          participants = [];
          created_at = created_at;
          updated_at = updated_at;
          actions = [];
        }
        put_mission m
        open_log id
        record_event w m (
            entry "MISSION_CREATED" actor "SUCCESS"
              (one "status" (str (mission_status_value draft))))
        pure m
