-- ===== src/Authorization/Tests.antt =====
-- Concrete requests, and the theorems of the authorization engine at them.
use pantheon_legion.Base.{
  ◌≡◌, ◌≢◌, ◌⊎◌, refl, eq_iff, true, false, none, some, [], ◌∷◌, arith, contains,
}
use pantheon_legion.Kernel.Types.{
  Principal, human, workload, active, cancelled, review, has_any_role,
}
use pantheon_legion.Authorization.{
  DelegationGrant, AuthorizationRequest, mvp_policy, allow, decide, evaluate, delegation_error,
  held_grant_error, grant_error, cognition_error, policy_error, read_error, live_error,
  operation_error, effect_error,
}
use pantheon_legion.Authorization.Meaning.{
  Covers, decide-delegated, decide-terminal, Grounds, decide-Grounds,
}

abbrev owner : Principal
owner = record { type = human; subject = "ada"; roles = "MISSION_OWNER" ∷ [] }

abbrev worker : Principal
worker = record { type = workload; subject = "bee"; roles = "MISSION_WORKER" ∷ [] }

abbrev grant : DelegationGrant
grant = record {
  grant_id = "g1";
  issuer = owner;
  subject = worker;
  mission_id = "m1";
  allowed_operations = "EXECUTE_ACTION" ∷ [];
  roe_ceiling = review;
  expires_at = "2026-01-01T01:00:00Z";
  issued_at = "2026-01-01T00:00:00Z";
  revoked = false;
  revoked_at = none;
  revoked_by = none;
  revocation_reason = none;
}

abbrev work_request : AuthorizationRequest
work_request = record {
  principal = worker;
  mission_id = "m1";
  operation = "EXECUTE_ACTION";
  roe_level = review;
  mission_status = active;
  side_effect_class = "MUTATION";
  capability = some "service.deploy";
  approval_present = true;
  delegation = some grant;
  delegation_id = some "g1";
}

abbrev read_request : AuthorizationRequest
read_request = record work_request {
  principal = owner;
  operation = "READ_TIMELINE";
  mission_status = cancelled;
  side_effect_class = "READ";
}

work_allowed :
    (decide mvp_policy "d1" "2026-01-01T00:30:00Z" "2026-01-01T00:30:01Z" work_request).decision
    ≡ allow
unfolding decide evaluate delegation_error held_grant_error grant_error cognition_error policy_error
    live_error operation_error effect_error
work_allowed = refl

read_allowed :
    (decide mvp_policy "d2" "2026-01-01T00:30:00Z" "2026-01-01T00:30:01Z" read_request).decision
    ≡ allow
unfolding decide evaluate delegation_error cognition_error policy_error read_error
read_allowed = refl

decide-delegated_example :
    (g : DelegationGrant) × (some grant ≡ some g) × Covers "2026-01-01T00:30:00Z" work_request g
decide-delegated_example =
    decide-delegated mvp_policy "d1" "2026-01-01T00:30:00Z" "2026-01-01T00:30:01Z" work_request
      work_allowed refl (λ h. ground (arith, eq_iff work_request.operation "ASSIGN_AGENT", h))

decide-terminal_example :
    ((contains mvp_policy.read_operations read_request.operation ≡ true)
      × (read_request.operation ≢ "INVOKE_COGNITION"))
    ⊎ ((read_request.operation ≡ "REVOKE_DELEGATION")
        × (owner.type ≡ human)
        × (has_any_role owner ("MISSION_OWNER" ∷ []) ≡ true))
decide-terminal_example =
    decide-terminal mvp_policy "d2" "2026-01-01T00:30:00Z" "2026-01-01T00:30:01Z" read_request
      read_allowed refl

decide-Grounds_example : Grounds mvp_policy work_request
decide-Grounds_example =
    decide-Grounds mvp_policy "d1" "2026-01-01T00:30:00Z" "2026-01-01T00:30:01Z" work_request
      work_allowed (λ h. ground (arith, eq_iff work_request.side_effect_class "READ", h))
