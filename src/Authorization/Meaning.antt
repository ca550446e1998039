-- ===== src/Authorization/Meaning.antt =====
-- What an authorization means, apart from the order of the tests of `_evaluate`.
use pantheon_legion.Base.{
  text_eq, ◌≡◌, ◌≢◌, ◌⊎◌, inl, inr, refl, String, true, false, Option, none, some, [], ◌∷◌, ◌==◌,
  ◌≤◌, contains, arith, eq_iff, Bool-cases, Option-cases,
}
use pantheon_legion.Base.Text.{is_empty, text_lt}
use pantheon_legion.Kernel.Types.{
  human, workload, has_any_role, review, bounded_autonomous, roe_order,
}
use pantheon_legion.Authorization.{
  AuthorizationRequest, DelegationGrant, AuthorizationPolicy, allow, is_terminal, grant_error,
  held_grant_error, delegation_error, cognition_error, human_error, read_error, effect_error,
  operation_error, live_error, policy_error, evaluate, decide, verdict_of, ◌or_else◌,
}

-- The grant lets the workload do the operation now.
pub record Covers (now : String) (r : AuthorizationRequest) (g : DelegationGrant) : Type 0 where
  pub same_subject : g.subject.subject ≡ r.principal.subject
  pub same_mission : g.mission_id ≡ r.mission_id
  pub not_revoked : g.revoked ≡ false
  pub not_expired : text_lt now g.expires_at ≡ true
  pub operation_allowed : contains g.allowed_operations r.operation ≡ true
  pub within_ceiling : roe_order r.roe_level ≤ roe_order g.roe_ceiling

pub grant_error-Covers :
    (now : String) (r : AuthorizationRequest) (g : DelegationGrant)
    → grant_error now r g ≡ none
    → Covers now r g
unfolding grant_error
grant_error-Covers now r g passed = record {
  same_subject = ground (arith, passed, eq_iff g.subject.subject r.principal.subject);
  same_mission = ground (arith, passed, eq_iff g.mission_id r.mission_id);
  not_revoked = ground (arith, passed);
  not_expired = ground (arith, passed);
  operation_allowed = ground (arith, passed);
  within_ceiling = ground (arith, passed);
}

Covers-grant_error :
    (now : String) (r : AuthorizationRequest) (g : DelegationGrant)
    → Covers now r g
    → grant_error now r g ≡ none
unfolding grant_error
Covers-grant_error now r g c = ground (
  arith,
  eq_iff g.subject.subject r.principal.subject,
  eq_iff g.mission_id r.mission_id,
  c.same_subject,
  c.same_mission,
  c.not_revoked,
  c.not_expired,
  c.operation_allowed,
  c.within_ceiling,
)

-- An authorized request passed every part of the ladder.
record Passed (p : AuthorizationPolicy) (now : String) (r : AuthorizationRequest) : Type 0 where
  pub named : is_empty r.principal.subject ≡ false
  pub delegated : delegation_error now r ≡ none
  pub cognition : cognition_error r ≡ none
  pub policy : policy_error p r ≡ none

or_else-none : (a b : Option String) → a or_else b ≡ none → (a ≡ none) × (b ≡ none)
or_else-none none b h = (refl, h)
or_else-none (some e) b h = absurd (ground (arith, h))

decide-Passed :
    (p : AuthorizationPolicy) (id now at : String) (r : AuthorizationRequest)
    → (decide p id now at r).decision ≡ allow
    → Passed p now r
unfolding decide evaluate
decide-Passed p id now at r allowed = elim (Bool-cases (is_empty r.principal.subject)) [
  | inl unnamed ↦ absurd (ground (arith, rw unnamed at allowed))
  | inr named ↦
      let rest : (delegation_error now r or_else cognition_error r or_else policy_error p r)
          ≡ none =
        go (delegation_error now r or_else cognition_error r or_else policy_error p r)
          (rw named at allowed) in
      let (first, more) = or_else-none (delegation_error now r) _ rest in
      let (second, third) = or_else-none (cognition_error r) _ more in
      record { named = named; delegated = first; cognition = second; policy = third }
]
  where
    go : (o : Option String) → verdict_of o ≡ allow → o ≡ none
    go none h = refl
    go (some e) h = absurd (ground (arith, h))

-- A workload that is authorized for anything but its assignment holds a grant of its own for that
-- Mission, which is not revoked, not expired, names the operation and reaches up to the level of
-- engagement of the request.
pub decide-delegated :
    (p : AuthorizationPolicy) (id now at : String) (r : AuthorizationRequest)
    → (decide p id now at r).decision ≡ allow
    → r.principal.type ≡ workload
    → r.operation ≢ "ASSIGN_AGENT"
    → (g : DelegationGrant) × (r.delegation ≡ some g) × Covers now r g
unfolding delegation_error held_grant_error
decide-delegated p id now at r allowed acts other =
    let passed = (decide-Passed p id now at r allowed).delegated in
    elim (Option-cases r.delegation) [
      | inl missing ↦
          absurd
            (ground (arith, eq_iff r.operation "ASSIGN_AGENT", other, rw (acts, missing) at passed))
      | inr (g, held) ↦ (
        g,
        held,
        grant_error-Covers now r g
            (ground (arith, eq_iff r.operation "ASSIGN_AGENT", other, rw (acts, held) at passed)),
      )
    ]

-- On a Mission that is CANCELLED or COMPLETED only two kinds of operation are authorized: a read
-- other than INVOKE_COGNITION, and REVOKE_DELEGATION by a human MISSION_OWNER.
pub decide-terminal :
    (p : AuthorizationPolicy) (id now at : String) (r : AuthorizationRequest)
    → (decide p id now at r).decision ≡ allow
    → is_terminal r.mission_status ≡ true
    → ((contains p.read_operations r.operation ≡ true) × (r.operation ≢ "INVOKE_COGNITION"))
      ⊎ ((r.operation ≡ "REVOKE_DELEGATION")
          × (r.principal.type ≡ human)
          × (has_any_role r.principal ("MISSION_OWNER" ∷ []) ≡ true))
unfolding cognition_error policy_error human_error
decide-terminal p id now at r allowed ended =
    let passed = decide-Passed p id now at r allowed in
    let quiet = passed.cognition in
    let ladder = passed.policy in
    elim (Bool-cases (contains p.read_operations r.operation)) [
      | inl reads ↦
          inl (
            reads,
            λ same. ground (arith, quiet, ended, eq_iff r.operation "INVOKE_COGNITION", same),
          )
      | inr writes ↦ inr (
        ground (arith, ladder, writes, ended, eq_iff r.operation "REVOKE_DELEGATION"),
        ground (arith, ladder, writes, ended),
        ground (arith, ladder, writes, ended),
      )
    ]

-- What an authorized operation with a side effect rests on.
pub data Grounds (p : AuthorizationPolicy) (r : AuthorizationRequest) : Type 0 where
  as_read :
      contains p.read_operations r.operation ≡ true → read_error p r.principal ≡ none → Grounds p r
  as_revocation :
      r.operation ≡ "REVOKE_DELEGATION"
      → r.principal.type ≡ human
      → has_any_role r.principal ("MISSION_OWNER" ∷ []) ≡ true
      → Grounds p r
  as_assignment :
      r.operation ≡ "ASSIGN_AGENT"
      → is_terminal r.mission_status ≡ false
      → r.principal.type ≡ human
      → has_any_role r.principal p.operator_roles ≡ true
      → Grounds p r
  as_delegation :
      r.operation ≡ "ISSUE_DELEGATION"
      → is_terminal r.mission_status ≡ false
      → r.principal.type ≡ human
      → has_any_role r.principal ("MISSION_OWNER" ∷ []) ≡ true
      → Grounds p r
  as_decision :
      r.operation ≡ "DECIDE_APPROVAL"
      → is_terminal r.mission_status ≡ false
      → has_any_role r.principal p.approver_roles ≡ true
      → Grounds p r
  as_action :
      is_terminal r.mission_status ≡ false
      → r.capability ≢ none
      → ((r.roe_level ≡ review) × (r.approval_present ≡ true)) ⊎ (r.roe_level ≡ bounded_autonomous)
      → Grounds p r

action-Grounds :
    (p : AuthorizationPolicy) (r : AuthorizationRequest)
    → r.side_effect_class ≢ "READ"
    → is_terminal r.mission_status ≡ false
    → operation_error p r ≡ none
    → Grounds p r
unfolding operation_error effect_error
action-Grounds p r effectful live passed =
    as_action live (ground (arith, passed, effectful, eq_iff r.side_effect_class "READ"))
      (ground (arith, passed, effectful, eq_iff r.side_effect_class "READ"))

live-Grounds :
    (p : AuthorizationPolicy) (r : AuthorizationRequest)
    → r.side_effect_class ≢ "READ"
    → is_terminal r.mission_status ≡ false
    → live_error p r ≡ none
    → Grounds p r
unfolding live_error human_error
live-Grounds p r effectful live passed = elim (Bool-cases (r.operation == "ASSIGN_AGENT")) [
  | inl assigns ↦
      as_assignment ((eq_iff r.operation "ASSIGN_AGENT").0 assigns) live
        (ground (arith, rw assigns at passed)) (ground (arith, rw assigns at passed))
  | inr other ↦ elim (Bool-cases (r.operation == "ISSUE_DELEGATION")) [
    | inl issues ↦
        as_delegation ((eq_iff r.operation "ISSUE_DELEGATION").0 issues) live
          (ground (arith, rw (other, issues) at passed))
          (ground (arith, rw (other, issues) at passed))
    | inr neither ↦ elim (Bool-cases (r.operation == "DECIDE_APPROVAL")) [
      | inl decides ↦
          as_decision ((eq_iff r.operation "DECIDE_APPROVAL").0 decides) live
            (ground (arith, rw (other, neither, decides) at passed))
      | inr plain ↦ action-Grounds p r effectful live (rw (other, neither, plain) at passed)
    ]
  ]
]

-- A request whose side-effect class is not READ is authorized only as one of these: an operation
-- that the policy lists as a read, by a workload or a human reader; REVOKE_DELEGATION by a human
-- MISSION_OWNER; or, on a Mission that is not terminal, ASSIGN_AGENT by a human operator,
-- ISSUE_DELEGATION by a human MISSION_OWNER, DECIDE_APPROVAL by an approver, or an operation for a
-- named capability, at the level REVIEW with an approval or at the level BOUNDED_AUTONOMOUS.
pub decide-Grounds :
    (p : AuthorizationPolicy) (id now at : String) (r : AuthorizationRequest)
    → (decide p id now at r).decision ≡ allow
    → r.side_effect_class ≢ "READ"
    → Grounds p r
unfolding policy_error human_error
decide-Grounds p id now at r allowed effectful =
    let passed = (decide-Passed p id now at r allowed).policy in
    elim (Bool-cases (contains p.read_operations r.operation)) [
      | inl reads ↦ as_read reads (ground (arith, rw reads at passed))
      | inr writes ↦ elim (Bool-cases (r.operation == "REVOKE_DELEGATION")) [
        | inl revokes ↦
            as_revocation ((eq_iff r.operation "REVOKE_DELEGATION").0 revokes)
              (ground (arith, rw (writes, revokes) at passed))
              (ground (arith, rw (writes, revokes) at passed))
        | inr other ↦ elim (Bool-cases (is_terminal r.mission_status)) [
          | inl ended ↦ absurd (ground (arith, rw (writes, other, ended) at passed))
          | inr live ↦ live-Grounds p r effectful live (rw (writes, other, live) at passed)
        ]
      ]
    ]
