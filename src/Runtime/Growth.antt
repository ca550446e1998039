-- ===== src/Runtime/Growth.antt =====
-- How the tables change under any calls: rows only move on to later versions, and the lists of
-- results, references, events and remembered keys only grow at their end.
use pantheon_legion.Base.{
  ℕ, ◌<◌, ◌≡◌, refl, ◌∙◌, ap, String, ◌==◌, Option, none, some, List, ◌⊎◌, inl, inr, Bool-cases,
  arith, eq_iff, text_eq,
}
use pantheon_legion.Base.Dict.{Dict, lookup, insert, lookup-insert, lookup-insert_self}
use pantheon_legion.Base.Lists.{StartsWith, StartsWith-refl, StartsWith-snoc}
use pantheon_legion.Runtime.Agent.{AgentIdentity}
use pantheon_legion.Runtime.Store.{Ports, Tables}
use pantheon_legion.Runtime.Stable.{
  Stable, IsNext, assignment_version, checkpoint_revision, binding_version, item_version,
  attempt_version,
}
use pantheon_legion.Runtime.Run.{Call, run, run-Stable}

-- Each row of `d` is in `e` too, the same or in a later version.
abbrev pub IsLater : {A : Type 0} → (A → ℕ) → Dict String A → Dict String A → Type 0
IsLater {A} version d e =
    (id : String) (a : A)
    → lookup id d ≡ some a
    → (b : A) × (lookup id e ≡ some b) × ((b ≡ a) ⊎ (version a < version b))

module _ {A : Type 0} (version : A → ℕ) where
  IsLater-refl : (d : Dict String A) → IsLater version d d
  IsLater-refl d id a h = (a, h, inl refl)

  later_version :
      (new : A) (old : Option A) (a b : A)
      → IsNext version new old
      → old ≡ some b
      → (b ≡ a) ⊎ (version a < version b)
      → version a < version new
  later_version new old a b (inl missing) found cmp = absurd (ground (arith, missing, found))
  later_version new old a b (inr (c, there, next)) found cmp =
      let same : c ≡ b = ground (arith, there, found) in
      let count : version c ≡ version b = ap version same in
      elim cmp [
        | inl e ↦ omega (arith, next, count, ap version e)
        | inr l ↦ omega (arith, next, count, l)
      ]

  IsLater-insert :
      (k : String) (new : A) (d e : Dict String A)
      → IsNext version new (lookup k e)
      → IsLater version d e
      → IsLater version d (insert k new e)
  IsLater-insert k new d e next later id a h =
      let (b, found, cmp) = later id a h in
      elim (Bool-cases (k == id)) [
        | inl y ↦
            let same : k ≡ id = (eq_iff k id).0 y in
            (
              new,
              rw (← same) (lookup-insert_self k new e),
              inr (later_version new (lookup k e) a b next (ap (λ i. lookup i e) same ∙ found) cmp),
            )
        | inr n ↦ (b, ground (arith, lookup-insert k id new e, n, found), cmp)
      ]

-- How `t` may follow `s`.
pub record Advances (s t : Tables) : Type 0 where
  pub agents :
      (id : String) (a : AgentIdentity) → lookup id s.agents ≡ some a → lookup id t.agents ≡ some a
  pub assignments : IsLater assignment_version s.assignments t.assignments
  pub checkpoints : IsLater checkpoint_revision s.checkpoints t.checkpoints
  pub bindings : IsLater binding_version s.bindings t.bindings
  pub work_items : IsLater item_version s.work_items t.work_items
  pub work_attempts : IsLater attempt_version s.work_attempts t.work_attempts
  pub work_results : StartsWith s.work_results t.work_results
  pub evidence_references : StartsWith s.evidence_references t.evidence_references
  pub events : StartsWith s.events t.events
  pub idempotency : StartsWith s.idempotency t.idempotency

Advances-refl : (s : Tables) → Advances s s
Advances-refl s = record {
  agents = λ id a h. h;
  assignments = IsLater-refl assignment_version _;
  checkpoints = IsLater-refl checkpoint_revision _;
  bindings = IsLater-refl binding_version _;
  work_items = IsLater-refl item_version _;
  work_attempts = IsLater-refl attempt_version _;
  work_results = StartsWith-refl _;
  evidence_references = StartsWith-refl _;
  events = StartsWith-refl _;
  idempotency = StartsWith-refl _;
}

new_agent-stays :
    (d : Dict String AgentIdentity) (a b : AgentIdentity) (id : String)
    → lookup a.agent_id d ≡ none
    → lookup id d ≡ some b
    → lookup id (insert a.agent_id a d) ≡ some b
new_agent-stays d a b id new h = elim (Bool-cases (a.agent_id == id)) [
  | inl y ↦
      let same : a.agent_id ≡ id = (eq_iff a.agent_id id).0 y in
      let missing : lookup id d ≡ none = rw same at new in absurd (ground (arith, missing, h))
  | inr n ↦ ground (arith, lookup-insert a.agent_id id a d, n, h)
]

Advances-Stable : (s₀ : Tables) → Stable (Advances s₀)
Advances-Stable s₀ = record {
  drawn = λ s i c h. record {
    agents = h.agents;
    assignments = h.assignments;
    checkpoints = h.checkpoints;
    bindings = h.bindings;
    work_items = h.work_items;
    work_attempts = h.work_attempts;
    work_results = h.work_results;
    evidence_references = h.evidence_references;
    events = h.events;
    idempotency = h.idempotency;
  };
  agent = λ s a new h. record {
    agents = λ id b old. new_agent-stays s.agents a b id new (h.agents id b old);
    assignments = h.assignments;
    checkpoints = h.checkpoints;
    bindings = h.bindings;
    work_items = h.work_items;
    work_attempts = h.work_attempts;
    work_results = h.work_results;
    evidence_references = h.evidence_references;
    events = h.events;
    idempotency = h.idempotency;
  };
  assignment = λ s a next alone h. record {
    agents = h.agents;
    assignments = IsLater-insert assignment_version _ a _ _ next h.assignments;
    checkpoints = h.checkpoints;
    bindings = h.bindings;
    work_items = h.work_items;
    work_attempts = h.work_attempts;
    work_results = h.work_results;
    evidence_references = h.evidence_references;
    events = h.events;
    idempotency = h.idempotency;
  };
  checkpoint = λ s a next h. record {
    agents = h.agents;
    assignments = h.assignments;
    checkpoints = IsLater-insert checkpoint_revision _ a _ _ next h.checkpoints;
    bindings = h.bindings;
    work_items = h.work_items;
    work_attempts = h.work_attempts;
    work_results = h.work_results;
    evidence_references = h.evidence_references;
    events = h.events;
    idempotency = h.idempotency;
  };
  binding = λ s a next alone h. record {
    agents = h.agents;
    assignments = h.assignments;
    checkpoints = h.checkpoints;
    bindings = IsLater-insert binding_version _ a _ _ next h.bindings;
    work_items = h.work_items;
    work_attempts = h.work_attempts;
    work_results = h.work_results;
    evidence_references = h.evidence_references;
    events = h.events;
    idempotency = h.idempotency;
  };
  work_item = λ s a next h. record {
    agents = h.agents;
    assignments = h.assignments;
    checkpoints = h.checkpoints;
    bindings = h.bindings;
    work_items = IsLater-insert item_version _ a _ _ next h.work_items;
    work_attempts = h.work_attempts;
    work_results = h.work_results;
    evidence_references = h.evidence_references;
    events = h.events;
    idempotency = h.idempotency;
  };
  work_attempt = λ s a next alone h. record {
    agents = h.agents;
    assignments = h.assignments;
    checkpoints = h.checkpoints;
    bindings = h.bindings;
    work_items = h.work_items;
    work_attempts = IsLater-insert attempt_version _ a _ _ next h.work_attempts;
    work_results = h.work_results;
    evidence_references = h.evidence_references;
    events = h.events;
    idempotency = h.idempotency;
  };
  work_result = λ s a new h. record {
    agents = h.agents;
    assignments = h.assignments;
    checkpoints = h.checkpoints;
    bindings = h.bindings;
    work_items = h.work_items;
    work_attempts = h.work_attempts;
    work_results = StartsWith-snoc _ _ a h.work_results;
    evidence_references = h.evidence_references;
    events = h.events;
    idempotency = h.idempotency;
  };
  reference = λ s a h. record {
    agents = h.agents;
    assignments = h.assignments;
    checkpoints = h.checkpoints;
    bindings = h.bindings;
    work_items = h.work_items;
    work_attempts = h.work_attempts;
    work_results = h.work_results;
    evidence_references = StartsWith-snoc _ _ a h.evidence_references;
    events = h.events;
    idempotency = h.idempotency;
  };
  event = λ s a same h. record {
    agents = h.agents;
    assignments = h.assignments;
    checkpoints = h.checkpoints;
    bindings = h.bindings;
    work_items = h.work_items;
    work_attempts = h.work_attempts;
    work_results = h.work_results;
    evidence_references = h.evidence_references;
    events = StartsWith-snoc _ _ a h.events;
    idempotency = h.idempotency;
  };
  memory = λ s a new h. record {
    agents = h.agents;
    assignments = h.assignments;
    checkpoints = h.checkpoints;
    bindings = h.bindings;
    work_items = h.work_items;
    work_attempts = h.work_attempts;
    work_results = h.work_results;
    evidence_references = h.evidence_references;
    events = h.events;
    idempotency = StartsWith-snoc _ _ a h.idempotency;
  };
}

-- After any sequence of calls and of transactions of calls, returned or raised: an agent's row is
-- as it was, every assignment, checkpoint, binding, work item and attempt is there unchanged or in
-- a later version, and results, references, events and remembered keys were only added at the end.
pub run-Advances : (p : Ports) (cs : List Call) (s : Tables) → Advances s (run p cs s)
run-Advances p cs s = run-Stable (Advances-Stable s) p cs s (Advances-refl s)
