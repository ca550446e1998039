-- ===== src/Kernel/Memory.antt =====
-- What an idempotency key stands for: a call that returns has its result remembered, and no later
-- call takes that back.
use pantheon_legion.Base.{
  text_eq, ℕ, ◌≤◌, ◌≡◌, ◌≢◌, sym, ◌∙◌, String, Bool, true, false, none, some, List, [], ◌∷◌, inl,
  inr, Bool-cases, Option-cases, arith, if◌then◌else◌,
}
use pantheon_legion.Base.Dict.{lookup, insert, lookup-insert_self, lookup-insert_ne}
use pantheon_legion.Base.Json.{Value}
use pantheon_legion.Kernel.Types.{Mission, CommandType, parse_command_type, CommandResult}
use pantheon_legion.Kernel.State.{
  World, Kernel, ok, raised, key_error, Exec, pure, pair_eq, ◌>>=◌, get_mission,
}
use pantheon_legion.Kernel.Journal.{remember}
use pantheon_legion.Kernel.Journal.Step.{or_uuid_step}
use pantheon_legion.Kernel.Command.Effects.{Change, changed, refused}
use pantheon_legion.Kernel.Command.{
  Submission, refuse, conclude, run_command, submit_new, submit_either, submit_command, key_of,
  fingerprint, guard_command,
}
use pantheon_legion.Kernel.Results.{bind-post}
use pantheon_legion.Kernel.Stable.{Quiet, OnMemory, OnApproval, OnMission, OnEffect}
use pantheon_legion.Kernel.Stable.Commands.{submit_again-Keeps, submit_command-Keeps}
use pantheon_legion.Kernel.Stable.Others.{
  decide_approval-Keeps, execute_action-Keeps, validate_action_execution-Keeps,
  reject_action_execution-Keeps, append_fact-Keeps, record_execution_authorization-Keeps,
}
use pantheon_legion.Kernel.Run.{
  Call, submit, decide, execute, validate, reject_execution, execution_authorization, fact, after,
  after_all,
}
use pantheon_legion.Kernel.Outcomes.Running.{accept-Stored}

-- Where `m` returns a result, that result is remembered for the command.
record Memorizes (s : Submission) (m : Exec CommandResult) : Type 0 where
  at :
      (k : Kernel) (r : CommandResult) (k' : Kernel)
      → m k ≡ (ok r, k')
      → lookup (key_of s) k'.idempotency ≡ some (fingerprint s, r)

bind-Memorizes :
    {A : Type 0} {s : Submission} (m : Exec A) (f : A → Exec CommandResult)
    → ((a : A) → Memorizes s (f a))
    → Memorizes s (m >>= f)
bind-Memorizes {s = s} m f hf = record {
  at = λ k r k' same.
      bind-post
        (λ x.
          (r : CommandResult) (k' : Kernel)
          → x ≡ (ok r, k')
          → lookup (key_of s) k'.idempotency ≡ some (fingerprint s, r))
        m f k (λ e k₁ same₁ b' k₂ impossible. absurd (ground (arith, impossible)))
        (λ a k₁ same₁ b' k₂ same₂. (hf a).at k₁ b' k₂ same₂) r k' same;
}

if-Memorizes :
    {s : Submission} (b : Bool) {m n : Exec CommandResult}
    → Memorizes s m
    → Memorizes s n
    → Memorizes s (if b then m else n)
if-Memorizes true hm hn = hm
if-Memorizes false hm hn = hn

module _ (w : World) (s : Submission) where
  remembers :
      (r : CommandResult) → Memorizes s (remember (key_of s) (fingerprint s) r >>= λ done. pure r)
  unfolding remember ◌>>=◌
  remembers r = record {
    at = λ k q k' same.
        let value : r ≡ q = ground (arith, same) in
        let memory : k'.idempotency ≡ insert (key_of s) (fingerprint s, r) k.idempotency =
          ground (arith, same) in
        rw (memory, ← value) (lookup-insert_self (key_of s) (fingerprint s, r) k.idempotency);
  }

  refuse-Memorizes :
      (m : Mission) (correlation id code message : String)
      → Memorizes s (refuse w s m correlation id code message)
  unfolding refuse
  refuse-Memorizes m correlation id code message = bind-Memorizes _ _ remembers

  conclude-Memorizes :
      (m : Mission) (correlation id : String) (c : Change)
      → Memorizes s (conclude w s m correlation id c)
  unfolding conclude
  conclude-Memorizes m correlation id (refused code message) =
      refuse-Memorizes m correlation id code message
  conclude-Memorizes m correlation id (changed next type approval extra) = record {
    at = λ k r k' same.
        (accept-Stored w s correlation id type approval extra next k r k' same).remembered;
  }

  run_command-Memorizes :
      (m : Mission) (correlation id : String) (c : CommandType)
      → Memorizes s (run_command w s m correlation id c)
  unfolding run_command
  run_command-Memorizes m correlation id c = elim (Option-cases (guard_command s m c)) [
    | inl pass ↦ rw (pass, run_command) (bind-Memorizes _ _ (conclude-Memorizes m correlation id))
    | inr (e, fail) ↦ rw (fail, run_command) (refuse-Memorizes m correlation id e.0 e.1)
  ]

  submit_new-Memorizes :
      (m : Mission) (correlation : String) → Memorizes s (submit_new w s m correlation)
  unfolding submit_new
  submit_new-Memorizes m correlation = elim (Option-cases (parse_command_type s.command_type)) [
    | inl unknown ↦ rw unknown (
        bind-Memorizes _ _ (λ id.
          if-Memorizes _ (refuse-Memorizes m correlation id _ _)
            (refuse-Memorizes m correlation id _ _)))
    | inr (c, known) ↦ rw known (
        bind-Memorizes _ _ (λ id.
          if-Memorizes _ (refuse-Memorizes m correlation id _ _)
            (run_command-Memorizes m correlation id c)))
  ]

-- A call that finds its Mission goes on with what its key stands for.
pub submit_command-goes :
    (w : World) (s : Submission) (k : Kernel) (m : Mission)
    → lookup s.mission_id k.missions ≡ some m
    → (correlation : String) × (n : ℕ) × (submit_command w s k
        ≡ submit_either w s m correlation
            (lookup (key_of s) k.idempotency)
            (record k { uuids = n }))
      × (k.uuids ≤ n)
unfolding submit_command get_mission ◌>>=◌
submit_command-goes w s k m found =
    let (correlation, n, drawn, more) = or_uuid_step w s.correlation_id k in
    (correlation, n, ground (arith, found, drawn), more)

pub submit_command-lost :
    (w : World) (s : Submission) (k : Kernel)
    → lookup s.mission_id k.missions ≡ none
    → submit_command w s k ≡ (raised (key_error s.mission_id), k)
unfolding submit_command get_mission ◌>>=◌
submit_command-lost w s k missing = rw missing

-- A first call that returns has its result remembered.
pub submit_command-Memorized :
    (w : World) (s : Submission) (k : Kernel) (r : CommandResult) (k' : Kernel)
    → lookup (key_of s) k.idempotency ≡ none
    → submit_command w s k ≡ (ok r, k')
    → lookup (key_of s) k'.idempotency ≡ some (fingerprint s, r)
unfolding submit_either
submit_command-Memorized w s k r k' unused same =
    elim (Option-cases (lookup s.mission_id k.missions)) [
      | inl missing ↦ absurd (ground (arith, submit_command-lost w s k missing, same))
      | inr (m, found) ↦
          let (correlation, n, goes, more) = submit_command-goes w s k m found in
          (submit_new-Memorizes w s m correlation).at (record k { uuids = n }) r k'
            (sym (rw unused at goes) ∙ same)
    ]

module _ (key : String × String) (v : Value × CommandResult) where
  abbrev pub Holds : Kernel → Type 0
  Holds k = lookup key k.idempotency ≡ some v

  Holds-Quiet : Quiet Holds
  Holds-Quiet = record {
    drawn = λ k u c n more h. h;
    command = λ k r h. h;
    event = λ k id earlier ev found s o h. h;
  }

  Holds-OnApproval : OnApproval Holds
  Holds-OnApproval = record { approval = λ k a h. h }

  Holds-OnMission : OnMission Holds
  Holds-OnMission = record { mission = λ k m h. h }

  Holds-OnEffect : OnEffect Holds
  Holds-OnEffect = record { side_effect = λ k id h. h }

  Holds-OnMemory : (other : String × String) → other ≢ key → OnMemory Holds other
  Holds-OnMemory other ne = record {
    memory = λ k u h. lookup-insert_ne other key u k.idempotency ne ∙ h;
  }

  module _ (w : World) where
    submit-Holds : (s : Submission) (k : Kernel) → Holds k → Holds (submit_command w s k).1
    unfolding submit_either
    submit-Holds s k h = elim (Bool-cases (pair_eq.same (key_of s) key)) [
      | inr other ↦
          (submit_command-Keeps Holds-Quiet Holds-OnApproval Holds-OnMission w s (
              Holds-OnMemory (key_of s)
                (λ is. ground (arith, other, (pair_eq.same_iff (key_of s) key).1 is)))).kept
            k h
      | inl is ↦
          let same : key_of s ≡ key = (pair_eq.same_iff (key_of s) key).0 is in
          elim (Option-cases (lookup s.mission_id k.missions)) [
            | inl missing ↦ rw (submit_command-lost w s k missing) h
            | inr (m, found) ↦
                let (correlation, n, goes, more) = submit_command-goes w s k m found in
                rw (goes, same, h)
                  ((submit_again-Keeps Holds-Quiet w s m correlation v).kept
                    (record k { uuids = n }) h)
          ]
    ]

    after-Holds : (c : Call) (k : Kernel) → Holds k → Holds (after w c k)
    unfolding after
    after-Holds (submit s) k h = submit-Holds s k h
    after-Holds (decide id by expected decision reason) k h =
        (decide_approval-Keeps Holds-Quiet Holds-OnApproval w id by expected decision reason).kept k
          h
    after-Holds (execute id action worker fails) k h =
        (execute_action-Keeps Holds-Quiet Holds-OnApproval Holds-OnMission Holds-OnEffect w id
            action worker fails).kept
          k h
    after-Holds (validate id action worker) k h =
        (validate_action_execution-Keeps Holds-Quiet Holds-OnApproval w id action worker).kept k h
    after-Holds (reject_execution id action worker code) k h =
        (reject_action_execution-Keeps Holds-Quiet Holds-OnApproval w id action worker code).kept k
          h
    after-Holds (execution_authorization id action worker d delegation) k h =
        (record_execution_authorization-Keeps Holds-Quiet w id action worker d delegation).kept k h
    after-Holds (fact id e) k h = (append_fact-Keeps Holds-Quiet w id e).kept k h

    pub after_all-Holds : (cs : List Call) (k : Kernel) → Holds k → Holds (after_all w cs k)
    unfolding after_all
    after_all-Holds [] k h = h
    after_all-Holds (c ∷ cs) k h = after_all-Holds cs (after w c k) (after-Holds c k h)
