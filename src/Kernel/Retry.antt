-- ===== src/Kernel/Retry.antt =====
-- A retried command: the same call once more, after the first returned and whatever calls were made
-- in between; and another command under the same key.
use pantheon_legion.Base.{
  text_eq, ℕ, ◌≡◌, refl, sym, ◌∙◌, String, ◌==◌, false, Option, none, some, List, inl, inr,
  Bool-cases, Option-cases, arith,
}
use pantheon_legion.Base.Dict.{lookup, lookup-insert}
use pantheon_legion.Base.Json.{value_eq, value_eq_refl}
use pantheon_legion.Kernel.Types.{Principal, Mission, CommandResult, rejected}
use pantheon_legion.Kernel.State.{World, Kernel, ok, pair_eq}
use pantheon_legion.Kernel.Journal.{reject}
use pantheon_legion.Kernel.Command.{
  Submission, submit_again, submit_either, submit_command, key_of, fingerprint,
}
use pantheon_legion.Kernel.Stable.{Stable, Keeps-at}
use pantheon_legion.Kernel.Stable.Commands.{submit_again-Keeps, submit_command-Keeps}
use pantheon_legion.Kernel.Run.{Call, after_all, after_all-stable}
use pantheon_legion.Kernel.Outcomes.{Untouched, Returns, bind-Returns, pure-Returns}
use pantheon_legion.Kernel.Outcomes.Effects.{Untouched-Quiet}
use pantheon_legion.Kernel.Memory.{
  submit_command-goes, submit_command-lost, submit_command-Memorized, after_all-Holds,
}

abbrev HasMission : String → Kernel → Type 0
HasMission id k = (m : Mission) × (lookup id k.missions ≡ some m)

HasMission-Stable : (id : String) → Stable (HasMission id)
HasMission-Stable id = record {
  quiet = record {
    drawn = λ k u c n more h. h;
    command = λ k r h. h;
    event = λ k j earlier ev found s o h. h;
  };
  memories = λ key. record { memory = λ k v h. h };
  approvals = record { approval = λ k a h. h };
  missions = record {
    mission = λ k m h. elim (Bool-cases (m.id == id)) [
      | inl same ↦ (m, ground (arith, same, lookup-insert m.id id m k.missions))
      | inr other ↦ (h.0, ground (arith, other, h.1, lookup-insert m.id id m k.missions))
    ];
  };
  effects = record { side_effect = λ k j h. h };
}

submitted-HasMission :
    (w : World) (s : Submission) (k : Kernel) (r : CommandResult) (k' : Kernel)
    → submit_command w s k ≡ (ok r, k')
    → HasMission s.mission_id k'
submitted-HasMission w s k r k' same = elim (Option-cases (lookup s.mission_id k.missions)) [
  | inl missing ↦ absurd (ground (arith, submit_command-lost w s k missing, same))
  | inr (m, found) ↦
      Keeps-at (submit_command w s) k (ok r) k'
        (submit_command-Keeps S.quiet S.approvals S.missions w s (S.memories (key_of s))) (m, found)
        same
]
  where
    S : Stable (HasMission s.mission_id)
    S = HasMission-Stable s.mission_id

-- A command that came back with a result, accepted or rejected, under an idempotency key that was
-- not used before, and that is sent again after any calls in between, comes back with the very
-- result, and the second call changes nothing but the count of drawn ids.
pub submit_command-replay :
    (w : World) (s : Submission) (cs : List Call) (k : Kernel) (r : CommandResult) (k' : Kernel)
    → lookup (key_of s) k.idempotency ≡ none
    → submit_command w s k ≡ (ok r, k')
    → (n : ℕ) × (submit_command w s (after_all w cs k')
        ≡ (ok r, record (after_all w cs k') { uuids = n }))
unfolding submit_either submit_again
submit_command-replay w s cs k r k' unused same =
    let held =
      after_all-Holds (key_of s) (fingerprint s, r) w cs k'
        (submit_command-Memorized w s k r k' unused same) in
    let (m, found) =
      after_all-stable (HasMission-Stable s.mission_id) w cs k'
        (submitted-HasMission w s k r k' same) in
    let (correlation, n, goes, more) = submit_command-goes w s (after_all w cs k') m found in
    (n, rw held at goes ∙ rw (value_eq_refl (fingerprint s)) refl)

reject-Returns :
    (w : World) (m : Mission) (by : Principal) (code message correlation : String)
    (id : Option String)
    → Returns
        (λ q. (q.status ≡ rejected) × (q.error_code ≡ some code))
        (reject w m by code message correlation id)
unfolding reject
reject-Returns w m by code message correlation id =
    bind-Returns _ _
      (λ e. bind-Returns _ _ (λ i. bind-Returns _ _ (λ put. pure-Returns _ (refl, refl))))

refused_again-Returns :
    (w : World) (s t : Submission) (r : CommandResult) (m : Mission) (correlation : String)
    → value_eq (fingerprint s) (fingerprint t) ≡ false
    → Returns
        (λ q. (q.status ≡ rejected) × (q.error_code ≡ some "IDEMPOTENCY_KEY_REUSE"))
        (submit_again w t m correlation (fingerprint s, r))
unfolding submit_again
refused_again-Returns w s t r m correlation other =
    rw other (reject-Returns w m t.actor _ _ correlation none)

-- Behind a command that came back with a result under an idempotency key that was not used before,
-- and any calls in between, a command to the same Mission under the same key with another
-- fingerprint is REJECTED with IDEMPOTENCY_KEY_REUSE where it comes back with a result, and leaves
-- all Missions, approvals and side effects as they were.
pub submit_command-reuse :
    (w : World) (s t : Submission) (cs : List Call) (k : Kernel) (r q : CommandResult)
    (k' k'' : Kernel)
    → lookup (key_of s) k.idempotency ≡ none
    → submit_command w s k ≡ (ok r, k')
    → key_of t ≡ key_of s
    → value_eq (fingerprint s) (fingerprint t) ≡ false
    → submit_command w t (after_all w cs k') ≡ (ok q, k'')
    → (q.status ≡ rejected)
      × (q.error_code ≡ some "IDEMPOTENCY_KEY_REUSE")
      × Untouched (after_all w cs k') k''
unfolding submit_either
submit_command-reuse w s t cs k r q k' k'' unused same one other same' =
    let k₁ = after_all w cs k' in
    let held =
      after_all-Holds (key_of s) (fingerprint s, r) w cs k'
        (submit_command-Memorized w s k r k' unused same) in
    elim (Option-cases (lookup t.mission_id k₁.missions)) [
      | inl missing ↦ absurd (ground (arith, submit_command-lost w t k₁ missing, same'))
      | inr (m, found) ↦
          let (correlation, n, goes, more) = submit_command-goes w t k₁ m found in
          let ran : submit_again w t m correlation (fingerprint s, r) (record k₁ { uuids = n })
              ≡ (ok q, k'') =
            sym (rw (one, held) at goes) ∙ same' in
          let (status, code) =
            (refused_again-Returns w s t r m correlation other).at (record k₁ { uuids = n }) q k''
              ran in
          (
            status,
            code,
            Keeps-at (submit_again w t m correlation (fingerprint s, r)) (record k₁ { uuids = n })
                (ok q) k''
                (submit_again-Keeps (Untouched-Quiet k₁) w t m correlation (fingerprint s, r))
                (record { missions = refl; approvals = refl; side_effects = refl }) ran,
          )
    ]
