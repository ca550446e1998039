-- ===== src/Kernel/Outcomes/Acceptance.antt =====
-- A command that is accepted passed every guard, against the version that it expected, and moved
-- its Mission by one version and one edge of the life cycle.
use pantheon_legion.Base.{
  text_eq, ℕ, ◌+◌, ◌≡◌, ◌≢◌, inl, inr, ap, sym, ◌∙◌, String, none, some, Option-cases, arith,
}
use pantheon_legion.Base.Dict.{lookup, insert, lookup-insert_self, lookup-insert_ne}
use pantheon_legion.Kernel.Types.{Mission, CommandType, rejected, parse_command_type, CommandResult}
use pantheon_legion.Kernel.State.{World, Kernel, pair_eq, ok, raised, key_error, ◌>>=◌, get_mission}
use pantheon_legion.Kernel.Lifecycle.{SetsStatus, SetsRules}
use pantheon_legion.Kernel.Journal.Step.{or_uuid_step}
use pantheon_legion.Kernel.Command.{
  Submission, guard_command, submit_new, submit_either, submit_command, key_of, fingerprint,
}
use pantheon_legion.Kernel.Keyed.{IsKeyed}
use pantheon_legion.Kernel.Outcomes.Running.{submit_new-Ran}

-- The whole of what an accepted command says of the state before and behind it.
pub record Accepted (s : Submission) (k : Kernel) (r : CommandResult) (k' : Kernel) : Type 0 where
  pub mission : Mission
  pub next : Mission
  pub command : CommandType
  pub found : lookup s.mission_id k.missions ≡ some mission
  pub expected : s.expected_version ≡ mission.version
  pub known : parse_command_type s.command_type ≡ some command
  pub passed : guard_command s mission command ≡ none
  pub stored : lookup s.mission_id k'.missions ≡ some next
  pub version : next.version ≡ mission.version + 1
  pub status : SetsStatus command mission.status next.status
  pub rules : SetsRules command mission.roe next.roe
  pub reported : r.mission_version ≡ next.version
  pub remembered : lookup (key_of s) k'.idempotency ≡ some (fingerprint s, r)
  pub side_effects : k'.side_effects ≡ k.side_effects
  pub others : (id : String) → s.mission_id ≢ id → lookup id k'.missions ≡ lookup id k.missions

-- A call that finds its Mission and an unused idempotency key goes on to `submit_new`.
submit_command-new :
    (w : World) (s : Submission) (k : Kernel) (m : Mission)
    → lookup s.mission_id k.missions ≡ some m
    → lookup (key_of s) k.idempotency ≡ none
    → (correlation : String) × (n : ℕ) × (submit_command w s k
        ≡ submit_new w s m correlation (record k { uuids = n }))
unfolding submit_command submit_either get_mission ◌>>=◌
submit_command-new w s k m found unused =
    let (correlation, n, drawn, more) = or_uuid_step w s.correlation_id k in
    (correlation, n, ground (arith, found, unused, drawn))

submit_command-missing :
    (w : World) (s : Submission) (k : Kernel)
    → lookup s.mission_id k.missions ≡ none
    → submit_command w s k ≡ (raised (key_error s.mission_id), k)
unfolding submit_command get_mission ◌>>=◌
submit_command-missing w s k missing = rw missing

-- In a state in which every Mission is stored under its own id, a command whose idempotency key is
-- not used, and that returns a status other than REJECTED, was sent with the Mission's current version,
-- was of a known type and passed the payload check, the authorization and the transition table.
-- It left the Mission in exactly the next version, in the status that the command stands for, with
-- its rules of engagement changed only by SET_ROE, and all other Missions and all side effects as
-- they were; the result tells the new version and is remembered under the idempotency key.
pub submit_command-Accepted :
    (w : World) (s : Submission) (k : Kernel) (r : CommandResult) (k' : Kernel)
    → IsKeyed k
    → lookup (key_of s) k.idempotency ≡ none
    → submit_command w s k ≡ (ok r, k')
    → r.status ≢ rejected
    → Accepted s k r k'
submit_command-Accepted w s k r k' keyed unused same ne =
    elim (Option-cases (lookup s.mission_id k.missions)) [
      | inl missing ↦ absurd (ground (arith, submit_command-missing w s k missing, same))
      | inr (m, found) ↦
          let (correlation, n, goes) = submit_command-new w s k m found unused in
          let (expected, c, known, ran) =
            submit_new-Ran w s m correlation (record k { uuids = n }) r k' (sym goes ∙ same) ne in
          let own : ran.next.id ≡ s.mission_id = ran.identity ∙ keyed.keyed s.mission_id m found in
          let written : k'.missions ≡ insert s.mission_id ran.next k.missions =
            ran.missions ∙ ap (λ id. insert id ran.next k.missions) own in
          record {
            mission = m;
            next = ran.next;
            command = c;
            found = found;
            expected = expected;
            known = known;
            passed = ran.passed;
            stored = rw written (lookup-insert_self s.mission_id ran.next k.missions);
            version = ran.version;
            status = ran.status;
            rules = ran.rules;
            reported = ran.reported;
            remembered = ran.remembered;
            side_effects = ran.side_effects;
            others =
                λ id other. rw written (lookup-insert_ne s.mission_id id ran.next k.missions other);
          }
    ]
