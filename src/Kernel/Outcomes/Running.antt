-- ===== src/Kernel/Outcomes/Running.antt =====
-- What one accepted run of a command writes, from `accept` up to the whole of `submit_new`.
use pantheon_legion.Base.{
  text_eq, ◌+◌, ◌≡◌, ◌≢◌, refl, inl, inr, ap, ◌∙◌, String, Option, none, some, Option-cases,
  Bool-cases, arith, eqb, eqb_iff,
}
use pantheon_legion.Base.Dict.{lookup, insert, lookup-insert_self}
use pantheon_legion.Base.Json.{Fields}
use pantheon_legion.Kernel.Types.{Mission, CommandType, rejected, parse_command_type, CommandResult}
use pantheon_legion.Kernel.State.{
  World, Kernel, pair_eq, ok, ◌>>=◌, clock, put_mission, put_command, uuid4,
}
use pantheon_legion.Kernel.Lifecycle.{SetsStatus, SetsRules}
use pantheon_legion.Kernel.Journal.{Entry, reject, remember}
use pantheon_legion.Kernel.Journal.Step.{record_event_step, record_event_missing}
use pantheon_legion.Kernel.Command.{
  Submission, refuse, accept, conclude, guard_command, run_command, submit_new, requester, key_of,
  version_message, fingerprint, accepted_entry,
}
use pantheon_legion.Kernel.Command.Effects.{Change, refused, changed, apply_command}
use pantheon_legion.Kernel.Results.{bind-post}
use pantheon_legion.Kernel.Stable.{Quiet, OnApproval, Keeps-at}
use pantheon_legion.Kernel.Stable.Commands.{apply_command-Keeps}
use pantheon_legion.Kernel.Outcomes.{Returns, bind-Returns, bind_after-Returns, pure-Returns}
use pantheon_legion.Kernel.Outcomes.Effects.{Follows, apply_command-Follows}

-- The Mission as it is stored by an accepted command.
abbrev pub bumped : Mission → String → Mission
bumped m now = record m { version = m.version + 1; updated_at = now }

-- What `accept` writes.
pub record Stored (s : Submission) (m : Mission) (k : Kernel) (r : CommandResult) (k' : Kernel)
    : Type 0 where
  pub now : String
  pub missions : k'.missions ≡ insert m.id (bumped m now) k.missions
  pub side_effects : k'.side_effects ≡ k.side_effects
  pub reported : r.mission_version ≡ m.version + 1
  pub remembered : lookup (key_of s) k'.idempotency ≡ some (fingerprint s, r)

abbrev pub IsRejected : CommandResult → Type 0
IsRejected r = r.status ≡ rejected

abbrev pub SameMissions : Kernel → Kernel → Type 0
SameMissions k k' = (k'.missions ≡ k.missions) × (k'.side_effects ≡ k.side_effects)

pub SameMissions-Quiet : (k₀ : Kernel) → Quiet (SameMissions k₀)
SameMissions-Quiet k₀ = record {
  drawn = λ k u c n more h. h;
  command = λ k r h. h;
  event = λ k id earlier ev found s o h. h;
}

pub SameMissions-OnApproval : (k₀ : Kernel) → OnApproval (SameMissions k₀)
SameMissions-OnApproval k₀ = record { approval = λ k a h. h }

-- What an accepted command did to the Mission `m` that it was sent to.
pub record Ran (s : Submission) (m : Mission) (c : CommandType) (k : Kernel) (r : CommandResult)
    (k' : Kernel) : Type 0 where
  pub passed : guard_command s m c ≡ none
  pub next : Mission
  pub identity : next.id ≡ m.id
  pub version : next.version ≡ m.version + 1
  pub status : SetsStatus c m.status next.status
  pub rules : SetsRules c m.roe next.roe
  pub missions : k'.missions ≡ insert next.id next k.missions
  pub side_effects : k'.side_effects ≡ k.side_effects
  pub reported : r.mission_version ≡ next.version
  pub remembered : lookup (key_of s) k'.idempotency ≡ some (fingerprint s, r)

module _ (w : World) (s : Submission) where
  pub accept-Stored :
      (correlation id type : String) (approval : Option String) (extra : Fields) (m : Mission)
      → (k : Kernel) (r : CommandResult) (k' : Kernel)
      → accept w s correlation id type approval extra m k ≡ (ok r, k')
      → Stored s m k r k'
  unfolding accept clock put_mission put_command remember ◌>>=◌
  accept-Stored correlation id type approval extra m k r k' same =
      let now : String = w.now k.clocks in
      let k₁ : Kernel = record k {
        missions = insert m.id (bumped m now) k.missions;
        clocks = k.clocks + 1;
      } in
      let e : Entry = accepted_entry s correlation id type extra in
      elim (Option-cases (lookup m.id k.audit)) [
        | inl missing ↦
            absurd (ground (arith, record_event_missing w (bumped m now) e k₁ missing, same))
        | inr (earlier, found) ↦
            let (ev, u, c, step, next, more) =
              record_event_step w (bumped m now) e k₁ earlier found in
            record {
              now = now;
              missions = ground (arith, step, same);
              side_effects = ground (arith, step, same);
              reported = ground (arith, step, same);
              remembered =
                  let memory : k'.idempotency ≡ insert (key_of s) (fingerprint s, r) k.idempotency =
                    ground (arith, step, same) in
                  rw memory (lookup-insert_self (key_of s) (fingerprint s, r) k.idempotency);
            }
      ]

  pub reject-Returns :
      (m : Mission) (code message correlation : String) (id : Option String)
      → Returns IsRejected (reject w m s.actor code message correlation id)
  unfolding reject
  reject-Returns m code message correlation id = search (bind-Returns, pure-Returns) depth 8

  pub refuse-Returns :
      (m : Mission) (correlation id code message : String)
      → Returns IsRejected (refuse w s m correlation id code message)
  unfolding refuse
  refuse-Returns m correlation id code message =
      bind_after-Returns IsRejected _ _ (reject-Returns m code message correlation (some id))
        (λ r h. bind-Returns _ _ (λ done. pure-Returns r h))

  pub conclude-Ran :
      (m : Mission) (correlation id : String) (c : CommandType) (change : Change) (k k₁ : Kernel)
      → (r : CommandResult) (k' : Kernel) → guard_command s m c ≡ none
      → Follows c m change
      → SameMissions k k₁
      → conclude w s m correlation id change k₁ ≡ (ok r, k')
      → r.status ≢ rejected
      → Ran s m c k r k'
  unfolding conclude
  conclude-Ran m correlation id c (refused code message) k k₁ r k' pass f same' same ne =
      absurd (ne ((refuse-Returns m correlation id code message).at k₁ r k' same))
  conclude-Ran m correlation id c (changed n type approval extra) k k₁ r k' pass f same' same ne =
      let stored = accept-Stored correlation id type approval extra n k₁ r k' same in
      record {
        passed = pass;
        next = bumped n stored.now;
        identity = f.0;
        version = ap (λ v. v + 1) f.1;
        status = f.2;
        rules = f.3;
        missions = stored.missions ∙ ap (insert n.id (bumped n stored.now)) same'.0;
        side_effects = stored.side_effects ∙ same'.1;
        reported = stored.reported;
        remembered = stored.remembered;
      }

  pub run_command-Ran :
      (m : Mission) (correlation id : String) (c : CommandType) (k : Kernel) (r : CommandResult)
      → (k' : Kernel) → run_command w s m correlation id c k ≡ (ok r, k')
      → r.status ≢ rejected
      → Ran s m c k r k'
  unfolding run_command
  run_command-Ran m correlation id c k r k' same ne = elim (Option-cases (guard_command s m c)) [
    | inr (e, fail) ↦
        absurd (
          ne ((refuse-Returns m correlation id e.0 e.1).at k r k' (rw (fail, run_command) at same)))
    | inl pass ↦
        bind-post (λ x. (k' : Kernel) → x ≡ (ok r, k') → Ran s m c k r k')
          (apply_command w m s.actor (requester s) id c s.payload) (conclude w s m correlation id) k
          (λ e k₁ same₁ k₂ impossible. absurd (ground (arith, impossible)))
          (λ change k₁ same₁ k₂ same₂.
            conclude-Ran m correlation id c change k k₁ r k₂ pass
              ((apply_command-Follows w m s.actor (requester s) id c s.payload).at k change k₁
                same₁)
              (Keeps-at _ k (ok change) k₁
                (apply_command-Keeps (SameMissions-Quiet k) (SameMissions-OnApproval k) w m s.actor
                  (requester s) id c s.payload)
                (refl, refl) same₁)
              same₂ ne)
          k' (rw (pass, run_command) at same)
  ]

  pub submit_new-Ran :
      (m : Mission) (correlation : String) (k : Kernel) (r : CommandResult) (k' : Kernel)
      → submit_new w s m correlation k ≡ (ok r, k')
      → r.status ≢ rejected
      → (s.expected_version ≡ m.version)
        × (c : CommandType) × (parse_command_type s.command_type ≡ some c)
        × Ran s m c k r k'
  unfolding submit_new uuid4 ◌>>=◌
  submit_new-Ran m correlation k r k' same ne =
      elim (Bool-cases (eqb s.expected_version m.version)) [
        | inr conflict ↦ absurd (
            ne (
              (refuse-Returns m correlation _ "VERSION_CONFLICT" (version_message s m)).at _ r k'
                (rw conflict at same)))
        | inl expected ↦ elim (Option-cases (parse_command_type s.command_type)) [
          | inl unknown ↦ absurd (
              ne (
                (refuse-Returns m correlation _ "UNKNOWN_COMMAND_TYPE" _).at _ r k'
                  (rw (expected, unknown) at same)))
          | inr (c, known) ↦ (
            (eqb_iff s.expected_version m.version).0 expected,
            c,
            known,
            let k₁ : Kernel = record k { uuids = k.uuids + 1 } in
                let ran =
                  run_command-Ran m correlation (w.uuid k.uuids) c k₁ r k'
                    (rw (expected, known) at same) ne in
                record {
                  passed = ran.passed;
                  next = ran.next;
                  identity = ran.identity;
                  version = ran.version;
                  status = ran.status;
                  rules = ran.rules;
                  missions = ran.missions;
                  side_effects = ran.side_effects;
                  reported = ran.reported;
                  remembered = ran.remembered;
                },
          )
        ]
      ]
