-- ===== src/Kernel/Outcomes/Diagram.antt =====
-- What follows from an acceptance: the documented life cycle, and that of two commands which
-- expected the same version only one is accepted.
use pantheon_legion.Base.{
  text_eq, ◌≡◌, ◌≢◌, ◌⊎◌, refl, sym, ap, ◌∙◌, inl, inr, true, false, none, some, List, [], ◌∷◌,
  Bool-cases, arith,
}
use mathlib.Core.Path.{subst}
use pantheon_legion.Base.Dict.{lookup}
use pantheon_legion.Kernel.Types.{
  Mission, MissionStatus, draft, active, paused, awaiting_approval, suspended, completed, cancelled,
  failed, status_in, CommandType, parse_command_type, update_objective, add_constraint,
  remove_constraint, set_roe, add_participant, remove_participant, start, pause, suspend, resume,
  request_action, request_investigation, cancel, complete, CommandStatus, rejected, accepted,
  awaiting, CommandResult,
}
use pantheon_legion.Kernel.State.{World, Kernel, Result, pair_eq, ok}
use pantheon_legion.Kernel.Rules.{validate_transition, allowed_from}
use pantheon_legion.Kernel.Lifecycle.{
  IsOpen, open_draft, open_active, open_paused, open_awaiting, open_suspended, Configures,
  objective, constrains, relaxes, rules, joins, leaves, Documented, starts, pauses, suspends_active,
  suspends_paused, suspends_awaiting, resumes_paused, resumes_suspended, retries, acts, awaits,
  investigates, cancels, completes, configures, FromFailed, cancels_failed, configures_failed,
  SetsStatus,
}
use pantheon_legion.Kernel.Command.{Submission, submit_command, guard_command, key_of}
use pantheon_legion.Kernel.Keyed.{IsKeyed, after_all-IsKeyed}
use pantheon_legion.Kernel.Run.{submit, after, after_all}
use pantheon_legion.Kernel.Outcomes.Acceptance.{submit_command-Accepted}

-- A Mission that is not COMPLETED or CANCELLED is open or FAILED.
IsOpen-or_failed :
    (s : MissionStatus) → status_in s (completed ∷ cancelled ∷ []) ≡ false → IsOpen s ⊎ (s ≡ failed)
IsOpen-or_failed draft h = inl open_draft
IsOpen-or_failed active h = inl open_active
IsOpen-or_failed paused h = inl open_paused
IsOpen-or_failed awaiting_approval h = inl open_awaiting
IsOpen-or_failed suspended h = inl open_suspended
IsOpen-or_failed failed h = inr refl
IsOpen-or_failed completed h = absurd (ground (arith, h))
IsOpen-or_failed cancelled h = absurd (ground (arith, h))

start_of : (s : MissionStatus) → status_in s (draft ∷ []) ≡ true → Documented start s active
start_of draft h = starts
start_of active h = absurd (ground (arith, h))
start_of paused h = absurd (ground (arith, h))
start_of awaiting_approval h = absurd (ground (arith, h))
start_of suspended h = absurd (ground (arith, h))
start_of completed h = absurd (ground (arith, h))
start_of cancelled h = absurd (ground (arith, h))
start_of failed h = absurd (ground (arith, h))

active_of : (s : MissionStatus) → status_in s (active ∷ []) ≡ true → s ≡ active
active_of draft h = absurd (ground (arith, h))
active_of active h = refl
active_of paused h = absurd (ground (arith, h))
active_of awaiting_approval h = absurd (ground (arith, h))
active_of suspended h = absurd (ground (arith, h))
active_of completed h = absurd (ground (arith, h))
active_of cancelled h = absurd (ground (arith, h))
active_of failed h = absurd (ground (arith, h))

suspend_of :
    (s : MissionStatus)
    → status_in s (active ∷ paused ∷ awaiting_approval ∷ []) ≡ true
    → Documented suspend s suspended
suspend_of draft h = absurd (ground (arith, h))
suspend_of active h = suspends_active
suspend_of paused h = suspends_paused
suspend_of awaiting_approval h = suspends_awaiting
suspend_of suspended h = absurd (ground (arith, h))
suspend_of completed h = absurd (ground (arith, h))
suspend_of cancelled h = absurd (ground (arith, h))
suspend_of failed h = absurd (ground (arith, h))

resume_of :
    (s : MissionStatus)
    → status_in s (paused ∷ suspended ∷ failed ∷ []) ≡ true
    → Documented resume s active
resume_of draft h = absurd (ground (arith, h))
resume_of active h = absurd (ground (arith, h))
resume_of paused h = resumes_paused
resume_of awaiting_approval h = absurd (ground (arith, h))
resume_of suspended h = resumes_suspended
resume_of completed h = absurd (ground (arith, h))
resume_of cancelled h = absurd (ground (arith, h))
resume_of failed h = retries

-- What `_validate_transition` lets pass.
validate_transition-passed :
    (s : MissionStatus) (c : CommandType)
    → validate_transition s c ≡ none
    → (status_in s (completed ∷ cancelled ∷ []) ≡ false)
      × ((from : List MissionStatus) → allowed_from c ≡ some from → status_in s from ≡ true)
unfolding validate_transition
validate_transition-passed s c passed = (
  ground (arith, passed),
  λ from listed.
      let inside = rw listed at passed in
      elim (Bool-cases (status_in s (completed ∷ cancelled ∷ []))) [
        | inl ended ↦ absurd (ground (arith, ended, inside))
        | inr live ↦ ground (arith, live, inside)
      ],
)

-- A status that stays, or is cancelled
configured :
    (c : CommandType) (s : MissionStatus)
    → Configures c
    → IsOpen s ⊎ (s ≡ failed)
    → Documented c s s ⊎ FromFailed c s s
configured c s h (inl live) = inl (configures h live)
configured c s h (inr is) = inr (subst (λ v. FromFailed c v v) (sym is) (configures_failed h))

abandoned :
    (s : MissionStatus)
    → IsOpen s ⊎ (s ≡ failed)
    → Documented cancel s cancelled ⊎ FromFailed cancel s cancelled
abandoned s (inl live) = inl (cancels live)
abandoned s (inr is) = inr (subst (λ v. FromFailed cancel v cancelled) (sym is) cancels_failed)

-- A command that passes does what is documented, or what the code adds for a FAILED Mission.
validate_transition-edge :
    (s t : MissionStatus) (c : CommandType)
    → validate_transition s c ≡ none
    → SetsStatus c s t
    → Documented c s t ⊎ FromFailed c s t
validate_transition-edge s t c passed sets =
    let (live, from) = validate_transition-passed s c passed in
    go c (IsOpen-or_failed s live) from sets
  where
    to :
        (c : CommandType) (u : MissionStatus)
        → t ≡ u
        → Documented c s u ⊎ FromFailed c s u
        → Documented c s t ⊎ FromFailed c s t
    to c u is edge = subst (λ v. Documented c s v ⊎ FromFailed c s v) (sym is) edge

    from_active :
        (c : CommandType) (u : MissionStatus)
        → status_in s (active ∷ []) ≡ true
        → Documented c active u
        → Documented c s u ⊎ FromFailed c s u
    from_active c u inside edge =
        inl (subst (λ v. Documented c v u) (sym (active_of s inside)) edge)

    go :
        (c : CommandType)
        → IsOpen s ⊎ (s ≡ failed)
        → ((from : List MissionStatus) → allowed_from c ≡ some from → status_in s from ≡ true)
        → SetsStatus c s t
        → Documented c s t ⊎ FromFailed c s t
    go update_objective live from is = to _ s is (configured _ s objective live)
    go add_constraint live from is = to _ s is (configured _ s constrains live)
    go remove_constraint live from is = to _ s is (configured _ s relaxes live)
    go set_roe live from is = to _ s is (configured _ s rules live)
    go add_participant live from is = to _ s is (configured _ s joins live)
    go remove_participant live from is = to _ s is (configured _ s leaves live)
    go request_investigation live from is =
        let at : s ≡ active = active_of s (from _ refl) in
        to _ active (is ∙ at) (from_active _ active (from _ refl) investigates)
    go start live from is = to _ active is (inl (start_of s (from _ refl)))
    go pause live from is = to _ paused is (from_active _ paused (from _ refl) pauses)
    go suspend live from is = to _ suspended is (inl (suspend_of s (from _ refl)))
    go resume live from is = to _ active is (inl (resume_of s (from _ refl)))
    go cancel live from is = to _ cancelled is (abandoned s live)
    go complete live from is = to _ completed is (from_active _ completed (from _ refl) completes)
    go request_action live from (inl is) =
        let at : s ≡ active = active_of s (from _ refl) in
        to _ active (is ∙ at) (from_active _ active (from _ refl) acts)
    go request_action live from (inr is) =
        to _ awaiting_approval is (from_active _ awaiting_approval (from _ refl) awaits)

-- A command that passes every guard passes the table of transitions.
guard_command-transition :
    (s : Submission) (m : Mission) (c : CommandType)
    → guard_command s m c ≡ none
    → validate_transition m.status c ≡ none
unfolding guard_command
guard_command-transition s m c passed = ground (arith, passed)

-- In a state in which every Mission is stored under its own id, a command whose idempotency key is
-- not used, and that returns a status other than REJECTED, moves the status of its Mission as the
-- documents say that the command does, but for two things: a FAILED Mission can be cancelled, and it
-- can be configured and stays FAILED.
pub submit_command-edge :
    (w : World) (s : Submission) (k : Kernel) (r : CommandResult) (k' : Kernel)
    → IsKeyed k
    → lookup (key_of s) k.idempotency ≡ none
    → submit_command w s k ≡ (ok r, k')
    → r.status ≢ rejected
    → (c : CommandType) × (m : Mission) × (n : Mission) × (parse_command_type s.command_type
        ≡ some c)
      × (lookup s.mission_id k.missions ≡ some m)
      × (lookup s.mission_id k'.missions ≡ some n)
      × (Documented c m.status n.status ⊎ FromFailed c m.status n.status)
submit_command-edge w s k r k' keyed unused same ne =
    let a = submit_command-Accepted w s k r k' keyed unused same ne in
    (
      a.command,
      a.mission,
      a.next,
      a.known,
      a.found,
      a.stored,
      validate_transition-edge a.mission.status a.next.status a.command
          (guard_command-transition s a.mission a.command a.passed) a.status,
    )

status_cases : (s : CommandStatus) → (s ≡ rejected) ⊎ (s ≢ rejected)
status_cases rejected = inl refl
status_cases accepted = inr (λ h. ground (arith, h))
status_cases awaiting = inr (λ h. ground (arith, h))

-- Optimistic concurrency: in a state in which every Mission is stored under its own id, behind a
-- command whose key was not used and that returned a status other than REJECTED, a second one to the same Mission, with an
-- idempotency key that is not used and the same expected version, is rejected when it returns.
pub submit_command-conflict :
    (w : World) (s t : Submission) (k : Kernel) (r q : CommandResult) (k' k'' : Kernel)
    → IsKeyed k
    → lookup (key_of s) k.idempotency ≡ none
    → submit_command w s k ≡ (ok r, k')
    → r.status ≢ rejected
    → t.mission_id ≡ s.mission_id
    → t.expected_version ≡ s.expected_version
    → lookup (key_of t) k'.idempotency ≡ none
    → submit_command w t k' ≡ (ok q, k'')
    → q.status ≡ rejected
unfolding after after_all
submit_command-conflict w s t k r q k' k'' keyed unused same ne to_same version unused' same' =
    elim (status_cases q.status) [
      | inl refused ↦ refused
      | inr passes ↦
          let keyed' =
            subst IsKeyed (ap (λ (x : Result CommandResult × Kernel). x.1) same)
              (after_all-IsKeyed w (submit s ∷ []) k keyed) in
          let a = submit_command-Accepted w s k r k' keyed unused same ne in
          let b = submit_command-Accepted w t k' q k'' keyed' unused' same' passes in
          let found : lookup s.mission_id k'.missions ≡ some b.mission = rw (sym to_same) b.found in
          let one : a.next ≡ b.mission = ground (arith, a.stored, found) in
          let versions : a.next.version ≡ b.mission.version = ap (λ (m : Mission). m.version) one in
          absurd (omega (arith, a.expected, a.version, b.expected, version, versions))
    ]
