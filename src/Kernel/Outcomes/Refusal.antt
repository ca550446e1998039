-- ===== src/Kernel/Outcomes/Refusal.antt =====
-- A command that is refused changes no Mission, approval or side effect.
use pantheon_legion.Base.{
  ◌≡◌, ◌≢◌, refl, inl, inr, String, Bool, true, false, Option, none, some, Option-cases,
  if◌then◌else◌, arith,
}
use pantheon_legion.Base.Json.{Value, Fields}
use pantheon_legion.Kernel.Types.{Mission, CommandType, rejected, parse_command_type, CommandResult}
use pantheon_legion.Kernel.State.{World, Kernel, ok, Exec, ◌>>=◌}
use pantheon_legion.Kernel.Command.{
  Submission, refuse, accept, conclude, guard_command, run_command, submit_new, submit_either,
  submit_command, key_of, command_status, requester,
}
use pantheon_legion.Kernel.Command.Effects.{Change, refused, changed}
use pantheon_legion.Kernel.Results.{bind-post}
use pantheon_legion.Kernel.Stable.{
  Keeps, Keeps-at, get_mission-Keeps, gets-Keeps, or_uuid-Keeps, uuid4-Keeps,
}
use pantheon_legion.Kernel.Stable.Commands.{refuse-Keeps, submit_again-Keeps}
use pantheon_legion.Kernel.Outcomes.{
  Returns, bind-Returns, pure-Returns, Untouched, Untouched-refl, Untouched-trans,
}
use pantheon_legion.Kernel.Outcomes.Effects.{
  IsGuarded, Untouched-Quiet, Untouched-OnMemory, apply_command-IsGuarded,
}

-- A result that says REJECTED comes from a call that touched nothing.
record IsHonest (m : Exec CommandResult) : Type 0 where
  honest :
      (k : Kernel) (r : CommandResult) (k' : Kernel)
      → m k ≡ (ok r, k')
      → r.status ≡ rejected
      → Untouched k k'

quiet-IsHonest : (m : Exec CommandResult) → ((k₀ : Kernel) → Keeps (Untouched k₀) m) → IsHonest m
quiet-IsHonest m keeps = record {
  honest = λ k r k' same refusal. Keeps-at m k (ok r) k' (keeps k) (Untouched-refl k) same;
}

bind-IsHonest :
    {A : Type 0} (m : Exec A) (f : A → Exec CommandResult)
    → ((k₀ : Kernel) → Keeps (Untouched k₀) m)
    → ((a : A) → IsHonest (f a))
    → IsHonest (m >>= f)
bind-IsHonest m f reads hf = record {
  honest = λ k r k' same refusal.
      bind-post (λ x. (k' : Kernel) → x ≡ (ok r, k') → Untouched k k') m f k
        (λ e k₁ same₁ k₂ impossible. absurd (ground (arith, impossible)))
        (λ a k₁ same₁ k₂ same₂.
          Untouched-trans (Keeps-at m k (ok a) k₁ (reads k) (Untouched-refl k) same₁)
            ((hf a).honest k₁ r k₂ same₂ refusal))
        k' same;
}

if-IsHonest :
    (b : Bool) {m n : Exec CommandResult} → IsHonest m → IsHonest n → IsHonest (if b then m else n)
if-IsHonest true hm hn = hm
if-IsHonest false hm hn = hn

abbrev NotRejected : CommandResult → Type 0
NotRejected r = r.status ≢ rejected

module _ (w : World) (s : Submission) where
  status-NotRejected : (approval_id : Option String) → command_status approval_id ≢ rejected
  status-NotRejected none h = cc h
  status-NotRejected (some id) h = cc h

  pub accept-NotRejected :
      (correlation id type : String) (approval : Option String) (extra : Fields) (m : Mission)
      → Returns NotRejected (accept w s correlation id type approval extra m)
  unfolding accept
  accept-NotRejected correlation id type approval extra m =
      search (bind-Returns, pure-Returns, status-NotRejected) depth 12

  conclude-Untouched :
      (m : Mission) (correlation id : String) (c : Change) (k k₁ : Kernel) (r : CommandResult)
      → (k₂ : Kernel) → ((code message : String) → c ≡ refused code message → Untouched k k₁)
      → conclude w s m correlation id c k₁ ≡ (ok r, k₂)
      → r.status ≡ rejected
      → Untouched k k₂
  unfolding conclude
  conclude-Untouched m correlation id (refused code message) k k₁ r k₂ before same refusal =
      Untouched-trans (before code message refl) (
        Keeps-at _ k₁ (ok r) k₂
          (refuse-Keeps (Untouched-Quiet k₁) w s (Untouched-OnMemory k₁ (key_of s)) m correlation id
            code message)
          (Untouched-refl k₁) same)
  conclude-Untouched m correlation id (changed n type approval extra) k k₁ r k₂ before same
        refusal =
      absurd ((accept-NotRejected correlation id type approval extra n).at k₁ r k₂ same refusal)

  -- A change that is refused was guarded; one that is accepted is not reported as rejected.
  conclude_after-IsHonest :
      (m : Mission) (correlation id : String) (apply : Exec Change)
      → IsGuarded apply
      → IsHonest (apply >>= λ c. conclude w s m correlation id c)
  conclude_after-IsHonest m correlation id apply g = record {
    honest = λ k r k' same refusal.
        bind-post (λ x. (k' : Kernel) → x ≡ (ok r, k') → Untouched k k') apply
          (λ c. conclude w s m correlation id c) k
          (λ e k₁ same₁ k₂ impossible. absurd (ground (arith, impossible)))
          (λ c k₁ same₁ k₂ same₂.
            conclude-Untouched m correlation id c k k₁ r k₂
              (λ code message is. g.guarded k code message k₁ (rw is at same₁)) same₂ refusal)
          k' same;
  }

  refuse-IsHonest :
      (m : Mission) (correlation id code message : String)
      → IsHonest (refuse w s m correlation id code message)
  refuse-IsHonest m correlation id code message =
      quiet-IsHonest _ (search (refuse-Keeps, Untouched-Quiet, Untouched-OnMemory))

  run_command-IsHonest :
      (m : Mission) (correlation id : String) (c : CommandType)
      → IsHonest (run_command w s m correlation id c)
  unfolding run_command
  run_command-IsHonest m correlation id c = elim (Option-cases (guard_command s m c)) [
    | inl pass ↦
        rw (pass, run_command)
          (conclude_after-IsHonest m correlation id _
            (apply_command-IsGuarded w m s.actor (requester s) id c s.payload))
    | inr (e, fail) ↦ rw (fail, run_command) (refuse-IsHonest m correlation id e.0 e.1)
  ]

  submit_new-IsHonest :
      (m : Mission) (correlation : String) → IsHonest (submit_new w s m correlation)
  unfolding submit_new
  submit_new-IsHonest m correlation = elim (Option-cases (parse_command_type s.command_type)) [
    | inl unknown ↦
        rw unknown
          (search (bind-IsHonest, uuid4-Keeps, Untouched-Quiet, if-IsHonest, refuse-IsHonest))
    | inr (c, known) ↦ rw known (
        search (
          bind-IsHonest, uuid4-Keeps, Untouched-Quiet, if-IsHonest, refuse-IsHonest,
          run_command-IsHonest,
        ))
  ]

  submit_either-IsHonest :
      (m : Mission) (correlation : String) (prior : Option (Value × CommandResult))
      → IsHonest (submit_either w s m correlation prior)
  unfolding submit_either
  submit_either-IsHonest m correlation none = submit_new-IsHonest m correlation
  submit_either-IsHonest m correlation (some prior) =
      quiet-IsHonest _ (search (submit_again-Keeps, Untouched-Quiet))

  submit_command-IsHonest : IsHonest (submit_command w s)
  unfolding submit_command
  submit_command-IsHonest =
      search
        (
          bind-IsHonest, get_mission-Keeps, or_uuid-Keeps, gets-Keeps, Untouched-Quiet,
          submit_either-IsHonest,
        )
        depth 8

-- A call of `submit_command` that returns the status REJECTED, for whatever reason, has changed
-- no Mission, no approval and no side effect.
pub submit_command-rejected :
    (w : World) (s : Submission) (k : Kernel) {r : CommandResult} {k' : Kernel}
    → submit_command w s k ≡ (ok r, k')
    → r.status ≡ rejected
    → Untouched k k'
submit_command-rejected w s k same refusal = (submit_command-IsHonest w s).honest k _ _ same refusal
