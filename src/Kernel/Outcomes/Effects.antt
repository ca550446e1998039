-- ===== src/Kernel/Outcomes/Effects.antt =====
-- What a branch of `apply_fields` does: a refusing branch has changed nothing, and a changing one
-- leaves the Mission's id and version alone and moves its status as the command says.
use mathlib.Core.Path.{subst}
use pantheon_legion.Base.{◌≡◌, inl, inr, ap, String, Bool, true, false, if◌then◌else◌, arith}
use pantheon_legion.Base.Json.{Value, Fields}
use pantheon_legion.Kernel.Types.{Principal, Action, Mission, CommandType, update_objective}
use pantheon_legion.Kernel.State.{World, Kernel, Raised, Result, ok, Exec, pure, raise, ◌>>=◌}
use pantheon_legion.Kernel.Lifecycle.{SetsStatus, SetsRules}
use pantheon_legion.Kernel.Command.Effects.{
  Change, refused, changed, request_approval, apply_request, apply_add_constraint, apply_set_roe,
  apply_cancel, apply_fields, apply_command,
}
use pantheon_legion.Kernel.Results.{bind-post}
use pantheon_legion.Kernel.Stable.{Quiet, OnMemory, Keeps, Keeps-at, clock-Keeps}
use pantheon_legion.Kernel.Stable.Commands.{reads, object_of-Keeps, make_action-Keeps}
use pantheon_legion.Kernel.Outcomes.{
  Returns, bind-Returns, pure-Returns, raise-Returns, if-Returns, Untouched, Untouched-refl,
  Untouched-trans,
}

-- The Mission that a branch leaves, against the one that it was given.
abbrev pub Follows : CommandType → Mission → Change → Type 0
Follows c m (refused error_code message) = Unit
Follows c m (changed n event_type approval_id extra) =
    (n.id ≡ m.id)
    × (n.version ≡ m.version)
    × SetsStatus c m.status n.status
    × SetsRules c m.roe n.roe

module _ (w : World) where
  apply_fields-Follows :
      (m : Mission) (actor by : Principal) (id : String) (c : CommandType) (p : Fields)
      → Returns (Follows c m) (apply_fields w m actor by id c p)
  unfolding apply_fields apply_request request_approval apply_add_constraint apply_set_roe
      apply_cancel
  apply_fields-Follows m actor by id update_objective p =
      search (bind-Returns, pure-Returns, raise-Returns, if-Returns, inl, inr) depth 12
  apply_fields-Follows m actor by id _ p =
      search (bind-Returns, pure-Returns, raise-Returns, if-Returns, inl, inr) depth 14

  pub apply_command-Follows :
      (m : Mission) (actor by : Principal) (id : String) (c : CommandType) (payload : Value)
      → Returns (Follows c m) (apply_command w m actor by id c payload)
  unfolding apply_command
  apply_command-Follows m actor by id c payload = search (bind-Returns, apply_fields-Follows)

-- A branch that refuses has touched nothing before.
pub record IsGuarded (m : Exec Change) : Type 0 where
  pub guarded :
      (k : Kernel) (code message : String) (k' : Kernel)
      → m k ≡ (ok (refused code message), k')
      → Untouched k k'

pub Untouched-Quiet : (k₀ : Kernel) → Quiet (Untouched k₀)
Untouched-Quiet k₀ = record {
  drawn = λ k u c n more h. record {
    missions = h.missions;
    approvals = h.approvals;
    side_effects = h.side_effects;
  };
  command = λ k r h. record {
    missions = h.missions;
    approvals = h.approvals;
    side_effects = h.side_effects;
  };
  event = λ k id earlier ev found s o h. record {
    missions = h.missions;
    approvals = h.approvals;
    side_effects = h.side_effects;
  };
}

pub Untouched-OnMemory : (k₀ : Kernel) (key : String × String) → OnMemory (Untouched k₀) key
Untouched-OnMemory k₀ key = record {
  memory = λ k v h. record {
    missions = h.missions;
    approvals = h.approvals;
    side_effects = h.side_effects;
  };
}

bind-IsGuarded :
    {A : Type 0} (m : Exec A) (f : A → Exec Change)
    → ((k₀ : Kernel) → Keeps (Untouched k₀) m)
    → ((a : A) → IsGuarded (f a))
    → IsGuarded (m >>= f)
bind-IsGuarded m f reads hf = record {
  guarded = λ k code message k' same.
      bind-post (λ x. (k' : Kernel) → x ≡ (ok (refused code message), k') → Untouched k k') m f k
        (λ e k₁ same₁ k₂ impossible. absurd (ground (arith, impossible)))
        (λ a k₁ same₁ k₂ same₂.
          Untouched-trans (Keeps-at m k (ok a) k₁ (reads k) (Untouched-refl k) same₁)
            ((hf a).guarded k₁ code message k₂ same₂))
        k' same;
}

pure-IsGuarded : (c : Change) → IsGuarded (pure c)
pure-IsGuarded c = record {
  guarded = λ k code message k' same.
      let is : k ≡ k' = ap (λ (x : Result Change × Kernel). x.1) same in
      subst (Untouched k) is (Untouched-refl k);
}

raise-IsGuarded : (e : Raised) → IsGuarded (raise e)
raise-IsGuarded e = record { guarded = λ k code message k' same. absurd (ground (arith, same)) }

if-IsGuarded :
    (b : Bool) {m n : Exec Change} → IsGuarded m → IsGuarded n → IsGuarded (if b then m else n)
if-IsGuarded true hm hn = hm
if-IsGuarded false hm hn = hn

ruleset guard_rules = (bind-IsGuarded, pure-IsGuarded, raise-IsGuarded, if-IsGuarded)

-- A branch that never refuses is guarded whatever it does.
abbrev IsChanged : Change → Type 0
IsChanged (refused code message) = ⊥
IsChanged (changed n event_type approval_id extra) = Unit

accepting-IsGuarded : (m : Exec Change) → Returns IsChanged m → IsGuarded m
accepting-IsGuarded m h = record {
  guarded = λ k code message k' same. absurd (h.at k (refused code message) k' same);
}

module _ (w : World) where
  request_approval-IsGuarded :
      (m : Mission) (a : Action) (by : Principal) (id : String)
      → IsGuarded (request_approval w m a by id)
  unfolding request_approval
  request_approval-IsGuarded m a by id =
      accepting-IsGuarded _ (search (bind-Returns, pure-Returns) depth 8)

  apply_cancel-IsGuarded : (m : Mission) → IsGuarded (apply_cancel w m)
  unfolding apply_cancel
  apply_cancel-IsGuarded m = accepting-IsGuarded _ (search (bind-Returns, pure-Returns) depth 8)

  apply_fields-IsGuarded :
      (m : Mission) (actor by : Principal) (id : String) (c : CommandType) (p : Fields)
      → IsGuarded (apply_fields w m actor by id c p)
  unfolding apply_fields apply_request apply_add_constraint apply_set_roe
  apply_fields-IsGuarded m actor by id update_objective p = search (guard_rules, reads) depth 12
  apply_fields-IsGuarded m actor by id _ p =
      search
        (
          guard_rules, reads, make_action-Keeps, clock-Keeps, Untouched-Quiet,
          request_approval-IsGuarded, apply_cancel-IsGuarded,
        )
        depth 14

  pub apply_command-IsGuarded :
      (m : Mission) (actor by : Principal) (id : String) (c : CommandType) (payload : Value)
      → IsGuarded (apply_command w m actor by id c payload)
  unfolding apply_command
  apply_command-IsGuarded m actor by id c payload =
      search (guard_rules, object_of-Keeps, apply_fields-IsGuarded)
