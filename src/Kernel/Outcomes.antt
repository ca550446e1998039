-- ===== src/Kernel/Outcomes.antt =====
-- What an accepted and a refused command leave behind, stated over the whole of `submit_command`.
pub mod Effects
pub mod Refusal
pub mod Acceptance
pub mod Diagram
pub mod Running
use pantheon_legion.Base.{
  ◌≡◌, refl, ap, sym, ◌∙◌, Bool, true, false, Option, none, some, if◌then◌else◌, arith,
}
use pantheon_legion.Kernel.State.{Kernel, Raised, Result, ok, raised, Exec, pure, raise, ◌>>=◌}
use pantheon_legion.Kernel.Results.{bind-post}

-- `m` returns only values with `S`.
pub record Returns {A : Type 0} (S : A → Type 0) (m : Exec A) : Type 0 where
  pub at : (k : Kernel) (a : A) (k' : Kernel) → m k ≡ (ok a, k') → S a

pub bind-Returns :
    {A B : Type 0} {S : B → Type 0} (m : Exec A) (f : A → Exec B)
    → ((a : A) → Returns S (f a))
    → Returns S (m >>= f)
bind-Returns {S} m f hf = record {
  at = λ k b k' same.
      bind-post (λ x. (b : _) (k' : Kernel) → x ≡ (ok b, k') → S b) m f k
        (λ e k₁ same₁ b' k₂ impossible. ground (arith, impossible))
        (λ a k₁ same₁ b' k₂ same₂. (hf a).at k₁ b' k₂ same₂) b k' same;
}

-- The same, where the second part may use what the first returns.
pub bind_after-Returns :
    {A B : Type 0} {S : B → Type 0} (T : A → Type 0) (m : Exec A) (f : A → Exec B)
    → Returns T m
    → ((a : A) → T a → Returns S (f a))
    → Returns S (m >>= f)
bind_after-Returns {S} T m f hm hf = record {
  at = λ k b k' same.
      bind-post (λ x. (b : _) (k' : Kernel) → x ≡ (ok b, k') → S b) m f k
        (λ e k₁ same₁ b' k₂ impossible. ground (arith, impossible))
        (λ a k₁ same₁ b' k₂ same₂. (hf a (hm.at k a k₁ same₁)).at k₁ b' k₂ same₂) b k' same;
}

pub pure-Returns : {A : Type 0} {S : A → Type 0} (a : A) → S a → Returns S (pure a)
pure-Returns {S} a h = record {
  at = λ k b k' same. let is : a ≡ b = ground (arith, same) in rw is at h;
}

pub raise-Returns : {A : Type 0} {S : A → Type 0} (e : Raised) → Returns S (raise {A = A} e)
raise-Returns e = record { at = λ k b k' same. absurd (ground (arith, same)) }

pub if-Returns :
    {A : Type 0} {S : A → Type 0} (b : Bool) {m n : Exec A}
    → Returns S m
    → Returns S n
    → Returns S (if b then m else n)
if-Returns true hm hn = hm
if-Returns false hm hn = hn

-- What is left alone by a command that was not accepted.
pub record Untouched (k k' : Kernel) : Type 0 where
  pub missions : k'.missions ≡ k.missions
  pub approvals : k'.approvals ≡ k.approvals
  pub side_effects : k'.side_effects ≡ k.side_effects

pub Untouched-refl : (k : Kernel) → Untouched k k
Untouched-refl k = record { missions = refl; approvals = refl; side_effects = refl }

pub Untouched-trans : {a b c : Kernel} → Untouched a b → Untouched b c → Untouched a c
Untouched-trans h g = record {
  missions = g.missions ∙ h.missions;
  approvals = g.approvals ∙ h.approvals;
  side_effects = g.side_effects ∙ h.side_effects;
}
