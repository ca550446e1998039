-- ===== src/Kernel/Leaves.antt =====
-- What an action of the kernel returns, with the state that it leaves; and that an approval which is
-- not found expired is left as it is.
use pantheon_legion.Base.{
  text_eq, ◌≡◌, ◌⊎◌, ◌∙◌, refl, inl, inr, String, Bool, true, false, not, Option, none, some,
  Bool-cases, arith, if◌then◌else◌,
}
use pantheon_legion.Base.Text.{is_empty}
use pantheon_legion.Kernel.Types.{Approval, Mission}
use pantheon_legion.Kernel.State.{
  World, Kernel, Raised, ok, Exec, raise, pure, or_raise, ◌>>=◌, clock,
}
use pantheon_legion.Kernel.Journal.{
  not_yet_due, stays_valid, expire, expire_approval_if_needed, is_open, is_expired,
}
use pantheon_legion.Kernel.Results.{bind-post}

-- What `m` returns from `k`, with the state behind it, satisfies `S`.
pub record Leaves {A : Type 0} (k : Kernel) (S : A → Kernel → Type 0) (m : Exec A) : Type 0 where
  pub at : (a : A) (k' : Kernel) → m k ≡ (ok a, k') → S a k'

pub bind-Leaves :
    {A B : Type 0} {k : Kernel} {S : B → Kernel → Type 0} (T : A → Kernel → Type 0) (m : Exec A)
    (f : A → Exec B)
    → Leaves k T m
    → ((a : A) (k' : Kernel) → T a k' → Leaves k' S (f a))
    → Leaves k S (m >>= f)
bind-Leaves {k = k} {S = S} T m f hm hf = record {
  at = λ b k' same.
      bind-post (λ x. (b : _) (k' : Kernel) → x ≡ (ok b, k') → S b k') m f k
        (λ e k₁ same₁ b' k₂ impossible. absurd (ground (arith, impossible)))
        (λ a k₁ same₁ b' k₂ same₂. (hf a k₁ (hm.at a k₁ same₁)).at b' k₂ same₂) b k' same;
}

-- A guard that raises
pub if_raise-Leaves :
    {A : Type 0} {k : Kernel} {S : A → Kernel → Type 0} (b : Bool) (e : Raised) {n : Exec A}
    → (b ≡ false → Leaves k S n)
    → Leaves k S (if b then raise e else n)
if_raise-Leaves true e h = record { at = λ a k' same. absurd (ground (arith, same)) }
if_raise-Leaves false e h = h refl

-- Nothing but draws lies between the states.
pub record SameRows (k k' : Kernel) : Type 0 where
  pub missions : k'.missions ≡ k.missions
  pub approvals : k'.approvals ≡ k.approvals
  pub side_effects : k'.side_effects ≡ k.side_effects
  pub idempotency : k'.idempotency ≡ k.idempotency
  pub audit : k'.audit ≡ k.audit

SameRows-refl : (k : Kernel) → SameRows k k
SameRows-refl k = record {
  missions = refl;
  approvals = refl;
  side_effects = refl;
  idempotency = refl;
  audit = refl;
}

pure-Leaves :
    {A : Type 0} {k : Kernel} {S : A → Kernel → Type 0} (a : A) → S a k → Leaves k S (pure a)
pure-Leaves {k = k} {S = S} a h = record {
  at = λ b k' same.
      let value : a ≡ b = ground (arith, same) in
      let state : k ≡ k' = ground (arith, same) in rw (← value, ← state) h;
}

pub or_raise-Leaves :
    {A : Type 0} (k : Kernel) (o : Option A) (e : Raised)
    → Leaves k (λ a k'. (o ≡ some a) × SameRows k k') (or_raise o e)
or_raise-Leaves k none e = record { at = λ a k' same. absurd (ground (arith, same)) }
or_raise-Leaves k (some a) e = pure-Leaves a (refl, SameRows-refl k)

clock-Leaves : (w : World) (k : Kernel) → Leaves k (λ now k'. SameRows k k') (clock w)
unfolding clock
clock-Leaves w k = record {
  at = λ now k' same. record {
    missions = ground (arith, same);
    approvals = ground (arith, same);
    side_effects = ground (arith, same);
    idempotency = ground (arith, same);
    audit = ground (arith, same);
  };
}

module _ (w : World) (m : Mission) (a : Approval) where
  not_yet_due-Leaves :
      (k : Kernel) (due : Option String) → Leaves k (λ valid k'. SameRows k k') (not_yet_due w due)
  unfolding not_yet_due
  not_yet_due-Leaves k none = pure-Leaves true (SameRows-refl k)
  not_yet_due-Leaves k (some due) = elim (Bool-cases (is_empty due)) [
    | inl y ↦ rw y (pure-Leaves true (SameRows-refl k))
    | inr n ↦
        rw n (
          bind-Leaves (λ now k'. SameRows k k') _ _ (clock-Leaves w k)
            (λ now k' h. pure-Leaves _ h))
  ]

  expire-Leaves :
      (k : Kernel) (reason : Option String) → Leaves k (λ b k'. b ≡ true) (expire w m a reason)
  unfolding expire
  expire-Leaves k reason =
      bind-Leaves (λ x k'. Unit) _ _ (record { at = λ x k' same. tt })
        (λ x k' h.
          bind-Leaves (λ y k''. Unit) _ _ (record { at = λ y k'' same. tt })
            (λ y k'' h'. pure-Leaves true refl))

  -- An approval that is not found expired is left as it is.
  pub expire_approval_if_needed-Leaves :
      (k : Kernel)
      → Leaves k (λ b k'. (b ≡ true) ⊎ SameRows k k') (expire_approval_if_needed w m a none)
  unfolding expire_approval_if_needed stays_valid
  expire_approval_if_needed-Leaves k =
      bind-Leaves (λ valid k'. SameRows k k') _ _ (not_yet_due-Leaves k a.expires_at)
        (λ valid k' h. go valid k' h)
    where
      ended :
          (k' : Kernel) (b : Bool)
          → SameRows k k'
          → Leaves k'
              (λ b k''. (b ≡ true) ⊎ SameRows k k'')
              (if b then pure (is_expired a.status) else expire w m a none)
      ended k' true h = pure-Leaves _ (inr h)
      ended k' false h = record { at = λ b k'' same. inl ((expire-Leaves k' none).at b k'' same) }

      go :
          (valid : Bool) (k' : Kernel)
          → SameRows k k'
          → Leaves k'
              (λ b k''. (b ≡ true) ⊎ SameRows k k'')
              (if valid
                then pure false
                else if not (is_open a.status)
                then pure (is_expired a.status)
                else expire w m a none)
      go true k' h = pure-Leaves false (inr h)
      go false k' h = ended k' (not (is_open a.status)) h

pub Leaves-map :
    {A : Type 0} {k : Kernel} {S T : A → Kernel → Type 0} {m : Exec A}
    → Leaves k S m
    → ((a : A) (k' : Kernel) → S a k' → T a k')
    → Leaves k T m
Leaves-map h f = record { at = λ a k' same. f a k' (h.at a k' same) }

pub SameRows-trans : (a b c : Kernel) → SameRows a b → SameRows b c → SameRows a c
SameRows-trans a b c h g = record {
  missions = g.missions ∙ h.missions;
  approvals = g.approvals ∙ h.approvals;
  side_effects = g.side_effects ∙ h.side_effects;
  idempotency = g.idempotency ∙ h.idempotency;
  audit = g.audit ∙ h.audit;
}
