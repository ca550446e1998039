-- ===== src/Runtime/Ends.antt =====
-- What holds where an action returns: the rules for its parts. What an action that raises leaves
-- is of no account inside a transaction, which puts the rows from before back.
use mathlib.Core.Path.{subst}
use pantheon_legion.Base.{
  ◌≡◌, refl, ap, ◌∙◌, String, Bool, true, false, ◌||◌, Option, none, some, List, [], ◌∷◌, inl, inr,
  Bool-cases, arith, if◌then◌else◌,
}
use pantheon_legion.Base.Lists.{any}
use pantheon_legion.Base.Text.{is_empty, strip}
use pantheon_legion.Runtime.Store.{
  Tables, Failure, Reply, done, failed, Session, give, refuse, reads, need, accept, guard, follow,
  ◌>>=◌, transaction, settle,
}
use pantheon_legion.Runtime.Stable.{Keeps}

-- From tables with `P`, the action raises or returns a value and tables with `Q`.
pub record Ends {A : Type 0} (P : Tables → Type 0) (Q : A → Tables → Type 0) (m : Session A)
    : Type 0 where
  pub at : (s : Tables) → P s → (a : A) (t : Tables) → m s ≡ (done a, t) → Q a t

module _ {A B : Type 0} {P : Tables → Type 0} {Q : B → Tables → Type 0} where
  pub bind-Ends :
      (R : A → Tables → Type 0) (m : Session A) (f : A → Session B)
      → Ends P R m
      → ((a : A) → Ends (R a) Q (f a))
      → Ends P Q (m >>= f)
  unfolding ◌>>=◌
  bind-Ends R m f hm hf = record { at = λ s h b t same. go s h (m s).0 (m s).1 refl b t same }
    where
      go :
          (s : Tables)
          → P s
          → (r : Reply A) (u : Tables) → m s ≡ (r, u)
          → (b : B) (t : Tables) → follow r f u ≡ (done b, t)
          → Q b t
      go s h (done a) u e b t same = (hf a).at u (hm.at s h a u e) b t same
      go s h (failed x) u e b t same = absurd (ground (arith, same))

module _ {A : Type 0} {P : Tables → Type 0} where
  pub give-Ends :
      {Q : A → Tables → Type 0} (a : A) → ((s : Tables) → P s → Q a s) → Ends P Q (give a)
  give-Ends {Q} a h = record {
    at = λ s q b t same. subst (λ (x : A × Tables). Q x.0 x.1) (returned s b t same) (h s q);
  }
    where
      returned :
          (s : Tables) (b : A) (t : Tables)
          → give a s ≡ (done b, t)
          → ◌≡◌ {A = A × Tables} (a, s) (b, t)
      returned s b t same = ground (arith, same)

  pub refuse-Ends : {Q : A → Tables → Type 0} (e : Failure) → Ends P Q (refuse e)
  refuse-Ends e = record { at = λ s q b t same. absurd (ground (arith, same)) }

  -- A part that keeps what is known.
  pub Keeps-Ends : (m : Session A) → Keeps P m → Ends P (λ a s. P s) m
  Keeps-Ends m h = record {
    at = λ s q a t same. subst P (ap (λ (x : Reply A × Tables). x.1) same) (h.kept s q);
  }

  -- A row that was looked up is there.
  pub looking-Ends :
      (o : Tables → Option A) (e : Failure)
      → Ends P (λ a s. P s × (o s ≡ some a)) (λ s. need (o s) e s)
  looking-Ends o e = record { at = λ s q a t same. go s q (o s) refl a t same }
    where
      go :
          (s : Tables)
          → P s
          → (x : Option A) → o s ≡ x
          → (a : A) (t : Tables) → need x e s ≡ (done a, t)
          → P t × (o t ≡ some a)
      go s q none found a t same = absurd (ground (arith, same))
      go s q (some b) found a t same =
          let is : s ≡ t = ground (arith, same) in
          let value : b ≡ a = ground (arith, same) in rw (← is, ← value) (q, found)

  pub reads-Ends : (f : Tables → A) → Ends P (λ a s. P s × (a ≡ f s)) (reads f)
  reads-Ends f = record {
    at = λ s q a t same.
        let is : s ≡ t = ground (arith, same) in
        let value : a ≡ f s = ground (arith, same) in rw (← is) (q, value);
  }

  pub need-Ends : (o : Option A) (e : Failure) → Ends P (λ a s. P s × (o ≡ some a)) (need o e)
  need-Ends o e = looking-Ends (λ s. o) e

  pub accept-Ends : (fault : Option String) (a : A) → Ends P (λ b s. P s × (b ≡ a)) (accept fault a)
  accept-Ends none a = give-Ends a (λ s q. (q, refl))
  accept-Ends (some e) a = refuse-Ends _

  pub if-Ends :
      {Q : A → Tables → Type 0} (b : Bool) (m n : Session A)
      → (b ≡ true → Ends P Q m)
      → (b ≡ false → Ends P Q n)
      → Ends P Q (if b then m else n)
  if-Ends true m n hm hn = hm refl
  if-Ends false m n hm hn = hn refl

  pub weaken-Ends :
      {P' : Tables → Type 0} {Q Q' : A → Tables → Type 0} (m : Session A)
      → Ends P' Q' m
      → ((s : Tables) → P s → P' s)
      → ((a : A) (s : Tables) → Q' a s → Q a s)
      → Ends P Q m
  weaken-Ends m h before after = record {
    at = λ s q a t same. after a t (h.at s (before s q) a t same);
  }

  pub transaction-Ends :
      {Q : A → Tables → Type 0} (keys : List String) (m : Session A)
      → Ends P Q m
      → Ends P Q (transaction keys m)
  unfolding transaction
  transaction-Ends [] m h = record { at = λ s q a t same. absurd (ground (arith, same)) }
  transaction-Ends {Q} (key ∷ keys) m h = record {
    at = λ s q a t same.
        elim (Bool-cases (is_empty (strip key) || any (λ k. is_empty (strip k)) keys)) [
          | inl y ↦ absurd (ground (arith, rw y at same))
          | inr n ↦ settled s q (m s).0 (m s).1 refl a t (rw n at same)
        ];
  }
    where
      settled :
          (s : Tables)
          → P s
          → (r : Reply A) (u : Tables) → m s ≡ (r, u)
          → (a : A) (t : Tables) → settle s r u ≡ (done a, t)
          → Q a t
      settled s q (done b) u e a t same = h.at s q a t (e ∙ same)
      settled s q (failed x) u e a t same = absurd (ground (arith, same))

pub guard-Ends :
    {P : Tables → Type 0} (b : Bool) (e : Failure) → Ends P (λ _ s. P s × (b ≡ true)) (guard b e)
guard-Ends true e = give-Ends tt (λ s q. (q, refl))
guard-Ends false e = refuse-Ends e

module _ {A B : Type 0} {P : Tables → Type 0} {Q : B → Tables → Type 0} where
  -- A part of which nothing is used.
  pub skip-Ends :
      (m : Session A) (f : A → Session B)
      → ((a : A) → Ends (λ s. Unit) Q (f a))
      → Ends P Q (m >>= f)
  skip-Ends m f h = bind-Ends (λ a s. Unit) m f (record { at = λ s q a t same. tt }) h

  -- A value that its constructor accepts is the value.
  pub accept_then-Ends :
      (fault : Option String) (a : A) (f : A → Session B)
      → Ends P Q (f a)
      → Ends P Q (accept fault a >>= f)
  unfolding ◌>>=◌
  accept_then-Ends none a f h = h
  accept_then-Ends (some e) a f h = record { at = λ s q b t same. absurd (ground (arith, same)) }

-- What is known without the tables is known from there on.
pub given-Ends :
    {A : Type 0} {X : Type 0} {Q : A → Tables → Type 0} {m : Session A}
    → (X → Ends (λ s. Unit) Q m)
    → Ends (λ s. X) Q m
given-Ends h = record { at = λ s x a t same. (h x).at s tt a t same }

pub given_also-Ends :
    {A : Type 0} {X : Type 0} {P : Tables → Type 0} {Q : A → Tables → Type 0} {m : Session A}
    → (X → Ends P Q m)
    → Ends (λ s. P s × X) Q m
given_also-Ends h = record { at = λ s x a t same. (h x.1).at s x.0 a t same }
