-- ===== src/Runtime/Owners.antt =====
-- Unique indexes: tables in which the live rows have different owners, and the inserts that keep that.
use mathlib.Core.Path.{subst}
use pantheon_legion.Base.{
  ◌≡◌, ◌≢◌, sym, ◌∙◌, ap, String, Bool, true, false, some, [], ◌∷◌, ◌⊎◌, inl, inr, arith, eq_iff,
  text_eq,
}
use pantheon_legion.Base.Dict.{Dict, lookup, insert, values, lookup-insert}
use pantheon_legion.Base.Lists.{any}

module _ {A : Type 0} where
  -- Rows stand under their own ids, and no two that are live have the same owner.
  pub record IsOnePerOwner {O : Type 0} (key : A → String) (owner : A → O) (is_live : A → Bool)
      (d : Dict String A) : Type 0 where
    pub keyed : (i : String) (a : A) → lookup i d ≡ some a → key a ≡ i
    pub one :
        (i j : String) (a b : A)
        → lookup i d ≡ some a
        → lookup j d ≡ some b
        → is_live a ≡ true
        → is_live b ≡ true
        → owner a ≡ owner b
        → i ≡ j

  pub any-lookup :
      (test : A → Bool) (d : Dict String A) (j : String) (b : A)
      → any test (values d) ≡ false
      → lookup j d ≡ some b
      → test b ≡ false
  unfolding lookup values
  any-lookup test [] j b none_of h = absurd (ground (arith, h))
  any-lookup test ((i, a) ∷ d) j b none_of h =
      ground (arith, any-lookup test d j b, none_of, h, eq_iff i j)

  module _ {O : Type 0} (key : A → String) (owner : A → O) (is_live : A → Bool) where
    -- Either side of a row that is written.
    written :
        (a : A) (d : Dict String A) (i : String) (b : A)
        → lookup i (insert (key a) a d) ≡ some b
        → (key a ≡ i) × (b ≡ a) ⊎ (key a ≢ i) × (lookup i d ≡ some b)
    written a d i b h = ground (arith, lookup-insert (key a) i a d, h, eq_iff (key a) i)

    pub insert-IsOnePerOwner :
        (a : A) (d : Dict String A)
        → ((j : String) (b : A)
            → lookup j d ≡ some b
            → is_live a ≡ true
            → is_live b ≡ true
            → owner b ≡ owner a
            → j ≡ key a)
        → IsOnePerOwner key owner is_live d
        → IsOnePerOwner key owner is_live (insert (key a) a d)
    insert-IsOnePerOwner a d alone h = record {
      keyed = λ i b found. elim (written a d i b found) [
        | inl (same, is) ↦ ap key is ∙ same
        | inr (other, old) ↦ h.keyed i b old
      ];
      one = λ i j b c found found' live live' same. elim (written a d i b found) [
        | inl (here, is) ↦ elim (written a d j c found') [
          | inl (here', is') ↦ sym here ∙ here'
          | inr (other', old') ↦
              sym here
              ∙ sym (
                  alone j c old' (subst (λ x. is_live x ≡ true) is live) live'
                    (sym same ∙ ap owner is))
        ]
        | inr (other, old) ↦ elim (written a d j c found') [
          | inl (here', is') ↦
              alone i b old (subst (λ x. is_live x ≡ true) is' live') live (same ∙ ap owner is')
              ∙ here'
          | inr (other', old') ↦ h.one i j b c old old' live live' same
        ]
      ];
    }
