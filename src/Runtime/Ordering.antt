-- ===== src/Runtime/Ordering.antt =====
-- `ORDER BY` and `max` on the rows of a query: the last row in order has the greatest number.
use mathlib.Core.Path.{subst}
use pantheon_legion.Base.{
  false, if◌then◌else◌, ℕ, ◌≡◌, refl, sym, ap, ◌∙◌, Bool, true, Option, none, some, List, [], ◌∷◌,
  ◌++◌, ◌⊎◌, inl, inr, arith, ◌≤◌, ltb, leb, eqb, eqb_iff, Bool-cases,
}
use pantheon_legion.Base.Lists.{length, any}
use pantheon_legion.Runtime.Queries.{find, keep_if, place_by, order_by, greatest}

module _ {A : Type 0} where
  abbrev pub last : List A → Option A
  last [] = none
  last (a ∷ []) = some a
  last (a ∷ b ∷ l) = last (b ∷ l)

  -- `P` holds of every row.
  abbrev pub Each : (A → Type 0) → List A → Type 0
  Each P [] = Unit
  Each P (a ∷ l) = P a × Each P l

  pub Each-map : {P Q : A → Type 0} → ((a : A) → P a → Q a) → (l : List A) → Each P l → Each Q l
  Each-map f [] h = tt
  Each-map f (a ∷ l) (here, rest) = (f a here, Each-map f l rest)

  pub keep_if-snoc :
      (p : A → Bool) (l : List A) (a : A)
      → keep_if p (l ++ a ∷ []) ≡ (if p a then keep_if p l ++ a ∷ [] else keep_if p l)
  unfolding keep_if
  keep_if-snoc p [] a = refl
  keep_if-snoc p (b ∷ l) a = ground (arith, keep_if-snoc p l a)

  -- Where no row passes, a query finds none; where one is found, a query of at most one row has it.
  pub keep_if-none : (p : A → Bool) (l : List A) → find p l ≡ none → keep_if p l ≡ []
  unfolding keep_if find
  keep_if-none p [] h = refl
  keep_if-none p (a ∷ l) h = ground (arith, keep_if-none p l, h)

  pub keep_if-found :
      (p : A → Bool) (l : List A) (a : A)
      → find p l ≡ some a
      → length (keep_if p l) ≤ 1
      → keep_if p l ≡ a ∷ []
  unfolding keep_if find
  keep_if-found p [] a h few = absurd (ground (arith, h))
  keep_if-found p (b ∷ l) a h few = elim (Bool-cases (p b)) [
    | inl y ↦
        let one : b ≡ a = ground (arith, rw y at h) in
        rw (y, one) (ap (λ r. a ∷ r) (nil (keep_if p l) (rw y at few)))
    | inr miss ↦ rw miss (keep_if-found p l a (rw miss at h) (rw miss at few))
  ]
    where
      nil : (r : List A) → length (b ∷ r) ≤ 1 → r ≡ []
      nil [] few = refl
      nil (c ∷ r) few = absurd (omega (arith, few))

  pub find-more :
      (p : A → Bool) (l more : List A) (a : A) → find p l ≡ some a → find p (l ++ more) ≡ some a
  unfolding find
  find-more p [] more a h = absurd (ground (arith, h))
  find-more p (b ∷ l) more a h = ground (arith, find-more p l more a, h)

  -- A row that is added where none passes is the only one.
  pub snoc-few :
      (p : A → Bool) (l : List A) (a : A)
      → (p a ≡ true → keep_if p l ≡ [])
      → length (keep_if p l) ≤ 1
      → length (keep_if p (l ++ a ∷ [])) ≤ 1
  snoc-few p l a new few = elim (Bool-cases (p a)) [
    | inl y ↦ rw (keep_if-snoc p l a, y, new y) (omega arith)
    | inr miss ↦ rw (keep_if-snoc p l a, miss) few
  ]

  -- A test that fails of every row
  pub any-none : (p : A → Bool) (l : List A) → any p l ≡ false → find p l ≡ none
  unfolding find
  any-none p [] h = refl
  any-none p (a ∷ l) h = ground (arith, any-none p l, h)

  pub keep_if-Each :
      (P : A → Type 0) (p : A → Bool) (l : List A)
      → Each P l
      → Each (λ a. P a × (p a ≡ true)) (keep_if p l)
  unfolding keep_if
  keep_if-Each P p [] h = tt
  keep_if-Each P p (a ∷ l) (here, rest) =
      let later = keep_if-Each P p l rest in
      elim (Bool-cases (p a)) [ inl y ↦ rw y ((here, y), later) | inr n ↦ rw n later ]

  module _ (rank : A → ℕ) where
    -- The ranks ascend from `m`.
    abbrev pub IsAscending : ℕ → List A → Type 0
    IsAscending m [] = Unit
    IsAscending m (a ∷ l) = (m ≤ rank a) × IsAscending (rank a) l

    place_by-IsAscending :
        (m : ℕ) (a : A) (l : List A)
        → m ≤ rank a
        → IsAscending m l
        → IsAscending m (place_by rank a l)
    unfolding place_by
    place_by-IsAscending m a [] low h = (low, tt)
    place_by-IsAscending m a (b ∷ l) low (first, rest) = elim (Bool-cases (leb (rank a) (rank b))) [
      | inl y ↦ rw y (low, (ground (arith, y), rest))
      | inr n ↦ rw n (first, place_by-IsAscending (rank b) a l (ground (arith, n)) rest)
    ]

    pub order_by-IsAscending : (l : List A) → IsAscending 0 (order_by rank l)
    unfolding order_by
    order_by-IsAscending [] = tt
    order_by-IsAscending (a ∷ l) =
        place_by-IsAscending 0 a (order_by rank l) (omega arith) (order_by-IsAscending l)

    place_by-Each :
        (P : A → Type 0) (a : A) (l : List A) → P a → Each P l → Each P (place_by rank a l)
    unfolding place_by
    place_by-Each P a [] p h = (p, tt)
    place_by-Each P a (b ∷ l) p (here, rest) = elim (Bool-cases (leb (rank a) (rank b))) [
      | inl y ↦ rw y (p, (here, rest))
      | inr n ↦ rw n (here, place_by-Each P a l p rest)
    ]

    pub order_by-Each : (P : A → Type 0) (l : List A) → Each P l → Each P (order_by rank l)
    unfolding order_by
    order_by-Each P [] h = tt
    order_by-Each P (a ∷ l) (here, rest) =
        place_by-Each P a (order_by rank l) here (order_by-Each P l rest)

    greatest-place_by :
        (a : A) (l : List A) → greatest rank (place_by rank a l) ≡ greatest rank (a ∷ l)
    unfolding greatest place_by
    greatest-place_by a [] = refl
    greatest-place_by a (b ∷ l) = ground (arith, greatest-place_by a l)

    pub greatest-order_by : (l : List A) → greatest rank (order_by rank l) ≡ greatest rank l
    unfolding greatest order_by
    greatest-order_by [] = refl
    greatest-order_by (a ∷ l) =
        greatest-place_by a (order_by rank l) ∙ rw (greatest-order_by l) refl

    -- A row of the greatest rank, if there are rows.
    pub record IsGreatest (P : A → Type 0) (l : List A) (a : A) : Type 0 where
      pub holds : P a
      pub rank_of : rank a ≡ greatest rank l

    pub last-IsGreatest :
        {P : A → Type 0} (m : ℕ) (a : A) (l : List A)
        → IsAscending m (a ∷ l)
        → Each P (a ∷ l)
        → (b : A) × (last (a ∷ l) ≡ some b) × IsGreatest P (a ∷ l) b
    unfolding greatest
    last-IsGreatest m a [] h (here, rest) =
        (a, refl, record { holds = here; rank_of = ground arith })
    last-IsGreatest m a (b ∷ l) (low, h) (here, rest) =
        let (c, found, g) = last-IsGreatest (rank a) b l h rest in
        (c, found, record { holds = g.holds; rank_of = ground (arith, g.rank_of, h.0) })

    HasRank : ℕ → List A → Type 0
    HasRank n [] = ⊥
    HasRank n (a ∷ l) = (rank a ≡ n) ⊎ HasRank n l

    greatest-HasRank : (n : ℕ) (a : A) (l : List A) → greatest rank (a ∷ l) ≡ n → HasRank n (a ∷ l)
    unfolding greatest HasRank
    greatest-HasRank n a [] is = inl (ground (arith, is))
    greatest-HasRank n a (b ∷ l) is = elim (Bool-cases (ltb (greatest rank (b ∷ l)) (rank a))) [
      | inl y ↦ inl (ground (arith, y, is))
      | inr miss ↦ inr (greatest-HasRank n b l (ground (arith, miss, is)))
    ]

    find-HasRank :
        {P : A → Type 0} (n : ℕ) (l : List A)
        → HasRank n l
        → Each P l
        → (a : A) × (find (λ b. eqb (rank b) n) l ≡ some a) × P a × (rank a ≡ n)
    unfolding find HasRank
    find-HasRank n [] h each = absurd h
    find-HasRank n (a ∷ l) h (here, rest) = elim (Bool-cases (eqb (rank a) n)) [
      | inl y ↦ (a, rw y refl, here, (eqb_iff (rank a) n).0 y)
      | inr miss ↦ elim h [
        | inl is ↦ absurd (ground (arith, miss, is))
        | inr later ↦
            let (b, found, p, same) = find-HasRank n l later rest in (b, rw miss found, p, same)
      ]
    ]

    pub find-IsGreatest :
        {P : A → Type 0} (a : A) (l : List A)
        → Each P (a ∷ l)
        → (b : A) × (find (λ c. eqb (rank c) (greatest rank (a ∷ l))) (a ∷ l) ≡ some b)
          × IsGreatest P (a ∷ l) b
    find-IsGreatest a l each =
        let (b, found, p, same) =
          find-HasRank (greatest rank (a ∷ l)) (a ∷ l) (greatest-HasRank _ a l refl) each in
        (b, found, record { holds = p; rank_of = same })

    place_by-cons : (a : A) (l : List A) → (b : A) × (r : List A) × (place_by rank a l ≡ b ∷ r)
    unfolding place_by
    place_by-cons a [] = (a, [], refl)
    place_by-cons a (b ∷ l) = elim (Bool-cases (leb (rank a) (rank b))) [
      | inl y ↦ (a, b ∷ l, rw y refl)
      | inr miss ↦ (b, place_by rank a l, rw miss refl)
    ]

    -- Where the rows that pass `P` have distinct ranks, the first of the greatest is the last in
    -- order.
    pub find-last :
        (P : A → Type 0) (l : List A)
        → ((a b : A) → P a → P b → rank a ≡ rank b → a ≡ b)
        → Each P l
        → find (λ c. eqb (rank c) (greatest rank l)) l ≡ last (order_by rank l)
    unfolding order_by find
    find-last P [] one each = refl
    find-last P (a ∷ l) one each =
        let (b, found, g) = find-IsGreatest {P = P} a l each in
        let (c, r, shape) = place_by-cons a (order_by rank l) in
        let (d, ending, g') =
          last-IsGreatest {P = P} 0 c r (subst (IsAscending 0) shape (order_by-IsAscending (a ∷ l)))
            (subst (Each P) shape (order_by-Each P (a ∷ l) each)) in
        let most : greatest rank (c ∷ r) ≡ greatest rank (a ∷ l) =
          ap (greatest rank) (sym shape) ∙ greatest-order_by (a ∷ l) in
        let same : b ≡ d = one b d g.holds g'.holds (g.rank_of ∙ sym most ∙ sym g'.rank_of) in
        found ∙ ap some same ∙ sym ending ∙ ap last (sym shape)
