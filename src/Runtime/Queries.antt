-- ===== src/Runtime/Queries.antt =====
-- The queries of src/legion_runtime/postgres.py: WHERE, ORDER BY and max, on a list of rows.
use pantheon_legion.Base.{
  ℕ, Bool, Option, none, some, List, [], ◌∷◌, ltb, leb, if◌then◌else◌, text_eq,
}

module _ {ℓ} {A : Type ℓ} where
  -- The first row that passes.
  unfoldable pub find : (A → Bool) → List A → Option A
  find p [] = none
  find p (a ∷ rest) = if p a then some a else find p rest

  -- `WHERE`
  unfoldable pub keep_if : (A → Bool) → List A → List A
  keep_if p [] = []
  keep_if p (a ∷ rest) = if p a then a ∷ keep_if p rest else keep_if p rest

  unfoldable pub place_by : (A → ℕ) → A → List A → List A
  place_by rank a [] = a ∷ []
  place_by rank a (b ∷ rest) =
      if leb (rank a) (rank b) then a ∷ b ∷ rest else b ∷ place_by rank a rest

  -- `ORDER BY`
  unfoldable pub order_by : (A → ℕ) → List A → List A
  unfolding place_by
  order_by rank [] = []
  order_by rank (a ∷ rest) = place_by rank a (order_by rank rest)

  -- `coalesce(max(rank), 0)`
  unfoldable pub greatest : (A → ℕ) → List A → ℕ
  greatest rank [] = 0
  greatest rank (a ∷ rest) =
      let most = greatest rank rest in if ltb most (rank a) then rank a else most
