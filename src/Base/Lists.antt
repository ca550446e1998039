-- ===== src/Base/Lists.antt =====
-- Lists measured by native numbers, and the order of prefixes in which a log grows.
use Prim.Native.Nat.{ℕ, suc, ◌+◌}
use mathlib.Core.Path.{◌≡◌, sym, ◌∙◌, ap}
use mathlib.Core.Bool.{Bool, true, false, ◌&&◌, ◌||◌}
use mathlib.Core.List.{List, [], ◌∷◌, ◌++◌, append-nil, append_assoc}
use native.Mathlib.Omega.{arith}

module _ {ℓ} {A : Type ℓ} where
  abbrev pub length : List A → ℕ
  length [] = 0
  length (x ∷ xs) = suc (length xs)

  -- `any(p(x) for x in xs)` and `all(p(x) for x in xs)`
  abbrev pub any : (A → Bool) → List A → Bool
  any p [] = false
  any p (x ∷ xs) = p x || any p xs

  abbrev pub all : (A → Bool) → List A → Bool
  all p [] = true
  all p (x ∷ xs) = p x && all p xs

  pub length-append : (xs ys : List A) → length (xs ++ ys) ≡ length xs + length ys
  length-append [] ys = omega arith
  length-append (x ∷ xs) ys = omega (arith, length-append xs ys)

-- `ys` begins with `xs`.
abbrev pub StartsWith {ℓ} : {A : Type ℓ} → List A → List A → Type ℓ
StartsWith {A} xs ys = (rest : List A) × (ys ≡ xs ++ rest)

module _ {ℓ} {A : Type ℓ} where
  pub StartsWith-refl : (xs : List A) → StartsWith xs xs
  StartsWith-refl xs = ([], sym (append-nil xs))

  pub StartsWith-snoc : (xs ys : List A) (a : A) → StartsWith xs ys → StartsWith xs (ys ++ a ∷ [])
  StartsWith-snoc xs ys a (rest, e) =
      (rest ++ a ∷ [], ap (λ l. l ++ a ∷ []) e ∙ append_assoc xs rest (a ∷ []))
