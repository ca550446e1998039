-- ===== src/Runtime/Checks.antt =====
-- src/legion_runtime/agent.py, work.py: the tests that the dataclasses share. A dataclass's
-- `__post_init__` is the list of its tests with their messages; the first that fails is raised.
use pantheon_legion.Base.{
  ℕ, ◌+◌, String, ◌<>◌, ◌==◌, Bool, true, false, ◌&&◌, not, Option, none, some, List, [], ◌∷◌, leb,
  ltb, eqb, if◌then◌else◌, contains,
}
use pantheon_legion.Base.Lists.{length, all}
use pantheon_legion.Base.Text.{strip, codes, is_uuid}

-- `len(value)`
abbrev pub text_length : String → ℕ
text_length s = length (codes s)

-- The bytes of a code point in UTF-8.
utf8_width : ℕ → ℕ
utf8_width c = if ltb c 128 then 1 else if ltb c 2048 then 2 else if ltb c 65536 then 3 else 4

utf8_widths : List ℕ → ℕ
unfolding utf8_width
utf8_widths [] = 0
utf8_widths (c ∷ cs) = utf8_width c + utf8_widths cs

-- `len(value.encode("utf-8"))`
unfoldable pub utf8_length : String → ℕ
unfolding utf8_widths
utf8_length s = utf8_widths (codes s)

-- `_positive`
abbrev pub is_positive : ℕ → Bool
is_positive n = leb 1 n

-- `_bounded`, where the minimum is 1
unfoldable pub is_bounded : ℕ → String → Bool
is_bounded maximum s = leb 1 (text_length (strip s)) && leb (text_length (strip s)) maximum

-- `_utf8_bounded`
unfoldable pub is_utf8_bounded : ℕ → String → Bool
is_utf8_bounded maximum s = leb 1 (utf8_length (strip s)) && leb (utf8_length (strip s)) maximum

-- A test that only a value which is there must pass.
abbrev pub if_given {ℓ} : {A : Type ℓ} → (A → Bool) → Option A → Bool
if_given p none = true
if_given p (some a) = p a

abbrev pub is_given {ℓ} : {A : Type ℓ} → Option A → Bool
is_given none = false
is_given (some a) = true

ends_in_z : List ℕ → Bool
ends_in_z [] = false
ends_in_z (c ∷ []) = eqb c b'Z'
ends_in_z (c ∷ d ∷ cs) = ends_in_z (d ∷ cs)

-- `_timestamp`
unfoldable pub is_timestamp : String → Bool
unfolding ends_in_z
is_timestamp s = is_bounded 64 s && ends_in_z (codes s)

-- `len(set(values)) == len(values)`
unfoldable pub are_distinct : List String → Bool
are_distinct [] = true
are_distinct (x ∷ xs) = not (contains xs x) && are_distinct xs

-- `set(xs).issubset(ys)`
abbrev pub are_within : List String → List String → Bool
are_within xs ys = all (contains ys) xs

-- `xs == ys` on tuples of texts
unfoldable pub same_texts : List String → List String → Bool
same_texts [] [] = true
same_texts [] (y ∷ ys) = false
same_texts (x ∷ xs) [] = false
same_texts (x ∷ xs) (y ∷ ys) = x == y && same_texts xs ys

-- `a == b` where either may be `None`
abbrev pub same_given : Option String → Option String → Bool
same_given none none = true
same_given none (some b) = false
same_given (some a) none = false
same_given (some a) (some b) = a == b

-- The message of the first test that fails.
unfoldable pub first_fault : List (Bool × String) → Option String
first_fault [] = none
first_fault ((passed, message) ∷ rest) = if passed then first_fault rest else some message

abbrev pub uuid_test : String → String → Bool × String
uuid_test name value = (is_uuid value, name <> " must be a UUID")

abbrev pub positive_test : String → ℕ → Bool × String
positive_test name value = (is_positive value, name <> " must be a positive integer")

abbrev pub timestamp_test : String → String → Bool × String
timestamp_test name value = (is_timestamp value, name <> " must be a UTC timestamp")

abbrev pub bounded_test : String → ℕ → String → Bool × String
bounded_test name maximum value = (is_bounded maximum value, name <> " is out of bounds")

abbrev pub optional_test : String → ℕ → Option String → Bool × String
optional_test name maximum value =
    (if_given (is_bounded maximum) value, name <> " is out of bounds")
