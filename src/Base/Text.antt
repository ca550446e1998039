-- ===== src/Base/Text.antt =====
-- What the program uses of `str`: truth, length in characters, `strip`, the decimal form of a
-- number in an f-string, and the test that `uuid.UUID(text)` does not raise.
use Prim.Native.Char.{code}
use Prim.Native.Nat.{ℕ, Ordering, zero, suc, ◌/◌, ◌%◌}
use Prim.Native.String.{String, compare, ◌++◌ as ◌<>◌}
use mathlib.Core.Bool.{Bool, true, false, ◌&&◌, ◌||◌, not}
use mathlib.Core.List.{List, [], ◌∷◌}
use pantheon_legion.Base.Tests.{leb, eqb, if◌then◌else◌}
use pantheon_legion.Base.Lists.{length}

-- `not text`
abbrev pub is_empty : String → Bool
is_empty String.[] = true
is_empty (String.◌∷◌ c s) = false

-- `a < b` on texts
abbrev pub text_lt : String → String → Bool
text_lt a b = elim (compare a b) [ Ordering.lt ↦ true | _ ↦ false ]

-- The code points that `str.strip` and `int` take for white space.
unfoldable pub is_space : ℕ → Bool
is_space c =
    leb 9 c && leb c 13
    || leb 28 c && leb c 32
    || eqb c 133
    || eqb c 160
    || eqb c 5760
    || leb 8192 c && leb c 8202
    || eqb c 8232
    || eqb c 8233
    || eqb c 8239
    || eqb c 8287
    || eqb c 12288

lstrip : String → String
lstrip String.[] = String.[]
lstrip (String.◌∷◌ c s) = if is_space (code c) then lstrip s else String.◌∷◌ c s

rstrip : String → String
rstrip String.[] = String.[]
rstrip (String.◌∷◌ c s) =
    let r = rstrip s in if is_empty r && is_space (code c) then String.[] else String.◌∷◌ c r

-- `text.strip()`
unfoldable pub strip : String → String
unfolding lstrip rstrip is_space
strip s = rstrip (lstrip s)

abbrev digit_text : ℕ → String
digit_text zero = "0"
digit_text (suc zero) = "1"
digit_text (suc (suc zero)) = "2"
digit_text (suc (suc (suc zero))) = "3"
digit_text (suc (suc (suc (suc zero)))) = "4"
digit_text (suc (suc (suc (suc (suc zero))))) = "5"
digit_text (suc (suc (suc (suc (suc (suc zero)))))) = "6"
digit_text (suc (suc (suc (suc (suc (suc (suc zero))))))) = "7"
digit_text (suc (suc (suc (suc (suc (suc (suc (suc zero)))))))) = "8"
digit_text _ = "9"

-- The digits of `n` before the text `tail`; a number has no more digits than `suc n`.
show_before : ℕ → ℕ → String → String
show_before zero n tail = tail
show_before (suc fuel) n tail =
    let here = digit_text (n % 10) <> tail in
    let more = show_before fuel (n / 10) here in if eqb (n / 10) 0 then here else more

-- `str(n)`
unfoldable pub show : ℕ → String
unfolding show_before
show n = show_before (suc n) n ""

abbrev pub codes : String → List ℕ
codes String.[] = []
codes (String.◌∷◌ c s) = code c ∷ codes s

begins_with : List ℕ → List ℕ → Bool
begins_with [] cs = true
begins_with (p ∷ ps) [] = false
begins_with (p ∷ ps) (c ∷ cs) = eqb p c && begins_with ps cs

-- `text.replace(pattern, "")`: the first argument counts the characters still to be left out.
remove_all : ℕ → ℕ → List ℕ → List ℕ → List ℕ
remove_all skip most pattern_codes [] = []
remove_all (suc skip) most pattern_codes (c ∷ cs) = remove_all skip most pattern_codes cs
remove_all zero most pattern_codes (c ∷ cs) = elim (begins_with pattern_codes (c ∷ cs)) [
  | true ↦ remove_all most most pattern_codes cs
  | false ↦ c ∷ remove_all zero most pattern_codes cs
]

is_brace : ℕ → Bool
is_brace c = eqb c b'{' || eqb c b'}'

drop_while : (ℕ → Bool) → List ℕ → List ℕ
drop_while p [] = []
drop_while p (c ∷ cs) = if p c then drop_while p cs else c ∷ cs

drop_while_end : (ℕ → Bool) → List ℕ → List ℕ
drop_while_end p [] = []
drop_while_end p (c ∷ cs) =
    let r = drop_while_end p cs in elim r [ [] ↦ if p c then [] else c ∷ [] | x ∷ xs ↦ c ∷ x ∷ xs ]

strip_codes : (ℕ → Bool) → List ℕ → List ℕ
unfolding drop_while drop_while_end
strip_codes p cs = drop_while_end p (drop_while p cs)

is_hex_digit : ℕ → Bool
is_hex_digit c = leb b'0' c && leb c b'9' || leb b'a' c && leb c b'f' || leb b'A' c && leb c b'F'

-- The digits of `int(text, 16)`: one `_` may stand between two of them. The flag is set where a
-- digit must follow.
hex_digits : Bool → List ℕ → Bool
hex_digits must [] = not must
hex_digits must (c ∷ cs) =
    let after_mark = hex_digits true cs in
    let after_digit = hex_digits false cs in
    if eqb c b'_' then not must && after_mark else is_hex_digit c && after_digit

skip_sign : List ℕ → List ℕ
skip_sign [] = []
skip_sign (c ∷ cs) = if eqb c b'+' || eqb c b'-' then cs else c ∷ cs

skip_mark : List ℕ → List ℕ
skip_mark [] = []
skip_mark (c ∷ cs) = if eqb c b'_' then cs else c ∷ cs

skip_base : List ℕ → List ℕ
skip_base (c ∷ x ∷ cs) =
    if eqb c b'0' && (eqb x b'x' || eqb x b'X') then skip_mark cs else c ∷ x ∷ cs
skip_base cs = cs

-- `int(text, 16)` does not raise
is_hex_number : List ℕ → Bool
unfolding strip_codes is_space skip_sign skip_base skip_mark hex_digits is_hex_digit
is_hex_number cs = hex_digits true (skip_base (skip_sign (strip_codes is_space cs)))

-- `UUID(text)` does not raise. Digits of other scripts, which `int` takes too, are left out.
unfoldable pub is_uuid : String → Bool
unfolding remove_all begins_with strip_codes is_brace is_hex_number
is_uuid s =
    let bare = remove_all 0 4 (codes "uuid:") (remove_all 0 3 (codes "urn:") (codes s)) in
    let hex = remove_all 0 0 (codes "-") (strip_codes is_brace bare) in
    eqb (length hex) 32 && is_hex_number hex
