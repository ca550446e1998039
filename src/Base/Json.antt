-- ===== src/Base/Json.antt =====
-- The values of a decoded JSON document (`dict[str, Any]` in the source): what a payload, the
-- arguments of an action and the data of an audit event hold.
use Prim.Native.String.{String, count}
use mathlib.Core.Path.{◌≡◌, refl}
use mathlib.Core.Bool.{Bool, true, false, ◌&&◌, not}
use mathlib.Core.Option.{Option, none, some}
use mathlib.Core.List.{List, [], ◌∷◌}
use native.Mathlib.Omega.{arith}
use text.Mathlib.Text.{◌==◌}
use text.Mathlib.TextPositions.{eq_refl}
use pantheon_legion.Base.Tests.{leb, if◌then◌else◌, contains}

-- A number is kept as its literal text: no code here computes with one.
mutual
  pub data Value : Type 0 where
    null : Value
    bool : Bool → Value
    number : String → Value
    str : String → Value
    arr : Items → Value
    obj : Fields → Value

  pub data Items : Type 0 where
    no_items : Items
    item : Value → Items → Items

  pub data Fields : Type 0 where
    end : Fields
    field : String → Value → Fields → Fields

-- `payload.get(name)`
abbrev pub get : Fields → String → Option Value
get end name = none
get (field k v fs) name = if k == name then some v else get fs name

abbrev pub keys : Fields → List String
keys end = []
keys (field k v fs) = k ∷ keys fs

abbrev pub has : Fields → String → Bool
has fs name = contains (keys fs) name

abbrev pub elements : Items → List Value
elements no_items = []
elements (item v vs) = v ∷ elements vs

-- `{**left, **right}`: a key of both is written in place.
unfoldable pub put : String → Value → Fields → Fields
put k v end = field k v end
put k v (field j w fs) = if j == k then field j v fs else field j w (put k v fs)

unfoldable pub merge : Fields → Fields → Fields
unfolding put
merge fs end = fs
merge fs (field k v gs) = merge (put k v fs) gs

-- `isinstance(value, str) and minimum <= len(value) <= maximum`
unfoldable pub bounded_string : Value → (minimum maximum : Prim.Native.Nat.ℕ) → Bool
bounded_string (str s) minimum maximum = leb minimum (count s) && leb (count s) maximum
bounded_string _ minimum maximum = false

-- `isinstance(value, str) and value in allowed`
unfoldable pub string_in : Value → List String → Bool
string_in (str s) allowed = contains allowed s
string_in _ allowed = false

abbrev pub is_object : Value → Bool
is_object (obj fs) = true
is_object _ = false

-- `required.issubset(value)`
abbrev pub has_all : List String → Fields → Bool
has_all [] fs = true
has_all (k ∷ ks) fs = has fs k && has_all ks fs

-- `not (set(value) - allowed)`
abbrev pub within : List String → List String → Bool
within [] allowed = true
within (k ∷ ks) allowed = contains allowed k && within ks allowed

-- Insertion into fields that stand in the order of their keys, for `sort_keys=True`.
abbrev less : String → String → Bool
less a b = elim (Prim.Native.String.compare a b) [ Prim.Native.Nat.Ordering.lt ↦ true | _ ↦ false ]

insert_sorted : String → Value → Fields → Fields
insert_sorted k v end = field k v end
insert_sorted k v (field j w fs) =
    if less k j then field k v (field j w fs) else field j w (insert_sorted k v fs)

-- The document that `json.dumps(value, sort_keys=True)` prints. The text itself is not modelled:
-- two texts are equal just when these documents are.
unfoldable mutual
  unfolding insert_sorted

  pub canonical : Value → Value
  canonical null = null
  canonical (bool b) = bool b
  canonical (number s) = number s
  canonical (str s) = str s
  canonical (arr vs) = arr (canonical_items vs)
  canonical (obj fs) = obj (canonical_fields fs)

  pub canonical_items : Items → Items
  canonical_items no_items = no_items
  canonical_items (item v vs) = item (canonical v) (canonical_items vs)

  pub canonical_fields : Fields → Fields
  canonical_fields end = end
  canonical_fields (field k v fs) = insert_sorted k (canonical v) (canonical_fields fs)

abbrev same_bool : Bool → Bool → Bool
same_bool true b = b
same_bool false b = not b

-- Equality of two values, field by field in order.
unfoldable mutual
  pub value_eq : Value → Value → Bool
  value_eq null null = true
  value_eq (bool a) (bool b) = same_bool a b
  value_eq (number s) (number t) = s == t
  value_eq (str s) (str t) = s == t
  value_eq (arr vs) (arr ws) = items_eq vs ws
  value_eq (obj fs) (obj gs) = fields_eq fs gs
  value_eq _ _ = false

  pub items_eq : Items → Items → Bool
  items_eq no_items no_items = true
  items_eq (item v vs) (item w ws) = value_eq v w && items_eq vs ws
  items_eq _ _ = false

  pub fields_eq : Fields → Fields → Bool
  fields_eq end end = true
  fields_eq (field k v fs) (field j w gs) = k == j && value_eq v w && fields_eq fs gs
  fields_eq _ _ = false

mutual
  unfolding value_eq items_eq fields_eq

  value_same : (v : Value) → value_eq v v ≡ true
  value_same null = refl
  value_same (bool true) = refl
  value_same (bool false) = refl
  value_same (number s) = eq_refl s
  value_same (str s) = eq_refl s
  value_same (arr vs) = items_same vs
  value_same (obj fs) = fields_same fs

  items_same : (vs : Items) → items_eq vs vs ≡ true
  items_same no_items = refl
  items_same (item v vs) = ground (arith, value_same v, items_same vs)

  fields_same : (fs : Fields) → fields_eq fs fs ≡ true
  fields_same end = refl
  fields_same (field k v fs) = ground (arith, eq_refl k, value_same v, fields_same fs)

pub value_eq_refl : (v : Value) → value_eq v v ≡ true
value_eq_refl v = value_same v
