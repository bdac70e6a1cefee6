-- ===== src/Json.antt =====
-- The values that `json.loads` returns, and Python's operations on them.
use dispatcher_for_codex_age.Prelude.{
  ℕ, String, Bool, true, false, not, ◌&&◌, Option, none, some, List, [], ◌∷◌, ◌^◌, ◌==◌, string_eq,
  if◌then◌else◌,
}
use dispatcher_for_codex_age.Prelude.Int.{ℤ, pos, ltb_scaled}

-- A finite float is m / 2 ^ k. `json.loads` also reads `NaN`, `Infinity` and `-Infinity`.
pub data Float : Type 0 where
  finite : ℤ → ℕ → Float
  infinity neg_infinity nan : Float

mutual
  pub data Json : Type 0 where
    null : Json
    bool : Bool → Json
    int : ℤ → Json
    float : Float → Json
    str : String → Json
    arr : Items → Json
    obj : Fields → Json

  pub data Items : Type 0 where
    nil : Items
    cons : Json → Items → Items

  -- A dict: the first entry of a key counts.
  pub data Fields : Type 0 where
    end : Fields
    field : String → Json → Fields → Fields

-- `list(value)` of an array.
abbrev pub elements : Items → List Json
elements nil = []
elements (cons x xs) = x ∷ elements xs

abbrev pub keys : Fields → List String
keys end = []
keys (field k v fs) = k ∷ keys fs

-- `d[k]`, or `none` where it raises KeyError.
abbrev pub find : String → Fields → Option Json
find k end = none
find k (field j v fs) = if k == j then some v else find k fs

-- `d.get(k)`: a missing key reads as None.
abbrev pub get : String → Fields → Json
get k fs = elim (find k fs) [ none ↦ null | some v ↦ v ]

abbrev pub is_str : Json → Bool
is_str (str s) = true
is_str _ = false

abbrev pub is_obj : Json → Bool
is_obj (obj fs) = true
is_obj _ = false

abbrev pub is_arr : Json → Bool
is_arr (arr xs) = true
is_arr _ = false

abbrev pub is_null : Json → Bool
is_null null = true
is_null _ = false

-- `value == "text"`
abbrev pub str_is : String → Json → Bool
str_is t (str s) = s == t
str_is t _ = false

-- A number's place on the line: `int` and `float` compare exactly in Python.
pub data Number : Type 0 where
  rational : ℤ → ℕ → Number
  above_all below_all unordered : Number

abbrev pub float_number : Float → Number
float_number (finite m k) = rational m k
float_number infinity = above_all
float_number neg_infinity = below_all
float_number nan = unordered

-- `bool` is a subclass of `int`.
abbrev pub number : Json → Option Number
number (bool true) = some (rational (pos 1) 0)
number (bool false) = some (rational (pos 0) 0)
number (int n) = some (rational n 0)
number (float x) = some (float_number x)
number _ = none

-- `a < b`
abbrev pub number_lt : Number → Number → Bool
number_lt (rational a j) (rational b k) = ltb_scaled a (2 ^ k) b (2 ^ j)
number_lt (rational a j) above_all = true
number_lt below_all (rational b k) = true
number_lt below_all above_all = true
number_lt _ _ = false

-- `a == b`
abbrev pub number_eq : Number → Number → Bool
number_eq (rational a j) (rational b k) =
    not (ltb_scaled a (2 ^ k) b (2 ^ j)) && not (ltb_scaled b (2 ^ j) a (2 ^ k))
number_eq above_all above_all = true
number_eq below_all below_all = true
number_eq _ _ = false
