-- ===== src/Json.antt =====
-- The values that Python's `json` reads and writes, and the tuples that a `dict` may hold besides
-- (a `float` by its `repr`, any other object by its type's name). A `dict` lists its fields in order.
use Prim.Native.String.{String}
use zen_ma2_agent.Prelude.{ℕ, Bool, ◌&&◌, Option, none, some, List, [], ◌∷◌, if◌then◌else◌, all}
use zen_ma2_agent.Prelude.Eq.{◌==◌, string_eq, member}

-- `negsuc n` is -(n + 1).
pub data ℤ : Type 0 where
  pos : ℕ → ℤ
  negsuc : ℕ → ℤ

mutual
  pub data Value : Type 0 where
    null : Value
    bool : Bool → Value
    int : ℤ → Value
    float : String → Value
    str : String → Value
    list : Items → Value
    tuple : Items → Value
    dict : Fields → Value
    object : String → Value

  pub data Items : Type 0 where
    nil : Items
    cons : Value → Items → Items

  pub data Fields : Type 0 where
    end : Fields
    field : String → Value → Fields → Fields

-- `d.get(key)`
unfoldable pub get : String → Fields → Option Value
get k end = none
get k (field j v fs) = if j == k then some v else get k fs

unfoldable pub keys : Fields → List String
keys end = []
keys (field j v fs) = j ∷ keys fs

-- `d[key] = v`
unfoldable pub put : String → Value → Fields → Fields
put k v end = field k v end
put k v (field j w fs) = if j == k then field j v fs else field j w (put k v fs)

-- `set(d) == {…}`
unfoldable pub has_exactly : List String → Fields → Bool
unfolding keys
has_exactly names fs = all (λ k. member k names) (keys fs) && all (λ n. member n (keys fs)) names

-- `isinstance(v, str)` and `isinstance(v, dict)`, with the value
unfoldable pub as_str : Option Value → Option String
as_str (some (str s)) = some s
as_str _ = none

unfoldable pub as_dict : Option Value → Option Fields
as_dict (some (dict fs)) = some fs
as_dict _ = none
