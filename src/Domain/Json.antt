-- ===== src/Domain/Json.antt =====
-- JSON values as pydantic hands them over, and the search for a forbidden key in one: the
-- recursion that src/macmini_ai_hub/domain/events.py and storage/models.py share.
pub mod Search
use Prim.Native.Char.{code}
use ai_infrastructure_as_cod.Prelude.{
  ℕ, suc, Bool, true, false, String, Option, none, some, List, [], ◌∷◌, ◌++◌, ◌+◌, ◌==◌, string_eq,
  leb, ◌&&◌, if◌then◌else◌, nat_eq, Eq,
}

-- A number is its literal. An object keeps its keys in insertion order.
mutual
  pub data JsonValue : Type 0 where
    null : JsonValue
    boolean : Bool → JsonValue
    number : String → JsonValue
    text : String → JsonValue
    array : Items → JsonValue
    object : Fields → JsonValue

  pub data Items : Type 0 where
    nil : Items
    cons : JsonValue → Items → Items

  pub data Fields : Type 0 where
    empty : Fields
    field : String → JsonValue → Fields → Fields

-- `payload.get(key)`
unfoldable pub get_field : String → Fields → Option JsonValue
get_field k empty = none
get_field k (field j v fs) = if j == k then some v else get_field k fs

-- `value == s`, of a JSON value that may be missing
abbrev pub is_text : Option JsonValue → String → Bool
is_text (some (text s)) t = s == t
is_text _ t = false

-- The code points of a text; `String` has its own `[]` and `∷`.
unfoldable pub codes : String → List ℕ
codes String.[] = []
codes (String.◌∷◌ c s) = code c ∷ codes s

-- `c.lower()` of one character. Beside A to Z two characters have ASCII in their lower case:
-- U+212A is a k, and U+0130 an i with a combining dot. Any other one is left as it is: its lower
-- case is no ASCII, so no word of ASCII letters is matched either way.
lower : ℕ → List ℕ
lower c =
    if leb 65 c && leb c 90
    then (c + 32) ∷ []
    else if c == 0x212A
    then 107 ∷ []
    else if c == 0x0130
    then 105 ∷ 0x0307 ∷ []
    else c ∷ []

lower_all : List ℕ → List ℕ
unfolding lower
lower_all [] = []
lower_all (c ∷ cs) = lower c ++ lower_all cs

-- `key.lower()`
unfoldable pub lowered : String → List ℕ
unfolding lower_all codes
lowered key = lower_all (codes key)

-- `.replace("-", "_")`
underscored : List ℕ → List ℕ
underscored [] = []
underscored (c ∷ cs) = (if c == 45 then 95 else c) ∷ underscored cs

-- `key.lower().replace("-", "_")`
unfoldable pub normalized : String → List ℕ
unfolding lowered underscored
normalized key = underscored (lowered key)

-- One step of a path into a value: `.key` or `[index]`.
pub data JsonStep : Type 0 where
  key : String → JsonStep
  index : ℕ → JsonStep

-- The first forbidden key, depth first and in order; `forbidden` is the test of one key.
unfoldable mutual
  pub find_key : (String → Bool) → JsonValue → List JsonStep → Option (List JsonStep)
  find_key forbidden null path = none
  find_key forbidden (boolean b) path = none
  find_key forbidden (number n) path = none
  find_key forbidden (text s) path = none
  find_key forbidden (array xs) path = find_in_items forbidden xs 0 path
  find_key forbidden (object fs) path = find_in_fields forbidden fs path

  pub find_in_items : (String → Bool) → Items → ℕ → List JsonStep → Option (List JsonStep)
  find_in_items forbidden nil i path = none
  find_in_items forbidden (cons x xs) i path = elim (find_key forbidden x (path ++ index i ∷ [])) [
    | some found ↦ some found
    | none ↦ find_in_items forbidden xs (suc i) path
  ]

  pub find_in_fields : (String → Bool) → Fields → List JsonStep → Option (List JsonStep)
  find_in_fields forbidden empty path = none
  find_in_fields forbidden (field k v fs) path = elim (forbidden k) [
    | true ↦ some (path ++ key k ∷ [])
    | false ↦ elim (find_key forbidden v (path ++ key k ∷ [])) [
      | some found ↦ some found
      | none ↦ find_in_fields forbidden fs path
    ]
  ]
