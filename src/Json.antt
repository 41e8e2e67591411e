-- ===== src/Json.antt =====
-- The values that Go's `encoding/json` reads into `map[string]any` and writes from it, with the
-- other dynamic types that the program stores in such a map.
pub mod Laws
pub mod Codec
pub mod Plain
use shimmy_wasm_go.Base.{
  ℕ, suc, ◌+◌, ◌-◌, ◌/◌, ◌^◌, String, Bool, true, false, Option, none, some, List, str_eq,
  if◌then◌else◌,
}

-- `negsuc n` is -(n + 1).
pub data ℤ : Type 0 where
  pos negsuc : ℕ → ℤ

-- A finite float64: ± mantissa / 2 ^ halvings.
pub record Float64 : Type 0 where
  pub negative : Bool
  pub mantissa : ℕ
  pub halvings : ℕ

-- The type of `runtime/handler.go` whose values are put into the result.
pub record CaseWarning : Type 0 where
  pub message : String
  pub case : ℕ

-- `any`, by its dynamic types. A map without the nil map is a list of keys and values; of two
-- entries with one key the first counts.
mutual
  pub data Value : Type 0 where
    null : Value
    bool : Bool → Value
    float64 : Float64 → Value
    int : ℤ → Value
    string : String → Value
    slice : Items → Value
    object : Fields → Value
    strings : List String → Value
    case_warnings : List CaseWarning → Value
    case_warning : CaseWarning → Value

  pub data Items : Type 0 where
    nil : Items
    cons : Value → Items → Items

  pub data Fields : Type 0 where
    end : Fields
    field : String → Value → Fields → Fields

-- `map[string]any`, which may be the nil map.
abbrev pub Map : Type 0
Map = Option Fields

-- A read or a `range` takes the nil map for an empty one.
abbrev pub entries : Map → Fields
entries none = end
entries (some m) = m

-- `int(f)`, which cuts the fraction off. (Where the number does not fit an int the result is the
-- platform's in Go, and is the whole number here.)
unfoldable pub truncate : Float64 → ℤ
truncate f =
    let n = f.mantissa / 2 ^ f.halvings in
    if f.negative then elim n [ ℕ.zero ↦ pos 0 | suc m ↦ negsuc m ] else pos n

-- `m[k]`, with `none` for a missing key
unfoldable pub get : String → Fields → Option Value
get k end = none
get k (field j v m) = if str_eq j k then some v else get k m

-- `m[k] = v`
unfoldable pub put : String → Value → Fields → Fields
put k v end = field k v end
put k v (field j w m) = if str_eq j k then field j v m else field j w (put k v m)

-- `for k, v := range from { into[k] = v }`. The order of a `range` is free; with the keys distinct,
-- as those of a map are, it has no effect.
unfoldable pub merge : Fields → Fields → Fields
merge into end = into
merge into (field k v from) = put k v (merge into from)

unfoldable pub has_key : String → Fields → Bool
unfolding get
has_key k m = elim (get k m) [ none ↦ false | some v ↦ true ]

-- the type assertions `v.(T)` with their `ok`
abbrev pub as_object : Option Value → Option Fields
as_object (some (object m)) = some m
as_object _ = none

abbrev pub as_slice : Option Value → Option Items
as_slice (some (slice xs)) = some xs
as_slice _ = none

abbrev pub as_string : Option Value → Option String
as_string (some (string s)) = some s
as_string _ = none

abbrev pub as_bool : Option Value → Option Bool
as_bool (some (bool b)) = some b
as_bool _ = none

abbrev pub as_float64 : Option Value → Option Float64
as_float64 (some (float64 f)) = some f
as_float64 _ = none

-- The value of `m[k]` in an expression: nil where the key is missing.
abbrev pub or_null : Option Value → Value
or_null none = null
or_null (some v) = v

abbrev pub items_length : Items → ℕ
items_length nil = 0
items_length (cons v xs) = suc (items_length xs)

abbrev pub item : Items → ℕ → Option Value
item nil i = none
item (cons v xs) ℕ.zero = some v
item (cons v xs) (suc i) = item xs i

-- A write through a reference that a slice holds.
unfoldable pub set_item : Items → ℕ → Value → Items
set_item nil i w = nil
set_item (cons v xs) ℕ.zero w = cons w xs
set_item (cons v xs) (suc i) w = cons v (set_item xs i w)
