-- ===== src/Json/Laws.antt =====
-- Laws of the maps and slices of JSON values.
use shimmy_wasm_go.Base.{
  ℕ, zero, suc, ◌<◌, String, ◌≡◌, refl, ◌≢◌, false, Option, none, some, arith, str_eq, eq_iff,
  eq_refl, if◌then◌else◌,
}
use shimmy_wasm_go.Json.{
  Value, Items, Fields, nil, cons, end, field, get, put, merge, item, items_length, set_item,
}

pub get-put :
    (k j : String) (v : Value) (m : Fields)
    → get j (put k v m) ≡ (if str_eq k j then some v else get j m)
unfolding get put
get-put k j v end = refl
get-put k j v (field i w m) = ground (arith, eq_iff k j, eq_iff i k, eq_iff i j, get-put k j v m)

pub get-put_self : (k : String) (v : Value) (m : Fields) → get k (put k v m) ≡ some v
get-put_self k v m = simp (get-put, eq_refl)

pub get-put_ne : (k j : String) (v : Value) (m : Fields) → k ≢ j → get j (put k v m) ≡ get j m
get-put_ne k j v m h = ground (arith, get-put k j v m, eq_iff k j)

-- Two texts that the test tells apart, as two literals are.
pub ne_of_str_eq : (k j : String) → str_eq k j ≡ false → k ≢ j
ne_of_str_eq k j h = ground (arith, eq_iff k j)

-- the value that the later map gives, or else the earlier one
abbrev pub first_of_two : Option Value → Option Value → Option Value
first_of_two (some v) o = some v
first_of_two none o = o

-- What the second map has takes precedence in a merge; the rest is the first map's.
pub get-merge :
    (k : String) (into from : Fields)
    → get k (merge into from) ≡ first_of_two (get k from) (get k into)
unfolding get merge
get-merge k into end = refl
get-merge k into (field j v from) =
    ground (arith, get-put j k v (merge into from), get-merge k into from)

pub item-set_item_self :
    (xs : Items) (i : ℕ) (v : Value) → i < items_length xs → item (set_item xs i v) i ≡ some v
unfolding set_item
item-set_item_self nil i v h = elim h [ ]
item-set_item_self (cons x xs) zero v h = refl
item-set_item_self (cons x xs) (suc i) v h = item-set_item_self xs i v (omega arith)

pub items_length-set_item :
    (xs : Items) (i : ℕ) (v : Value) → items_length (set_item xs i v) ≡ items_length xs
unfolding set_item
items_length-set_item nil i v = refl
items_length-set_item (cons x xs) zero v = refl
items_length-set_item (cons x xs) (suc i) v = ground (arith, items_length-set_item xs i v)
