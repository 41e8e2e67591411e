-- ===== src/Runtime/Response/Grouping.antt =====
-- The `fields` of a validation error's response.
use shimmy_wasm_go.Base.{
  String, ◌≡◌, List, [], ◌∷◌, ◌++◌, append_assoc, append-nil, arith, str_eq, eq_iff, if◌then◌else◌,
  sym,
}
use shimmy_wasm_go.Json.{strings, Fields, end, get, put}
use shimmy_wasm_go.Json.Laws.{get-put}
use shimmy_wasm_go.Runtime.Errors.{FieldError}
use shimmy_wasm_go.Runtime.Response.{error_fields, descriptions}

-- what was found wrong with the field `k`, in order
abbrev pub about : String → List FieldError → List String
about k [] = []
about k (e ∷ es) = if str_eq e.field k then e.description ∷ about k es else about k es

descriptions-put :
    (k j : String) (ss : List String) (m : Fields)
    → descriptions (get j (put k (strings ss) m))
      ≡ (if str_eq k j then ss else descriptions (get j m))
descriptions-put k j ss m = rw get-put (ground arith)

error_fields-about :
    (m : Fields) (es : List FieldError) (k : String)
    → descriptions (get k (error_fields m es)) ≡ descriptions (get k m) ++ about k es
unfolding error_fields
error_fields-about m [] k = sym (append-nil _)
error_fields-about m (e ∷ es) k = ground (
  arith,
  error_fields-about (put e.field (strings (descriptions (get e.field m) ++ e.description ∷ [])) m)
      es k,
  descriptions-put e.field k (descriptions (get e.field m) ++ e.description ∷ []) m,
  append_assoc (descriptions (get k m)) (e.description ∷ []) (about k es),
  eq_iff e.field k,
)

-- Under each field the response has exactly the descriptions of the errors about that field, in
-- the order in which the validation gave them.
pub error_fields_grouped :
    (es : List FieldError) (k : String) → descriptions (get k (error_fields end es)) ≡ about k es
unfolding get
error_fields_grouped es k = error_fields-about end es k
