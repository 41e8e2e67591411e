-- ===== src/Runtime/Command.antt =====
-- runtime/models.go, and `getCommand` of runtime/handler.go.
use shimmy_wasm_go.Base.{
  String, Bool, true, Option, none, some, bytes_eq, codes, to_lower, map, List, [], ◌∷◌, str_eq,
  if◌then◌else◌, ◌≡◌, refl,
}

-- The constants of type `Command`, which is a string type, and its other values.
pub data Command : Type 0 where
  preview eval healthcheck : Command
  other : String → Command

abbrev pub command_text : Command → String
command_text preview = "preview"
command_text eval = "eval"
command_text healthcheck = "healthcheck"
command_text (other s) = s

unfoldable pub parse_command : String → Option Command
unfolding bytes_eq to_lower
parse_command path =
    let lower = map to_lower (codes path) in
    if bytes_eq lower (codes "eval")
    then some eval
    else if bytes_eq lower (codes "preview")
    then some preview
    else if bytes_eq lower (codes "healthcheck")
    then some healthcheck
    else none

-- `http.Header`, whose keys are canonical.
abbrev pub Header : Type 0
Header = List (String × List String)

-- `Header.Get` of a canonical key: the first value, or the empty text.
unfoldable pub header_get : String → Header → String
header_get k [] = ""
header_get k ((j, []) ∷ h) = if str_eq j k then "" else header_get k h
header_get k ((j, v ∷ vs) ∷ h) = if str_eq j k then v else header_get k h

-- `getCommand`: the command, and whether there is one
unfoldable pub get_command : Header → String × Bool
unfolding header_get
get_command h =
    let command = header_get "Command" h in
    if str_eq command "" then ("eval", true) else (command, true)

parse_mixed : parse_command "Preview" ≡ some preview
unfolding parse_command
parse_mixed = refl
