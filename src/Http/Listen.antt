-- ===== src/Http/Listen.antt =====
-- `Serve` and `Shutdown` of internal/server/server.go. What listens, and what serves the requests,
-- is net/http.
use shimmy_wasm_go.Base.{ℕ, str_eq, Bytes, ◌++◌, ◌∷◌, Option, none, some, if◌then◌else◌}
use shimmy_wasm_go.Base.Decimal.{decimal}
use shimmy_wasm_go.Exec.{Error, sentinel, Result, ok, err, panics}

-- `HttpConfig`
pub record HttpConfig : Type 0 where
  pub host : Bytes
  pub port : ℕ

-- `fmt.Sprintf("%s:%d", host, port)`
unfoldable pub address : HttpConfig → Bytes
unfolding decimal
address config = config.host ++ b':' ∷ decimal config.port

abbrev pub server_closed : Error
server_closed = sentinel "http: Server closed"

-- How `Serve` ends: `Fatal` ends the program before it returns.
pub data Served : Type 0 where
  fatal returned : Error → Served
  done : Served

-- `err != http.ErrServerClosed`
abbrev is_closed : Error → Served
is_closed (sentinel s) = if str_eq s "http: Server closed" then done else returned (sentinel s)
is_closed e = returned e

-- `Serve`, for what listening on an address and serving a listener return
unfoldable pub serve :
    {L : Type 0} → (Bytes → Result Error L) → (L → Option Error) → HttpConfig → Served
unfolding address
serve listen serve_listener config = elim (listen (address config)) [
  | err e ↦ fatal e
  | panics ↦ done
  | ok l ↦ elim (serve_listener l) [ none ↦ done | some e ↦ is_closed e ]
]

-- `Shutdown`, which logs the error of the server's own and passes it on
unfoldable pub shut_down : Option Error → Option Error
shut_down none = none
shut_down (some e) = some e
