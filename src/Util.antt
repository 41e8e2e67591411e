-- ===== src/Util.antt =====
-- util/must.go, util/proc.go, and the start of main.go.
use shimmy_wasm_go.Base.{
  Bytes, codes, map, to_lower, Bool, true, false, Option, none, some, [], ◌∷◌, ◌==◌,
}
use shimmy_wasm_go.Exec.{Error, Result, ok, err, panics}
use shimmy_wasm_go.Json.{ℤ, pos, negsuc}
use shimmy_wasm_go.Config.{truthy}

-- `Must`
unfoldable pub must {ℓ} : {V : Type ℓ} → Result Error V → Result Error V
must (ok v) = ok v
must (err e) = panics
must panics = panics

-- What `ps -p` ends with: no error, an exit code, or another error.
pub data Ran : Type 0 where
  ran failed : Ran
  exited : ℤ → Ran

abbrev is_zero : ℤ → Bool
is_zero (pos n) = n == 0
is_zero (negsuc n) = false

-- `IsProcessAlive`
unfoldable pub is_process_alive : Ran → Bool
is_process_alive ran = true
is_process_alive failed = false
is_process_alive (exited code) = is_zero code

-- `sentry.ClientOptions`, as far as the program chooses it
pub record SentryOptions : Type 0 where
  pub dsn : Bytes
  pub environment : Bytes
  pub debug : Bool

abbrev pub or_local : Bytes → Bytes
or_local [] = codes "local"
or_local (c ∷ s) = c ∷ s

-- `setupSentry`, for the three variables: no initialisation without a DSN
unfoldable pub setup_sentry : Bytes → Bytes → Bytes → Option SentryOptions
unfolding truthy to_lower
setup_sentry dsn environment debug = elim dsn [
  | [] ↦ none
  | c ∷ s ↦ some (record {
    dsn = c ∷ s;
    environment = or_local environment;
    debug = truthy (map to_lower debug);
  })
]
