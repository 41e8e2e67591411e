-- ===== src/Execution/Worker/Command.antt =====
-- internal/execution/worker/: the command of a worker (`createCmd`, `initCmd`), the signal that
-- `killProcess` of worker_unix.go sends, and the deadline of `WaitFor`.
use shimmy_wasm_go.Base.{
  ℕ, zero, suc, String, str_eq, Bool, true, false, Option, none, some, List, [], ◌++◌,
  if◌then◌else◌,
}
use shimmy_wasm_go.Exec.{Error, Result, ok, err, panics}
use shimmy_wasm_go.Json.{ℤ, pos, negsuc}
use shimmy_wasm_go.Execution.Worker.{StartConfig}

-- `exec.Cmd`, as far as it is set; an empty directory is that of the caller.
pub record Cmd : Type 0 where
  pub path : String
  pub args : List String
  pub env : List String
  pub dir : String
  pub own_group : Bool

abbrev pub or_none : Option (List String) → List String
or_none none = []
or_none (some env) = env

-- `initCmd` for Unix: the process gets a group of its own.
unfoldable pub init_cmd : Cmd → Cmd
init_cmd cmd = record cmd { own_group = true }

-- `createCmd`, for the variables of the caller
unfoldable pub create_cmd : List String → StartConfig → Cmd
unfolding init_cmd
create_cmd environ config = init_cmd (record {
  path = config.cmd;
  args = config.args;
  env = environ ++ or_none config.env;
  dir = if str_eq config.cwd "" then "" else config.cwd;
  own_group = false;
})

pub data Signal : Type 0 where
  sigterm sigkill : Signal

-- What `syscall.Kill` is called with: a negative number is a process group.
pub record Kill : Type 0 where
  pub target : ℤ
  pub signal : Signal

abbrev pub negative : ℤ → ℤ
negative (pos zero) = pos zero
negative (pos (suc n)) = negsuc n
negative (negsuc n) = pos (suc n)

-- `killProcess` of a process, for what `Getpgid` returns
unfoldable pub kill_process : ℕ → Result Error ℕ → Bool → Kill
kill_process pid (ok pgid) force = record {
  target = negative (pos pgid);
  signal = if force then sigkill else sigterm;
}
kill_process pid (err e) force = record {
  target = pos pid;
  signal = if force then sigkill else sigterm;
}
kill_process pid panics force = record {
  target = pos pid;
  signal = if force then sigkill else sigterm;
}

-- The timeout with which `WaitFor` waits; without one only its caller's context ends the wait.
unfoldable pub wait_timeout : ℤ → Option ℕ
wait_timeout (pos zero) = none
wait_timeout (pos (suc n)) = some (suc n)
wait_timeout (negsuc n) = none
