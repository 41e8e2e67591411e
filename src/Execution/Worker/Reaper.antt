-- ===== src/Execution/Worker/Reaper.antt =====
-- internal/execution/worker/worker.go: the two goroutines of `Start`, the process and the caller of
-- `Wait`, interleaved in any order. The channel `exit` has no buffer: an event that is sent on it is
-- one that the caller takes.
pub mod Delivery
use shimmy_wasm_go.Base.{◌≡◌, ◌≢◌, Bool, true, false, Option, none, some, Bytes, [], ◌++◌}
use shimmy_wasm_go.Execution.Worker.Exit.{WaitResult, ExitEvent, get_exit_event}

-- Where the goroutine that waits for the process is.
pub data Phase : Type 0 where
  before_wait before_stderr before_exit finished : Phase
  sending : ExitEvent → Phase

-- The caller of `Wait`: `gave_up` is the end of its context.
pub data Caller : Type 0 where
  away waiting gave_up : Caller
  took : ExitEvent → Caller

-- `ended` is how the process ended, if it has; `copied` is what the other goroutine has copied from
-- stderr, and `copying` whether it still does.
pub record Running : Type 0 where
  pub phase : Phase
  pub caller : Caller
  pub ended : Option WaitResult
  pub copying : Bool
  pub copied : Bytes

-- behind `Start`
abbrev pub init : Running
init = record { phase = before_wait; caller = away; ended = none; copying = true; copied = [] }

-- a step of the goroutine that waits for the process
pub data Reaps (s : Running) : Running → Type 0 where
  sees_wait : s.phase ≡ before_wait → s.caller ≢ away → Reaps s (record s { phase = before_stderr })
  sees_stderr :
      s.phase ≡ before_stderr → s.copying ≡ false → Reaps s (record s { phase = before_exit })
  sees_exit :
      (r : WaitResult)
      → s.phase ≡ before_exit
      → s.ended ≡ some r
      → Reaps s (record s { phase = sending (get_exit_event r s.copied) })
  delivers :
      (e : ExitEvent)
      → s.phase ≡ sending e
      → s.caller ≡ waiting
      → Reaps s (record s { phase = finished; caller = took e })

pub data Step (s : Running) : Running → Type 0 where
  reaps : (t : Running) → Reaps s t → Step s t
  calls_wait : s.caller ≡ away → Step s (record s { caller = waiting })
  context_ends : s.caller ≡ waiting → Step s (record s { caller = gave_up })
  exits : (r : WaitResult) → s.ended ≡ none → Step s (record s { ended = some r })
  copies : (b : Bytes) → s.copying ≡ true → Step s (record s { copied = s.copied ++ b })
  copy_ends : s.copying ≡ true → Step s (record s { copying = false })

pub data Reach (s : Running) : Running → Type 0 where
  here : Reach s s
  then_step : (t u : Running) → Reach s t → Step t u → Reach s u

-- some steps of that goroutine alone
pub data Reaping : Running → Running → Type 0 where
  rested : (s : Running) → Reaping s s
  reaped : (s t u : Running) → Reaps s t → Reaping t u → Reaping s u
