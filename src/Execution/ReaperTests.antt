-- ===== src/Execution/ReaperTests.antt =====
-- Runs of the goroutines of a worker.
use shimmy_wasm_go.Base.{◌≡◌, ◌≢◌, refl, false, some, codes, [], ◌++◌, arith}
use shimmy_wasm_go.Execution.Worker.Exit.{clean, get_exit_event}
use shimmy_wasm_go.Execution.Worker.Reaper.{
  Running, init, before_stderr, before_exit, finished, sending, waiting, gave_up, took, reaps,
  sees_wait, sees_stderr, sees_exit, delivers, calls_wait, context_ends, exits, copies, copy_ends,
  Reach, here, then_step, Reaping,
}
use shimmy_wasm_go.Execution.Worker.Reaper.Delivery.{
  Complete, Reach-complete, Reach-delivers, gave_up-leaks,
}

-- a caller waits for a process that has written, ended, and closed its stderr
abbrev called : Running
called = record init { caller = waiting }

abbrev wrote : Running
wrote = record called { copied = [] ++ codes "no" }

abbrev over : Running
over = record wrote { ended = some clean }

abbrev ready : Running
ready = record over { copying = false }

ready-Reach : Reach init ready
ready-Reach =
    then_step over ready
      (then_step wrote over
        (then_step called wrote (then_step init called here (calls_wait refl))
          (copies (codes "no") refl))
        (exits clean refl))
      (copy_ends refl)

Reach-delivers_example :
    (t : Running) × Reaping ready t
    × (t.caller ≡ took (get_exit_event clean ready.copied))
    × (t.phase ≡ finished)
Reach-delivers_example = Reach-delivers ready clean ready-Reach refl refl refl

abbrev at_stderr : Running
at_stderr = record ready { phase = before_stderr }

abbrev at_exit : Running
at_exit = record ready { phase = before_exit }

abbrev at_channel : Running
at_channel = record ready { phase = sending (get_exit_event clean ready.copied) }

abbrev done : Running
done = record ready { phase = finished; caller = took (get_exit_event clean ready.copied) }

done-Reach : Reach init done
done-Reach =
    then_step at_channel done
      (then_step at_exit at_channel
        (then_step at_stderr at_exit
          (then_step ready at_stderr ready-Reach (reaps at_stderr (sees_wait refl (ground arith))))
          (reaps at_exit (sees_stderr refl refl)))
        (reaps at_channel (sees_exit clean refl refl)))
      (reaps done (delivers (get_exit_event clean ready.copied) refl refl))

Reach-complete_example : Complete done (get_exit_event clean ready.copied)
Reach-complete_example = Reach-complete done (get_exit_event clean ready.copied) done-Reach refl

abbrev left : Running
left = record called { caller = gave_up }

left-Reach : Reach init left
left-Reach =
    then_step called left (then_step init called here (calls_wait refl)) (context_ends refl)

abbrev left_later : Running
left_later = record left { ended = some clean }

gave_up-leaks_example : left_later.phase ≢ finished
gave_up-leaks_example =
    gave_up-leaks left left_later left-Reach refl
      (then_step left left_later here (exits clean refl))
