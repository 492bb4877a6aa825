-- ===== src/Examples/Timers.antt =====
-- Runs of a repeating timer.
use rust_task_runner.Common.{◌≡◌, refl, true, false, List, [], ◌∷◌, ◌++◌, some, pick}
use rust_task_runner.RepeatingTimer
use rust_task_runner.RepeatingTimer.{
  TimerInner, Timer, Event, starts, schedules, leaves, stops, ticks, goes_on, step, run, new, start,
  end_start, stop, schedule_next, run_tick, go_on,
}
use rust_task_runner.RepeatingTimer.Ticks.{to_come, run-single}
use rust_task_runner.RepeatingTimer.Stopped.{due, stop-quiet}

-- Started, ticked once, restarted before the next tick, then both ticks run, and the second is past
-- its upgrade.
abbrev restarted : List Event
restarted =
    starts 10 1
    ∷ schedules 0 true 0
    ∷ leaves 0
    ∷ ticks 0
    ∷ goes_on 10 true
    ∷ goes_on 10 true
    ∷ starts 3 2
    ∷ schedules 15 true 0
    ∷ leaves 0
    ∷ ticks 0
    ∷ ticks 0
    ∷ []

abbrev second : TimerInner
second = record { id = 1; interval = 3; callback = 2 }

-- What the run comes to.
second_runs :
    ((run restarted new).active ≡ some second)
    × ((run restarted new).starting ≡ [])
    × ((run restarted new).leaving ≡ [])
    × ((run restarted new).fired ≡ 1 ∷ [])
unfolding pick run step start end_start schedule_next run_tick go_on RepeatingTimer.fire
second_runs = (refl, refl, refl, refl)

run-single_example : to_come 1 (run restarted new) ≡ 1
run-single_example = run-single restarted second second_runs.0

-- The callback of the tick that is past its upgrade is called after `stop`; the next tick is not.
abbrev afterwards : List Event
afterwards = goes_on 20 true ∷ goes_on 20 true ∷ ticks 0 ∷ []

test_afterwards : (run afterwards (stop (run restarted new))).fired ≡ 2 ∷ 1 ∷ []
unfolding pick run step start end_start schedule_next run_tick go_on stop RepeatingTimer.fire
test_afterwards = refl

stop-quiet_example :
    due (run afterwards (stop (run restarted new))).phase
      ++ (run afterwards (stop (run restarted new))).fired
    ≡ due (run restarted new).phase ++ (run restarted new).fired
stop-quiet_example =
    stop-quiet afterwards (run restarted new) (tt, (tt, (tt, tt))) second_runs.1 second_runs.2

-- On a runner that refuses the post of the next tick, the timer runs on without one.
test_refused :
    let t = run (starts 10 1 ∷ schedules 0 false 0 ∷ leaves 0 ∷ []) new in
    (t.active ≡ some (record { id = 0; interval = 10; callback = 1 })) × (t.pending ≡ [])
unfolding pick run step start end_start schedule_next
test_refused = (refl, refl)
