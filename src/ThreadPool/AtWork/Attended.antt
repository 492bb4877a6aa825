-- ===== src/ThreadPool/AtWork/Attended.antt =====
-- The pool at work keeps what System.NoLost says of its sequences, its queue and its timer.
use rust_task_runner.Common.{
  ℕ, ◌≡◌, refl, inl, inr, Bool, true, false, Option, none, some, List, [], ◌∷◌, if◌then◌else◌,
}
use rust_task_runner.Task
use rust_task_runner.Task.{Task, Callback, TaskTraits, guarded}
use rust_task_runner.DelayedTaskManager
use rust_task_runner.System
use rust_task_runner.System.{System}
use rust_task_runner.System.Claims.{claims, IsExclusive, step-Move, Move-IsExclusive}
use rust_task_runner.System.Attended.{Attended, in_queue, in_posting, in_hand}
use rust_task_runner.System.Pending.{Pending, in_heap, in_registering}
use rust_task_runner.System.NoLost.{IsKept, step-IsKept}
use rust_task_runner.ThreadGroup.{Pc, running}
use rust_task_runner.ThreadPool.{Pool, Stage, skipped, Caller, returned, post_task}
use rust_task_runner.ThreadPool.AtWork.{
  Whole, Closing, waiting, joining, closed, act, after_test, run_wrapped, on_closure, work, close,
  shutdown, post, post_to_runner, timed_by_monitor, Event, posts, posts_delayed, posts_to_runner,
  posts_delayed_to_runner, works, delivers, registers, timer, ticks, shuts_down, wakes, step, run,
}

-- No task is lost, and each claim has one owner.
pub record IsAttended (s : System) : Type 0 where
  pub exclusive : IsExclusive (claims s)
  pub kept : IsKept s

system_step : (e : System.Event) (s : System) → IsAttended s → IsAttended (System.step e s)
system_step e s a = record {
  exclusive = Move-IsExclusive a.exclusive (step-Move e s);
  kept = step-IsKept e s a.exclusive a.kept;
}

-- The end of the timer thread leaves the deadlines where they are.
stopped_Pending :
    (q time : ℕ) (s : System)
    → Pending s q time
    → Pending (record s { manager = DelayedTaskManager.shut_down s.manager }) q time
unfolding DelayedTaskManager.shut_down
stopped_Pending q time s (in_heap e m h k) = in_heap e m h k
stopped_Pending q time s (in_registering r m h k) = in_registering r m h k

stopped_Attended :
    (q : ℕ) (s : System)
    → Attended s q
    → Attended (record s { manager = DelayedTaskManager.shut_down s.manager }) q
stopped_Attended q s (in_queue e m h) = in_queue e m h
stopped_Attended q s (in_posting m) = in_posting m
stopped_Attended q s (in_hand i h) = in_hand i h

stop-IsAttended :
    (s : System)
    → IsAttended s
    → IsAttended (record s { manager = DelayedTaskManager.shut_down s.manager })
stop-IsAttended s a = record {
  exclusive = a.exclusive;
  kept = record {
    immediate = λ q h. stopped_Attended q s (a.kept.immediate q h);
    delayed = λ q d m. elim (a.kept.delayed q d m) [
      | inl p ↦ inl (stopped_Pending q d.ready_time s p)
      | inr (due, b) ↦ inr (due, stopped_Attended q s b)
    ];
    sorted = a.kept.sorted;
  };
}

after_test-IsAttended :
    (i : ℕ) (st : Stage) (p : Pool) (w : Whole)
    → IsAttended w.system
    → IsAttended (after_test i st p w).system
after_test-IsAttended i skipped p w a = system_step (System.works i) w.system a
after_test-IsAttended i _ p w a = a

closure-IsAttended :
    (i : ℕ) (traits : TaskTraits) (o : Option ℕ) (b : Bool) (w : Whole)
    → w.inside i ≡ b
    → IsAttended w.system
    → IsAttended (on_closure i traits o w).system
unfolding on_closure run_wrapped
closure-IsAttended i traits none b w e a = system_step (System.works i) w.system a
closure-IsAttended i traits (some k) false w e a = rw e (after_test-IsAttended i _ _ w a)
closure-IsAttended i traits (some k) true w e a = rw e (system_step (System.works i) w.system a)

work-IsAttended :
    (i : ℕ) (pc : Pc) (w : Whole) → IsAttended w.system → IsAttended (work i pc w).system
unfolding work
work-IsAttended i (running q (guarded traits c)) w a =
    closure-IsAttended i traits (w.ids q) (w.inside i) w refl a
work-IsAttended i _ w a = system_step (System.works i) w.system a

close-IsAttended : (c : Closing) (w : Whole) → IsAttended w.system → IsAttended (close c w).system
unfolding close
close-IsAttended waiting w a = system_step System.joins w.system a
close-IsAttended joining w a = stop-IsAttended w.system a
close-IsAttended closed w a = a

shutdown-IsAttended :
    (c : Caller) (w : Whole) → IsAttended w.system → IsAttended (shutdown c w).system
unfolding shutdown
shutdown-IsAttended returned w a = close-IsAttended w.closing w a
shutdown-IsAttended _ w a = a

when-IsAttended :
    (b : Bool) (v w : Whole)
    → IsAttended v.system
    → IsAttended w.system
    → IsAttended (if b then v else w).system
when-IsAttended true v w a c = a
when-IsAttended false v w a c = c

module _ (runner : ℕ → Bool) (monitored : Bool) where
  post-IsAttended :
      (q : ℕ) (push : Callback → System.Event) (n : ℕ) (w : Whole)
      → IsAttended w.system
      → IsAttended (post runner monitored q push n w).system
  unfolding post
  post-IsAttended q push n w a = when-IsAttended _ w _ a (
      when-IsAttended (post_task (w.system.sequences q).traits w.pool).0 _ _
        (system_step _ w.system a) a)

  to_runner-IsAttended :
      (q : ℕ) (e : System.Event) (w : Whole)
      → IsAttended w.system
      → IsAttended (post_to_runner runner monitored q e w).system
  unfolding post_to_runner
  to_runner-IsAttended q e w a = when-IsAttended (runner q) (act e w) w (system_step e w.system a) a

  step-IsAttended :
      (e : Event) (w : Whole) → IsAttended w.system → IsAttended (step runner monitored e w).system
  unfolding step
  step-IsAttended (posts q n) w a = post-IsAttended q (λ c. System.posts q (Task.new c 0)) n w a
  step-IsAttended (posts_delayed q n delay) w a =
      post-IsAttended q (λ c. System.posts_delayed q (Task.new c 0) delay) n w a
  step-IsAttended (posts_to_runner q c) w a =
      to_runner-IsAttended q
        (System.posts q (Task.new (timed_by_monitor monitored w.system.now c) 0)) w a
  step-IsAttended (posts_delayed_to_runner q c delay) w a =
      to_runner-IsAttended q
        (System.posts_delayed q (Task.new (timed_by_monitor monitored w.system.now c) 0) delay) w a
  step-IsAttended (works i) w a = work-IsAttended i (w.system.group.workers i).pc w a
  step-IsAttended (delivers k) w a = system_step (System.delivers k) w.system a
  step-IsAttended (registers k) w a = system_step (System.registers k) w.system a
  step-IsAttended timer w a = system_step System.timer w.system a
  step-IsAttended (ticks n) w a = system_step (System.ticks n) w.system a
  step-IsAttended shuts_down w a = shutdown-IsAttended w.pool.caller w a
  step-IsAttended wakes w a = a

  pub run-IsAttended :
      (es : List Event) (w : Whole)
      → IsAttended w.system
      → IsAttended (run runner monitored es w).system
  run-IsAttended [] w a = a
  run-IsAttended (e ∷ es) w a =
      run-IsAttended es (step runner monitored e w) (step-IsAttended e w a)
