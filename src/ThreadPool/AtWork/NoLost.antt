-- ===== src/ThreadPool/AtWork/NoLost.antt =====
-- Where an accepted task waits: the queue, the threads and the timer of the pool at work.
use rust_task_runner.Common.{
  ℕ, ◌≡◌, ◌≢◌, refl, ◌⊎◌, inl, inr, Bool, false, some, List, [], ◌∷◌, ◌++◌, map, In, get_elem?,
}
use rust_task_runner.Task.{Task, Callback}
use rust_task_runner.Sequence.{Sequence, DelayedTask}
use rust_task_runner.Sequence.Fifo.{callbacks}
use rust_task_runner.Sequence.Conserve.{contents}
use rust_task_runner.System
use rust_task_runner.System.{System}
use rust_task_runner.System.Claims.{init-IsExclusive}
use rust_task_runner.System.Attended.{Attended, in_hand, holds}
use rust_task_runner.System.Pending.{Pending}
use rust_task_runner.System.NoLost.{IsKept, run-keeps}
use rust_task_runner.ThreadGroup.{Pc, running}
use rust_task_runner.ThreadPool.{PostedTask, Stage, queued}
use rust_task_runner.ThreadPool.AtWork.{Whole, Event, run, new}
use rust_task_runner.ThreadPool.AtWork.Shift.{callback_of, runs, held, both_empty}
use rust_task_runner.ThreadPool.AtWork.Present.{
  Here, in_sequence, at_test, in_callback, ended, dropped,
}
use rust_task_runner.ThreadPool.AtWork.Histories.{run-present}
use rust_task_runner.ThreadPool.AtWork.Attended.{IsAttended, run-IsAttended}

new-IsAttended :
    (sequences : ℕ → Sequence)
    → ((q : ℕ) → (sequences q).has_worker ≡ false)
    → ((q : ℕ) → contents (sequences q) ≡ [])
    → IsAttended (System.init sequences)
new-IsAttended sequences free empty = record {
  exclusive = init-IsExclusive sequences free;
  kept =
      unfold System.run in
      run-keeps sequences free (λ q. (both_empty _ _ (empty q)).0)
        (λ q. (both_empty _ _ (empty q)).1) [];
}

runs_holds : (pc : Pc) (q : ℕ) (c : Callback) → callback_of pc ≡ some (q, c) → holds pc ≡ some q
runs_holds (running r d) q c e = cc e
runs_holds _ q c e = absurd (cc e)

-- A sequence that holds a callback has an immediate task or a delayed one.
held_cases :
    (xs : List Task) (ds : List DelayedTask)
    → callbacks xs ++ callbacks (map (λ d. d.task) ds) ≢ []
    → (xs ≢ []) ⊎ (d : DelayedTask) × In d ds
held_cases [] [] h = absurd (h refl)
held_cases [] (d ∷ ds) h = inr (d, inl refl)
held_cases (x ∷ xs) ds h = inl (λ e. cc e)

-- A sequence is with a thread or in the queue, or has a deadline that the timer will see.
abbrev pub Awaited : System → ℕ → Type 0
Awaited s q = Attended s q ⊎ (time : ℕ) × Pending s q time

held-Awaited : (s : System) (q : ℕ) → IsKept s → contents (s.sequences q) ≢ [] → Awaited s q
held-Awaited s q k h =
    elim (held_cases (s.sequences q).inner.immediate_queue (s.sequences q).inner.delayed_queue h) [
      | inl some_task ↦ inl (k.immediate q some_task)
      | inr (d, m) ↦ elim (k.delayed q d m) [ inl p ↦ inr (d.ready_time, p) | inr (due, a) ↦ inl a ]
    ]

Here-Awaited :
    (w : Whole) (k : ℕ) (st : Stage)
    → IsKept w.system
    → st ≡ queued
    → Here (runs w.system) (held w.system) w.ids w.inside k st
    → (q : ℕ) × (w.ids q ≡ some k) × Awaited w.system q
Here-Awaited w k st kept e (in_sequence q a b c) = (q, b, held-Awaited w.system q kept c)
Here-Awaited w k st kept e (at_test i q c a b d f) =
    (q, b, inl (in_hand i (runs_holds (w.system.group.workers i).pc q c d)))
Here-Awaited w k st kept e (in_callback i q c a b d f) = absurd (cc (e, a))
Here-Awaited w k st kept e (ended a) = absurd (cc (e, a))
Here-Awaited w k st kept e (dropped a) = absurd (cc (e, a))

-- No accepted task is lost on its way to a worker: in every history, one that has not started is
-- that of a sequence which is in the queue, or with a thread that is about to put it there, or in
-- the hands of a worker, or which has a deadline in the heap of the timer or on its way there. At
-- the start no sequence has a worker or holds a task.
pub run-awaits :
    (runner : ℕ → Bool) (monitored : Bool) (sequences : ℕ → Sequence)
    → ((q : ℕ) → (sequences q).has_worker ≡ false)
    → ((q : ℕ) → contents (sequences q) ≡ [])
    → (es : List Event) (k : ℕ) (x : PostedTask)
    → get_elem? (run runner monitored es (new sequences)).pool.tasks k ≡ some x
    → x.stage ≡ queued
    → (q : ℕ) × ((run runner monitored es (new sequences)).ids q ≡ some k)
      × Awaited (run runner monitored es (new sequences)).system q
run-awaits runner monitored sequences free empty es k x e st =
    Here-Awaited (run runner monitored es (new sequences)) k x.stage
      (run-IsAttended runner monitored es (new sequences)
        (new-IsAttended sequences free empty)).kept
      st (run-present runner monitored sequences free empty es k x e)
