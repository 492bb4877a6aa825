-- ===== src/ThreadPool/AtWork/Histories.antt =====
-- Histories of the pool at work, and what `shutdown` has waited for in them.
use rust_task_runner.Common.{
  ℕ, ◌+◌, ◌^◌, ◌<◌, ◌≡◌, ◌≢◌, refl, ap, sym, ◌∙◌, Bool, true, false, some, inl, inr, List, [],
  length, All-get, get_elem?, if◌then◌else◌, arith,
}
use rust_task_runner.Task.{Callback}
use rust_task_runner.TaskTracker.{is_block}
use rust_task_runner.Sequence.{Sequence}
use rust_task_runner.Sequence.Conserve.{contents}
use rust_task_runner.System
use rust_task_runner.System.Claims.{init-IsExclusive}
use rust_task_runner.ThreadGroup
use rust_task_runner.ThreadGroup.{Pc, running}
use rust_task_runner.ThreadPool
use rust_task_runner.ThreadPool.{Pool, PostedTask, queued, finished, returned}
use rust_task_runner.ThreadPool.Shutdown.{shutdown-waits}
use rust_task_runner.ThreadPool.AtWork.{Whole, Event, run, new}
use rust_task_runner.ThreadPool.AtWork.Shift.{callback_of, runs, held}
use rust_task_runner.ThreadPool.AtWork.Refines.{abstract_run, run-Refines, abstract_run-length}
use rust_task_runner.ThreadPool.AtWork.Present.{Here}
use rust_task_runner.ThreadPool.AtWork.Steps.{IsPlaced}
use rust_task_runner.ThreadPool.AtWork.Abstract.{Refines}

new-IsPlaced :
    (runner : ℕ → Bool) (sequences : ℕ → Sequence)
    → ((q : ℕ) → (sequences q).has_worker ≡ false)
    → ((q : ℕ) → contents (sequences q) ≡ [])
    → IsPlaced runner (new sequences)
unfolding System.init ThreadGroup.new
new-IsPlaced runner sequences free empty = record {
  exclusive = init-IsExclusive sequences free;
  places = record {
    waiting = λ q k e. absurd (cc e);
    run_by = λ i q k c h e. absurd (cc e);
    outside = λ i e. refl;
    unused = λ q e f. empty q;
    unclaimed = λ i q c h e. absurd (cc h);
    apart = λ q r k e f. absurd (cc e);
    bounded = λ q k e. absurd (cc e);
    kept = λ q h. refl;
  };
  present = λ k x e. absurd (cc e);
}

-- The pool at work, with its sequences, queue, workers and timer, does to the tasks, the tracker
-- and the caller of `shutdown` what the pool without a queue does: each post to the pool is a post
-- there, the two steps of a worker in a closure of `wrap` are the start and the end of its task,
-- and all other steps are none. At the start no sequence has a worker or holds a task.
pub run-refines :
    (runner : ℕ → Bool) (monitored : Bool) (sequences : ℕ → Sequence)
    → ((q : ℕ) → (sequences q).has_worker ≡ false)
    → ((q : ℕ) → contents (sequences q) ≡ [])
    → (es : List Event)
    → (run runner monitored es (new sequences)).pool
      ≡ ThreadPool.run (abstract_run runner monitored es (new sequences)) ThreadPool.new
run-refines runner monitored sequences free empty es =
    (run-Refines runner monitored es (new sequences)
      (new-IsPlaced runner sequences free empty)).same

-- No accepted task is lost: in every history, one that has not started is held by a sequence of
-- its own or with a worker at the test of its closure, and one in its callback is with a worker
-- past the test. At the start no sequence has a worker or holds a task.
pub run-present :
    (runner : ℕ → Bool) (monitored : Bool) (sequences : ℕ → Sequence)
    → ((q : ℕ) → (sequences q).has_worker ≡ false)
    → ((q : ℕ) → contents (sequences q) ≡ [])
    → (es : List Event) (k : ℕ) (x : PostedTask)
    → get_elem? (run runner monitored es (new sequences)).pool.tasks k ≡ some x
    → Here
        (runs (run runner monitored es (new sequences)).system)
        (held (run runner monitored es (new sequences)).system)
        (run runner monitored es (new sequences)).ids
        (run runner monitored es (new sequences)).inside
        k
        x.stage
run-present runner monitored sequences free empty es k x e =
    let r =
      run-Refines runner monitored es (new sequences) (new-IsPlaced runner sequences free empty) in
    r.placed.present k x e

-- When `shutdown` is past its wait, no sequence holds the closure of an accepted task that blocks
-- the shutdown and no worker is in one, however posts, workers, timer and clock were interleaved:
-- in a history of fewer than 2^64 - 1 steps of a new pool over sequences that have no worker and
-- hold no task.
pub shutdown-drains :
    (runner : ℕ → Bool) (monitored : Bool) (sequences : ℕ → Sequence)
    → ((q : ℕ) → (sequences q).has_worker ≡ false)
    → ((q : ℕ) → contents (sequences q) ≡ [])
    → (es : List Event) → length es + 1 < 2 ^ 64
    → (run runner monitored es (new sequences)).pool.caller ≡ returned
    → (q k : ℕ) (x : PostedTask) → (run runner monitored es (new sequences)).ids q ≡ some k
    → get_elem? (run runner monitored es (new sequences)).pool.tasks k ≡ some x
    → is_block x.traits.shutdown_behavior ≡ true
    → (contents ((run runner monitored es (new sequences)).system.sequences q) ≡ [])
      × ((i : ℕ) (c : Callback)
          → ((run runner monitored es (new sequences)).system.group.workers i).pc ≢ running q c)
shutdown-drains runner monitored sequences free empty es small r q k x e at_k b = (
  elim (done.placed.places.waiting q k e) [
    | inl nothing ↦ nothing
    | inr here ↦ absurd (cc (here.stage, at_k, x_finished))
  ],
  λ i c h.
      let runs = done.placed.places.run_by i q k c (ap callback_of h) e in
      not_finished (end.inside i) (cc (runs.stage, at_k, x_finished)),
)
  where
    end : Whole
    end = run runner monitored es (new sequences)

    done : Refines runner (abstract_run runner monitored es (new sequences)) (new sequences) end
    done =
        run-Refines runner monitored es (new sequences) (new-IsPlaced runner sequences free empty)

    x_finished : x.stage ≡ finished
    x_finished =
        All-get (λ y. is_block y.traits.shutdown_behavior ≡ true → y.stage ≡ finished)
          end.pool.tasks k x
          (rw done.same (
            shutdown-waits (abstract_run runner monitored es (new sequences))
              (omega (arith, small, abstract_run-length runner monitored es (new sequences)))
              (ap (λ p. p.caller) (sym done.same) ∙ r)))
          at_k b

    not_finished : (c : Bool) → (if c then ThreadPool.running else queued) ≢ finished
    not_finished true h = cc h
    not_finished false h = cc h
