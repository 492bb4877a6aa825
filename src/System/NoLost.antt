-- ===== src/System/NoLost.antt =====
-- Which tasks the pool still has in hand: the invariant of the whole pool.
use rust_task_runner.Common.{ℕ, ◌≤◌, ◌≡◌, ◌≢◌, subst, false, List, [], ◌∷◌, In, ◌⊎◌, inl, inr}
use native.Mathlib.Nat.{le_trans}
use rust_task_runner.BinaryHeap.{IsSorted}
use rust_task_runner.Sequence.{Sequence, DelayedTask, delayed_order}
use rust_task_runner.Sequence.Flush.{none_ready}
use rust_task_runner.System.{System, Event, step, run, init}
use rust_task_runner.System.Claims.{
  claims, IsExclusive, Move-IsExclusive, step-Move, init-IsExclusive,
}
use rust_task_runner.System.Pending.{Pending, step-Pending, step-now}
use rust_task_runner.System.Attended.{Attended}
use rust_task_runner.System.Handover.{step-Attended}
use rust_task_runner.System.Changes.{step-Change}

-- Every sequence with an immediate task is attended; every delayed task has its deadline pending,
-- or is due in a sequence that is attended.
pub record IsKept (s : System) : Type 0 where
  pub immediate : (q : ℕ) → (s.sequences q).inner.immediate_queue ≢ [] → Attended s q
  pub delayed :
      (q : ℕ) (d : DelayedTask)
      → In d (s.sequences q).inner.delayed_queue
      → Pending s q d.ready_time ⊎ (d.ready_time ≤ s.now) × Attended s q
  pub sorted : (q : ℕ) → IsSorted delayed_order (s.sequences q).inner.delayed_queue

kept_delayed :
    (e : Event) (s : System)
    → IsExclusive (claims s)
    → IsKept s
    → (q : ℕ) (d : DelayedTask) → In d (s.sequences q).inner.delayed_queue
    → Pending (step e s) q d.ready_time ⊎ (d.ready_time ≤ (step e s).now) × Attended (step e s) q
kept_delayed e s x k q d m = elim (k.delayed q d m) [
  | inl p ↦ elim (step-Pending e s q d.ready_time p) [
    | inl still ↦ inl still
    | inr (due, a) ↦ inr (le_trans due (step-now e s), a)
  ]
  | inr (due, a) ↦ elim (step-Attended e s x q a) [
    | inl still ↦ inr (le_trans due (step-now e s), still)
    | inr nothing ↦ absurd ((none_ready s.now (s.sequences q) nothing (k.sorted q)).1 d m due)
  ]
]

pub step-IsKept : (e : Event) (s : System) → IsExclusive (claims s) → IsKept s → IsKept (step e s)
step-IsKept e s x k = record {
  immediate = λ q h. elim ((step-Change e s q).imm h) [
    | inl before ↦ elim (step-Attended e s x q (k.immediate q before)) [
      | inl a ↦ a
      | inr nothing ↦ absurd (before (none_ready s.now (s.sequences q) nothing (k.sorted q)).0)
    ]
    | inr a ↦ a
  ];
  delayed = λ q d m. elim ((step-Change e s q).del d m) [
    | inl before ↦ kept_delayed e s x k q d before
    | inr p ↦ inl p
  ];
  sorted = λ q. (step-Change e s q).sort (k.sorted q);
}

run-IsKept : (es : List Event) (s : System) → IsExclusive (claims s) → IsKept s → IsKept (run es s)
unfolding run
run-IsKept [] s x k = k
run-IsKept (e ∷ es) s x k =
    run-IsKept es (step e s) (Move-IsExclusive x (step-Move e s)) (step-IsKept e s x k)

-- A pool that starts with empty sequences without workers loses no task, whatever the order in
-- which workers, posting threads, the timer and the clock take their steps: a sequence with an
-- immediate task is in the queue, or with a thread that is about to put it there, or in the hands
-- of a worker that has not yet looked for more work in it; and each delayed task has its deadline
-- on the way to the timer, or is due in a sequence of which the same is true.
pub run-keeps :
    (sequences : ℕ → Sequence)
    → ((q : ℕ) → (sequences q).has_worker ≡ false)
    → ((q : ℕ) → (sequences q).inner.immediate_queue ≡ [])
    → ((q : ℕ) → (sequences q).inner.delayed_queue ≡ [])
    → (es : List Event) → IsKept (run es (init sequences))
run-keeps sequences free none_waits none_delayed es =
    run-IsKept es (init sequences) (init-IsExclusive sequences free) start
  where
    start : IsKept (init sequences)
    start = record {
      immediate = λ q h. absurd (h (unfold init in none_waits q));
      delayed = λ q d m. absurd (subst (In d) (none_delayed q) (unfold init in m));
      sorted = λ q. unfold init in rw (none_delayed q) tt;
    }
