-- ===== src/Sequence/Flush.antt =====
-- What the loop of `flush_ready_delayed_tasks` moves, and what `take_task` then returns.
use rust_task_runner.Common.{
  ℕ, ◌≡◌, refl, ◌∙◌, ◌↔◌, Bool, true, false, not, ◌||◌, some, List, [], ◌∷◌, ◌++◌, map, append-nil,
  append_assoc, leb, All, All-map, All-In, In, ap, ◌≤◌, select, select_full, select-none,
  Bool-cases, inl, inr, arith,
}
use rust_task_runner.BinaryHeap
use rust_task_runner.BinaryHeap.{IsSorted}
use rust_task_runner.Task.{Task}
use rust_task_runner.Sequence.{
  Sequence, DelayedTask, delayed_order, flush_loop, pop_front, take_task, has_ready_tasks, due,
}

abbrev pub is_due : ℕ → DelayedTask → Bool
is_due now d = leb d.ready_time now

abbrev pub tasks : List DelayedTask → List Task
tasks = map λ d. d.task

-- Behind a task that is not due, in the order of the heap, no task is due.
pub none_due_behind :
    (now : ℕ) (d : DelayedTask) (ds : List DelayedTask)
    → IsSorted delayed_order (d ∷ ds)
    → is_due now d ≡ false
    → All (λ e. is_due now e ≡ false) ds
none_due_behind now d ds s h = All-map _ _ ds (λ e k. ground arith) s.0

pub flush_loop-eq-select :
    (ds : List DelayedTask) (immediate : List Task) (now : ℕ)
    → IsSorted delayed_order ds
    → flush_loop ds immediate now
      ≡ (immediate ++ tasks (select (is_due now) ds), select (λ d. not (is_due now d)) ds)
unfolding flush_loop
flush_loop-eq-select [] immediate now s = rw append-nil
flush_loop-eq-select (d ∷ ds) immediate now s = elim (Bool-cases (is_due now d)) [
  | inl ready ↦
      rw ready (flush_loop-eq-select ds (immediate ++ d.task ∷ []) now s.1 ∙ simp append_assoc)
  | inr later ↦ rw (
    later,
    select-none (is_due now) ds (none_due_behind now d ds s later),
    append-nil,
    select_full (λ e. not (is_due now e)) ds (not_due (none_due_behind now d ds s later)),
  )
]
  where
    not_due : All (λ e. is_due now e ≡ false) ds → All (λ e. not (is_due now e) ≡ true) ds
    not_due = All-map _ _ ds (λ e k. rw k)

-- `take_task` returns the first of: the immediate tasks, then the delayed tasks that are due, by
-- deadline; the due tasks behind it stay at the end of the immediate queue, and the tasks that are
-- not due stay delayed. The delayed queue is in the order of its heap.
pub take_task-eq-pop_front :
    (now : ℕ) (s : Sequence)
    → IsSorted delayed_order s.inner.delayed_queue
    → let due_tasks = tasks (select (is_due now) s.inner.delayed_queue) in
      let (task, rest) = pop_front (s.inner.immediate_queue ++ due_tasks) in
      take_task now s ≡ (
        task,
        record s {
          inner = record {
            immediate_queue = rest;
            delayed_queue = select (λ d. not (is_due now d)) s.inner.delayed_queue;
            next_sequence_num = s.inner.next_sequence_num;
          };
        },
      )
unfolding take_task
take_task-eq-pop_front now s h =
    rw (flush_loop-eq-select s.inner.delayed_queue s.inner.immediate_queue now h)

-- The loop only adds behind what waits.
flush_loop-front :
    (ds : List DelayedTask) (x : Task) (xs : List Task) (now : ℕ)
    → (pop_front (flush_loop ds (x ∷ xs) now).0).0 ≡ some x
unfolding flush_loop
flush_loop-front [] x xs now = refl
flush_loop-front (d ∷ ds) x xs now = ground (arith, flush_loop-front ds x (xs ++ d.task ∷ []) now)

pop_front-flush_loop :
    (immediate : List Task) (ds : List DelayedTask) (now : ℕ)
    → ((not (BinaryHeap.is_empty immediate) || due now ds) ≡ true)
      ↔ ((t : Task) × ((pop_front (flush_loop ds immediate now).0).0 ≡ some t))
unfolding flush_loop
pop_front-flush_loop (x ∷ xs) ds now = (λ _. (x, flush_loop-front ds x xs now), λ _. refl)
pop_front-flush_loop [] [] now = (λ h. cc, λ h. cc h.1)
pop_front-flush_loop [] (d ∷ ds) now = elim (Bool-cases (is_due now d)) [
  | inl ready ↦ rw ready ((λ _. (d.task, flush_loop-front ds d.task [] now), λ _. refl))
  | inr later ↦ rw later ((λ h. cc, λ h. cc h.1))
]

-- A sequence says that it has ready tasks exactly when `take_task` at that time returns one,
-- whatever the order of its delayed queue.
pub has_ready_tasks-iff-take_task :
    (now : ℕ) (s : Sequence)
    → (has_ready_tasks now s ≡ true) ↔ ((t : Task) × ((take_task now s).0 ≡ some t))
unfolding has_ready_tasks take_task
has_ready_tasks-iff-take_task now s =
    pop_front-flush_loop s.inner.immediate_queue s.inner.delayed_queue now

flush_loop-In :
    (ds : List DelayedTask) (xs : List Task) (now : ℕ) (d : DelayedTask)
    → In d (flush_loop ds xs now).1
    → In d ds
unfolding flush_loop
flush_loop-In [] xs now d m = m
flush_loop-In (e ∷ es) xs now d m = elim (Bool-cases (leb e.ready_time now)) [
  | inl ready ↦ inr (flush_loop-In es _ now d (rw ready at m))
  | inr later ↦ rw later at m
]

flush_loop-IsSorted :
    (ds : List DelayedTask) (xs : List Task) (now : ℕ)
    → IsSorted delayed_order ds
    → IsSorted delayed_order (flush_loop ds xs now).1
unfolding flush_loop
flush_loop-IsSorted [] xs now h = h
flush_loop-IsSorted (e ∷ es) xs now h = elim (Bool-cases (leb e.ready_time now)) [
  | inl ready ↦ rw ready (flush_loop-IsSorted es _ now h.1)
  | inr later ↦ rw later h
]

-- Taking a task neither adds delayed tasks nor breaks their order.
pub take_task-In :
    (now : ℕ) (s : Sequence) (d : DelayedTask)
    → In d (take_task now s).1.inner.delayed_queue
    → In d s.inner.delayed_queue
unfolding take_task
take_task-In now s d m = flush_loop-In s.inner.delayed_queue s.inner.immediate_queue now d m

pub take_task-IsSorted :
    (now : ℕ) (s : Sequence)
    → IsSorted delayed_order s.inner.delayed_queue
    → IsSorted delayed_order (take_task now s).1.inner.delayed_queue
unfolding take_task
take_task-IsSorted now s h = flush_loop-IsSorted s.inner.delayed_queue s.inner.immediate_queue now h

nothing_due :
    (now : ℕ) (xs : List Task) (ds : List DelayedTask)
    → (not (BinaryHeap.is_empty xs) || due now ds) ≡ false
    → IsSorted delayed_order ds
    → (xs ≡ []) × ((d : DelayedTask) → In d ds → ¬ (d.ready_time ≤ now))
nothing_due now (x ∷ xs) ds h s = cc
nothing_due now [] [] h s = (refl, λ d m. absurd m)
nothing_due now [] (e ∷ es) h s = (refl, λ d m. late d m)
  where
    late : (d : DelayedTask) → In d (e ∷ es) → ¬ (d.ready_time ≤ now)
    late d (inl k) = λ l. absurd (ground (arith, ap (λ (z : DelayedTask). z.ready_time) k))
    late d (inr m) = λ l. absurd (ground (arith, All-In _ d es (none_due_behind now e es s h) m))

-- Where nothing is ready, nothing waits and no delayed task is due.
pub none_ready :
    (now : ℕ) (x : Sequence)
    → has_ready_tasks now x ≡ false
    → IsSorted delayed_order x.inner.delayed_queue
    → (x.inner.immediate_queue ≡ [])
      × ((d : DelayedTask) → In d x.inner.delayed_queue → ¬ (d.ready_time ≤ now))
unfolding has_ready_tasks
none_ready now x h s = nothing_due now x.inner.immediate_queue x.inner.delayed_queue h s
