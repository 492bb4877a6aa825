-- ===== src/Sequence/Deadline.antt =====
-- The order in which delayed tasks become due.
use rust_task_runner.Common.{
  ℕ, ◌+◌, ◌<◌, ◌≡◌, refl, ◌^◌, Bool, not, List, [], ◌∷◌, ◌++◌, All, All-map, All-select, select,
  select-none, select_full, Bool-cases, inl, inr, arith, true, false,
}
use rust_task_runner.BinaryHeap
use rust_task_runner.BinaryHeap.{is_gt, IsSorted, push-IsSorted, push-All}
use rust_task_runner.Task.{Task}
use rust_task_runner.Sequence.{
  Sequence, DelayedTask, delayed_order, take_task, push_delayed_task, push_task, will_run_task,
  release_worker,
}
use rust_task_runner.Sequence.Flush.{is_due, none_due_behind, take_task-eq-pop_front}
use rust_task_runner.Sequence.Fifo.{Call, posts, posts_delayed, claims, takes, releases, call}

-- The delayed queue is in the order of its heap, and its numbers were given out before.
pub record IsOrdered (s : Sequence) : Type 0 where
  pub sorted : IsSorted delayed_order s.inner.delayed_queue
  pub numbered : All (λ d. d.sequence_num < s.inner.next_sequence_num) s.inner.delayed_queue

-- The task that `push_delayed_task` queues.
abbrev pub numbered_task : Task → ℕ → Sequence → DelayedTask
numbered_task t time s = record {
  ready_time = time;
  sequence_num = s.inner.next_sequence_num;
  task = record t { sequence_num = s.inner.next_sequence_num };
}

stays_ahead :
    (d e : DelayedTask)
    → e.sequence_num < d.sequence_num
    → is_due d.ready_time e ≡ true
    → is_gt (delayed_order.cmp d e) ≡ false
stays_ahead d e n h = ground arith

goes_ahead :
    (d e : DelayedTask) → is_due d.ready_time e ≡ false → is_gt (delayed_order.cmp d e) ≡ true
goes_ahead d e h = ground arith

push-eq-select :
    (d : DelayedTask) (ds : List DelayedTask)
    → IsSorted delayed_order ds
    → All (λ e. e.sequence_num < d.sequence_num) ds
    → BinaryHeap.push delayed_order d ds
      ≡ select (is_due d.ready_time) ds ++ d ∷ select (λ e. not (is_due d.ready_time e)) ds
unfolding BinaryHeap.push
push-eq-select d [] s n = refl
push-eq-select d (e ∷ es) s n = elim (Bool-cases (is_due d.ready_time e)) [
  | inl before ↦ rw (stays_ahead d e n.0 before, before, push-eq-select d es s.1 n.1)
  | inr after ↦
      let none_before = none_due_behind d.ready_time e es s after in
      rw (
        goes_ahead d e after,
        after,
        select-none (is_due d.ready_time) es none_before,
        select_full (λ x. not (is_due d.ready_time x)) es
            (All-map _ (λ x. not (is_due d.ready_time x) ≡ true) es (λ x k. rw k) none_before),
      )
]

-- In a sequence whose delayed queue is in order and numbered below its counter, a new delayed task
-- goes behind all whose deadline is not later than its own, those of the same deadline included,
-- and before the others.
pub push_delayed_task-eq-select :
    (t : Task) (time : ℕ) (s : Sequence)
    → IsOrdered s
    → let ds = s.inner.delayed_queue in
      (push_delayed_task t time s).inner.delayed_queue
      ≡ select (is_due time) ds ++ numbered_task t time s ∷ select (λ e. not (is_due time e)) ds
unfolding push_delayed_task
push_delayed_task-eq-select t time s o =
    push-eq-select (numbered_task t time s) s.inner.delayed_queue o.sorted o.numbered

select-IsSorted :
    (p : DelayedTask → Bool) (ds : List DelayedTask)
    → IsSorted delayed_order ds
    → IsSorted delayed_order (select p ds)
select-IsSorted p [] s = tt
select-IsSorted p (d ∷ ds) s = ground (arith, select-IsSorted p ds s.1, All-select _ p ds s.0)

take_task-IsOrdered : (now : ℕ) (s : Sequence) → IsOrdered s → IsOrdered (take_task now s).1
take_task-IsOrdered now s o = rw (take_task-eq-pop_front now s o.sorted) (record {
  sorted = select-IsSorted _ s.inner.delayed_queue o.sorted;
  numbered = All-select _ _ s.inner.delayed_queue o.numbered;
})

-- Every call keeps a delayed queue that is in the order of deadlines, with numbers below the
-- counter, so, as long as the counter of task numbers does not reach 2^64.
pub call-IsOrdered :
    (c : Call) (s : Sequence)
    → s.inner.next_sequence_num + 1 < 2 ^ 64
    → IsOrdered s
    → IsOrdered (call c s).1
unfolding call push_task push_delayed_task will_run_task release_worker
call-IsOrdered (posts t) s small o = record {
  sorted = o.sorted;
  numbered = All-map _ _ s.inner.delayed_queue (λ d h. omega arith) o.numbered;
}
call-IsOrdered (posts_delayed t time) s small o = record {
  sorted = push-IsSorted delayed_order _ s.inner.delayed_queue o.sorted;
  numbered =
      push-All delayed_order _ (numbered_task t time s) s.inner.delayed_queue (omega arith)
        (All-map _ _ s.inner.delayed_queue (λ d h. omega arith) o.numbered);
}
call-IsOrdered claims s small o = record { sorted = o.sorted; numbered = o.numbered }
call-IsOrdered (takes now) s small o = take_task-IsOrdered now s o
call-IsOrdered releases s small o = record { sorted = o.sorted; numbered = o.numbered }
