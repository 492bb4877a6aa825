-- ===== src/Sequence.antt =====
-- rust_task/thread_pool/sequence.rs: the two queues of a sequence, the claim of its worker, and the
-- `TaskSource` operations. Each operation is one critical section of the source (one lock of
-- `inner`, or one access of `has_worker`); where an operation has two, they are two functions.
pub mod Flush
pub mod Fifo
pub mod Conserve
pub mod Deadline
use rust_task_runner.Common.{
  ℕ, ◌+◌, ◌≡◌, Bool, true, false, not, ◌||◌, Option, none, some, List, [], ◌∷◌, ◌++◌, compare,
  Ordering, then_cmp, leb, if◌then◌else◌, u64, arith,
}
use rust_task_runner.BinaryHeap
use rust_task_runner.BinaryHeap.{Ord, is_gt, reverse_cmp}
use rust_task_runner.Task.{Task, TaskTraits, TaskPriority}
use rust_task_runner.ThreadLocals.{create}

pub record DelayedTask : Type 0 where
  pub ready_time : ℕ
  pub sequence_num : ℕ
  pub task : Task

-- `impl Ord for DelayedTask`
abbrev pub cmp_delayed : DelayedTask → DelayedTask → Ordering
cmp_delayed x y =
    then_cmp (compare x.ready_time y.ready_time) (compare x.sequence_num y.sequence_num)

pub delayed_asym :
    (x y : DelayedTask)
    → is_gt (reverse_cmp cmp_delayed x y) ≡ true
    → is_gt (reverse_cmp cmp_delayed y x) ≡ false
delayed_asym x y h = ground arith

pub delayed_trans :
    (x y z : DelayedTask)
    → is_gt (reverse_cmp cmp_delayed x y) ≡ false
    → is_gt (reverse_cmp cmp_delayed y z) ≡ false
    → is_gt (reverse_cmp cmp_delayed x z) ≡ false
delayed_trans x y z h k = ground arith

-- The order of `BinaryHeap<Reverse<DelayedTask>>`.
abbrev pub delayed_order : Ord DelayedTask
delayed_order = record { cmp = reverse_cmp cmp_delayed; asym = delayed_asym; trans = delayed_trans }

pub record SequenceInner : Type 0 where
  pub immediate_queue : List Task
  pub delayed_queue : List DelayedTask
  pub next_sequence_num : ℕ

pub record Sequence : Type 0 where
  pub token : ℕ
  pub inner : SequenceInner
  pub has_worker : Bool
  pub traits : TaskTraits
  pub task_runner : Option ℕ

pub data RunStatus : Type 0 where
  disallowed allowed_not_saturated allowed_saturated : RunStatus

pub record TaskSourceSortKey : Type 0 where
  pub priority : TaskPriority
  pub ready_time : ℕ

-- `Sequence::new` over the counter of tokens.
unfoldable pub new : TaskTraits → ℕ → Sequence × ℕ
unfolding create
new traits next_sequence_id =
    let (token, next') = create next_sequence_id in
    (
      record {
        token = token;
        inner = record { immediate_queue = []; delayed_queue = []; next_sequence_num = 0 };
        has_worker = false;
        traits = traits;
        task_runner = none;
      },
      next',
    )

unfoldable pub set_task_runner : ℕ → Sequence → Sequence
set_task_runner runner s = record s { task_runner = some runner }

unfoldable pub push_task : Task → Sequence → Sequence
push_task task s = record s {
  inner = record {
    immediate_queue = immediate_queue ++ record task { sequence_num = next_sequence_num } ∷ [];
    delayed_queue = delayed_queue;
    next_sequence_num = u64 (next_sequence_num + 1);
  };
}
  where
    open s.inner use {immediate_queue, delayed_queue, next_sequence_num}

unfoldable pub push_delayed_task : Task → ℕ → Sequence → Sequence
push_delayed_task task ready_time s = record s {
  inner = record {
    immediate_queue = immediate_queue;
    delayed_queue =
        BinaryHeap.push delayed_order
          (record {
            ready_time = ready_time;
            sequence_num = next_sequence_num;
            task = record task { sequence_num = next_sequence_num };
          })
          delayed_queue;
    next_sequence_num = u64 (next_sequence_num + 1);
  };
}
  where
    open s.inner use {immediate_queue, delayed_queue, next_sequence_num}

-- The loop of `flush_ready_delayed_tasks`: the immediate and the delayed queue after it. It takes
-- the delayed queue in popping order and stops at the first task that is not due.
unfoldable pub flush_loop : List DelayedTask → List Task → ℕ → List Task × List DelayedTask
flush_loop [] immediate now = (immediate, [])
flush_loop (d ∷ ds) immediate now =
    let rest = flush_loop ds (immediate ++ d.task ∷ []) now in
    if leb d.ready_time now then rest else (immediate, d ∷ ds)

unfoldable pub flush_ready_delayed_tasks : SequenceInner → ℕ → SequenceInner
unfolding flush_loop
flush_ready_delayed_tasks inner now =
    let (immediate, delayed) = flush_loop inner.delayed_queue inner.immediate_queue now in
    record inner { immediate_queue = immediate; delayed_queue = delayed }

unfoldable pub get_sort_key : Sequence → ℕ → TaskSourceSortKey
get_sort_key s now = record { priority = s.traits.priority; ready_time = now }

-- `peek().is_some_and(|Reverse(d)| d.ready_time <= now)`
abbrev pub due : ℕ → List DelayedTask → Bool
due now [] = false
due now (d ∷ ds) = leb d.ready_time now

unfoldable pub has_ready_tasks : ℕ → Sequence → Bool
has_ready_tasks now s =
    not (BinaryHeap.is_empty s.inner.immediate_queue) || due now s.inner.delayed_queue

-- `has_worker.swap(true)` and what it says.
unfoldable pub will_run_task : Sequence → RunStatus × Sequence
will_run_task s =
    (if s.has_worker then disallowed else allowed_not_saturated, record s { has_worker = true })

-- `VecDeque::pop_front` of the immediate queue.
abbrev pub pop_front : List Task → Option Task × List Task
pop_front [] = (none, [])
pop_front (t ∷ ts) = (some t, ts)

unfoldable pub take_task : ℕ → Sequence → Option Task × Sequence
unfolding flush_ready_delayed_tasks
take_task now s =
    let flushed = flush_ready_delayed_tasks s.inner now in
    let (task, rest) = pop_front flushed.immediate_queue in
    (task, record s { inner = record flushed { immediate_queue = rest } })

-- The two halves of `did_process_task`: `has_worker.store(false)`, and the test under the lock,
-- which is that of `has_ready_tasks` and of `will_re_enqueue`.
unfoldable pub release_worker : Sequence → Sequence
release_worker s = record s { has_worker = false }

unfoldable pub did_process_task : ℕ → Sequence → Bool × Sequence
unfolding release_worker has_ready_tasks
did_process_task now s = (has_ready_tasks now (release_worker s), release_worker s)
