-- ===== src/PriorityQueue.antt =====
-- rust_task/thread_pool/priority_queue.rs: the queue of task sources, named by numbers. The key of
-- an entry is read from the source when it is pushed.
pub mod Order
use rust_task_runner.Common.{
  ℕ, ◌≡◌, Bool, true, false, List, [], Option, Ordering, compare, then_cmp, arith,
}
use rust_task_runner.BinaryHeap
use rust_task_runner.BinaryHeap.{Ord, is_gt}
use rust_task_runner.Task.{TaskPriority, best_effort, user_visible, user_blocking}
use rust_task_runner.Sequence.{Sequence, TaskSourceSortKey, get_sort_key}

pub record QueueEntry : Type 0 where
  pub sort_key : TaskSourceSortKey
  pub task_source : ℕ

-- The derived `Ord` of `TaskPriority`: by the order of its variants.
abbrev pub rank : TaskPriority → ℕ
rank best_effort = 0
rank user_visible = 1
rank user_blocking = 2

-- `impl Ord for QueueEntry`: the higher priority, then the earlier `ready_time`, is greater.
abbrev pub cmp_entry : QueueEntry → QueueEntry → Ordering
cmp_entry x y =
    then_cmp (compare (rank x.sort_key.priority) (rank y.sort_key.priority))
      (compare y.sort_key.ready_time x.sort_key.ready_time)

pub entry_asym : (x y : QueueEntry) → is_gt (cmp_entry x y) ≡ true → is_gt (cmp_entry y x) ≡ false
entry_asym x y h = ground arith

pub entry_trans :
    (x y z : QueueEntry)
    → is_gt (cmp_entry x y) ≡ false
    → is_gt (cmp_entry y z) ≡ false
    → is_gt (cmp_entry x z) ≡ false
entry_trans x y z h k = grind arith

abbrev pub entry_order : Ord QueueEntry
entry_order = record { cmp = cmp_entry; asym = entry_asym; trans = entry_trans }

-- `PriorityQueue::new`
abbrev pub new : List QueueEntry
new = []

-- `PriorityQueue::push` of the source number `source` at time `now`.
unfoldable pub push : ℕ → ℕ → Sequence → List QueueEntry → List QueueEntry
unfolding get_sort_key
push now source s queue =
    BinaryHeap.push entry_order (record { sort_key = get_sort_key s now; task_source = source })
      queue

-- `PriorityQueue::pop`, with the entry in place of its source.
abbrev pub pop : List QueueEntry → Option (QueueEntry × List QueueEntry)
pop = BinaryHeap.pop
