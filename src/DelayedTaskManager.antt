-- ===== src/DelayedTaskManager.antt =====
-- rust_task/thread_pool/delayed_task_manager.rs: the heap of sequences that wait for a deadline,
-- and one round of the timer thread. The thread group is alive as long as the pool is, so the
-- upgrade of the weak reference to it succeeds.
pub mod Rounds
use rust_task_runner.Common.{
  ℕ, ◌+◌, ◌≡◌, Bool, true, false, List, [], ◌∷◌, Option, none, some, Ordering, compare, then_cmp,
  leb, u64, if◌then◌else◌, arith,
}
use rust_task_runner.BinaryHeap
use rust_task_runner.BinaryHeap.{Ord, is_gt, reverse_cmp}

pub record DelayedEntry : Type 0 where
  pub ready_time : ℕ
  pub id : ℕ
  pub sequence : ℕ

-- `impl Ord for DelayedEntry`
abbrev pub cmp_delayed_entry : DelayedEntry → DelayedEntry → Ordering
cmp_delayed_entry x y = then_cmp (compare x.ready_time y.ready_time) (compare x.id y.id)

pub manager_asym :
    (x y : DelayedEntry)
    → is_gt (reverse_cmp cmp_delayed_entry x y) ≡ true
    → is_gt (reverse_cmp cmp_delayed_entry y x) ≡ false
manager_asym x y h = ground arith

pub manager_trans :
    (x y z : DelayedEntry)
    → is_gt (reverse_cmp cmp_delayed_entry x y) ≡ false
    → is_gt (reverse_cmp cmp_delayed_entry y z) ≡ false
    → is_gt (reverse_cmp cmp_delayed_entry x z) ≡ false
manager_trans x y z h k = ground arith

abbrev pub manager_order : Ord DelayedEntry
manager_order = record {
  cmp = reverse_cmp cmp_delayed_entry;
  asym = manager_asym;
  trans = manager_trans;
}

-- `next_entry_id` is the static counter `NEXT_ENTRY_ID`; `exited` says that the timer thread has
-- left its loop.
pub record Manager : Type 0 where
  pub heap : List DelayedEntry
  pub shutdown : Bool
  pub next_entry_id : ℕ
  pub exited : Bool

-- `DelayedTaskManager::new`
abbrev pub new : Manager
new = record { heap = []; shutdown = false; next_entry_id = 0; exited = false }

unfoldable pub add_sequence : ℕ → ℕ → Manager → Manager
add_sequence ready_time sequence m = record m {
  heap =
      BinaryHeap.push manager_order
        (record { ready_time = ready_time; id = m.next_entry_id; sequence = sequence }) m.heap;
  next_entry_id = u64 (m.next_entry_id + 1);
}

-- The flag that `DelayedTaskManager::shutdown` sets before it joins the thread.
unfoldable pub shut_down : Manager → Manager
shut_down m = record m { shutdown = true }

-- The branch of the loop on the heap: the sequence to hand to the thread group, if any. On an
-- empty heap and before the next deadline the thread waits, and then looks again.
abbrev pub next_ready : List DelayedEntry → ℕ → Option (DelayedEntry × List DelayedEntry)
next_ready [] now = none
next_ready (e ∷ rest) now = if leb e.ready_time now then some (e, rest) else none

abbrev pub fire : Manager → Option (DelayedEntry × List DelayedEntry) → Option ℕ × Manager
fire m none = (none, m)
fire m (some (e, rest)) = (some e.sequence, record m { heap = rest })

-- One round of `timer_loop`: the sequence that it then pushes to the thread group, and the state.
unfoldable pub timer_round : ℕ → Manager → Option ℕ × Manager
timer_round now m =
    if m.shutdown then (none, record m { exited = true }) else fire m (next_ready m.heap now)
