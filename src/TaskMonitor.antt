-- ===== src/TaskMonitor.antt =====
-- rust_task/task_monitor.rs: the slots of the workers, the closure of `wrap_task`, and a round of
-- the watchdog. Times are nanoseconds since `reference`; the callbacks of the program are what
-- they are given, in order.
pub mod Watchdog
use rust_task_runner.Common.{
  ℕ, ◌+◌, ◌-◌, ◌*◌, ◌^◌, Bool, true, false, List, [], ◌∷◌, ◌++◌, Option, none, some, length, set,
  max, min, leb, u64, ◌==◌, if◌then◌else◌,
}

pub record TaskMetrics : Type 0 where
  pub queue_time : ℕ
  pub execution_time : ℕ

pub record HangInfo : Type 0 where
  pub worker_id : ℕ
  pub stuck_duration : ℕ

-- `Inner` with the watchdog thread: `metrics` and `hangs` are what `on_metrics` and `on_hang` have
-- been called with.
pub record TaskMonitor : Type 0 where
  pub slots : List ℕ
  pub hang_threshold : ℕ
  pub on_metrics : Bool
  pub on_hang : Bool
  pub shutdown : Bool
  pub watchdog : Bool
  pub metrics : List TaskMetrics
  pub hangs : List HangInfo

pub record TaskMonitorBuilder : Type 0 where
  pub hang_threshold : Option ℕ
  pub watchdog_interval : ℕ
  pub on_metrics : Bool
  pub on_hang : Bool

abbrev pub builder : TaskMonitorBuilder
builder = record {
  hang_threshold = none;
  watchdog_interval = 1000000000;
  on_metrics = false;
  on_hang = false;
}

-- `Duration::MAX`, in nanoseconds.
abbrev duration_max : ℕ
duration_max = 2 ^ 64 * 1000000000 - 1

abbrev threshold_or_max : Option ℕ → ℕ
threshold_or_max none = duration_max
threshold_or_max (some d) = d

abbrev is_some : Option ℕ → Bool
is_some none = false
is_some (some _) = true

unfoldable pub build : TaskMonitorBuilder → TaskMonitor
build b = record {
  slots = [];
  hang_threshold = threshold_or_max b.hang_threshold;
  on_metrics = b.on_metrics;
  on_hang = b.on_hang;
  shutdown = false;
  watchdog = is_some b.hang_threshold;
  metrics = [];
  hangs = [];
}

-- `register_worker`: the index of the slot, and the monitor.
unfoldable pub register_worker : TaskMonitor → ℕ × TaskMonitor
register_worker m = (length m.slots, record m { slots = m.slots ++ 0 ∷ [] })

-- `WorkerSlot::task_started` at time `now`, and `task_finished` or the drop of the slot.
unfoldable pub task_started : ℕ → ℕ → TaskMonitor → TaskMonitor
task_started now idx m = record m { slots = set m.slots idx (max (u64 now) 1) }

unfoldable pub task_finished : ℕ → TaskMonitor → TaskMonitor
task_finished idx m = record m { slots = set m.slots idx 0 }

-- The closure of `wrap_task` posted at `posted_at`, started at `exec_start` and done at `done_at`.
unfoldable pub run_wrapped : ℕ → ℕ → ℕ → TaskMonitor → TaskMonitor
run_wrapped posted_at exec_start done_at m =
    if m.on_metrics
    then record m {
      metrics =
          m.metrics
          ++ record { queue_time = exec_start - posted_at; execution_time = done_at - exec_start }
            ∷ [];
    }
    else m

-- The closure of `filter_map` on slot `idx`.
abbrev pub check_slot : ℕ → ℕ → ℕ → ℕ → Option HangInfo
check_slot now_nanos threshold_nanos idx started =
    if started == 0
    then none
    else if leb threshold_nanos (now_nanos - started)
    then some (record { worker_id = idx; stuck_duration = now_nanos - started })
    else none

abbrev pub cons_some : Option HangInfo → List HangInfo → List HangInfo
cons_some none xs = xs
cons_some (some x) xs = x ∷ xs

-- `slots.iter().enumerate().filter_map(…).collect()` from index `idx` on.
unfoldable pub collect_hung : ℕ → ℕ → ℕ → List ℕ → List HangInfo
collect_hung now_nanos threshold_nanos idx [] = []
collect_hung now_nanos threshold_nanos idx (started ∷ rest) =
    cons_some (check_slot now_nanos threshold_nanos idx started)
      (collect_hung now_nanos threshold_nanos (idx + 1) rest)

-- `TaskMonitor::drop`
unfoldable pub drop : TaskMonitor → TaskMonitor
drop m = record m { shutdown = true }

-- One round of `watchdog_loop`, where `timed_out` says that the wait ended by its timeout.
unfoldable pub watchdog_round : ℕ → Bool → TaskMonitor → TaskMonitor
unfolding collect_hung
watchdog_round now timed_out m =
    let hung = collect_hung (u64 now) (min m.hang_threshold (2 ^ 64 - 1)) 0 m.slots in
    let reported = if m.on_hang then record m { hangs = m.hangs ++ hung } else m in
    if m.shutdown
    then record m { watchdog = false }
    else if timed_out
    then reported
    else record m { watchdog = false }
