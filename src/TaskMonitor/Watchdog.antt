-- ===== src/TaskMonitor/Watchdog.antt =====
-- What the watchdog reports.
use rust_task_runner.Common.{ℕ, ◌+◌, ◌-◌, ◌≤◌, ◌≡◌, ◌≢◌, List, some, get_elem?}
use rust_task_runner.TaskMonitor.{HangInfo}

-- The report `h` on a slot that holds `started`: a task runs there, and it has been running for
-- the threshold or longer.
abbrev pub IsHung : ℕ → ℕ → ℕ → HangInfo → Type 0
IsHung now threshold started h =
    (started ≢ 0) × (threshold ≤ now - started) × (h.stuck_duration ≡ now - started)

-- `h` is the report on one of the slots, whose numbers start at `k`.
abbrev pub Reported : ℕ → ℕ → ℕ → List ℕ → HangInfo → Type 0
Reported now threshold k slots h =
    (i : ℕ) × (started : ℕ) × (get_elem? slots i ≡ some started)
    × (h.worker_id ≡ k + i)
    × IsHung now threshold started h
