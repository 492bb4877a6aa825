-- ===== src/System.antt =====
-- The pool at work: the sequences, the thread group of rust_task/thread_pool/thread_group.rs, the
-- delayed task manager, and the threads that post, on one clock. `step` performs one access of
-- shared state by one thread; a schedule is a list of events, in any order.
pub mod Claims
pub mod Attended
pub mod Handover
pub mod Pending
pub mod Changes
pub mod NoLost
use rust_task_runner.Common.{
  ℕ, ◌+◌, ◌≡◌, Bool, true, false, List, [], ◌∷◌, Option, none, some, if◌then◌else◌, update, pick,
}
use rust_task_runner.Task.{Task, Callback}
use rust_task_runner.Sequence.{
  Sequence, RunStatus, disallowed, allowed_not_saturated, allowed_saturated, push_task,
  push_delayed_task, will_run_task, take_task, release_worker, has_ready_tasks,
}
use rust_task_runner.PriorityQueue.{QueueEntry}
use rust_task_runner.DelayedTaskManager
use rust_task_runner.DelayedTaskManager.{Manager, DelayedEntry, add_sequence, timer_round}
use rust_task_runner.ThreadGroup
use rust_task_runner.ThreadGroup.{
  ThreadGroup, Worker, Pc, seeking, got, claimed, running, processed, released, requeueing, exited,
  Work, leave, wait, work, push_task_source, get_work, begin_round, end_round, task_started,
  task_finished, begin_join,
}

-- A thread between `push_delayed_task` and `add_sequence`.
pub record Registration : Type 0 where
  pub ready_time : ℕ
  pub sequence : ℕ

-- `posting` are the sequences of threads between `push_task` and `push_task_source`, or of the
-- timer thread between its pop and `push_task_source`.
pub record System : Type 0 where
  pub sequences : ℕ → Sequence
  pub group : ThreadGroup
  pub manager : Manager
  pub posting : List ℕ
  pub registering : List Registration
  pub now : ℕ

abbrev pub set_worker : ℕ → Worker → System → System
set_worker i w s = record s { group = record s.group { workers = update s.group.workers i w } }

abbrev pub set_sequence : ℕ → Sequence → System → System
set_sequence q x s = record s { sequences = update s.sequences q x }

-- `get_work` and the start of a round.
unfoldable pub on_work : ℕ → Work → Worker → System → System
on_work i leave w s = set_worker i (record w { pc = exited }) s
on_work i wait w s = s
on_work i (work e rest) w s =
    set_worker i (record (begin_round (s.sequences e.task_source) w) { pc = got e.task_source })
      (record s { group = record s.group { priority_queue = rest } })

unfoldable pub on_status : ℕ → ℕ → RunStatus → Worker → System → System
on_status i q disallowed w s = set_worker i (end_round w) s
on_status i q _ w s = set_worker i (record w { pc = claimed q }) s

unfoldable pub on_task : ℕ → ℕ → Option Task → Worker → System → System
on_task i q none w s = set_worker i (record w { pc = processed q }) s
on_task i q (some t) w s =
    set_worker i (record w { pc = running q t.callback; slot = task_started s.now w.slot }) s

-- What worker `i` does at its place in `worker_loop`.
unfoldable pub advance : ℕ → Pc → Worker → System → System
unfolding on_work on_status on_task
advance i seeking w s = on_work i (get_work s.group) w s
advance i (got q) w s =
    let (status, x) = will_run_task (s.sequences q) in on_status i q status w (set_sequence q x s)
advance i (claimed q) w s =
    let (task, x) = take_task s.now (s.sequences q) in on_task i q task w (set_sequence q x s)
advance i (running q callback) w s =
    set_worker i (record w { pc = processed q; slot = task_finished w.slot }) s
advance i (processed q) w s =
    set_worker i (record w { pc = released q }) (set_sequence q (release_worker (s.sequences q)) s)
advance i (released q) w s =
    set_worker i
      (if has_ready_tasks s.now (s.sequences q)
        then record w { pc = requeueing q }
        else end_round w)
      s
advance i (requeueing q) w s =
    set_worker i (end_round w)
      (record s { group = push_task_source s.now q (s.sequences q) s.group })
advance i exited w s = s

unfoldable pub deliver : Option (ℕ × List ℕ) → System → System
deliver none s = s
deliver (some (q, rest)) s = record s {
  group = push_task_source s.now q (s.sequences q) s.group;
  posting = rest;
}

unfoldable pub register : Option (Registration × List Registration) → System → System
register none s = s
register (some (r, rest)) s = record s {
  manager = add_sequence r.ready_time r.sequence s.manager;
  registering = rest;
}

unfoldable pub on_timer : Option ℕ × Manager → System → System
on_timer (none, m) s = record s { manager = m }
on_timer (some q, m) s = record s { manager = m; posting = q ∷ s.posting }

-- `posts` and `delivers` are the two halves of `post_task` of a runner with sequence `q`,
-- `posts_delayed` and `registers` those of `post_delayed_task`.
pub data Event : Type 0 where
  works : ℕ → Event
  posts : ℕ → Task → Event
  delivers : ℕ → Event
  posts_delayed : ℕ → Task → ℕ → Event
  registers : ℕ → Event
  timer : Event
  joins : Event
  ticks : ℕ → Event

unfoldable pub step : Event → System → System
unfolding advance deliver register on_timer
step (works i) s = advance i (s.group.workers i).pc (s.group.workers i) s
step (posts q t) s =
    set_sequence q (push_task t (s.sequences q)) (record s { posting = q ∷ s.posting })
step (delivers k) s = deliver (pick k s.posting) s
step (posts_delayed q t delay) s =
    set_sequence q (push_delayed_task t (s.now + delay) (s.sequences q)) (record s {
      registering = record { ready_time = s.now + delay; sequence = q } ∷ s.registering;
    })
step (registers k) s = register (pick k s.registering) s
step timer s = on_timer (timer_round s.now s.manager) s
step joins s = record s { group = begin_join s.group }
step (ticks n) s = record s { now = s.now + n }

unfoldable pub run : List Event → System → System
run [] s = s
run (e ∷ es) s = run es (step e s)

-- A new pool, over sequences that hold no task.
unfoldable pub init : (ℕ → Sequence) → System
init sequences = record {
  sequences = sequences;
  group = ThreadGroup.new;
  manager = DelayedTaskManager.new;
  posting = [];
  registering = [];
  now = 0;
}
