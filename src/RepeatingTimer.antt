-- ===== src/RepeatingTimer.antt =====
-- rust_task/timer.rs, and the weak pointers of rust_task/bind.rs that it stands on. A strong
-- reference to a `TimerInner` is held by `active`, by a thread within `start` and by the tick that
-- runs; objects are told apart by number. `step` is one access of shared state by one thread: other
-- threads may come between the halves of `start`, and between the upgrade of a tick, its post of
-- the next one and its callback. Whether the runner takes a post is its answer to the post.
pub mod Ticks
pub mod Stopped
use rust_task_runner.Common.{
  ℕ, ◌+◌, Bool, true, false, ◌||◌, List, [], ◌∷◌, ◌++◌, Option, none, some, ◌==◌, if◌then◌else◌,
  pick,
}

pub record TimerInner : Type 0 where
  pub id : ℕ
  pub interval : ℕ
  pub callback : ℕ

-- A delayed task that `schedule_next` has posted: a weak reference, and when it is due.
pub record Tick : Type 0 where
  pub inner : TimerInner
  pub run_time : ℕ

-- Where the runner, which runs one tick at a time, is in a tick: its reference is upgraded; or the
-- next tick is posted and the reference dropped, and the callback is next.
pub data Phase : Type 0 where
  idle : Phase
  upgraded : TimerInner → Phase
  calling : ℕ → Phase

-- `starting` are the threads in `start` that have not posted yet, and `leaving` those that have and
-- still hold their reference; `refused` are the objects whose last post the runner did not take;
-- `fired` are the callbacks that ticks have called, the latest first.
pub record Timer : Type 0 where
  pub active : Option TimerInner
  pub next_id : ℕ
  pub pending : List Tick
  pub starting : List TimerInner
  pub leaving : List TimerInner
  pub phase : Phase
  pub refused : List TimerInner
  pub fired : List ℕ

-- `RepeatingTimer::new`
abbrev pub new : Timer
new = record {
  active = none;
  next_id = 0;
  pending = [];
  starting = [];
  leaving = [];
  phase = idle;
  refused = [];
  fired = [];
}

-- `Weak::upgrade` of a reference to the object with number `id`, while no tick runs.
abbrev pub holds : List TimerInner → ℕ → Bool
holds [] id = false
holds (x ∷ xs) id = x.id == id || holds xs id

abbrev pub is_active : Option TimerInner → ℕ → Bool
is_active none id = false
is_active (some inner) id = inner.id == id

abbrev pub upgrades : Timer → ℕ → Bool
upgrades t id = is_active t.active id || (holds t.starting id || holds t.leaving id)

-- `schedule_next`, whose caller holds a reference, so that its upgrade succeeds; a post that is
-- refused goes unnoticed.
unfoldable pub schedule_next : ℕ → Bool → TimerInner → Timer → Timer
schedule_next now true inner t = record t {
  pending = t.pending ++ record { inner = inner; run_time = now + inner.interval } ∷ [];
}
schedule_next now false inner t = record t { refused = inner ∷ t.refused }

-- The two halves of `start`, and the end of its reference.
unfoldable pub start : ℕ → ℕ → Timer → Timer
start interval callback t =
    let inner : TimerInner = record { id = t.next_id; interval = interval; callback = callback } in
    record t { active = some inner; next_id = t.next_id + 1; starting = inner ∷ t.starting }

unfoldable pub end_start : ℕ → Bool → Option (TimerInner × List TimerInner) → Timer → Timer
unfolding schedule_next
end_start now accepted none t = t
end_start now accepted (some (inner, rest)) t =
    schedule_next now accepted inner (record t { starting = rest; leaving = inner ∷ t.leaving })

abbrev pub leave_start : Option (TimerInner × List TimerInner) → Timer → Timer
leave_start none t = t
leave_start (some (inner, rest)) t = record t { leaving = rest }

unfoldable pub stop : Timer → Timer
stop t = record t { active = none }

unfoldable pub is_running : Timer → Bool
is_running t = elim t.active [ none ↦ false | some _ ↦ true ]

-- The closure that `schedule_next` binds with `bind_once`: nothing, if the upgrade fails.
unfoldable pub fire : Tick → Timer → Timer
fire tick t = if upgrades t tick.inner.id then record t { phase = upgraded tick.inner } else t

-- The runner runs a tick that waits, if it runs none.
unfoldable pub run_tick : Phase → Option (Tick × List Tick) → Timer → Timer
unfolding fire
run_tick idle (some (tick, rest)) t = fire tick (record t { pending = rest })
run_tick _ _ t = t

-- The closure goes on: it posts the next tick and drops its reference, and calls the callback.
unfoldable pub go_on : ℕ → Bool → Phase → Timer → Timer
unfolding schedule_next
go_on now accepted idle t = t
go_on now accepted (upgraded inner) t =
    schedule_next now accepted inner (record t { phase = calling inner.callback })
go_on now accepted (calling callback) t = record t { phase = idle; fired = callback ∷ t.fired }

-- `starts` and `schedules` are the halves of `start`, `leaves` its end; `ticks k` runs the `k`-th
-- of the ticks that wait, and `goes_on` is the next step of the tick that runs. `accepted` is what
-- `post_delayed_task` returns.
pub data Event : Type 0 where
  starts : ℕ → ℕ → Event
  schedules : ℕ → Bool → ℕ → Event
  leaves : ℕ → Event
  stops : Event
  ticks : ℕ → Event
  goes_on : ℕ → Bool → Event

unfoldable pub step : Event → Timer → Timer
unfolding start end_start stop run_tick go_on
step (starts interval callback) t = start interval callback t
step (schedules now accepted k) t = end_start now accepted (pick k t.starting) t
step (leaves k) t = leave_start (pick k t.leaving) t
step stops t = stop t
step (ticks k) t = run_tick t.phase (pick k t.pending) t
step (goes_on now accepted) t = go_on now accepted t.phase t

unfoldable pub run : List Event → Timer → Timer
run [] t = t
run (e ∷ es) t = run es (step e t)
