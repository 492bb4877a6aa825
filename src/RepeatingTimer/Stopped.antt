-- ===== src/RepeatingTimer/Stopped.antt =====
-- What a timer still calls after `stop`.
use rust_task_runner.Common.{
  ℕ, ◌≡◌, refl, ap, ◌∙◌, Bool, true, false, List, [], ◌∷◌, ◌++◌, Option, none, some, pick, All,
}
use rust_task_runner.RepeatingTimer.{
  TimerInner, Tick, Phase, idle, upgraded, calling, Timer, schedule_next, end_start, leave_start,
  stop, fire, run_tick, go_on, Event, starts, schedules, leaves, stops, ticks, goes_on, step, run,
}

abbrev pub IsNoStart : Event → Type 0
IsNoStart (starts _ _) = ⊥
IsNoStart _ = Unit

-- The callback that the tick that runs will call.
abbrev pub due : Phase → List ℕ
due idle = []
due (upgraded x) = x.callback ∷ []
due (calling callback) = callback ∷ []

-- The timer is stopped and no thread is within `start`.
pub record IsStopped (t : Timer) : Type 0 where
  pub not_active : t.active ≡ none
  pub none_starting : t.starting ≡ []
  pub none_leaving : t.leaving ≡ []

-- A step leaves the timer stopped, and what it calls was due.
pub record Quiet (t u : Timer) : Type 0 where
  pub stopped : IsStopped u
  pub due_same : due u.phase ++ u.fired ≡ due t.phase ++ t.fired

run_tick-Quiet :
    (p : Phase) (o : Option (Tick × List Tick)) (t : Timer)
    → t.phase ≡ p
    → IsStopped t
    → Quiet t (run_tick p o t)
unfolding run_tick fire
run_tick-Quiet idle none t ph s = record { stopped = s; due_same = refl }
run_tick-Quiet idle (some (x, rest)) t ph s =
    rw (s.not_active, s.none_starting, s.none_leaving)
      (record {
        stopped = record { not_active = refl; none_starting = refl; none_leaving = refl };
        due_same = refl;
      })
run_tick-Quiet p o t ph s = record { stopped = s; due_same = refl }

go_on-Quiet :
    (now : ℕ) (accepted : Bool) (p : Phase) (t : Timer)
    → t.phase ≡ p
    → IsStopped t
    → Quiet t (go_on now accepted p t)
unfolding go_on schedule_next
go_on-Quiet now accepted idle t ph s = record { stopped = s; due_same = refl }
go_on-Quiet now true (upgraded x) t ph s = record {
  stopped = record {
    not_active = s.not_active;
    none_starting = s.none_starting;
    none_leaving = s.none_leaving;
  };
  due_same = rw ph refl;
}
go_on-Quiet now false (upgraded x) t ph s = record {
  stopped = record {
    not_active = s.not_active;
    none_starting = s.none_starting;
    none_leaving = s.none_leaving;
  };
  due_same = rw ph refl;
}
go_on-Quiet now accepted (calling callback) t ph s = record {
  stopped = record {
    not_active = s.not_active;
    none_starting = s.none_starting;
    none_leaving = s.none_leaving;
  };
  due_same = rw ph refl;
}

picks_none : (k : ℕ) → pick {A = TimerInner} k [] ≡ none
unfolding pick
picks_none k = refl

end_start-Quiet :
    (now : ℕ) (accepted : Bool) (o : Option (TimerInner × List TimerInner)) (t : Timer)
    → o ≡ none
    → IsStopped t
    → Quiet t (end_start now accepted o t)
unfolding end_start
end_start-Quiet now accepted none t e s = record { stopped = s; due_same = refl }
end_start-Quiet now accepted (some x) t e s = absurd (cc e)

leave_start-Quiet :
    (o : Option (TimerInner × List TimerInner)) (t : Timer)
    → o ≡ none
    → IsStopped t
    → Quiet t (leave_start o t)
leave_start-Quiet none t e s = record { stopped = s; due_same = refl }
leave_start-Quiet (some x) t e s = absurd (cc e)

step-Quiet : (e : Event) (t : Timer) → IsNoStart e → IsStopped t → Quiet t (step e t)
unfolding step end_start stop
step-Quiet (starts i c) t h s = absurd h
step-Quiet (schedules now accepted k) t h s =
    end_start-Quiet now accepted (pick k t.starting) t (ap (pick k) s.none_starting ∙ picks_none k)
      s
step-Quiet (leaves k) t h s =
    leave_start-Quiet (pick k t.leaving) t (ap (pick k) s.none_leaving ∙ picks_none k) s
step-Quiet stops t h s = record {
  stopped = record {
    not_active = refl;
    none_starting = s.none_starting;
    none_leaving = s.none_leaving;
  };
  due_same = refl;
}
step-Quiet (ticks k) t h s = run_tick-Quiet t.phase (pick k t.pending) t refl s
step-Quiet (goes_on now accepted) t h s = go_on-Quiet now accepted t.phase t refl s

run-Quiet : (es : List Event) (t : Timer) → All IsNoStart es → IsStopped t → Quiet t (run es t)
unfolding run
run-Quiet [] t h s = record { stopped = s; due_same = refl }
run-Quiet (e ∷ es) t h s =
    let q = step-Quiet e t h.0 s in
    let r = run-Quiet es (step e t) h.1 q.stopped in
    record { stopped = r.stopped; due_same = r.due_same ∙ q.due_same }

-- After `stop`, while the timer is not started again and no thread is within `start`, nothing is
-- called but the callback of a tick that had upgraded its reference before, and that at most once:
-- what has been called and what the tick that runs will call stay together what they were.
pub stop-quiet :
    (es : List Event) (t : Timer)
    → All IsNoStart es
    → t.starting ≡ []
    → t.leaving ≡ []
    → due (run es (stop t)).phase ++ (run es (stop t)).fired ≡ due t.phase ++ t.fired
unfolding stop
stop-quiet es t h a b =
    (run-Quiet es (record t { active = none }) h
      (record { not_active = refl; none_starting = a; none_leaving = b })).due_same
