-- ===== src/RepeatingTimer/Ticks.antt =====
-- How many ticks can fire.
use rust_task_runner.Common.{
  ℕ, ◌+◌, ◌≤◌, ◌<◌, ◌≡◌, refl, Bool, true, false, List, [], ◌∷◌, Option, none, some, pick, sym, ◌∙◌,
  total, total-append, total-pick, same, Option-cases, Bool-cases, inl, inr, arith,
}
use rust_task_runner.RepeatingTimer.{
  TimerInner, Tick, Phase, idle, upgraded, calling, Timer, new, upgrades, schedule_next, start,
  end_start, leave_start, stop, fire, run_tick, go_on, Event, starts, schedules, leaves, stops,
  ticks, goes_on, step, run,
}

abbrev of_tick : ℕ → Tick → ℕ
of_tick id x = same id x.inner.id

abbrev of_inner : ℕ → TimerInner → ℕ
of_inner id x = same id x.id

abbrev of_phase : ℕ → Phase → ℕ
of_phase id (upgraded x) = same id x.id
of_phase id _ = 0

-- How many ticks of the object `id` wait, or will be posted by a thread in `start` or by the tick
-- that runs, or were refused by the runner.
abbrev pub to_come : ℕ → Timer → ℕ
to_come id t =
    total (of_tick id) t.pending
    + total (of_inner id) t.starting
    + of_phase id t.phase
    + total (of_inner id) t.refused

-- The object of a running timer has one of these, and a new object none.
pub record IsSingle (t : Timer) : Type 0 where
  pub one : (inner : TimerInner) → t.active ≡ some inner → to_come inner.id t ≡ 1
  pub old : (inner : TimerInner) → t.active ≡ some inner → inner.id < t.next_id
  pub fresh : (id : ℕ) → t.next_id ≤ id → to_come id t ≡ 0

schedule_next-to_come :
    (id now : ℕ) (accepted : Bool) (x : TimerInner) (t : Timer)
    → to_come id (schedule_next now accepted x t) ≡ to_come id t + same id x.id
unfolding schedule_next
schedule_next-to_come id now true x t = omega (
  arith,
  total-append (of_tick id) t.pending (record { inner = x; run_time = now + x.interval } ∷ []),
)
schedule_next-to_come id now false x t = omega arith

schedule_next-keeps :
    (now : ℕ) (accepted : Bool) (x : TimerInner) (t : Timer)
    → ((schedule_next now accepted x t).active ≡ t.active)
      × ((schedule_next now accepted x t).next_id ≡ t.next_id)
unfolding schedule_next
schedule_next-keeps now true x t = (refl, refl)
schedule_next-keeps now false x t = (refl, refl)

-- A step that starts no object and, of the one that is active, loses no tick.
keep-IsSingle :
    (t u : Timer)
    → u.active ≡ t.active
    → u.next_id ≡ t.next_id
    → ((inner : TimerInner) → t.active ≡ some inner → to_come inner.id u ≡ to_come inner.id t)
    → ((id : ℕ) → to_come id u ≤ to_come id t)
    → IsSingle t
    → IsSingle u
keep-IsSingle t u ea en h le s = record {
  one = λ inner e. h inner (sym ea ∙ e) ∙ s.one inner (sym ea ∙ e);
  old = λ inner e. rw en (s.old inner (sym ea ∙ e));
  fresh = λ id f. ground (arith, le id, s.fresh id);
}

end_start-IsSingle :
    (now : ℕ) (accepted : Bool) (k : ℕ) (t : Timer)
    → IsSingle t
    → IsSingle (end_start now accepted (pick k t.starting) t)
unfolding end_start
end_start-IsSingle now accepted k t s = elim (Option-cases (pick k t.starting)) [
  | inl e ↦ rw e s
  | inr ((x, rest), e) ↦
      let taken = record t { starting = rest; leaving = x ∷ t.leaving } in
      let (ea, en) = schedule_next-keeps now accepted x taken in
      rw e (
        keep-IsSingle t (schedule_next now accepted x taken) ea en
          (λ inner f. same_count x rest e inner.id) (λ id. omega (arith, same_count x rest e id)) s)
]
  where
    same_count :
        (x : TimerInner) (rest : List TimerInner)
        → pick k t.starting ≡ some (x, rest)
        → (id : ℕ)
        → to_come id
            (schedule_next now accepted x (record t { starting = rest; leaving = x ∷ t.leaving }))
          ≡ to_come id t
    same_count x rest e id = omega (
      arith,
      schedule_next-to_come id now accepted x
          (record t { starting = rest; leaving = x ∷ t.leaving }),
      total-pick (of_inner id) k t.starting e,
    )

start-IsSingle : (i c : ℕ) (t : Timer) → IsSingle t → IsSingle (start i c t)
unfolding start
start-IsSingle i c t s = record {
  one = λ inner e. ground (arith, s.fresh t.next_id);
  old = λ inner e. ground (arith);
  fresh = λ id f. ground (arith, s.fresh id);
}

-- A tick whose object is gone is not one of the active object.
other_object :
    (x : Tick) (inner : TimerInner) (t : Timer)
    → t.active ≡ some inner
    → upgrades t x.inner.id ≡ false
    → same inner.id x.inner.id ≡ 0
other_object x inner t e dead = ground (arith, e, dead)

fire-IsSingle :
    (x : Tick) (rest : List Tick) (k : ℕ) (t : Timer)
    → t.phase ≡ idle
    → pick k t.pending ≡ some (x, rest)
    → IsSingle t
    → IsSingle (fire x (record t { pending = rest }))
unfolding fire
fire-IsSingle x rest k t ph e s = elim (Bool-cases (upgrades t x.inner.id)) [
  | inl alive ↦ rw alive (
      keep-IsSingle t _ refl refl
        (λ inner f. rw ph (omega (arith, total-pick (of_tick inner.id) k t.pending e)))
        (λ id. rw ph (omega (arith, total-pick (of_tick id) k t.pending e))) s)
  | inr dead ↦ rw dead (
      keep-IsSingle t _ refl refl
        (λ inner f.
          omega (arith, total-pick (of_tick inner.id) k t.pending e, other_object x inner t f dead))
        (λ id. omega (arith, total-pick (of_tick id) k t.pending e)) s)
]

run_tick-IsSingle :
    (p : Phase) (k : ℕ) (t : Timer)
    → t.phase ≡ p
    → IsSingle t
    → IsSingle (run_tick p (pick k t.pending) t)
unfolding run_tick
run_tick-IsSingle idle k t ph s = elim (Option-cases (pick k t.pending)) [
  | inl e ↦ rw e s
  | inr ((x, rest), e) ↦ rw e (fire-IsSingle x rest k t ph e s)
]
run_tick-IsSingle p k t ph s = s

go_on-IsSingle :
    (now : ℕ) (accepted : Bool) (p : Phase) (t : Timer)
    → t.phase ≡ p
    → IsSingle t
    → IsSingle (go_on now accepted p t)
unfolding go_on
go_on-IsSingle now accepted idle t ph s = s
go_on-IsSingle now accepted (upgraded x) t ph s =
    let on = record t { phase = calling x.callback } in
    let (ea, en) = schedule_next-keeps now accepted x on in
    keep-IsSingle t (schedule_next now accepted x on) ea en (λ inner f. same_count inner.id)
      (λ id. omega (arith, same_count id)) s
  where
    same_count :
        (id : ℕ)
        → to_come id (schedule_next now accepted x (record t { phase = calling x.callback }))
          ≡ to_come id t
    same_count id = rw ph (
        omega (
          arith,
          schedule_next-to_come id now accepted x (record t { phase = calling x.callback }),
        ))
go_on-IsSingle now accepted (calling callback) t ph s =
    keep-IsSingle t _ refl refl (λ inner f. rw ph refl) (λ id. rw ph (omega arith)) s

leave_start-IsSingle :
    (o : Option (TimerInner × List TimerInner)) (t : Timer)
    → IsSingle t
    → IsSingle (leave_start o t)
leave_start-IsSingle none t s = s
leave_start-IsSingle (some (x, rest)) t s =
    keep-IsSingle t _ refl refl (λ inner f. refl) (λ id. omega arith) s

step-IsSingle : (e : Event) (t : Timer) → IsSingle t → IsSingle (step e t)
unfolding step stop
step-IsSingle (starts i c) t s = start-IsSingle i c t s
step-IsSingle (schedules now accepted k) t s = end_start-IsSingle now accepted k t s
step-IsSingle (leaves k) t s = leave_start-IsSingle (pick k t.leaving) t s
step-IsSingle stops t s = record {
  one = λ inner e. absurd (cc e);
  old = λ inner e. absurd (cc e);
  fresh = s.fresh;
}
step-IsSingle (ticks k) t s = run_tick-IsSingle t.phase k t refl s
step-IsSingle (goes_on now accepted) t s = go_on-IsSingle now accepted t.phase t refl s

run-IsSingle : (es : List Event) (t : Timer) → IsSingle t → IsSingle (run es t)
unfolding run
run-IsSingle [] t s = s
run-IsSingle (e ∷ es) t s = run-IsSingle es (step e t) (step-IsSingle e t s)

-- However a timer is started, restarted and stopped, in whatever order its ticks run, and wherever
-- other threads come between the steps of `start` and of a tick: while the timer runs, its object
-- has exactly one next tick, which waits with the runner, or will be posted by the thread in
-- `start`, or by the tick that runs; unless the runner has refused the post of it, after which there
-- is none.
pub run-single :
    (es : List Event) (inner : TimerInner)
    → (run es new).active ≡ some inner
    → to_come inner.id (run es new) ≡ 1
run-single es inner e = (run-IsSingle es new new-IsSingle).one inner e
  where
    new-IsSingle : IsSingle new
    new-IsSingle = record {
      one = λ x h. absurd (cc h);
      old = λ x h. absurd (cc h);
      fresh = λ id h. refl;
    }
