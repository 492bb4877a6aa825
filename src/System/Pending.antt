-- ===== src/System/Pending.antt =====
-- The deadlines on their way to the timer.
use rust_task_runner.Common.{
  ℕ, ◌≤◌, ◌≡◌, refl, ap, subst, Option, none, some, List, pick, pick-In, In, arith, Option-cases,
  ◌⊎◌, inl, inr,
}
use rust_task_runner.BinaryHeap.{In-push, In-push_keep}
use rust_task_runner.Task.{Task}
use rust_task_runner.Sequence.{take_task, will_run_task, RunStatus, disallowed}
use rust_task_runner.DelayedTaskManager.{
  Manager, DelayedEntry, manager_order, timer_round, add_sequence,
}
use rust_task_runner.DelayedTaskManager.Rounds.{Round, timer_round-pops}
use rust_task_runner.ThreadGroup.{
  Worker, Pc, seeking, got, claimed, running, processed, released, requeueing, exited, Work, leave,
  wait, work, get_work,
}
use rust_task_runner.System.{
  System, Registration, Event, works, posts, delivers, posts_delayed, registers, timer, joins,
  ticks, advance, on_work, on_status, on_task, step, deliver, register, on_timer, set_sequence,
}
use rust_task_runner.System.Attended.{Attended, in_posting}

-- A deadline of sequence `q` that the timer will see: it is in the heap of the manager, or a
-- thread is about to put it there.
pub data Pending (s : System) (q time : ℕ) : Type 0 where
  in_heap :
      (e : DelayedEntry)
      → In e s.manager.heap
      → e.sequence ≡ q
      → e.ready_time ≡ time
      → Pending s q time
  in_registering :
      (r : Registration)
      → In r s.registering
      → r.sequence ≡ q
      → r.ready_time ≡ time
      → Pending s q time

same_deadlines :
    (q time : ℕ) (s t : System)
    → t.manager ≡ s.manager
    → ((r : Registration) → In r s.registering → In r t.registering)
    → Pending s q time
    → Pending t q time
same_deadlines q time s t em er (in_heap e m h k) = in_heap e (rw em m) h k
same_deadlines q time s t em er (in_registering r m h k) = in_registering r (er r m) h k

-- Workers and posting threads do not touch the deadlines or the clock.
abbrev SameDeadlines : System → System → Type 0
SameDeadlines t s = (t.manager ≡ s.manager) × (t.registering ≡ s.registering) × (t.now ≡ s.now)

on_work-SameDeadlines :
    (i : ℕ) (k : Work) (w : Worker) (s : System) → SameDeadlines (on_work i k w s) s
unfolding on_work
on_work-SameDeadlines i leave w s = (refl, refl, refl)
on_work-SameDeadlines i wait w s = (refl, refl, refl)
on_work-SameDeadlines i (work x rest) w s = (refl, refl, refl)

on_status-SameDeadlines :
    (i r : ℕ) (status : RunStatus) (w : Worker) (s : System)
    → SameDeadlines (on_status i r status w s) s
unfolding on_status
on_status-SameDeadlines i r disallowed w s = (refl, refl, refl)
on_status-SameDeadlines i r _ w s = (refl, refl, refl)

on_task-SameDeadlines :
    (i r : ℕ) (o : Option Task) (w : Worker) (s : System) → SameDeadlines (on_task i r o w s) s
unfolding on_task
on_task-SameDeadlines i r none w s = (refl, refl, refl)
on_task-SameDeadlines i r (some t) w s = (refl, refl, refl)

advance-SameDeadlines :
    (i : ℕ) (pc : Pc) (w : Worker) (s : System) → SameDeadlines (advance i pc w s) s
unfolding advance
advance-SameDeadlines i seeking w s = on_work-SameDeadlines i (get_work s.group) w s
advance-SameDeadlines i (got r) w s =
    on_status-SameDeadlines i r (will_run_task (s.sequences r)).0 w
      (set_sequence r (will_run_task (s.sequences r)).1 s)
advance-SameDeadlines i (claimed r) w s =
    on_task-SameDeadlines i r (take_task s.now (s.sequences r)).0 w
      (set_sequence r (take_task s.now (s.sequences r)).1 s)
advance-SameDeadlines i (running r c) w s = (refl, refl, refl)
advance-SameDeadlines i (processed r) w s = (refl, refl, refl)
advance-SameDeadlines i (released r) w s = (refl, refl, refl)
advance-SameDeadlines i (requeueing r) w s = (refl, refl, refl)
advance-SameDeadlines i exited w s = (refl, refl, refl)

deliver-SameDeadlines : (o : Option (ℕ × List ℕ)) (s : System) → SameDeadlines (deliver o s) s
unfolding deliver
deliver-SameDeadlines none s = (refl, refl, refl)
deliver-SameDeadlines (some x) s = (refl, refl, refl)

register-Pending :
    (k : ℕ) (s : System) (q time : ℕ)
    → Pending s q time
    → Pending (register (pick k s.registering) s) q time
unfolding register add_sequence
register-Pending k s q time p = elim (Option-cases (pick k s.registering)) [
  | inl e ↦ rw e p
  | inr ((r, rest), e) ↦ rw e (go r rest e p)
]
  where
    go :
        (r : Registration) (rest : List Registration)
        → pick k s.registering ≡ some (r, rest)
        → Pending s q time
        → Pending (register (some (r, rest)) s) q time
    go r rest e (in_heap x m h l) = in_heap x (In-push_keep manager_order x _ s.manager.heap m) h l
    go r rest e (in_registering y m h l) = elim (pick-In k s.registering e y m) [
      | inl same ↦ in_heap _ (In-push manager_order _ s.manager.heap) (ground arith) (ground arith)
      | inr other ↦ in_registering y other h l
    ]

on_timer-Pending :
    (o : Option ℕ) (m : Manager) (s : System) (q time : ℕ)
    → Round s.now s.manager.heap (o, m)
    → Pending s q time
    → Pending (on_timer (o, m) s) q time ⊎ (time ≤ s.now) × Attended (on_timer (o, m) s) q
unfolding on_timer
on_timer-Pending none m s q time (inl (n, same)) (in_heap e k h l) = inl (in_heap e (rw same k) h l)
on_timer-Pending none m s q time (inr (x, h, due, o)) p = cc
on_timer-Pending (some r) m s q time (inl (n, same)) p = cc
on_timer-Pending none m s q time d (in_registering x k h l) = inl (in_registering x k h l)
on_timer-Pending (some r) m s q time d (in_registering x k h l) = inl (in_registering x k h l)
on_timer-Pending (some r) m s q time (inr (x, split, due, o)) (in_heap e k h l) =
    elim (subst (In e) split k) [
      | inl first ↦
          let at : e.ready_time ≡ x.ready_time = ap (λ (z : DelayedEntry). z.ready_time) first in
          let of : e.sequence ≡ x.sequence = ap (λ (z : DelayedEntry). z.sequence) first in
          inr (omega arith, in_posting (inl (ground arith)))
      | inr behind ↦ inl (in_heap e behind h l)
    ]

-- No step drops a deadline that is registered or about to be: it stays so, or it has come and its
-- sequence is in the queue, on its way there or with a worker.
pub step-Pending :
    (e : Event) (s : System) (q time : ℕ)
    → Pending s q time
    → Pending (step e s) q time ⊎ (time ≤ s.now) × Attended (step e s) q
unfolding step
step-Pending (works i) s q time p =
    let (m, r, _) = advance-SameDeadlines i (s.group.workers i).pc (s.group.workers i) s in
    inl (same_deadlines q time s _ m (λ x h. rw r h) p)
step-Pending (posts r t) s q time p = inl (same_deadlines q time s _ refl (λ x h. h) p)
step-Pending (delivers k) s q time p =
    let (m, r, _) = deliver-SameDeadlines (pick k s.posting) s in
    inl (same_deadlines q time s _ m (λ x h. rw r h) p)
step-Pending (posts_delayed r t delay) s q time p =
    inl (same_deadlines q time s _ refl (λ x h. inr h) p)
step-Pending (registers k) s q time p = inl (register-Pending k s q time p)
step-Pending timer s q time p =
    on_timer-Pending (timer_round s.now s.manager).0 (timer_round s.now s.manager).1 s q time
      (timer_round-pops s.now s.manager) p
step-Pending joins s q time p = inl (same_deadlines q time s _ refl (λ x h. h) p)
step-Pending (ticks n) s q time p = inl (same_deadlines q time s _ refl (λ x h. h) p)

register-now :
    (o : Option (Registration × List Registration)) (s : System) → s.now ≤ (register o s).now
unfolding register
register-now none s = omega arith
register-now (some x) s = omega arith

on_timer-now : (o : Option ℕ) (m : Manager) (s : System) → s.now ≤ (on_timer (o, m) s).now
unfolding on_timer
on_timer-now none m s = omega arith
on_timer-now (some x) m s = omega arith

-- The clock does not go back.
pub step-now : (e : Event) (s : System) → s.now ≤ (step e s).now
unfolding step
step-now (works i) s =
    omega (arith, advance-SameDeadlines i (s.group.workers i).pc (s.group.workers i) s)
step-now (posts r t) s = omega arith
step-now (delivers k) s = omega (arith, deliver-SameDeadlines (pick k s.posting) s)
step-now (posts_delayed r t delay) s = omega arith
step-now (registers k) s = register-now (pick k s.registering) s
step-now timer s = on_timer-now (timer_round s.now s.manager).0 (timer_round s.now s.manager).1 s
step-now joins s = omega arith
step-now (ticks n) s = omega arith
