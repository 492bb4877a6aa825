-- ===== src/System/Handover.antt =====
-- How the steps of the pool hand a sequence from one place to the next.
use rust_task_runner.Common.{
  ℕ, ◌≡◌, refl, sym, false, Option, none, some, List, pick, pick-In, In, Option-cases, ◌⊎◌, inl,
  inr,
}
use rust_task_runner.BinaryHeap.{In-push, In-push_keep}
use rust_task_runner.Sequence.{has_ready_tasks}
use rust_task_runner.DelayedTaskManager.{Manager, timer_round}
use rust_task_runner.PriorityQueue.{entry_order}
use rust_task_runner.ThreadGroup.{push_task_source, begin_join}
use rust_task_runner.System.{
  System, Registration, Event, works, posts, delivers, posts_delayed, registers, timer, joins,
  ticks, step, deliver, register, on_timer,
}
use rust_task_runner.System.Claims.{claims, IsExclusive}
use rust_task_runner.System.Attended.{
  Attended, in_queue, in_posting, in_hand, advance-Attended, attended_cases,
}

deliver-Attended :
    (k : ℕ) (s : System) (q : ℕ) → Attended s q → Attended (deliver (pick k s.posting) s) q
unfolding deliver push_task_source
deliver-Attended k s q a = elim (Option-cases (pick k s.posting)) [
  | inl e ↦ rw e a
  | inr ((r, rest), e) ↦ rw e (
      attended_cases s 0 q _
        (λ y m h. in_queue y (In-push_keep entry_order y _ s.group.priority_queue m) h)
        (λ m. elim (pick-In k s.posting e q m) [
          | inl same ↦ in_queue _ (In-push entry_order _ s.group.priority_queue) (sym same)
          | inr other ↦ in_posting other
        ])
        (λ h. in_hand 0 h) (λ j d h. in_hand j h) a)
]

-- Other changes of the system leave the queue, the posting threads and the workers alone.
same_places :
    (q : ℕ) (s t : System)
    → t.group.priority_queue ≡ s.group.priority_queue
    → ((r : ℕ) → In r s.posting → In r t.posting)
    → t.group.workers ≡ s.group.workers
    → Attended s q
    → Attended t q
same_places q s t eq ep ew =
    attended_cases s 0 q (Attended t q) (λ e m h. in_queue e (rw eq m) h) (λ m. in_posting (ep q m))
      (λ h. in_hand 0 (rw ew h)) (λ j d h. in_hand j (rw ew h))

register-Attended :
    (o : Option (Registration × List Registration)) (s : System) (q : ℕ)
    → Attended s q
    → Attended (register o s) q
unfolding register
register-Attended none s q a = a
register-Attended (some x) s q a = same_places q s _ refl (λ r m. m) refl a

on_timer-Attended :
    (o : Option ℕ) (m : Manager) (s : System) (q : ℕ)
    → Attended s q
    → Attended (on_timer (o, m) s) q
unfolding on_timer
on_timer-Attended none m s q a = same_places q s _ refl (λ r h. h) refl a
on_timer-Attended (some x) m s q a = same_places q s _ refl (λ r h. inr h) refl a

-- In a pool where each claim has one owner, a sequence that is in the queue, on its way there or
-- with a worker stays so in every step, except that its worker lets go of it when it has nothing
-- ready.
pub step-Attended :
    (e : Event) (s : System)
    → IsExclusive (claims s)
    → (q : ℕ) → Attended s q
    → Attended (step e s) q ⊎ (has_ready_tasks s.now (s.sequences q) ≡ false)
unfolding step
step-Attended (works i) s x q a = elim (advance-Attended i (s.group.workers i).pc s refl x q a) [
  | inl kept ↦ inl kept
  | inr gone ↦ inr gone.1
]
step-Attended (posts r t) s x q a = inl (same_places q s _ refl (λ r h. inr h) refl a)
step-Attended (delivers k) s x q a = inl (deliver-Attended k s q a)
step-Attended (posts_delayed r t delay) s x q a = inl (same_places q s _ refl (λ r h. h) refl a)
step-Attended (registers k) s x q a = inl (register-Attended (pick k s.registering) s q a)
step-Attended timer s x q a =
    inl (on_timer-Attended (timer_round s.now s.manager).0 (timer_round s.now s.manager).1 s q a)
step-Attended joins s x q a =
    inl (same_places q s _ (unfold begin_join in refl) (λ r h. h) (unfold begin_join in refl) a)
step-Attended (ticks n) s x q a = inl (same_places q s _ refl (λ r h. h) refl a)
