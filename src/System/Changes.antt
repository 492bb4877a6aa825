-- ===== src/System/Changes.antt =====
-- What a step may do to the queues of a sequence.
use rust_task_runner.Common.{
  ℕ, ◌+◌, ◌≡◌, ◌≢◌, refl, ap, sym, subst, ℕ_discrete, Option, none, some, List, [], update, pick,
  In, arith, ◌∙◌, ◌⊎◌, inl, inr,
}
use rust_task_runner.BinaryHeap.{IsSorted, push-IsSorted, In-push_cases}
use rust_task_runner.Task.{Task}
use rust_task_runner.Sequence.{
  Sequence, SequenceInner, DelayedTask, delayed_order, push_task, push_delayed_task, will_run_task,
  take_task, release_worker,
}
use rust_task_runner.Sequence.Flush.{take_task-In, take_task-IsSorted}
use rust_task_runner.DelayedTaskManager.{Manager, timer_round}
use rust_task_runner.ThreadGroup.{
  Worker, Pc, seeking, got, claimed, running, processed, released, requeueing, exited, Work, leave,
  wait, work, get_work,
}
use rust_task_runner.System.{
  System, Registration, Event, works, posts, delivers, posts_delayed, registers, timer, joins,
  ticks, advance, on_work, on_task, step, deliver, register, on_timer,
}
use rust_task_runner.System.Pending.{Pending, in_registering}
use rust_task_runner.System.Attended.{Attended, in_posting, in_hand}

-- What a step may do to sequence `q`.
pub record Change (s t : System) (q : ℕ) : Type 0 where
  pub imm :
      (t.sequences q).inner.immediate_queue ≢ []
      → ((s.sequences q).inner.immediate_queue ≢ []) ⊎ Attended t q
  pub del :
      (d : DelayedTask)
      → In d (t.sequences q).inner.delayed_queue
      → In d (s.sequences q).inner.delayed_queue ⊎ Pending t q d.ready_time
  pub sort :
      IsSorted delayed_order (s.sequences q).inner.delayed_queue
      → IsSorted delayed_order (t.sequences q).inner.delayed_queue

unchanged : (s t : System) (q : ℕ) → (t.sequences q).inner ≡ (s.sequences q).inner → Change s t q
unchanged s t q e = record {
  imm = λ h. inl (λ k. h (ap (λ (x : SequenceInner). x.immediate_queue) e ∙ k));
  del = λ d m. inl (subst (λ x. In d x.delayed_queue) e m);
  sort = λ h. subst (λ x. IsSorted delayed_order x.delayed_queue) (sym e) h;
}

-- A worker changes a sequence's queues only by `take_task`, and then has the sequence in hand.
on_work-Change : (i : ℕ) (k : Work) (w : Worker) (s : System) (q : ℕ) → Change s (on_work i k w s) q
unfolding on_work
on_work-Change i leave w s q = unchanged s _ q refl
on_work-Change i wait w s q = unchanged s _ q refl
on_work-Change i (work x rest) w s q = unchanged s _ q refl

on_task-hand :
    (i r : ℕ) (o : Option Task) (w : Worker) (s : System) → Attended (on_task i r o w s) r
unfolding on_task
on_task-hand i r none w s = in_hand i (ground arith)
on_task-hand i r (some t) w s = in_hand i (ground arith)

on_task-sequences :
    (i r : ℕ) (o : Option Task) (w : Worker) (s : System)
    → (on_task i r o w s).sequences ≡ s.sequences
unfolding on_task
on_task-sequences i r none w s = refl
on_task-sequences i r (some t) w s = refl

claimed-sequences :
    (i r : ℕ) (w : Worker) (s : System)
    → (advance i (claimed r) w s).sequences
      ≡ update s.sequences r (take_task s.now (s.sequences r)).1
unfolding advance
claimed-sequences i r w s = on_task-sequences i r (take_task s.now (s.sequences r)).0 w _

claimed-Change_self : (i r : ℕ) (w : Worker) (s : System) → Change s (advance i (claimed r) w s) r
claimed-Change_self i r w s = record {
  imm = λ _. inr (unfold advance in on_task-hand i r (take_task s.now (s.sequences r)).0 w _);
  del = λ d m. inl (
      take_task-In s.now (s.sequences r) d
        (subst (λ (x : Sequence). In d x.inner.delayed_queue) here m));
  sort = λ h.
      subst (λ (x : Sequence). IsSorted delayed_order x.inner.delayed_queue) (sym here)
        (take_task-IsSorted s.now (s.sequences r) h);
}
  where
    here : (advance i (claimed r) w s).sequences r ≡ (take_task s.now (s.sequences r)).1
    here = ap (λ f. f r) (claimed-sequences i r w s) ∙ ground arith

claimed-Change :
    (i r : ℕ) (w : Worker) (s : System) (q : ℕ) → Change s (advance i (claimed r) w s) q
claimed-Change i r w s q = elim (ℕ_discrete r q) [
  | yes same ↦ subst (Change s (advance i (claimed r) w s)) same (claimed-Change_self i r w s)
  | no other ↦ unchanged s _ q (ap (λ f. (f q).inner) (claimed-sequences i r w s) ∙ ground arith)
]

advance-Change : (i : ℕ) (pc : Pc) (w : Worker) (s : System) (q : ℕ) → Change s (advance i pc w s) q
unfolding advance
advance-Change i seeking w s q = on_work-Change i (get_work s.group) w s q
advance-Change i (got r) w s q = unchanged s _ q (unfold will_run_task in ground arith)
advance-Change i (claimed r) w s q = claimed-Change i r w s q
advance-Change i (running r c) w s q = unchanged s _ q refl
advance-Change i (processed r) w s q = unchanged s _ q (unfold release_worker in ground arith)
advance-Change i (released r) w s q = unchanged s _ q refl
advance-Change i (requeueing r) w s q = unchanged s _ q refl
advance-Change i exited w s q = unchanged s _ q refl

posts-Change : (s : System) (q r : ℕ) (t : Task) → r ≡ q → Change s (step (posts r t) s) q
unfolding step push_task
posts-Change s q r t same = record {
  imm = λ _. inr (in_posting (inl (sym same)));
  del = λ d m. inl (ground arith);
  sort = λ h. ground arith;
}

posts_delayed-Change_self :
    (s : System) (r : ℕ) (t : Task) (delay : ℕ) → Change s (step (posts_delayed r t delay) s) r
unfolding step push_delayed_task
posts_delayed-Change_self s r t delay = record {
  imm = λ h. inl (ground arith);
  del = λ d m.
      elim (In-push_cases delayed_order d _ (s.sequences r).inner.delayed_queue
        (subst (λ (x : Sequence). In d x.inner.delayed_queue) here m)) [
          | inl new ↦
              inr (
                in_registering _ (inl refl) refl (sym (ap (λ (z : DelayedTask). z.ready_time) new)))
          | inr old ↦ inl old
        ];
  sort = λ h.
      subst (λ (x : Sequence). IsSorted delayed_order x.inner.delayed_queue) (sym here)
        (push-IsSorted delayed_order _ (s.sequences r).inner.delayed_queue h);
}
  where
    here :
        (step (posts_delayed r t delay) s).sequences r
        ≡ push_delayed_task t (s.now + delay) (s.sequences r)
    here = ground arith

deliver-sequences : (o : Option (ℕ × List ℕ)) (s : System) → (deliver o s).sequences ≡ s.sequences
unfolding deliver
deliver-sequences none s = refl
deliver-sequences (some x) s = refl

register-sequences :
    (o : Option (Registration × List Registration)) (s : System)
    → (register o s).sequences ≡ s.sequences
unfolding register
register-sequences none s = refl
register-sequences (some x) s = refl

on_timer-sequences :
    (o : Option ℕ) (m : Manager) (s : System) → (on_timer (o, m) s).sequences ≡ s.sequences
unfolding on_timer
on_timer-sequences none m s = refl
on_timer-sequences (some x) m s = refl

pub step-Change : (e : Event) (s : System) (q : ℕ) → Change s (step e s) q
unfolding step
step-Change (works i) s q = advance-Change i (s.group.workers i).pc (s.group.workers i) s q
step-Change (posts r t) s q = elim (ℕ_discrete r q) [
  | yes same ↦ posts-Change s q r t same
  | no other ↦ unchanged s _ q (ground arith)
]
step-Change (delivers k) s q =
    unchanged s _ q (ap (λ f. (f q).inner) (deliver-sequences (pick k s.posting) s))
step-Change (posts_delayed r t delay) s q = elim (ℕ_discrete r q) [
  | yes same ↦
      subst (Change s (step (posts_delayed r t delay) s)) same
        (posts_delayed-Change_self s r t delay)
  | no other ↦ unchanged s _ q (ground arith)
]
step-Change (registers k) s q =
    unchanged s _ q (ap (λ f. (f q).inner) (register-sequences (pick k s.registering) s))
step-Change timer s q = unchanged s _ q (
    ap (λ f. (f q).inner)
      (on_timer-sequences (timer_round s.now s.manager).0 (timer_round s.now s.manager).1 s))
step-Change joins s q = unchanged s _ q refl
step-Change (ticks n) s q = unchanged s _ q refl
