-- ===== src/ThreadPool/AtWork/Shift.antt =====
-- What a step of the pool at work does to the callbacks that the sequences hold and the workers
-- run.
use rust_task_runner.Common.{
  ℕ, ◌+◌, ◌≡◌, ◌≢◌, refl, Bool-cases, inl, inr, Option, none, some, List, [], ◌∷◌, ◌++◌, map,
  update, pick, arith,
}
use rust_task_runner.BinaryHeap
use rust_task_runner.Task.{Task, Callback}
use rust_task_runner.Sequence.{
  Sequence, DelayedTask, push_task, push_delayed_task, will_run_task, take_task, release_worker,
}
use rust_task_runner.Sequence.Fifo.{to_list, callbacks}
use rust_task_runner.Sequence.Conserve.{contents, take_task-contents}
use rust_task_runner.DelayedTaskManager.{Manager, timer_round}
use rust_task_runner.ThreadGroup.{
  Pc, seeking, got, claimed, running, processed, released, requeueing, exited, Work, leave, wait,
  work, get_work, begin_join, end_round, push_task_source,
}
use rust_task_runner.System.{
  System, Registration, Event, works, posts, delivers, posts_delayed, registers, timer, joins,
  ticks, advance, on_work, on_status, on_task, step, deliver, register, on_timer, set_sequence,
}
use rust_task_runner.System.Claims.{owner}

abbrev pub callback_of : Pc → Option (ℕ × Callback)
callback_of (running q c) = some (q, c)
callback_of _ = none

abbrev pub runs : System → ℕ → Option (ℕ × Callback)
runs s i = callback_of (s.group.workers i).pc

abbrev pub held : System → ℕ → List Callback
held s q = contents (s.sequences q)

-- The sequence that an event puts a task into.
abbrev pub adds_to : Event → Option ℕ
adds_to (posts q t) = some q
adds_to (posts_delayed q t delay) = some q
adds_to _ = none

-- A worker with a claim takes the first callback of its sequence, or leaves the one it runs; or a
-- thread puts one into a sequence; or neither.
pub data Shift (e : Event) (s t : System) : Type 0 where
  stay : ((i : ℕ) → runs t i ≡ runs s i) → ((q : ℕ) → held t q ≡ held s q) → Shift e s t
  take :
      (i q : ℕ) (c : Callback)
      → owner (s.group.workers i).pc ≡ some q
      → runs s i ≡ none
      → ((j : ℕ) → runs t j ≡ update (runs s) i (some (q, c)) j)
      → held s q ≡ c ∷ held t q
      → ((r : ℕ) → r ≢ q → held t r ≡ held s r)
      → Shift e s t
  finish :
      (i q : ℕ) (c : Callback)
      → e ≡ works i
      → runs s i ≡ some (q, c)
      → ((j : ℕ) → runs t j ≡ update (runs s) i none j)
      → ((r : ℕ) → held t r ≡ held s r)
      → Shift e s t
  add :
      (q : ℕ)
      → adds_to e ≡ some q
      → ((j : ℕ) → runs t j ≡ runs s j)
      → ((r : ℕ) → r ≢ q → held t r ≡ held s r)
      → Shift e s t

on_work-Shift :
    (i : ℕ) (k : Work) (s : System)
    → (s.group.workers i).pc ≡ seeking
    → Shift (works i) s (on_work i k (s.group.workers i) s)
unfolding on_work
on_work-Shift i leave s e = stay (λ j. ground arith) (λ r. refl)
on_work-Shift i wait s e = stay (λ j. refl) (λ r. refl)
on_work-Shift i (work x rest) s e = stay (λ j. ground arith) (λ r. refl)

on_task-Shift :
    (i q : ℕ) (task : Option Task) (x : Sequence) (s : System)
    → (s.group.workers i).pc ≡ claimed q
    → callbacks (to_list task) ++ contents x ≡ held s q
    → Shift (works i) s (on_task i q task (s.group.workers i) (set_sequence q x s))
unfolding on_task
on_task-Shift i q none x s e h = stay (λ j. ground arith) (λ r. ground arith)
on_task-Shift i q (some t) x s e h =
    take i q t.callback (ground arith) (ground arith) (λ j. ground arith) (ground arith)
      (λ r o. ground arith)

got-Shift :
    (i q : ℕ) (s : System)
    → (s.group.workers i).pc ≡ got q
    → Shift (works i) s (advance i (got q) (s.group.workers i) s)
unfolding advance on_status will_run_task end_round
got-Shift i q s e = elim (Bool-cases (s.sequences q).has_worker) [
  | inl taken ↦ stay (λ j. ground arith) (λ r. ground arith)
  | inr free ↦ stay (λ j. ground arith) (λ r. ground arith)
]

advance-Shift :
    (i : ℕ) (pc : Pc) (s : System)
    → (s.group.workers i).pc ≡ pc
    → Shift (works i) s (advance i pc (s.group.workers i) s)
unfolding advance release_worker end_round
advance-Shift i seeking s e = on_work-Shift i (get_work s.group) s e
advance-Shift i (got q) s e = got-Shift i q s e
advance-Shift i (claimed q) s e =
    on_task-Shift i q (take_task s.now (s.sequences q)).0 (take_task s.now (s.sequences q)).1 s e
      (take_task-contents s.now (s.sequences q))
advance-Shift i (running q c) s e = finish i q c refl (ground arith) (λ j. ground arith) (λ r. refl)
advance-Shift i (processed q) s e = stay (λ j. ground arith) (λ r. ground arith)
advance-Shift i (released q) s e = stay (λ j. ground arith) (λ r. refl)
advance-Shift i (requeueing q) s e = stay (λ j. unfold push_task_source in ground arith) (λ r. refl)
advance-Shift i exited s e = stay (λ j. refl) (λ r. refl)

deliver-Shift : (e : Event) (o : Option (ℕ × List ℕ)) (s : System) → Shift e s (deliver o s)
unfolding deliver push_task_source
deliver-Shift e none s = stay (λ j. refl) (λ r. refl)
deliver-Shift e (some (q, rest)) s = stay (λ j. refl) (λ r. refl)

register-Shift :
    (e : Event) (o : Option (Registration × List Registration)) (s : System)
    → Shift e s (register o s)
unfolding register
register-Shift e none s = stay (λ j. refl) (λ r. refl)
register-Shift e (some (q, rest)) s = stay (λ j. refl) (λ r. refl)

on_timer-Shift :
    (e : Event) (o : Option ℕ) (m : Manager) (s : System) → Shift e s (on_timer (o, m) s)
unfolding on_timer
on_timer-Shift e none m s = stay (λ j. refl) (λ r. refl)
on_timer-Shift e (some q) m s = stay (λ j. refl) (λ r. refl)

pub step-Shift : (e : Event) (s : System) → Shift e s (step e s)
unfolding step begin_join
step-Shift (works i) s = advance-Shift i (s.group.workers i).pc s refl
step-Shift (posts q t) s = add q refl (λ j. refl) (λ r o. ground arith)
step-Shift (delivers k) s = deliver-Shift (delivers k) (pick k s.posting) s
step-Shift (posts_delayed q t delay) s = add q refl (λ j. refl) (λ r o. ground arith)
step-Shift (registers k) s = register-Shift (registers k) (pick k s.registering) s
step-Shift timer s =
    on_timer-Shift timer (timer_round s.now s.manager).0 (timer_round s.now s.manager).1 s
step-Shift joins s = stay (λ j. refl) (λ r. refl)
step-Shift (ticks n) s = stay (λ j. refl) (λ r. refl)

-- The worker in a callback leaves it.
pub works-leaves :
    (i q : ℕ) (c : Callback) (s : System)
    → (s.group.workers i).pc ≡ running q c
    → ((j : ℕ) → runs (step (works i) s) j ≡ update (runs s) i none j)
      × ((r : ℕ) → held (step (works i) s) r ≡ held s r)
unfolding step advance
works-leaves i q c s e = (λ j. ground (arith, e), λ r. ground (arith, e))

pub both_empty :
    (xs : List Task) (ds : List DelayedTask)
    → callbacks xs ++ callbacks (map (λ d. d.task) ds) ≡ []
    → (xs ≡ []) × (ds ≡ [])
both_empty [] [] e = (refl, refl)
both_empty [] (d ∷ ds) e = absurd (cc e)
both_empty (x ∷ xs) ds e = absurd (cc e)

push_task-contents :
    (t : Task) (x : Sequence) → contents x ≡ [] → contents (push_task t x) ≡ t.callback ∷ []
unfolding push_task
push_task-contents t x e =
    let (a, b) = both_empty x.inner.immediate_queue x.inner.delayed_queue e in rw (a, b) refl

push_delayed_task-contents :
    (t : Task) (time : ℕ) (x : Sequence)
    → contents x ≡ []
    → contents (push_delayed_task t time x) ≡ t.callback ∷ []
unfolding push_delayed_task BinaryHeap.push
push_delayed_task-contents t time x e =
    let (a, b) = both_empty x.inner.immediate_queue x.inner.delayed_queue e in rw (a, b) refl

-- What a post to sequence `q` does: the workers run what they ran, the other sequences hold what
-- they held, and a sequence that holds nothing holds the task that is put into it.
pub record IsPush (q : ℕ) (c : Callback) (s t : System) : Type 0 where
  pub workers : (i : ℕ) → runs t i ≡ runs s i
  pub others : (r : ℕ) → r ≢ q → held t r ≡ held s r
  pub first : held s q ≡ [] → held t q ≡ c ∷ []

pub posts-IsPush : (q : ℕ) (t : Task) (s : System) → IsPush q t.callback s (step (posts q t) s)
unfolding step
posts-IsPush q t s = record {
  workers = λ i. refl;
  others = λ r o. ground arith;
  first = λ e. ground (arith, push_task-contents t (s.sequences q) e);
}

pub posts_delayed-IsPush :
    (q : ℕ) (t : Task) (delay : ℕ) (s : System)
    → IsPush q t.callback s (step (posts_delayed q t delay) s)
unfolding step
posts_delayed-IsPush q t delay s = record {
  workers = λ i. refl;
  others = λ r o. ground arith;
  first = λ e. ground (arith, push_delayed_task-contents t (s.now + delay) (s.sequences q) e);
}
