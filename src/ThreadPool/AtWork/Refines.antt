-- ===== src/ThreadPool/AtWork/Refines.antt =====
-- The steps and the histories of the pool at work against those of the pool without a queue.
use rust_task_runner.Common.{
  ℕ, ◌≤◌, ◌≡◌, ◌≢◌, refl, ap, sym, ◌∙◌, Bool, true, Bool-cases, Option, none, some, inl, inr, List,
  [], ◌∷◌, ◌++◌, length, length-append, arith,
}
use rust_task_runner.Task
use rust_task_runner.Task.{TaskTraits, Callback, guarded}
use rust_task_runner.System
use rust_task_runner.ThreadGroup.{Pc, running}
use rust_task_runner.ThreadPool
use rust_task_runner.ThreadPool.{Pool, PostedTask, queued, finished, returned}
use rust_task_runner.ThreadPool.AtWork.{
  Whole, act, post_to_runner, timed_by_monitor, Event, posts, posts_delayed, posts_to_runner,
  posts_delayed_to_runner, works, delivers, registers, timer, ticks, shuts_down, wakes, step, run,
}
use rust_task_runner.ThreadPool.AtWork.Shift.{adds_to, posts-IsPush, posts_delayed-IsPush}
use rust_task_runner.ThreadPool.AtWork.Steps.{IsPlaced, act-IsPlaced}
use rust_task_runner.ThreadPool.AtWork.Abstract.{
  abstract_work, abstract_closure, abstract, Refines, work-Refines, post-Refines, shutdown-Refines,
}

module _ (runner : ℕ → Bool) (monitored : Bool) where
  act-Refines :
      (e : System.Event) (w : Whole)
      → ((i : ℕ) → System.works i ≢ e)
      → ((q : ℕ) → adds_to e ≡ some q → runner q ≡ true)
      → IsPlaced runner w
      → Refines runner [] w (act e w)
  unfolding ThreadPool.run
  act-Refines e w not_works ha p = record {
    placed = act-IsPlaced runner e w (λ i q c a b. absurd (not_works i (sym a))) ha p;
    same = refl;
  }

  to_runner-Refines :
      (q : ℕ) (e : System.Event) (w : Whole)
      → ((i : ℕ) → System.works i ≢ e)
      → adds_to e ≡ some q
      → IsPlaced runner w
      → Refines runner [] w (post_to_runner runner monitored q e w)
  unfolding post_to_runner ThreadPool.run
  to_runner-Refines q e w not_works a p = elim (Bool-cases (runner q)) [
    | inl h ↦ rw h (act-Refines e w not_works (λ r b. cc (a, b, h)) p)
    | inr h ↦ rw h (record { placed = p; same = refl })
  ]

  pub step-Refines :
      (e : Event) (w : Whole)
      → IsPlaced runner w
      → Refines runner (abstract runner e w) w (step runner monitored e w)
  unfolding step Task.new
  step-Refines (posts q n) w p =
      post-Refines runner monitored q (λ c. System.posts q (Task.new c 0)) n w
        (λ c. posts-IsPush q (Task.new c 0) w.system) p
  step-Refines (posts_delayed q n delay) w p =
      post-Refines runner monitored q (λ c. System.posts_delayed q (Task.new c 0) delay) n w
        (λ c. posts_delayed-IsPush q (Task.new c 0) delay w.system) p
  step-Refines (posts_to_runner q c) w p =
      to_runner-Refines q (System.posts q (Task.new (timed_by_monitor monitored w.system.now c) 0))
        w (λ i e. absurd (cc e)) refl p
  step-Refines (posts_delayed_to_runner q c delay) w p =
      to_runner-Refines q
        (System.posts_delayed q (Task.new (timed_by_monitor monitored w.system.now c) 0) delay) w
        (λ i e. absurd (cc e)) refl p
  step-Refines (works i) w p = work-Refines runner i (w.system.group.workers i).pc w refl p
  step-Refines (delivers k) w p =
      act-Refines (System.delivers k) w (λ i e. absurd (cc e)) (λ q a. absurd (cc a)) p
  step-Refines (registers k) w p =
      act-Refines (System.registers k) w (λ i e. absurd (cc e)) (λ q a. absurd (cc a)) p
  step-Refines timer w p =
      act-Refines System.timer w (λ i e. absurd (cc e)) (λ q a. absurd (cc a)) p
  step-Refines (ticks n) w p =
      act-Refines (System.ticks n) w (λ i e. absurd (cc e)) (λ q a. absurd (cc a)) p
  step-Refines shuts_down w p = shutdown-Refines runner w.pool.caller w refl p
  step-Refines wakes w p = record {
    placed = record { exclusive = p.exclusive; places = p.places; present = p.present };
    same = unfold ThreadPool.run ThreadPool.step in refl;
  }

  abbrev pub abstract_run : List Event → Whole → List ThreadPool.Event
  abstract_run [] w = []
  abstract_run (e ∷ es) w = abstract runner e w ++ abstract_run es (step runner monitored e w)

  run-append :
      (xs ys : List ThreadPool.Event) (p : Pool)
      → ThreadPool.run (xs ++ ys) p ≡ ThreadPool.run ys (ThreadPool.run xs p)
  unfolding ThreadPool.run
  run-append [] ys p = refl
  run-append (x ∷ xs) ys p = run-append xs ys (ThreadPool.step x p)

  pub run-Refines :
      (es : List Event) (w : Whole)
      → IsPlaced runner w
      → Refines runner (abstract_run es w) w (run runner monitored es w)
  unfolding ThreadPool.run
  run-Refines [] w p = record { placed = p; same = refl }
  run-Refines (e ∷ es) w p =
      let r = step-Refines e w p in
      let rest = run-Refines es (step runner monitored e w) r.placed in
      record {
        placed = rest.placed;
        same =
            rest.same
            ∙ ap (ThreadPool.run (abstract_run es (step runner monitored e w))) r.same
            ∙ sym (run-append (abstract runner e w) _ w.pool);
      }

  closure-length : (o : Option ℕ) (b : Bool) → length (abstract_closure o b) ≤ 1
  closure-length none b = omega arith
  closure-length (some k) b = omega arith

  work-length : (ids : ℕ → Option ℕ) (b : Bool) (pc : Pc) → length (abstract_work ids b pc) ≤ 1
  work-length ids b (running q (guarded traits c)) = closure-length (ids q) b
  work-length ids b _ = omega arith

  abstract-length : (e : Event) (w : Whole) → length (abstract runner e w) ≤ 1
  abstract-length (posts q n) w = ground arith
  abstract-length (posts_delayed q n delay) w = ground arith
  abstract-length (works i) w = work-length w.ids (w.inside i) (w.system.group.workers i).pc
  abstract-length shuts_down w = omega arith
  abstract-length wakes w = omega arith
  abstract-length _ w = omega arith

  pub abstract_run-length : (es : List Event) (w : Whole) → length (abstract_run es w) ≤ length es
  abstract_run-length [] w = omega arith
  abstract_run-length (e ∷ es) w = omega (
    arith,
    length-append {0} (abstract runner e w) (abstract_run es (step runner monitored e w)),
    abstract-length e w,
    abstract_run-length es (step runner monitored e w),
  )
