-- ===== src/ThreadPool/AtWork/Abstract.antt =====
-- The pool at work against the pool that has no queue between posting and running.
use rust_task_runner.Common.{
  ℕ, ◌≡◌, refl, sym, ◌∙◌, fun_ext, Bool, true, false, Bool-cases, ◌||◌, Option, none, some,
  Option-cases, inl, inr, List, [], ◌∷◌, ◌++◌, if◌then◌else◌,
}
use rust_task_runner.Task.{TaskTraits, Callback, guarded, user}
use rust_task_runner.System
use rust_task_runner.System.{System}
use rust_task_runner.System.Claims.{step-Move, Move-IsExclusive}
use rust_task_runner.ThreadGroup.{Pc, running}
use rust_task_runner.ThreadPool
use rust_task_runner.ThreadPool.{
  Pool, PostedTask, Stage, queued, finished, post_task, wrap, Caller, outside, deciding, sleeping,
  returned, call_shutdown,
}
use rust_task_runner.ThreadPool.Length.{call_shutdown-tasks}
use rust_task_runner.ThreadPool.AtWork.{
  Whole, in_use, Closing, waiting, joining, closed, on_closure, post, work, close, shutdown, Event,
  posts, posts_delayed, works, shuts_down, wakes,
}
use rust_task_runner.ThreadPool.AtWork.Shift.{callback_of, runs, IsPush}
use rust_task_runner.ThreadPool.AtWork.Present.{post-Present}
use rust_task_runner.ThreadPool.AtWork.Starts.{post-Placed}
use rust_task_runner.ThreadPool.AtWork.Steps.{
  IsPlaced, act-IsPlaced, run_wrapped-IsPlaced, run_wrapped-refines,
}

-- What a step of the pool at work is to the pool without the queue.
abbrev pub abstract_post : Bool → TaskTraits → List ThreadPool.Event
abstract_post used traits = if used then [] else ThreadPool.posts traits ∷ []

abbrev pub abstract_closure : Option ℕ → Bool → List ThreadPool.Event
abstract_closure none b = []
abstract_closure (some k) b = (if b then ThreadPool.ends k else ThreadPool.starts k) ∷ []

abbrev pub abstract_work : (ℕ → Option ℕ) → Bool → Pc → List ThreadPool.Event
abstract_work ids b (running q (guarded traits c)) = abstract_closure (ids q) b
abstract_work ids b _ = []

abbrev pub abstract : (ℕ → Bool) → Event → Whole → List ThreadPool.Event
abstract runner (posts q n) w =
    abstract_post (runner q || in_use (w.ids q)) (w.system.sequences q).traits
abstract runner (posts_delayed q n delay) w =
    abstract_post (runner q || in_use (w.ids q)) (w.system.sequences q).traits
abstract runner (works i) w = abstract_work w.ids (w.inside i) (w.system.group.workers i).pc
abstract runner shuts_down w = ThreadPool.shuts_down ∷ []
abstract runner wakes w = ThreadPool.wakes ∷ []
abstract runner _ w = []

-- A step keeps the closures in place, and does to the tasks and the tracker what `abstract` says.
pub record Refines (runner : ℕ → Bool) (es : List ThreadPool.Event) (w w' : Whole) : Type 0 where
  pub placed : IsPlaced runner w'
  pub same : w'.pool ≡ ThreadPool.run es w.pool

callback_of-running :
    (pc : Pc) (q : ℕ) (c : Callback) → callback_of pc ≡ some (q, c) → pc ≡ running q c
callback_of-running (running r d) q c e = cc e
callback_of-running _ q c e = absurd (cc e)

-- A worker that is not in a closure of `wrap` runs no accepted task.
not_wrapped :
    (runner : ℕ → Bool) (i : ℕ) (w : Whole)
    → IsPlaced runner w
    → ((q : ℕ) (traits : TaskTraits) (d : Callback)
        → (w.system.group.workers i).pc ≡ running q (guarded traits d)
        → w.ids q ≡ none)
    → (j q : ℕ) (c : Callback) → System.works i ≡ System.works j
    → runs w.system j ≡ some (q, c)
    → w.ids q ≡ none
not_wrapped runner i w p none_of j q c a b = elim (Option-cases (w.ids q)) [
  | inl e ↦ e
  | inr (k, e) ↦
      let r = p.places.run_by j q k c b e in
      none_of q r.traits r.callback
        (cc (a, r.here, callback_of-running (w.system.group.workers j).pc q c b))
]

closure-Refines :
    (runner : ℕ → Bool) (i q : ℕ) (traits : TaskTraits) (d : Callback) (o : Option ℕ) (w : Whole)
    → (w.system.group.workers i).pc ≡ running q (guarded traits d)
    → w.ids q ≡ o
    → IsPlaced runner w
    → Refines runner (abstract_closure o (w.inside i)) w (on_closure i traits o w)
unfolding on_closure ThreadPool.run
closure-Refines runner i q traits d none w h e p = record {
  placed =
      act-IsPlaced runner (System.works i) w (not_wrapped runner i w p (λ r t c g. cc (h, e, g)))
        (λ r a. absurd (cc a)) p;
  same = refl;
}
closure-Refines runner i q traits d (some k) w h e p = record {
  placed = run_wrapped-IsPlaced runner i q k traits d w p h e (w.inside i) refl;
  same = run_wrapped-refines runner i q k traits d w p h e (w.inside i) refl;
}

pub work-Refines :
    (runner : ℕ → Bool) (i : ℕ) (pc : Pc) (w : Whole)
    → (w.system.group.workers i).pc ≡ pc
    → IsPlaced runner w
    → Refines runner (abstract_work w.ids (w.inside i) pc) w (work i pc w)
unfolding work ThreadPool.run
work-Refines runner i (running q (guarded traits d)) w h p =
    closure-Refines runner i q traits d (w.ids q) w h refl p
work-Refines runner i pc w h p = record {
  placed =
      act-IsPlaced runner (System.works i) w
        (not_wrapped runner i w p (λ q t c g. absurd (cc (h, g)))) (λ r a. absurd (cc a)) p;
  same = refl;
}

accepted-tasks :
    (traits : TaskTraits) (p : Pool)
    → (post_task traits p).0 ≡ true
    → (post_task traits p).1.tasks ≡ p.tasks ++ record { traits = traits; stage = queued } ∷ []
unfolding post_task
accepted-tasks traits p e = rw e refl

rejected-tasks :
    (traits : TaskTraits) (p : Pool)
    → (post_task traits p).0 ≡ false
    → (post_task traits p).1.tasks ≡ p.tasks
unfolding post_task
rejected-tasks traits p e = rw e refl

unused_cases : (b : Bool) (o : Option ℕ) → b || in_use o ≡ false → (b ≡ false) × (o ≡ none)
unused_cases false none e = (refl, refl)
unused_cases false (some k) e = absurd (cc e)
unused_cases true o e = absurd (cc e)

pub post-Refines :
    (runner : ℕ → Bool) (monitored : Bool) (q : ℕ) (push : Callback → System.Event) (n : ℕ)
    (w : Whole)
    → ((c : Callback) → IsPush q c w.system (System.step (push c) w.system))
    → IsPlaced runner w
    → Refines runner
        (abstract_post (runner q || in_use (w.ids q)) (w.system.sequences q).traits)
        w
        (post runner monitored q push n w)
unfolding post wrap ThreadPool.run ThreadPool.step
post-Refines runner monitored q push n w h p = elim (Bool-cases (runner q || in_use (w.ids q))) [
  | inl used ↦ rw used (record { placed = p; same = refl })
  | inr fresh ↦ elim (Bool-cases (post_task traits w.pool).0) [
    | inl yes_post ↦
        rw (fresh, yes_post)
          (record {
            placed = record {
              exclusive = Move-IsExclusive p.exclusive (step-Move _ w.system);
              places =
                  let (nr, nk) = unused_cases (runner q) (w.ids q) fresh in
                  rw (fun_ext pushed.workers, accepted-tasks traits w.pool yes_post)
                    (post-Placed runner p.places q traits _ _ nk nr
                      (pushed.first (p.places.unused q nk nr)) pushed.others);
              present =
                  let (nr, nk) = unused_cases (runner q) (w.ids q) fresh in
                  rw (fun_ext pushed.workers, accepted-tasks traits w.pool yes_post)
                    (post-Present runner p.places p.present q _ _ _ nk refl
                      (pushed.first (p.places.unused q nk nr)) pushed.others);
            };
            same = refl;
          })
    | inr no_post ↦
        rw (fresh, no_post)
          (record {
            placed = record {
              exclusive = p.exclusive;
              places = rw (rejected-tasks traits w.pool no_post) p.places;
              present = rw (rejected-tasks traits w.pool no_post) p.present;
            };
            same = refl;
          })
  ]
]
  where
    traits : TaskTraits
    traits = (w.system.sequences q).traits

    closure : Callback
    closure = wrap monitored w.system.now traits (user n)

    pushed : IsPush q closure w.system (System.step (push closure) w.system)
    pushed = h closure

-- `shutdown` changes no task.
close-Refines :
    (runner : ℕ → Bool) (c : Closing) (w : Whole)
    → IsPlaced runner w
    → IsPlaced runner (close c w) × ((close c w).pool ≡ w.pool)
unfolding close
close-Refines runner waiting w p =
    let r =
      act-IsPlaced runner System.joins w (λ i q c a b. absurd (cc a)) (λ q a. absurd (cc a)) p in
    (record { exclusive = r.exclusive; places = r.places; present = r.present }, refl)
close-Refines runner joining w p =
    (record { exclusive = p.exclusive; places = p.places; present = p.present }, refl)
close-Refines runner closed w p = (p, refl)

pub shutdown-Refines :
    (runner : ℕ → Bool) (c : Caller) (w : Whole)
    → w.pool.caller ≡ c
    → IsPlaced runner w
    → Refines runner (ThreadPool.shuts_down ∷ []) w (shutdown c w)
unfolding shutdown ThreadPool.run ThreadPool.step
shutdown-Refines runner returned w e p =
    let (p', same') = close-Refines runner w.closing w p in
    record { placed = p'; same = same' ∙ sym (rw e (unfold call_shutdown in refl)) }
shutdown-Refines runner c w e p = record {
  placed = record {
    exclusive = p.exclusive;
    places = rw (call_shutdown-tasks c w.pool) p.places;
    present = rw (call_shutdown-tasks c w.pool) p.present;
  };
  same = rw e refl;
}
