-- ===== src/ThreadPool/AtWork/Steps.antt =====
-- Every step of the pool keeps the closures of the accepted tasks where they belong.
use rust_task_runner.Common.{
  ℕ, ◌≡◌, refl, ap, sym, ◌∙◌, fun_ext, Bool, true, false, Option, none, some, List, get_elem?, set,
  update, if◌then◌else◌, arith,
}
use rust_task_runner.Task.{TaskTraits, Callback, guarded}
use rust_task_runner.System
use rust_task_runner.System.{System}
use rust_task_runner.System.Claims.{claims, owner, IsExclusive, step-Move, Move-IsExclusive}
use rust_task_runner.ThreadGroup.{Pc, running}
use rust_task_runner.ThreadPool
use rust_task_runner.ThreadPool.{
  Pool, PostedTask, Stage, queued, skipped, finished, start_stage, start_task, end_task, post_task,
}
use rust_task_runner.ThreadPool.AtWork.{Whole, act, leave, after_test, run_wrapped}
use rust_task_runner.ThreadPool.AtWork.Shift.{
  Shift, stay, take, finish, add, adds_to, runs, held, callback_of, step-Shift, works-leaves,
}
use rust_task_runner.ThreadPool.AtWork.Placed.{Placed, Runs, take-Placed, drop-Placed}
use rust_task_runner.ThreadPool.AtWork.Present.{
  Here, ended, dropped, Present, take-Present, drop-Present, add-Present, pass-Present,
  leave-Present,
}
use rust_task_runner.ThreadPool.AtWork.Starts.{add-Placed, pass-Placed, leave-Placed}

runs-owner : (pc : Pc) (q : ℕ) (c : Callback) → callback_of pc ≡ some (q, c) → owner pc ≡ some q
runs-owner (running r d) q c e = cc e
runs-owner _ q c e = absurd (cc e)

pub runs_unique :
    (s : System)
    → IsExclusive (claims s)
    → (i j q : ℕ) (c d : Callback) → runs s i ≡ some (q, c)
    → runs s j ≡ some (q, d)
    → i ≡ j
runs_unique s x i j q c d e f =
    x.unique i j q (runs-owner (s.group.workers i).pc q c e)
      (runs-owner (s.group.workers j).pc q d f)

-- A step of the system that is no post to the pool and not the end of a closure of `wrap`.
pub shift-Placed :
    (runner : ℕ → Bool) (e : System.Event) (s t : System) (tasks : List PostedTask)
    (ids : ℕ → Option ℕ) (inside : ℕ → Bool)
    → IsExclusive (claims s)
    → ((i q : ℕ) (c : Callback) → e ≡ System.works i → runs s i ≡ some (q, c) → ids q ≡ none)
    → ((q : ℕ) → adds_to e ≡ some q → runner q ≡ true)
    → Placed runner (runs s) (held s) tasks ids inside
    → Shift e s t
    → Placed runner (runs t) (held t) tasks ids inside
shift-Placed runner e s t tasks ids inside x hf ha p (stay o h) = rw (fun_ext o, fun_ext h) p
shift-Placed runner e s t tasks ids inside x hf ha p (take i q c a b o h k) = rw (fun_ext o) (
    take-Placed runner p i q c (held t) b
      (λ j d f. cc (b, f, x.unique i j q a (runs-owner (s.group.workers j).pc q d f))) h k)
shift-Placed runner e s t tasks ids inside x hf ha p (finish i q c a b o h) =
    rw (fun_ext o, fun_ext h) (drop-Placed runner p i q c b (hf i q c a b))
shift-Placed runner e s t tasks ids inside x hf ha p (add q a o h) =
    rw (fun_ext o) (add-Placed runner p q (held t) (ha q a) h)

shift-Present :
    (runner : ℕ → Bool) (e : System.Event) (s t : System) (tasks : List PostedTask)
    (ids : ℕ → Option ℕ) (inside : ℕ → Bool)
    → ((i q : ℕ) (c : Callback) → e ≡ System.works i → runs s i ≡ some (q, c) → ids q ≡ none)
    → ((q : ℕ) → adds_to e ≡ some q → runner q ≡ true)
    → Placed runner (runs s) (held s) tasks ids inside
    → Present (runs s) (held s) tasks ids inside
    → Shift e s t
    → Present (runs t) (held t) tasks ids inside
shift-Present runner e s t tasks ids inside hf ha p n (stay o h) = rw (fun_ext o, fun_ext h) n
shift-Present runner e s t tasks ids inside hf ha p n (take i q c a b o h k) =
    rw (fun_ext o) (take-Present runner p n i q c (held t) b k)
shift-Present runner e s t tasks ids inside hf ha p n (finish i q c a b o h) =
    rw (fun_ext o, fun_ext h) (drop-Present runner p n i q c b (hf i q c a b))
shift-Present runner e s t tasks ids inside hf ha p n (add q a o h) =
    rw (fun_ext o) (add-Present runner p n q (held t) (ha q a) h)

pub record IsPlaced (runner : ℕ → Bool) (w : Whole) : Type 0 where
  pub exclusive : IsExclusive (claims w.system)
  pub places : Placed runner (runs w.system) (held w.system) w.pool.tasks w.ids w.inside
  pub present : Present (runs w.system) (held w.system) w.pool.tasks w.ids w.inside

step-IsExclusive :
    (e : System.Event) (s : System)
    → IsExclusive (claims s)
    → IsExclusive (claims (System.step e s))
step-IsExclusive e s x = Move-IsExclusive x (step-Move e s)

pub act-IsPlaced :
    (runner : ℕ → Bool) (e : System.Event) (w : Whole)
    → ((i q : ℕ) (c : Callback)
        → e ≡ System.works i
        → runs w.system i ≡ some (q, c)
        → w.ids q ≡ none)
    → ((q : ℕ) → adds_to e ≡ some q → runner q ≡ true)
    → IsPlaced runner w
    → IsPlaced runner (act e w)
act-IsPlaced runner e w hf ha p = record {
  exclusive = step-IsExclusive e w.system p.exclusive;
  places =
      shift-Placed runner e w.system (System.step e w.system) w.pool.tasks w.ids w.inside
        p.exclusive hf ha p.places (step-Shift e w.system);
  present =
      shift-Present runner e w.system (System.step e w.system) w.pool.tasks w.ids w.inside hf ha
        p.places p.present (step-Shift e w.system);
}

-- A worker at a closure of `wrap`, before the test or behind it.
module _ (runner : ℕ → Bool) (i q k : ℕ) (c : Callback) (w : Whole) (p : IsPlaced runner w)
    (h : (w.system.group.workers i).pc ≡ running q c) (e : w.ids q ≡ some k) where
  run_here : Runs c (held w.system q) (get_elem? w.pool.tasks k) (w.inside i)
  run_here = p.places.run_by i q k c (ap callback_of h) e

  alone : (j : ℕ) (d : Callback) → runs w.system j ≡ some (q, d) → i ≡ j
  alone j d f = runs_unique w.system p.exclusive i j q c d (ap callback_of h) f

  leave-IsPlaced :
      (v : PostedTask) (p' : Pool)
      → p'.tasks ≡ set w.pool.tasks k v
      → Here
          (update (runs w.system) i none)
          (held w.system)
          w.ids
          (update w.inside i false)
          k
          v.stage
      → IsPlaced runner (leave i p' w)
  leave-IsPlaced v p' same gone =
      let (o, g) = works-leaves i q c w.system h in
      record {
        exclusive = step-IsExclusive (System.works i) w.system p.exclusive;
        places =
            rw (same, fun_ext o, fun_ext g)
              (leave-Placed runner p.places i q k c (ap callback_of h) e alone v);
        present =
            rw (same, fun_ext o, fun_ext g)
              (leave-Present runner p.places p.present i q k c (ap callback_of h) e v gone);
      }

module _ (runner : ℕ → Bool) (i q k : ℕ) (traits : TaskTraits) (d : Callback) (w : Whole)
    (p : IsPlaced runner w) (h : (w.system.group.workers i).pc ≡ running q (guarded traits d))
    (e : w.ids q ≡ some k) where
  run_stage :
      get_elem? w.pool.tasks k
      ≡ some (record { traits = traits; stage = if w.inside i then ThreadPool.running else queued })
  run_stage =
      let r = run_here runner i q k (guarded traits d) w p h e in ground (arith, r.here, r.stage)

  after_test-IsPlaced :
      (st : Stage)
      → w.inside i ≡ false
      → st ≡ start_stage w.pool.task_tracker traits
      → IsPlaced runner (
          after_test i st
            (record w.pool { tasks = set w.pool.tasks k (record { traits = traits; stage = st }) })
            w)
  after_test-IsPlaced skipped f g =
      leave-IsPlaced runner i q k (guarded traits d) w p h e _ _ refl (dropped refl)
  after_test-IsPlaced ThreadPool.running f g = record {
    exclusive = p.exclusive;
    places =
        pass-Placed runner p.places i q k (guarded traits d) (ap callback_of h) e
          (alone runner i q k (guarded traits d) w p h e) traits d refl (ground (arith, run_stage));
    present =
        pass-Present runner p.places p.present i q k (guarded traits d) (ap callback_of h) e _ refl;
  }
  after_test-IsPlaced queued f g = absurd (ground arith)
  after_test-IsPlaced finished f g = absurd (ground arith)

  pub run_wrapped-IsPlaced :
      (b : Bool) → w.inside i ≡ b → IsPlaced runner (run_wrapped i k traits b w)
  unfolding run_wrapped start_task end_task
  run_wrapped-IsPlaced false f = after_test-IsPlaced (start_stage w.pool.task_tracker traits) f refl
  run_wrapped-IsPlaced true f =
      leave-IsPlaced runner i q k (guarded traits d) w p h e _ _ refl (ended refl)

  after_test-pool : (st : Stage) (p' : Pool) → (after_test i st p' w).pool ≡ p'
  after_test-pool skipped p' = refl
  after_test-pool _ p' = refl

  at_stage :
      (b : Bool)
      → w.inside i ≡ b
      → get_elem? w.pool.tasks k
        ≡ some (record { traits = traits; stage = if b then ThreadPool.running else queued })
  at_stage b f = rw (← f) run_stage

  pub run_wrapped-refines :
      (b : Bool)
      → w.inside i ≡ b
      → (run_wrapped i k traits b w).pool
        ≡ ThreadPool.step (if b then ThreadPool.ends k else ThreadPool.starts k) w.pool
  unfolding run_wrapped ThreadPool.step ThreadPool.on_task
  run_wrapped-refines false f =
      after_test-pool (start_stage w.pool.task_tracker traits) _ ∙ sym (rw (at_stage false f) refl)
  run_wrapped-refines true f = sym (rw (at_stage true f) refl)
