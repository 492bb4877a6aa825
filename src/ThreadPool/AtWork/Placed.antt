-- ===== src/ThreadPool/AtWork/Placed.antt =====
-- Where the closure of an accepted task is: in its sequence, in a worker, or gone.
use rust_task_runner.Common.{
  ℕ, ◌<◌, ◌≡◌, ◌≢◌, Bool, true, false, ℕ_discrete, ◌⊎◌, inl, inr, Option, none, some, List, [], ◌∷◌,
  length, get_elem?, update, if◌then◌else◌, arith, Bool-cases, update_cases,
}
use rust_task_runner.Task.{TaskTraits, Callback, guarded}
use rust_task_runner.ThreadPool.{PostedTask, queued, running}

-- The place in `tasks` of the task that a worker runs.
abbrev pub place : (ℕ → Option ℕ) → Option (ℕ × Callback) → Option ℕ
place ids none = none
place ids (some (q, c)) = ids q

-- The sequence holds the closure of a task that has not started.
pub record Waits (cs : List Callback) (o : Option PostedTask) : Type 0 where
  pub traits : TaskTraits
  pub callback : Callback
  pub here : cs ≡ guarded traits callback ∷ []
  pub stage : o ≡ some (record { traits = traits; stage = queued })

-- The worker runs the closure of a task, whose sequence holds nothing more: `b` says that it is
-- past the test.
pub record Runs (c : Callback) (cs : List Callback) (o : Option PostedTask) (b : Bool)
    : Type 0 where
  pub traits : TaskTraits
  pub callback : Callback
  pub here : c ≡ guarded traits callback
  pub empty : cs ≡ []
  pub stage : o ≡ some (record { traits = traits; stage = if b then running else queued })

-- `rs` are the callbacks that the workers run, and `hs` those that the sequences hold.
pub record Placed (runner : ℕ → Bool) (rs : ℕ → Option (ℕ × Callback)) (hs : ℕ → List Callback)
    (tasks : List PostedTask) (ids : ℕ → Option ℕ) (inside : ℕ → Bool) : Type 0 where
  pub waiting : (q k : ℕ) → ids q ≡ some k → (hs q ≡ []) ⊎ Waits (hs q) (get_elem? tasks k)
  pub run_by :
      (i q k : ℕ) (c : Callback)
      → rs i ≡ some (q, c)
      → ids q ≡ some k
      → Runs c (hs q) (get_elem? tasks k) (inside i)
  pub outside : (i : ℕ) → place ids (rs i) ≡ none → inside i ≡ false
  pub unused : (q : ℕ) → ids q ≡ none → runner q ≡ false → hs q ≡ []
  pub unclaimed : (i q : ℕ) (c : Callback) → rs i ≡ some (q, c) → ids q ≡ none → runner q ≡ true
  pub apart : (q r k : ℕ) → ids q ≡ some k → ids r ≡ some k → q ≡ r
  pub bounded : (q k : ℕ) → ids q ≡ some k → k < length tasks
  pub kept : (q : ℕ) → runner q ≡ true → ids q ≡ none

module _ (runner : ℕ → Bool) {rs : ℕ → Option (ℕ × Callback)} {hs : ℕ → List Callback}
    {tasks : List PostedTask} {ids : ℕ → Option ℕ} {inside : ℕ → Bool}
    (p : Placed runner rs hs tasks ids inside) where
  taken_left :
      (q : ℕ) (c : Callback) (cs : List Callback)
      → hs q ≡ c ∷ cs
      → (k : ℕ) → ids q ≡ some k
      → Waits (c ∷ cs) (get_elem? tasks k)
  taken_left q c cs eq k e = elim (p.waiting q k e) [
    | inl none_left ↦ absurd (cc (eq, none_left))
    | inr w ↦ rw (← eq) w
  ]

  taken_run :
      (i q k : ℕ) (c : Callback) (cs : List Callback)
      → rs i ≡ none
      → Waits (c ∷ cs) (get_elem? tasks k)
      → Runs c cs (get_elem? tasks k) (inside i)
  taken_run i q k c cs free w = record {
    traits = w.traits;
    callback = w.callback;
    here = cc (w.here);
    empty = cc (w.here);
    stage = ground (arith, w.stage, p.outside i);
  }

  pub take-Placed :
      (i q : ℕ) (c : Callback) (hs' : ℕ → List Callback)
      → rs i ≡ none
      → ((j : ℕ) (d : Callback) → rs j ≢ some (q, d))
      → hs q ≡ c ∷ hs' q
      → ((r : ℕ) → r ≢ q → hs' r ≡ hs r)
      → Placed runner (update rs i (some (q, c))) hs' tasks ids inside
  take-Placed i q c hs' free alone eq eo = record {
    waiting = λ r k e. elim (ℕ_discrete r q) [
      | yes same ↦ inl (rw same (cc ((taken_left q c (hs' q) eq k (rw (← same) e)).here)))
      | no other ↦ rw (eo r other) (p.waiting r k e)
    ];
    run_by = λ j r k d h e. elim (update_cases rs i (some (q, c)) j (some (r, d)) h) [
      | inl (same, new) ↦
          let er : q ≡ r = cc new in
          let ed : c ≡ d = cc new in
          rw (← er, ← ed, ← same)
            (taken_run i q k c (hs' q) free (taken_left q c (hs' q) eq k (rw er e)))
      | inr (other, old) ↦ rw (eo r (λ s. alone j d (rw (← s) old))) (p.run_by j r k d old e)
    ];
    outside = λ j e. ground (arith, p.outside j, p.outside i);
    unused = λ r e f. elim (ℕ_discrete r q) [
      | yes same ↦ absurd (ground (arith, p.unused q))
      | no other ↦ ground (arith, eo r other, p.unused r)
    ];
    unclaimed = λ j r d h e. elim (update_cases rs i (some (q, c)) j (some (r, d)) h) [
      | inl (same, new) ↦ elim (Bool-cases (runner r)) [
        | inl yes_runner ↦ yes_runner
        | inr not_runner ↦ absurd (ground (arith, p.unused r))
      ]
      | inr (other, old) ↦ p.unclaimed j r d old e
    ];
    apart = p.apart;
    bounded = p.bounded;
    kept = p.kept;
  }

  pub drop-Placed :
      (i q : ℕ) (c : Callback)
      → rs i ≡ some (q, c)
      → ids q ≡ none
      → Placed runner (update rs i none) hs tasks ids inside
  drop-Placed i q c h n = record {
    waiting = p.waiting;
    run_by = λ j r k d g e. p.run_by j r k d (ground arith) e;
    outside = λ j e. ground (arith, p.outside j, p.outside i);
    unused = p.unused;
    unclaimed = λ j r d g e. p.unclaimed j r d (ground arith) e;
    apart = p.apart;
    bounded = p.bounded;
    kept = p.kept;
  }
