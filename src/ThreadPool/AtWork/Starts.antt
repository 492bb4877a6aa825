-- ===== src/ThreadPool/AtWork/Starts.antt =====
-- Where the closures are when a task is accepted, when a worker passes the test of `wrap`, and when
-- it leaves the closure.
use rust_task_runner.Common.{
  ℕ, ◌≡◌, ◌≢◌, sym, Bool, true, false, ℕ_discrete, ◌⊎◌, inl, inr, Option, none, some, List, [], ◌∷◌,
  ◌++◌, length, length-set, length-append, get_elem?, get_elem?-set_self, get_elem?-set_other,
  get_elem?-append, get_elem?-last, set, update, update_cases, update_other, arith,
}
use rust_task_runner.Task.{TaskTraits, Callback, guarded}
use rust_task_runner.ThreadPool.{PostedTask, queued, running}
use rust_task_runner.ThreadPool.AtWork.Placed.{Placed, Waits, Runs}

module _ (runner : ℕ → Bool) {rs : ℕ → Option (ℕ × Callback)} {hs : ℕ → List Callback}
    {tasks : List PostedTask} {ids : ℕ → Option ℕ} {inside : ℕ → Bool}
    (p : Placed runner rs hs tasks ids inside) where
  -- A runner puts a task into its sequence.
  pub add-Placed :
      (q : ℕ) (hs' : ℕ → List Callback)
      → runner q ≡ true
      → ((r : ℕ) → r ≢ q → hs' r ≡ hs r)
      → Placed runner rs hs' tasks ids inside
  add-Placed q hs' h eo = record {
    waiting = λ r k e. rw (eo r (λ s. cc (p.kept q h, s, e))) (p.waiting r k e);
    run_by = λ i r k c g e. rw (eo r (λ s. cc (p.kept q h, s, e))) (p.run_by i r k c g e);
    outside = p.outside;
    unused = λ r e f. rw (eo r (λ s. cc (h, s, f))) (p.unused r e f);
    unclaimed = p.unclaimed;
    apart = p.apart;
    bounded = p.bounded;
    kept = p.kept;
  }

  module _ (i q k : ℕ) (c : Callback) (h : rs i ≡ some (q, c)) (e : ids q ≡ some k)
      (alone : (j : ℕ) (d : Callback) → rs j ≡ some (q, d) → i ≡ j) where
    -- The other tasks are where they were.
    others_waiting :
        (v : PostedTask) (r l : ℕ)
        → ids r ≡ some l
        → (hs r ≡ []) ⊎ Waits (hs r) (get_elem? (set tasks k v) l)
    others_waiting v r l g = elim (ℕ_discrete l k) [
      | yes same ↦ inl (rw (p.apart r q k (rw (← same) g) e) ((p.run_by i q k c h e).empty))
      | no other ↦ rw (get_elem?-set_other tasks k l v other) (p.waiting r l g)
    ]

    other-Runs :
        (v : PostedTask) (b : Bool) (j r l : ℕ) (d : Callback)
        → i ≢ j
        → rs j ≡ some (r, d)
        → ids r ≡ some l
        → Runs d (hs r) (get_elem? (set tasks k v) l) (update inside i b j)
    other-Runs v b j r l d ij g f =
        rw
          (
            update_other inside i b j ij,
            get_elem?-set_other tasks k l v
                (λ same. ij (alone j d (rw (← p.apart r q k (rw (← same) f) e) g))),
          )
          (p.run_by j r l d g f)

    pub pass-Placed :
        (traits : TaskTraits) (callback : Callback)
        → c ≡ guarded traits callback
        → get_elem? tasks k ≡ some (record { traits = traits; stage = queued })
        → Placed runner rs hs
            (set tasks k (record { traits = traits; stage = running }))
            ids
            (update inside i true)
    pass-Placed traits callback ec at_k = record {
      waiting = others_waiting _;
      run_by = λ j r l d g f. elim (ℕ_discrete i j) [
        | yes same ↦
            let er : q ≡ r = cc (h, g, same) in
            let ed : c ≡ d = cc (h, g, same) in
            let el : k ≡ l = cc (e, f, er) in
            rw (← same, ← er, ← ed, ← el)
              (record {
                traits = traits;
                callback = callback;
                here = ec;
                empty = (p.run_by i q k c h e).empty;
                stage = ground (
                  arith,
                  get_elem?-set_self tasks k (record { traits = traits; stage = queued })
                      (record { traits = traits; stage = running }) at_k,
                );
              })
        | no other ↦ other-Runs _ true j r l d other g f
      ];
      outside = λ j f. elim (ℕ_discrete i j) [
        | yes same ↦ absurd (ground (arith, h, e, f))
        | no other ↦ ground (arith, p.outside j f)
      ];
      unused = p.unused;
      unclaimed = p.unclaimed;
      apart = p.apart;
      bounded = λ r l f. rw (length-set tasks k _) (p.bounded r l f);
      kept = p.kept;
    }

    pub leave-Placed :
        (v : PostedTask)
        → Placed runner (update rs i none) hs (set tasks k v) ids (update inside i false)
    leave-Placed v = record {
      waiting = others_waiting v;
      run_by = λ j r l d g f. elim (update_cases rs i none j (some (r, d)) g) [
        | inl (same, new) ↦ absurd (cc new)
        | inr (other, old) ↦ other-Runs v false j r l d other old f
      ];
      outside = λ j f. ground (arith, p.outside j);
      unused = p.unused;
      unclaimed = λ j r d g f. p.unclaimed j r d (ground (arith, g)) f;
      apart = p.apart;
      bounded = λ r l f. rw (length-set tasks k v) (p.bounded r l f);
      kept = p.kept;
    }

  -- `post` puts the closure of a task that was accepted into a sequence that was not in use.
  pub post-Placed :
      (q : ℕ) (traits : TaskTraits) (callback : Callback) (hs' : ℕ → List Callback)
      → ids q ≡ none
      → runner q ≡ false
      → hs' q ≡ guarded traits callback ∷ []
      → ((r : ℕ) → r ≢ q → hs' r ≡ hs r)
      → Placed runner rs hs'
          (tasks ++ record { traits = traits; stage = queued } ∷ [])
          (update ids q (some (length tasks)))
          inside
  post-Placed q traits callback hs' n nr eq eo = record {
    waiting = λ r k e. elim (update_cases ids q (some (length tasks)) r (some k) e) [
      | inl (same, new) ↦ inr (
          rw (← same) (record {
            traits = traits;
            callback = callback;
            here = eq;
            stage =
                ground (arith, get_elem?-last tasks (record { traits = traits; stage = queued }));
          }))
      | inr (other, old) ↦
          rw (eo r (λ s. other (sym s)), get_elem?-append tasks _ k (p.bounded r k old))
            (p.waiting r k old)
    ];
    run_by = λ i r k c h e. elim (update_cases ids q (some (length tasks)) r (some k) e) [
      | inl (same, new) ↦ absurd (ground (arith, p.unclaimed i q c (rw same h)))
      | inr (other, old) ↦
          rw (eo r (λ s. other (sym s)), get_elem?-append tasks _ k (p.bounded r k old))
            (p.run_by i r k c h old)
    ];
    outside = λ i e. ground (arith, p.outside i);
    unused = λ r e f. ground (arith, p.unused r, eo r);
    unclaimed = λ i r c h e. p.unclaimed i r c h (ground (arith, e));
    apart = λ r t k e f. ground (arith, p.apart r t k, p.bounded r k, p.bounded t k);
    bounded = λ r k e. ground (
      arith,
      p.bounded r k,
      length-append {0} tasks (record { traits = traits; stage = queued } ∷ []),
    );
    kept = λ r h. ground (arith, p.kept r);
  }
