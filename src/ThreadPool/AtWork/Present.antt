-- ===== src/ThreadPool/AtWork/Present.antt =====
-- Every accepted task that has not started is in its sequence or with a worker, and every task in
-- its callback is with a worker.
use rust_task_runner.Common.{
  ℕ, ◌≡◌, ◌≢◌, refl, sym, ◌∙◌, Bool, true, false, ℕ_discrete, inl, inr, Option, none, some, List,
  [], ◌∷◌, ◌++◌, length, get_elem?, get_elem?-set_self, get_elem?-set_other, get_elem?-append_cases,
  set, update, arith,
}
use rust_task_runner.Task.{Callback}
use rust_task_runner.ThreadPool.{PostedTask, Stage, queued, running, finished, skipped}
use rust_task_runner.ThreadPool.AtWork.Placed.{Placed}

-- Where the task in place `k` of the list is, at each stage.
pub data Here (rs : ℕ → Option (ℕ × Callback)) (hs : ℕ → List Callback) (ids : ℕ → Option ℕ)
    (inside : ℕ → Bool) (k : ℕ) (st : Stage) : Type 0 where
  in_sequence : (q : ℕ) → st ≡ queued → ids q ≡ some k → hs q ≢ [] → Here rs hs ids inside k st
  at_test :
      (i q : ℕ) (c : Callback)
      → st ≡ queued
      → ids q ≡ some k
      → rs i ≡ some (q, c)
      → inside i ≡ false
      → Here rs hs ids inside k st
  in_callback :
      (i q : ℕ) (c : Callback)
      → st ≡ running
      → ids q ≡ some k
      → rs i ≡ some (q, c)
      → inside i ≡ true
      → Here rs hs ids inside k st
  ended : st ≡ finished → Here rs hs ids inside k st
  dropped : st ≡ skipped → Here rs hs ids inside k st

abbrev pub Present :
    (ℕ → Option (ℕ × Callback))
    → (ℕ → List Callback)
    → List PostedTask
    → (ℕ → Option ℕ)
    → (ℕ → Bool)
    → Type 0
Present rs hs tasks ids inside =
    (k : ℕ) (x : PostedTask) → get_elem? tasks k ≡ some x → Here rs hs ids inside k x.stage

module _ {rs rs' : ℕ → Option (ℕ × Callback)} {hs hs' : ℕ → List Callback} {ids ids' : ℕ → Option ℕ}
    {inside inside' : ℕ → Bool} where
  -- A task stays where it is while its sequence and its worker do.
  pub keep-Here :
      (k : ℕ) (st : Stage)
      → ((q : ℕ) → ids q ≡ some k → ids' q ≡ some k)
      → ((q : ℕ) → ids q ≡ some k → hs q ≢ [] → hs' q ≢ [])
      → ((i q : ℕ) (c : Callback)
          → ids q ≡ some k
          → rs i ≡ some (q, c)
          → (rs' i ≡ some (q, c)) × (inside' i ≡ inside i))
      → Here rs hs ids inside k st
      → Here rs' hs' ids' inside' k st
  keep-Here k st f g h (in_sequence q a b c) = in_sequence q a (f q b) (g q b c)
  keep-Here k st f g h (at_test i q c a b d e) =
      at_test i q c a (f q b) ((h i q c b d).0) (cc ((h i q c b d).1, e))
  keep-Here k st f g h (in_callback i q c a b d e) =
      in_callback i q c a (f q b) ((h i q c b d).0) (cc ((h i q c b d).1, e))
  keep-Here k st f g h (ended a) = ended a
  keep-Here k st f g h (dropped a) = dropped a

module _ (runner : ℕ → Bool) {rs : ℕ → Option (ℕ × Callback)} {hs : ℕ → List Callback}
    {tasks : List PostedTask} {ids : ℕ → Option ℕ} {inside : ℕ → Bool}
    (p : Placed runner rs hs tasks ids inside) (n : Present rs hs tasks ids inside) where
  take-Here :
      (i q : ℕ) (c : Callback) (hs' : ℕ → List Callback)
      → rs i ≡ none
      → ((r : ℕ) → r ≢ q → hs' r ≡ hs r)
      → (k : ℕ) (st : Stage) → Here rs hs ids inside k st
      → Here (update rs i (some (q, c))) hs' ids inside k st
  take-Here i q c hs' free eo k st (in_sequence r a b d) = elim (ℕ_discrete r q) [
    | yes same ↦ at_test i q c a (rw (← same) b) (ground arith) (ground (arith, p.outside i))
    | no other ↦ in_sequence r a b (rw (eo r other) d)
  ]
  take-Here i q c hs' free eo k st (at_test j r d a b e f) = at_test j r d a b (ground arith) f
  take-Here i q c hs' free eo k st (in_callback j r d a b e f) =
      in_callback j r d a b (ground arith) f
  take-Here i q c hs' free eo k st (ended a) = ended a
  take-Here i q c hs' free eo k st (dropped a) = dropped a

  pub take-Present :
      (i q : ℕ) (c : Callback) (hs' : ℕ → List Callback)
      → rs i ≡ none
      → ((r : ℕ) → r ≢ q → hs' r ≡ hs r)
      → Present (update rs i (some (q, c))) hs' tasks ids inside
  take-Present i q c hs' free eo k x e = take-Here i q c hs' free eo k x.stage (n k x e)

  pub drop-Present :
      (i q : ℕ) (c : Callback)
      → rs i ≡ some (q, c)
      → ids q ≡ none
      → Present (update rs i none) hs tasks ids inside
  drop-Present i q c h f k x e =
      keep-Here k x.stage (λ r a. a) (λ r a b. b) (λ j r d a b. (ground arith, refl)) (n k x e)

  pub add-Present :
      (q : ℕ) (hs' : ℕ → List Callback)
      → runner q ≡ true
      → ((r : ℕ) → r ≢ q → hs' r ≡ hs r)
      → Present rs hs' tasks ids inside
  add-Present q hs' h eo k x e =
      keep-Here k x.stage (λ r a. a) (λ r a b. rw (eo r (λ s. cc (p.kept q h, s, a))) b)
        (λ j r d a b. (b, refl)) (n k x e)

  module _ (i q k : ℕ) (c : Callback) (h : rs i ≡ some (q, c)) (e : ids q ≡ some k) where
    set_here : (v x : PostedTask) (l : ℕ) → l ≡ k → get_elem? (set tasks k v) l ≡ some x → v ≡ x
    set_here v x l same g =
        let r = p.run_by i q k c h e in cc (get_elem?-set_self tasks k _ v r.stage, g, same)

    pub pass-Present :
        (v : PostedTask)
        → v.stage ≡ running
        → Present rs hs (set tasks k v) ids (update inside i true)
    pass-Present v f l x g = elim (ℕ_discrete l k) [
      | yes same ↦ in_callback i q c (cc (set_here v x l same g, f)) (cc (e, same)) h (ground arith)
      | no other ↦
          keep-Here l x.stage (λ r a. a) (λ r a b. b) (λ j r d a b. (b, ground arith))
            (n l x (sym (get_elem?-set_other tasks k l v other) ∙ g))
    ]

    pub leave-Present :
        (v : PostedTask)
        → Here (update rs i none) hs ids (update inside i false) k v.stage
        → Present (update rs i none) hs (set tasks k v) ids (update inside i false)
    leave-Present v f l x g = elim (ℕ_discrete l k) [
      | yes same ↦ rw (same, ← set_here v x l same g) f
      | no other ↦
          keep-Here l x.stage (λ r a. a) (λ r a b. b) (λ j r d a b. (ground arith, ground arith))
            (n l x (sym (get_elem?-set_other tasks k l v other) ∙ g))
    ]

  pub post-Present :
      (q : ℕ) (y : PostedTask) (c : Callback) (hs' : ℕ → List Callback)
      → ids q ≡ none
      → y.stage ≡ queued
      → hs' q ≡ c ∷ []
      → ((r : ℕ) → r ≢ q → hs' r ≡ hs r)
      → Present rs hs' (tasks ++ y ∷ []) (update ids q (some (length tasks))) inside
  post-Present q y c hs' f s eq eo k x e = elim (get_elem?-append_cases tasks y k x e) [
    | inl old ↦
        keep-Here k x.stage (λ r a. ground arith) (λ r a b. rw (eo r (λ s. cc (f, s, a))) b)
          (λ j r d a b. (b, refl)) (n k x old)
    | inr (last, same) ↦ in_sequence q (cc (same, s)) (ground (arith, last)) (λ z. cc (z, eq))
  ]
