-- ===== src/Sequence/Fifo.antt =====
-- Histories of one sequence: what is posted and what is taken, in which order.
use rust_task_runner.Common.{
  ℕ, ◌≡◌, refl, ◌∙◌, Bool, true, false, Option, none, some, List, [], ◌∷◌, ◌++◌, map, map-append,
  append-nil, append_assoc, leb, All, select, select-append, Bool-cases, inl, inr, arith,
}
use rust_task_runner.BinaryHeap.{push-All}
use rust_task_runner.Task.{Task, Callback}
use rust_task_runner.Sequence.{
  Sequence, DelayedTask, delayed_order, flush_loop, take_task, push_task, push_delayed_task,
  will_run_task, release_worker, pop_front,
}

-- The calls that threads make on a sequence, in the order of its lock.
pub data Call : Type 0 where
  posts : Task → Call
  posts_delayed : Task → ℕ → Call
  claims : Call
  takes : ℕ → Call
  releases : Call

unfoldable pub call : Call → Sequence → Option Task × Sequence
unfolding push_task push_delayed_task will_run_task take_task release_worker
call (posts t) s = (none, push_task t s)
call (posts_delayed t time) s = (none, push_delayed_task t time s)
call claims s = (none, (will_run_task s).1)
call (takes now) s = take_task now s
call releases s = (none, release_worker s)

abbrev pub to_list : Option Task → List Task
to_list none = []
to_list (some t) = t ∷ []

-- The tasks that a history takes, in order, and the sequence after it.
unfoldable pub run : List Call → Sequence → List Task × Sequence
run [] s = ([], s)
run (c ∷ cs) s =
    let (task, s') = call c s in let (rest, s'') = run cs s' in (to_list task ++ rest, s'')

abbrev pub callbacks : List Task → List Callback
callbacks = map λ t. t.callback

-- What a history posts for immediate execution, and all that it posts.
abbrev pub posted : Call → List Callback
posted (posts t) = t.callback ∷ []
posted _ = []

abbrev pub all_posted : Call → List Callback
all_posted (posts t) = t.callback ∷ []
all_posted (posts_delayed t _) = t.callback ∷ []
all_posted _ = []

abbrev pub gather : (Call → List Callback) → List Call → List Callback
gather f [] = []
gather f (c ∷ cs) = f c ++ gather f cs

-- A test that tells the immediate tasks of a history from the delayed ones.
abbrev pub Tells : (Callback → Bool) → Call → Type 0
Tells p (posts t) = p t.callback ≡ true
Tells p (posts_delayed t _) = p t.callback ≡ false
Tells p _ = Unit

module _ (p : Callback → Bool) where
  abbrev Delayed : List DelayedTask → Type 0
  Delayed = All (λ d. p d.task.callback ≡ false)

  abbrev marked : List Task → List Callback
  marked ts = select p (callbacks ts)

  marked-append : (xs ys : List Task) → marked (xs ++ ys) ≡ marked xs ++ marked ys
  marked-append xs ys = rw map-append (select-append p (callbacks xs) (callbacks ys))

  flush_loop-marked :
      (ds : List DelayedTask) (xs : List Task) (now : ℕ)
      → Delayed ds
      → (marked (flush_loop ds xs now).0 ≡ marked xs) × Delayed (flush_loop ds xs now).1
  unfolding flush_loop
  flush_loop-marked [] xs now h = (refl, tt)
  flush_loop-marked (d ∷ ds) xs now h = elim (Bool-cases (leb d.ready_time now)) [
    | inl ready ↦
        let (same, rest) = flush_loop-marked ds (xs ++ d.task ∷ []) now h.1 in
        rw ready (same ∙ marked-append xs (d.task ∷ []) ∙ rw h.0 (append-nil (marked xs)), rest)
    | inr later ↦ rw later (refl, h)
  ]

  pop_front-marked :
      (xs : List Task) → marked (to_list (pop_front xs).0) ++ marked (pop_front xs).1 ≡ marked xs
  pop_front-marked [] = refl
  pop_front-marked (x ∷ xs) = ground (arith)

  call-fifo :
      (c : Call) (s : Sequence)
      → Tells p c
      → Delayed s.inner.delayed_queue
      → let (t, s') = call c s in
        (marked (to_list t) ++ marked s'.inner.immediate_queue
          ≡ marked s.inner.immediate_queue ++ posted c)
        × Delayed s'.inner.delayed_queue
  unfolding call
  call-fifo (posts t) s m h = (
    marked-append s.inner.immediate_queue
          (record t { sequence_num = s.inner.next_sequence_num } ∷ [])
        ∙ rw m,
    h,
  )
  call-fifo (posts_delayed t time) s m h =
      (rw append-nil, push-All delayed_order _ _ s.inner.delayed_queue m h)
  call-fifo claims s m h = (rw append-nil, h)
  call-fifo (takes now) s m h =
      let (same, rest) = flush_loop-marked s.inner.delayed_queue s.inner.immediate_queue now h in
      (pop_front-marked _ ∙ rw append-nil same, rest)
  call-fifo releases s m h = (rw append-nil, h)

  -- Take the tasks posted for immediate execution apart from the delayed ones by `p`. In any
  -- history of posts, claims, takes and releases, those taken, in the order of taking, and then
  -- those still queued, are those queued at the start and then those posted, in the order of
  -- posting: delayed tasks never change the order of immediate ones.
  pub run-fifo :
      (cs : List Call) (s : Sequence)
      → All (Tells p) cs
      → All (λ d. p d.task.callback ≡ false) s.inner.delayed_queue
      → let (taken, s') = run cs s in
        select p (callbacks taken) ++ select p (callbacks s'.inner.immediate_queue)
        ≡ select p (callbacks s.inner.immediate_queue) ++ gather posted cs
  unfolding run
  run-fifo [] s m h = rw append-nil
  run-fifo (c ∷ cs) s m h =
      let (same, later) = call-fifo c s m.0 h in
      let rest = run-fifo cs (call c s).1 m.1 later in
      rw (marked-append (to_list (call c s).0) (run cs (call c s).1).0, append_assoc, rest)
        (rw (← append_assoc, same, append_assoc))
