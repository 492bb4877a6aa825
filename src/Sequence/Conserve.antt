-- ===== src/Sequence/Conserve.antt =====
-- The tasks that a sequence of rust_task/thread_pool/sequence.rs holds and hands out.
use mathlib.Core.List.{perm_middle, perm_append_singleton}
use mathlib.Core.List.Perm
use rust_task_runner.Common.{
  ℕ, ◌≡◌, refl, sym, ◌∙◌, List, [], ◌∷◌, ◌++◌, map, map-append, append-nil, append_assoc, leb, Perm,
  Bool-cases, inl, inr,
}
use rust_task_runner.BinaryHeap.{push-perm}
use rust_task_runner.Task.{Task, Callback}
use rust_task_runner.Sequence.{
  Sequence, DelayedTask, delayed_order, flush_loop, take_task, pop_front,
}
use rust_task_runner.Sequence.Fifo.{
  Call, posts, posts_delayed, claims, takes, releases, call, to_list, run, callbacks, all_posted,
  gather,
}

-- What a sequence holds.
abbrev pub contents : Sequence → List Callback
contents s =
    callbacks s.inner.immediate_queue ++ callbacks (map (λ d. d.task) s.inner.delayed_queue)

flush_loop-contents :
    (ds : List DelayedTask) (xs : List Task) (now : ℕ)
    → let (xs', ds') = flush_loop ds xs now in
      callbacks xs' ++ callbacks (map (λ d. d.task) ds')
      ≡ callbacks xs ++ callbacks (map (λ d. d.task) ds)
unfolding flush_loop
flush_loop-contents [] xs now = refl
flush_loop-contents (d ∷ ds) xs now = elim (Bool-cases (leb d.ready_time now)) [
  | inl ready ↦
      rw ready (flush_loop-contents ds (xs ++ d.task ∷ []) now ∙ simp (map-append, append_assoc))
  | inr later ↦ rw later
]

pop_front-callbacks :
    (xs : List Task)
    → callbacks (to_list (pop_front xs).0) ++ callbacks (pop_front xs).1 ≡ callbacks xs
pop_front-callbacks [] = refl
pop_front-callbacks (x ∷ xs) = refl

append_middle-perm :
    {A : Type 0} (a : A) (xs ys : List A) → Perm (xs ++ a ∷ ys) ((xs ++ ys) ++ a ∷ [])
append_middle-perm a xs ys =
    Perm.trans (perm_middle xs ys) (Perm.symm (perm_append_singleton a (xs ++ ys)))

pub take_task-contents :
    (now : ℕ) (s : Sequence)
    → let (t, s') = take_task now s in callbacks (to_list t) ++ contents s' ≡ contents s
unfolding take_task
take_task-contents now s =
    sym (
      append_assoc (callbacks (to_list (take_task now s).0))
        (callbacks (take_task now s).1.inner.immediate_queue)
        (callbacks (map (λ d. d.task) (take_task now s).1.inner.delayed_queue)))
    ∙ rw pop_front-callbacks (flush_loop-contents s.inner.delayed_queue s.inner.immediate_queue now)

call-perm :
    (c : Call) (s : Sequence)
    → let (t, s') = call c s in
      Perm (callbacks (to_list t) ++ contents s') (contents s ++ all_posted c)
unfolding call
call-perm (posts t) s = rw (map-append, append_assoc) (append_middle-perm t.callback _ _)
call-perm (posts_delayed t time) s =
    Perm.trans
      (Perm.append_left _
        (Perm.map _ (Perm.map _ (push-perm delayed_order _ s.inner.delayed_queue))))
      (append_middle-perm t.callback _ _)
call-perm claims s = rw append-nil (Perm.refl (contents s))
call-perm (takes now) s = rw (take_task-contents now s, append-nil) (Perm.refl (contents s))
call-perm releases s = rw append-nil (Perm.refl (contents s))

-- No history loses a task, makes one up or takes one twice: the tasks taken and those still held
-- are, in some order, those held at the start and all those posted.
pub run-perm :
    (cs : List Call) (s : Sequence)
    → let (taken, s') = run cs s in
      Perm (callbacks taken ++ contents s') (contents s ++ gather all_posted cs)
unfolding run
run-perm [] s = rw append-nil (Perm.refl (contents s))
run-perm (c ∷ cs) s =
    let (t, s') = call c s in
    rw (map-append, append_assoc, ← append_assoc (contents s) (all_posted c) (gather all_posted cs))
      (Perm.trans (Perm.append_left (callbacks (to_list t)) (run-perm cs s')) (
        rw (← append_assoc (callbacks (to_list t)) (contents s') (gather all_posted cs))
          (Perm.append_right (gather all_posted cs) (call-perm c s))))
