-- ===== src/PriorityQueue/Order.antt =====
-- Which source a worker gets.
use rust_task_runner.Common.{
  ℕ, ◌≤◌, ◌<◌, ◌≡◌, false, List, [], ◌∷◌, All, All-map, Perm, map, ◌++◌, append-nil, some, ◌⊎◌,
  arith,
}
use mathlib.Core.List.{perm_middle}
use mathlib.Core.List.Perm
use rust_task_runner.BinaryHeap.{is_gt, IsSorted, push-IsSorted, push-perm}
use rust_task_runner.Sequence.{Sequence, get_sort_key}
use rust_task_runner.PriorityQueue.{QueueEntry, rank, entry_order, new, push, pop}

-- A source that is pushed, with the time of the push and its sequence.
pub record Pushed : Type 0 where
  pub time : ℕ
  pub source : ℕ
  pub sequence : Sequence

unfoldable pub push_all : List Pushed → List QueueEntry → List QueueEntry
push_all [] queue = queue
push_all (p ∷ ps) queue = push_all ps (push p.time p.source p.sequence queue)

-- The entry of a push.
abbrev pub entry : Pushed → QueueEntry
entry p = record {
  sort_key = record { priority = p.sequence.traits.priority; ready_time = p.time };
  task_source = p.source;
}

-- `x` may be popped before `y`: its priority is higher, or equal with a time that is not later.
abbrev pub Precedes : QueueEntry → QueueEntry → Type 0
Precedes x y =
    (rank y.sort_key.priority < rank x.sort_key.priority)
    ⊎ ((rank y.sort_key.priority ≡ rank x.sort_key.priority)
        × (x.sort_key.ready_time ≤ y.sort_key.ready_time))

not-gt-Precedes : (x y : QueueEntry) → is_gt (entry_order.cmp y x) ≡ false → Precedes x y
not-gt-Precedes x y h = ground arith

push_all-IsSorted :
    (ps : List Pushed) (queue : List QueueEntry)
    → IsSorted entry_order queue
    → IsSorted entry_order (push_all ps queue)
unfolding push_all push get_sort_key
push_all-IsSorted [] queue s = s
push_all-IsSorted (p ∷ ps) queue s =
    push_all-IsSorted ps _ (push-IsSorted entry_order (entry p) queue s)

push_all-perm :
    (ps : List Pushed) (queue : List QueueEntry) → Perm (push_all ps queue) (map entry ps ++ queue)
unfolding push_all push get_sort_key
push_all-perm [] queue = Perm.refl queue
push_all-perm (p ∷ ps) queue = Perm.trans (push_all-perm ps _) (
    Perm.trans (Perm.append_left (map entry ps) (push-perm entry_order (entry p) queue))
      (perm_middle (map entry ps) queue))

first_comes :
    (queue : List QueueEntry) (x : QueueEntry) (rest : List QueueEntry)
    → IsSorted entry_order queue
    → pop queue ≡ some (x, rest)
    → All (Precedes x) rest × (queue ≡ x ∷ rest)
first_comes [] x rest s e = cc
first_comes (y ∷ ys) x rest s e =
    let same : y ≡ x = cc in
    let same_rest : ys ≡ rest = cc in
    (rw (← same, ← same_rest) (All-map _ _ ys (λ z k. not-gt-Precedes y z k) s.0), cc)

-- Whatever was pushed into a new queue, in any order, the entry that `pop` returns precedes every
-- entry that stays, and it and those are the entries that were pushed.
pub pop-push_all :
    (ps : List Pushed) (x : QueueEntry) (rest : List QueueEntry)
    → pop (push_all ps new) ≡ some (x, rest)
    → All (Precedes x) rest × Perm (x ∷ rest) (map entry ps)
pop-push_all ps x rest h =
    let (first, split) = first_comes (push_all ps new) x rest (push_all-IsSorted ps new tt) h in
    (first, rw (← split, ← append-nil (map entry ps)) (push_all-perm ps new))
