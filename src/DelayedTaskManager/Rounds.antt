-- ===== src/DelayedTaskManager/Rounds.antt =====
-- What one round of the timer thread does.
use rust_task_runner.Common.{
  ℕ, ◌≤◌, ◌≡◌, refl, Bool, true, false, List, [], ◌∷◌, Option, none, some, leb, Bool-cases,
  if◌then◌else◌, ◌⊎◌, inl, inr, arith,
}
use rust_task_runner.DelayedTaskManager.{Manager, DelayedEntry, timer_round, next_ready, fire}

-- What a round says of the heap `h`: it hands out nothing and keeps it, or it hands out the
-- sequence of its first entry, which is due, and drops that entry.
abbrev pub Round : ℕ → List DelayedEntry → Option ℕ × Manager → Type 0
Round now h (o, m) =
    (o ≡ none) × (m.heap ≡ h)
    ⊎ ((e : DelayedEntry) × (h ≡ e ∷ m.heap) × (e.ready_time ≤ now) × (o ≡ some e.sequence))

fire-Round :
    (now : ℕ) (h : List DelayedEntry) (m : Manager)
    → m.heap ≡ h
    → Round now h (fire m (next_ready h now))
fire-Round now [] m e = inl (refl, e)
fire-Round now (x ∷ rest) m e = elim (Bool-cases (leb x.ready_time now)) [
  | inl ready ↦ rw ready (inr (x, refl, ground arith, refl))
  | inr later ↦ rw later (inl (refl, e))
]

stop-Round :
    (now : ℕ) (stop : Bool) (m : Manager)
    → Round now m.heap
        (if stop then (none, record m { exited = true }) else fire m (next_ready m.heap now))
stop-Round now true m = inl (refl, refl)
stop-Round now false m = fire-Round now m.heap m refl

-- A round of the timer thread that hands out a sequence hands out that of the first entry of the
-- heap, whose deadline has come, and drops this entry alone; any other round hands out nothing and
-- keeps the heap.
pub timer_round-pops : (now : ℕ) (m : Manager) → Round now m.heap (timer_round now m)
unfolding timer_round
timer_round-pops now m = stop-Round now m.shutdown m
