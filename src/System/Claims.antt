-- ===== src/System/Claims.antt =====
-- Who owns a sequence: the flag `has_worker` against the workers between `will_run_task` and
-- `did_process_task`.
use rust_task_runner.Common.{
  ℕ, ◌≡◌, refl, ap, Bool, true, false, ℕ_discrete, Option, none, some, List, [], ◌∷◌, update, pick,
  arith, Bool-cases, inl, inr,
}
use rust_task_runner.Task.{Task, Callback}
use rust_task_runner.Sequence.{
  Sequence, push_task, push_delayed_task, will_run_task, take_task, release_worker,
}
use rust_task_runner.DelayedTaskManager.{Manager, timer_round}
use rust_task_runner.ThreadGroup
use rust_task_runner.ThreadGroup.{
  Worker, Pc, seeking, got, claimed, running, processed, released, requeueing, exited, Work, leave,
  wait, work, get_work, begin_round, end_round, push_task_source, begin_join,
}
use rust_task_runner.System.{
  System, Event, works, posts, delivers, posts_delayed, registers, timer, joins, ticks, advance,
  on_work, step, run, init, deliver, register, on_timer, on_task, set_sequence, Registration,
}

-- The sequence that a worker has claimed and not yet given back.
abbrev pub owner : Pc → Option ℕ
owner (claimed q) = some q
owner (running q _) = some q
owner (processed q) = some q
owner _ = none

-- The abstract view: a table of claims, and a lock for each sequence.
pub record Claims : Type 0 where
  pub owns : ℕ → Option ℕ
  pub held : ℕ → Bool

abbrev pub claims : System → Claims
claims s = record {
  owns = λ i. owner (s.group.workers i).pc;
  held = λ q. (s.sequences q).has_worker;
}

-- What may happen to the table: nothing; a worker without a claim takes a lock that is free; the
-- worker with the claim gives it back.
pub data Move (c d : Claims) : Type 0 where
  keep : ((i : ℕ) → d.owns i ≡ c.owns i) → ((q : ℕ) → d.held q ≡ c.held q) → Move c d
  claim :
      (i q : ℕ)
      → c.owns i ≡ none
      → c.held q ≡ false
      → ((j : ℕ) → d.owns j ≡ update c.owns i (some q) j)
      → ((r : ℕ) → d.held r ≡ update c.held q true r)
      → Move c d
  drop :
      (i q : ℕ)
      → c.owns i ≡ some q
      → ((j : ℕ) → d.owns j ≡ update c.owns i none j)
      → ((r : ℕ) → d.held r ≡ update c.held q false r)
      → Move c d

-- A lock is held exactly while one worker owns it.
pub record IsExclusive (c : Claims) : Type 0 where
  pub unique : (i j q : ℕ) → c.owns i ≡ some q → c.owns j ≡ some q → i ≡ j
  pub flagged : (i q : ℕ) → c.owns i ≡ some q → c.held q ≡ true
  pub covered : (q : ℕ) → c.held q ≡ true → (i : ℕ) × (c.owns i ≡ some q)

module _ {c d : Claims} (x : IsExclusive c) where
  Move-unique : Move c d → (i j q : ℕ) → d.owns i ≡ some q → d.owns j ≡ some q → i ≡ j
  Move-unique (keep o h) i j q p r = ground (arith, o i, o j, x.unique i j q)
  Move-unique (claim k l a b o h) i j q p r =
      ground (arith, o i, o j, x.unique i j q, x.flagged i l, x.flagged j l)
  Move-unique (drop k l a o h) i j q p r = ground (arith, o i, o j, x.unique i j q)

  Move-flagged : Move c d → (i q : ℕ) → d.owns i ≡ some q → d.held q ≡ true
  Move-flagged (keep o h) i q p = ground (arith, o i, h q, x.flagged i q)
  Move-flagged (claim k l a b o h) i q p = ground (arith, o i, h q, x.flagged i q)
  Move-flagged (drop k l a o h) i q p = ground (arith, o i, h q, x.flagged i q, x.unique i k l)

  Move-covered : Move c d → (q : ℕ) → d.held q ≡ true → (i : ℕ) × (d.owns i ≡ some q)
  Move-covered (keep o h) q p =
      let (i, e) = x.covered q (ground (arith, h q)) in (i, ground (arith, o i))
  Move-covered (claim k l a b o h) q p = elim (ℕ_discrete l q) [
    | yes same ↦ (k, ground (arith, o k))
    | no other ↦ let (i, e) = x.covered q (ground (arith, h q)) in (i, ground (arith, o i))
  ]
  Move-covered (drop k l a o h) q p =
      let (i, e) = x.covered q (ground (arith, h q)) in (i, ground (arith, o i, h q))

  pub Move-IsExclusive : Move c d → IsExclusive d
  Move-IsExclusive m = record {
    unique = Move-unique m;
    flagged = Move-flagged m;
    covered = Move-covered m;
  }

on_work-Move :
    (i : ℕ) (k : Work) (s : System)
    → (s.group.workers i).pc ≡ seeking
    → Move (claims s) (claims (on_work i k (s.group.workers i) s))
unfolding on_work
on_work-Move i leave s e = keep (λ j. ground arith) (λ r. refl)
on_work-Move i wait s e = keep (λ j. refl) (λ r. refl)
on_work-Move i (work x rest) s e = keep (λ j. ground arith) (λ r. refl)

on_task-Move :
    (i q : ℕ) (task : Option Task) (x : Sequence) (s : System)
    → (s.group.workers i).pc ≡ claimed q
    → x.has_worker ≡ (s.sequences q).has_worker
    → Move (claims s) (claims (on_task i q task (s.group.workers i) (set_sequence q x s)))
unfolding on_task
on_task-Move i q none x s e h = keep (λ j. ground arith) (λ r. ground arith)
on_task-Move i q (some t) x s e h = keep (λ j. ground arith) (λ r. ground arith)

got-Move :
    (i q : ℕ) (s : System)
    → (s.group.workers i).pc ≡ got q
    → Move (claims s) (claims (advance i (got q) (s.group.workers i) s))
unfolding advance will_run_task end_round
got-Move i q s e = elim (Bool-cases (s.sequences q).has_worker) [
  | inl taken ↦ keep (λ j. ground arith) (λ r. ground arith)
  | inr free ↦ claim i q (ground arith) free (λ j. ground arith) (λ r. ground arith)
]

advance-Move :
    (i : ℕ) (pc : Pc) (s : System)
    → (s.group.workers i).pc ≡ pc
    → Move (claims s) (claims (advance i pc (s.group.workers i) s))
unfolding advance release_worker end_round
advance-Move i seeking s e = on_work-Move i (get_work s.group) s e
advance-Move i (got q) s e = got-Move i q s e
advance-Move i (claimed q) s e =
    on_task-Move i q (take_task s.now (s.sequences q)).0 (take_task s.now (s.sequences q)).1 s e
      (unfold take_task in refl)
advance-Move i (running q t) s e = keep (λ j. ground arith) (λ r. refl)
advance-Move i (processed q) s e = drop i q (ground arith) (λ j. ground arith) (λ r. ground arith)
advance-Move i (released q) s e = keep (λ j. ground arith) (λ r. refl)
advance-Move i (requeueing q) s e = keep (λ j. unfold push_task_source in ground arith) (λ r. refl)
advance-Move i exited s e = keep (λ j. refl) (λ r. refl)

deliver-Move : (o : Option (ℕ × List ℕ)) (s : System) → Move (claims s) (claims (deliver o s))
unfolding deliver push_task_source
deliver-Move none s = keep (λ j. refl) (λ r. refl)
deliver-Move (some (q, rest)) s = keep (λ j. refl) (λ r. refl)

register-Move :
    (o : Option (Registration × List Registration)) (s : System)
    → Move (claims s) (claims (register o s))
unfolding register
register-Move none s = keep (λ j. refl) (λ r. refl)
register-Move (some (q, rest)) s = keep (λ j. refl) (λ r. refl)

on_timer-Move :
    (o : Option ℕ) (m : Manager) (s : System) → Move (claims s) (claims (on_timer (o, m) s))
unfolding on_timer
on_timer-Move none m s = keep (λ j. refl) (λ r. refl)
on_timer-Move (some q) m s = keep (λ j. refl) (λ r. refl)

-- Every step of the pool is a move of the table of claims.
pub step-Move : (e : Event) (s : System) → Move (claims s) (claims (step e s))
unfolding step begin_join
step-Move (works i) s = advance-Move i (s.group.workers i).pc s refl
step-Move (posts q t) s = keep (λ j. refl) (λ r. unfold push_task in ground arith)
step-Move (delivers k) s = deliver-Move (pick k s.posting) s
step-Move (posts_delayed q t delay) s =
    keep (λ j. refl) (λ r. unfold push_delayed_task in ground arith)
step-Move (registers k) s = register-Move (pick k s.registering) s
step-Move timer s = on_timer-Move (timer_round s.now s.manager).0 (timer_round s.now s.manager).1 s
step-Move joins s = keep (λ j. refl) (λ r. refl)
step-Move (ticks n) s = keep (λ j. refl) (λ r. refl)

pub run-IsExclusive :
    (es : List Event) (s : System) → IsExclusive (claims s) → IsExclusive (claims (run es s))
unfolding run
run-IsExclusive [] s x = x
run-IsExclusive (e ∷ es) s x = run-IsExclusive es (step e s) (Move-IsExclusive x (step-Move e s))

pub init-IsExclusive :
    (sequences : ℕ → Sequence)
    → ((q : ℕ) → (sequences q).has_worker ≡ false)
    → IsExclusive (claims (init sequences))
unfolding init ThreadGroup.new
init-IsExclusive sequences free = record {
  unique = λ i j q p r. cc;
  flagged = λ i q p. cc;
  covered = λ q p. absurd (cc (free q));
}

-- However workers, posting threads and the timer interleave, two workers are never in the
-- callbacks of tasks of one sequence at the same time. At the start no sequence has a worker.
pub run-excludes :
    (sequences : ℕ → Sequence)
    → ((q : ℕ) → (sequences q).has_worker ≡ false)
    → (es : List Event) (i j q : ℕ) (c d : Callback)
    → ((run es (init sequences)).group.workers i).pc ≡ running q c
    → ((run es (init sequences)).group.workers j).pc ≡ running q d
    → i ≡ j
run-excludes sequences free es i j q c d p r =
    (run-IsExclusive es (init sequences) (init-IsExclusive sequences free)).unique i j q
      (ap owner p) (ap owner r)
