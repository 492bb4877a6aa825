-- ===== src/System/Attended.antt =====
-- Where a sequence with work is: in the queue, about to be there, or with a worker that will look
-- at it again; and what the steps of a worker do to this.
use rust_task_runner.Common.{
  ℕ, ◌≡◌, ◌≢◌, refl, ap, false, ℕ_discrete, Option, none, some, List, ◌∷◌, update, In, arith, subst,
  Bool-cases, ◌⊎◌, inl, inr,
}
use rust_task_runner.BinaryHeap.{In-push, In-push_keep}
use rust_task_runner.Task.{Task}
use rust_task_runner.Sequence.{Sequence, will_run_task, take_task, has_ready_tasks}
use rust_task_runner.PriorityQueue.{QueueEntry, entry_order}
use rust_task_runner.ThreadGroup.{
  ThreadGroup, Worker, Pc, seeking, got, claimed, running, processed, released, requeueing, exited,
  Work, leave, wait, work, get_work, end_round, push_task_source,
}
use rust_task_runner.System.{System, advance, on_work, on_task, set_sequence}
use rust_task_runner.System.Claims.{claims, IsExclusive}

-- The sequence that a worker has in hand.
abbrev pub holds : Pc → Option ℕ
holds (got q) = some q
holds (claimed q) = some q
holds (running q _) = some q
holds (processed q) = some q
holds (released q) = some q
holds (requeueing q) = some q
holds _ = none

pub data Attended (s : System) (q : ℕ) : Type 0 where
  in_queue : (e : QueueEntry) → In e s.group.priority_queue → e.task_source ≡ q → Attended s q
  in_posting : In q s.posting → Attended s q
  in_hand : (i : ℕ) → holds (s.group.workers i).pc ≡ some q → Attended s q

-- The one step that lets go of a sequence: its worker has found nothing ready.
abbrev pub GivenUp : ℕ → Pc → System → ℕ → Type 0
GivenUp i pc s q = (pc ≡ released q) × (has_ready_tasks s.now (s.sequences q) ≡ false)

pub attended_cases :
    (s : System) (i q : ℕ) (T : Type 0)
    → ((e : QueueEntry) → In e s.group.priority_queue → e.task_source ≡ q → T)
    → (In q s.posting → T)
    → (holds (s.group.workers i).pc ≡ some q → T)
    → ((j : ℕ) → i ≢ j → holds (s.group.workers j).pc ≡ some q → T)
    → Attended s q
    → T
attended_cases s i q T queue posting own other (in_queue e m h) = queue e m h
attended_cases s i q T queue posting own other (in_posting m) = posting m
attended_cases s i q T queue posting own other (in_hand j h) = elim (ℕ_discrete i j) [
  | yes same ↦ own (rw same h)
  | no different ↦ other j different h
]

-- A worker that goes on with what it has in hand.
go_on :
    (i q : ℕ) (w : Worker) (s t : System)
    → t.group.priority_queue ≡ s.group.priority_queue
    → t.posting ≡ s.posting
    → t.group.workers ≡ update s.group.workers i w
    → (holds (s.group.workers i).pc ≡ some q → holds w.pc ≡ some q)
    → Attended s q
    → Attended t q
go_on i q w s t eq ep ew keep =
    attended_cases s i q (Attended t q) (λ e m h. in_queue e (rw eq m) h)
      (λ m. in_posting (rw ep m)) (λ h. in_hand i (rw ew (ground (arith, keep h))))
      (λ j d h. in_hand j (rw ew (ground arith)))

-- The queue behind its first entry.
pop_queue :
    (i q : ℕ) (w : Worker) (x : QueueEntry) (s t : System)
    → In x s.group.priority_queue
    → holds (s.group.workers i).pc ≡ none
    → holds w.pc ≡ some x.task_source
    → ((e : QueueEntry) → In e s.group.priority_queue → (e ≡ x) ⊎ In e t.group.priority_queue)
    → t.posting ≡ s.posting
    → t.group.workers ≡ update s.group.workers i w
    → Attended s q
    → Attended t q
pop_queue i q w x s t first idle hold rest ep ew =
    attended_cases s i q (Attended t q)
      (λ e m h. elim (rest e m) [
        | inl same ↦ in_hand i (rw ew (ground (arith, ap (λ (z : QueueEntry). z.task_source) same)))
        | inr behind ↦ in_queue e behind h
      ])
      (λ m. in_posting (rw ep m)) (λ h. absurd (ground arith))
      (λ j d h. in_hand j (rw ew (ground arith)))

get_work-eq-work :
    (g : ThreadGroup) {x : QueueEntry} {rest : List QueueEntry}
    → get_work g ≡ work x rest
    → g.priority_queue ≡ x ∷ rest
unfolding get_work
get_work-eq-work g h = ground arith

on_work-Attended :
    (i : ℕ) (k : Work) (s : System)
    → get_work s.group ≡ k
    → (s.group.workers i).pc ≡ seeking
    → (q : ℕ) → Attended s q
    → Attended (on_work i k (s.group.workers i) s) q
unfolding on_work
on_work-Attended i leave s g e q = go_on i q _ s _ refl refl refl (λ h. absurd (ground arith))
on_work-Attended i wait s g e q = λ a. a
on_work-Attended i (work x rest) s g e q =
    pop_queue i q _ x s _ (rw (get_work-eq-work s.group g) (inl refl)) (ap holds e) refl
      (λ y m. subst (In y) (get_work-eq-work s.group g) m) refl refl

got-Attended :
    (i r : ℕ) (s : System)
    → (s.group.workers i).pc ≡ got r
    → IsExclusive (claims s)
    → (q : ℕ) → Attended s q
    → Attended (advance i (got r) (s.group.workers i) s) q
unfolding advance will_run_task end_round
got-Attended i r s e x q a = elim (Bool-cases (s.sequences r).has_worker) [
  | inl taken ↦
      let (k, own) = x.covered r taken in
      rw taken (
        attended_cases s i q _ in_queue in_posting (λ h. in_hand k (ground arith))
          (λ j d h. in_hand j (ground arith)) a)
  | inr free ↦ rw free (go_on i q _ s _ refl refl refl (λ h. ground arith) a)
]

on_task-Attended :
    (i r : ℕ) (o : Option Task) (y : Sequence) (s : System)
    → (s.group.workers i).pc ≡ claimed r
    → (q : ℕ) → Attended s q
    → Attended (on_task i r o (s.group.workers i) (set_sequence r y s)) q
unfolding on_task
on_task-Attended i r none y s e q a = go_on i q _ s _ refl refl refl (λ h. ground arith) a
on_task-Attended i r (some t) y s e q a = go_on i q _ s _ refl refl refl (λ h. ground arith) a

released-Attended :
    (i r : ℕ) (s : System)
    → (s.group.workers i).pc ≡ released r
    → (q : ℕ) → Attended s q
    → Attended (advance i (released r) (s.group.workers i) s) q ⊎ GivenUp i (released r) s q
unfolding advance end_round
released-Attended i r s e q a = elim (Bool-cases (has_ready_tasks s.now (s.sequences r))) [
  | inl ready ↦ inl (rw ready (go_on i q _ s _ refl refl refl (λ h. ground arith) a))
  | inr nothing ↦ rw nothing (
      attended_cases s i q _ (λ y m h. inl (in_queue y m h)) (λ m. inl (in_posting m))
        (λ h. inr (ground (arith, nothing))) (λ j d h. inl (in_hand j (ground arith))) a)
]

requeueing-Attended :
    (i r : ℕ) (s : System)
    → (s.group.workers i).pc ≡ requeueing r
    → (q : ℕ) → Attended s q
    → Attended (advance i (requeueing r) (s.group.workers i) s) q
unfolding advance end_round push_task_source
requeueing-Attended i r s e q a =
    attended_cases s i q _
      (λ y m h. in_queue y (In-push_keep entry_order y _ s.group.priority_queue m) h) in_posting
      (λ h. in_queue _ (In-push entry_order _ s.group.priority_queue) (ground arith))
      (λ j d h. in_hand j (ground arith)) a

pub advance-Attended :
    (i : ℕ) (pc : Pc) (s : System)
    → (s.group.workers i).pc ≡ pc
    → IsExclusive (claims s)
    → (q : ℕ) → Attended s q
    → Attended (advance i pc (s.group.workers i) s) q ⊎ GivenUp i pc s q
unfolding advance
advance-Attended i seeking s e x q a = inl (on_work-Attended i (get_work s.group) s refl e q a)
advance-Attended i (got r) s e x q a = inl (got-Attended i r s e x q a)
advance-Attended i (claimed r) s e x q a = inl (
    on_task-Attended i r (take_task s.now (s.sequences r)).0 (take_task s.now (s.sequences r)).1 s e
      q a)
advance-Attended i (running r c) s e x q a =
    inl (go_on i q _ s _ refl refl refl (λ h. ground arith) a)
advance-Attended i (processed r) s e x q a =
    inl (go_on i q _ s _ refl refl refl (λ h. ground arith) a)
advance-Attended i (released r) s e x q a = released-Attended i r s e q a
advance-Attended i (requeueing r) s e x q a = inl (requeueing-Attended i r s e q a)
advance-Attended i exited s e x q a = inl a
