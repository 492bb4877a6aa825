-- ===== src/EventBus.antt =====
-- rust_task/examples/event_bus.rs: the event bus on a sequenced runner. Each method posts a request
-- to one sequence, which performs them one at a time in the order of posting (Sequence, System);
-- what a callback does with the bus is a list of calls. `step` is one access of shared state by
-- one thread.
pub mod Replay
pub mod Histories
use rust_task_runner.Common.{
  ℕ, ◌+◌, Bool, true, false, not, ◌==◌, List, [], ◌∷◌, ◌++◌, map, Option, none, some, pick, u64,
  if◌then◌else◌, select,
}

-- A subscriber: its id, and its callback by number.
pub record Subscriber : Type 0 where
  pub id : ℕ
  pub callback : ℕ

-- What a post to the runner carries.
pub data Request (E : Type 0) : Type 0 where
  add : Subscriber → Request E
  remove : ℕ → Request E
  publication : E → Request E
  done : ℕ → Request E

-- A call of a method of the bus.
pub data Call (E : Type 0) : Type 0 where
  subscribe : ℕ → Call E
  unsubscribe : ℕ → Call E
  publish : E → Call E
  flush : ℕ → Call E

-- What the task that runs has still to do: callbacks to call, and the posts these make.
pub data Work (E : Type 0) : Type 0 where
  callbacks : ℕ → E → Work E
  calls : Call E → Work E
  posts : Request E → Work E

-- What is called: the callback of a subscriber with an event, or that of a flush.
pub data Called (E : Type 0) : Type 0 where
  heard : ℕ → E → Called E
  flushed : ℕ → Called E

-- `reserved` are threads within `subscribe`, between `fetch_add` and the post; `is_alive` says
-- that `Weak::upgrade` finds the bus. `posted`, `performed` and `log` record what was posted, what
-- the sequence ran (and whether the bus was found) and what was called.
pub record EventBus (E : Type 0) : Type 0 where
  pub subscribers : List Subscriber
  pub next_id : ℕ
  pub queue : List (Request E)
  pub working : List (Work E)
  pub reserved : List Subscriber
  pub is_alive : Bool
  pub posted : List (Request E)
  pub performed : List (Bool × Request E)
  pub log : List (Called E)

-- `EventBus::new`
abbrev pub new : {E : Type 0} → EventBus E
new = record {
  subscribers = [];
  next_id = 0;
  queue = [];
  working = [];
  reserved = [];
  is_alive = true;
  posted = [];
  performed = [];
  log = [];
}

-- Other threads call the methods, `begins` and `ends` for the two halves of `subscribe`; the
-- sequence runs; the last strong reference is dropped.
pub data Event (E : Type 0) : Type 0 where
  begins : ℕ → Event E
  ends : ℕ → Event E
  unsubscribes : ℕ → Event E
  publishes : E → Event E
  flushes : ℕ → Event E
  runs : Event E
  drops : Event E

module _ {E : Type 0} where
  -- `runner.post_task`
  unfoldable pub post_task : Request E → EventBus E → EventBus E
  post_task r b = record b { queue = b.queue ++ r ∷ []; posted = b.posted ++ r ∷ [] }

  -- `next_id.fetch_add`
  abbrev pub take_id : ℕ → EventBus E → Subscriber × EventBus E
  take_id callback b =
      (record { id = b.next_id; callback = callback }, record b { next_id = u64 (b.next_id + 1) })

  -- A call within a callback; `subscribe` has two steps.
  unfoldable pub do_call : Call E → EventBus E → EventBus E
  unfolding post_task
  do_call (subscribe callback) b =
      let (s, b') = take_id callback b in record b' { working = posts (add s) ∷ b'.working }
  do_call (unsubscribe id) b = post_task (remove id) b
  do_call (publish event) b = post_task (publication event) b
  do_call (flush callback) b = post_task (done callback) b

  -- A call by another thread, which has the bus.
  unfoldable pub call : Request E → EventBus E → EventBus E
  unfolding post_task
  call r b = if b.is_alive then post_task r b else b

  unfoldable pub end_subscribe : Option (Subscriber × List Subscriber) → EventBus E → EventBus E
  unfolding post_task
  end_subscribe none b = b
  end_subscribe (some (s, rest)) b = post_task (add s) (record b { reserved = rest })

  -- What a callback does with the bus is up to the program.
  module _ (react : Called E → List (Call E)) where
    abbrev pub call_back : Called E → EventBus E → EventBus E
    call_back c b = record b { log = b.log ++ c ∷ []; working = map calls (react c) ++ b.working }

    -- The closures that the methods post.
    unfoldable pub perform_request : Request E → EventBus E → EventBus E
    perform_request (add s) b = record b { subscribers = b.subscribers ++ s ∷ [] }
    perform_request (remove id) b = record b {
      subscribers = select (λ s. not (s.id == id)) b.subscribers;
    }
    perform_request (publication event) b = record b {
      working = map (λ s. callbacks s.callback event) b.subscribers;
    }
    perform_request (done callback) b = call_back (flushed callback) b

    -- `bind_once` calls its closure if the bus is still there; `flush` does without it.
    unfoldable pub start_request : Bool → Request E → EventBus E → EventBus E
    unfolding perform_request
    start_request true r b = perform_request r b
    start_request false (done callback) b = perform_request (done callback) b
    start_request false _ b = b

    unfoldable pub do_work : List (Work E) → List (Request E) → EventBus E → EventBus E
    unfolding do_call start_request post_task
    do_work [] [] b = b
    do_work [] (r ∷ rs) b =
        start_request b.is_alive r
          (record b { queue = rs; performed = b.performed ++ (b.is_alive, r) ∷ [] })
    do_work (callbacks callback event ∷ ws) _ b =
        call_back (heard callback event) (record b { working = ws })
    do_work (calls c ∷ ws) _ b = do_call c (record b { working = ws })
    do_work (posts r ∷ ws) _ b = post_task r (record b { working = ws })

    unfoldable pub step : Event E → EventBus E → EventBus E
    unfolding call end_subscribe do_work
    step (begins callback) b =
        let (s, b') = take_id callback b in
        if b.is_alive then record b' { reserved = s ∷ b'.reserved } else b
    step (ends k) b = end_subscribe (pick k b.reserved) b
    step (unsubscribes id) b = call (remove id) b
    step (publishes event) b = call (publication event) b
    step (flushes callback) b = call (done callback) b
    step runs b = do_work b.working b.queue b
    step drops b = record b { is_alive = false }

    unfoldable pub run : List (Event E) → EventBus E → EventBus E
    run [] b = b
    run (e ∷ es) b = run es (step e b)
