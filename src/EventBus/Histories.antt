-- ===== src/EventBus/Histories.antt =====
-- The calls of the event bus, against a replay of its requests one after the other.
use rust_task_runner.Common.{
  ℕ, ◌≡◌, refl, sym, ap, ◌∙◌, Bool, true, false, List, [], ◌∷◌, ◌++◌, map, map-append, append-nil,
  append_assoc, Option, none, some, pick, if◌then◌else◌,
}
use rust_task_runner.EventBus.{
  Subscriber, Request, add, remove, publication, done, Call, subscribe, unsubscribe, publish, flush,
  Work, callbacks, calls, posts, Called, heard, flushed, EventBus, new, Event, begins, ends,
  unsubscribes, publishes, flushes, runs, drops, post_task, do_call, call, end_subscribe, call_back,
  perform_request, start_request, do_work, step, run,
}
use rust_task_runner.EventBus.Replay.{
  active, calls_of, replay, outstanding, replay-append, active-add, active-remove, active_skips,
  outstanding_calls, callbacks_heard,
}

module _ {E : Type 0} where
  -- What was called and what the task that runs has still to call are those of a replay; what was
  -- performed and what is queued are what was posted.
  pub record IsReplay (b : EventBus E) : Type 0 where
    pub current : b.subscribers ≡ active b.performed
    pub called : b.log ++ outstanding b.working ≡ replay [] b.performed
    pub in_order : map (λ x. x.1) b.performed ++ b.queue ≡ b.posted

  post_task-IsReplay : (r : Request E) (b : EventBus E) → IsReplay b → IsReplay (post_task r b)
  unfolding post_task
  post_task-IsReplay r b h = record {
    current = h.current;
    called = h.called;
    in_order = rw (← h.in_order) (sym (append_assoc (map (λ x. x.1) b.performed) b.queue (r ∷ [])));
  }

  do_call-IsReplay :
      (c : Call E) (ws : List (Work E)) (b : EventBus E) → IsReplay b → IsReplay (do_call c b)
  unfolding do_call
  do_call-IsReplay (subscribe callback) ws b h = record {
    current = h.current;
    called = h.called;
    in_order = h.in_order;
  }
  do_call-IsReplay (unsubscribe id) ws b h = post_task-IsReplay (remove id) b h
  do_call-IsReplay (publish event) ws b h = post_task-IsReplay (publication event) b h
  do_call-IsReplay (flush callback) ws b h = post_task-IsReplay (done callback) b h

  when-IsReplay :
      (a : Bool) (b c : EventBus E) → IsReplay b → IsReplay c → IsReplay (if a then b else c)
  when-IsReplay true b c h k = h
  when-IsReplay false b c h k = k

  call-IsReplay : (r : Request E) (b : EventBus E) → IsReplay b → IsReplay (call r b)
  unfolding call
  call-IsReplay r b h = when-IsReplay b.is_alive (post_task r b) b (post_task-IsReplay r b h) h

  end_subscribe-IsReplay :
      (o : Option (Subscriber × List Subscriber)) (b : EventBus E)
      → IsReplay b
      → IsReplay (end_subscribe o b)
  unfolding end_subscribe
  end_subscribe-IsReplay none b h = h
  end_subscribe-IsReplay (some (s, rest)) b h =
      post_task-IsReplay (add s) (record b { reserved = rest })
        (record { current = h.current; called = h.called; in_order = h.in_order })

  -- The sequence takes a request off the queue, between two tasks.
  module _ (x : Bool × Request E) (rs : List (Request E)) (b : EventBus E) (e : b.working ≡ [])
      (f : b.queue ≡ x.1 ∷ rs) (h : IsReplay b) where
    taken_in_order : map (λ y. y.1) (b.performed ++ x ∷ []) ++ rs ≡ b.posted
    taken_in_order = rw (← h.in_order, f) (simp (map-append, append_assoc))

    taken_called : b.log ++ calls_of b.performed x ≡ replay [] (b.performed ++ x ∷ [])
    taken_called = rw (replay-append [] b.performed x, ← h.called, e) (simp append-nil)

    -- A request that calls nobody.
    taken_quiet : calls_of b.performed x ≡ [] → b.log ++ [] ≡ replay [] (b.performed ++ x ∷ [])
    taken_quiet q = rw (← q) taken_called

  module _ (react : Called E → List (Call E)) where
    start_request-IsReplay :
        (a : Bool) (r : Request E) (rs : List (Request E)) (b : EventBus E)
        → b.working ≡ []
        → b.queue ≡ r ∷ rs
        → IsReplay b
        → IsReplay (
            start_request react a r
              (record b { queue = rs; performed = b.performed ++ (a, r) ∷ [] }))
    unfolding start_request perform_request
    start_request-IsReplay true (add s) rs b e f h = record {
      current = rw (active-add s b.performed, h.current) refl;
      called = rw e (taken_quiet (true, add s) rs b e f h refl);
      in_order = taken_in_order (true, add s) rs b e f h;
    }
    start_request-IsReplay true (remove id) rs b e f h = record {
      current = rw (active-remove id b.performed, h.current) refl;
      called = rw e (taken_quiet (true, remove id) rs b e f h refl);
      in_order = taken_in_order (true, remove id) rs b e f h;
    }
    start_request-IsReplay true (publication event) rs b e f h = record {
      current =
          h.current ∙ sym (active_skips (true, publication event) (λ i. refl) refl b.performed);
      called =
          rw (callbacks_heard event b.subscribers, h.current)
            (taken_called (true, publication event) rs b e f h);
      in_order = taken_in_order (true, publication event) rs b e f h;
    }
    start_request-IsReplay true (done callback) rs b e f h = record {
      current = h.current ∙ sym (active_skips (true, done callback) (λ i. refl) refl b.performed);
      called =
          rw (outstanding_calls (react (flushed callback)) b.working, e, append-nil)
            (taken_called (true, done callback) rs b e f h);
      in_order = taken_in_order (true, done callback) rs b e f h;
    }
    start_request-IsReplay false (done callback) rs b e f h = record {
      current = h.current ∙ sym (active_skips (false, done callback) (λ i. refl) refl b.performed);
      called =
          rw (outstanding_calls (react (flushed callback)) b.working, e, append-nil)
            (taken_called (false, done callback) rs b e f h);
      in_order = taken_in_order (false, done callback) rs b e f h;
    }
    start_request-IsReplay false r rs b e f h = record {
      current = h.current ∙ sym (active_skips (false, r) (λ i. refl) refl b.performed);
      called = rw e (taken_quiet (false, r) rs b e f h refl);
      in_order = taken_in_order (false, r) rs b e f h;
    }

    call_back-IsReplay :
        (callback : ℕ) (event : E) (ws : List (Work E)) (b : EventBus E)
        → b.working ≡ callbacks callback event ∷ ws
        → IsReplay b
        → IsReplay (call_back react (heard callback event) (record b { working = ws }))
    call_back-IsReplay callback event ws b e h = record {
      current = h.current;
      called = rw (outstanding_calls (react (heard callback event)) ws) (
          append_assoc b.log (heard callback event ∷ []) (outstanding ws)
          ∙ rw (← h.called, e) refl);
      in_order = h.in_order;
    }

    -- A step of the task that calls nobody.
    done_with :
        (w : Work E) (ws : List (Work E)) (b : EventBus E)
        → b.working ≡ w ∷ ws
        → outstanding (w ∷ ws) ≡ outstanding ws
        → IsReplay b
        → IsReplay (record b { working = ws })
    done_with w ws b e o h = record {
      current = h.current;
      called = ap (λ z. b.log ++ z) (sym o) ∙ ap (λ z. b.log ++ outstanding z) (sym e) ∙ h.called;
      in_order = h.in_order;
    }

    do_work-IsReplay :
        (ws : List (Work E)) (rs : List (Request E)) (b : EventBus E)
        → b.working ≡ ws
        → b.queue ≡ rs
        → IsReplay b
        → IsReplay (do_work react ws rs b)
    unfolding do_work
    do_work-IsReplay [] [] b e f h = h
    do_work-IsReplay [] (r ∷ rs) b e f h = start_request-IsReplay b.is_alive r rs b e f h
    do_work-IsReplay (callbacks callback event ∷ ws) rs b e f h =
        call_back-IsReplay callback event ws b e h
    do_work-IsReplay (calls c ∷ ws) rs b e f h =
        do_call-IsReplay c ws (record b { working = ws }) (done_with (calls c) ws b e refl h)
    do_work-IsReplay (posts r ∷ ws) rs b e f h =
        post_task-IsReplay r (record b { working = ws }) (done_with (posts r) ws b e refl h)

    step-IsReplay : (e : Event E) (b : EventBus E) → IsReplay b → IsReplay (step react e b)
    unfolding step
    step-IsReplay (begins callback) b h =
        when-IsReplay b.is_alive _ b
          (record { current = h.current; called = h.called; in_order = h.in_order }) h
    step-IsReplay (ends k) b h = end_subscribe-IsReplay (pick k b.reserved) b h
    step-IsReplay (unsubscribes id) b h = call-IsReplay (remove id) b h
    step-IsReplay (publishes event) b h = call-IsReplay (publication event) b h
    step-IsReplay (flushes callback) b h = call-IsReplay (done callback) b h
    step-IsReplay runs b h = do_work-IsReplay b.working b.queue b refl refl h
    step-IsReplay drops b h = record {
      current = h.current;
      called = h.called;
      in_order = h.in_order;
    }

    run-IsReplay : (es : List (Event E)) (b : EventBus E) → IsReplay b → IsReplay (run react es b)
    unfolding run
    run-IsReplay [] b h = h
    run-IsReplay (e ∷ es) b h = run-IsReplay es (step react e b) (step-IsReplay e b h)

    -- However the threads that use the bus are interleaved, and whatever its callbacks do with it,
    -- it performs the requests in the order in which they were posted, also those that callbacks
    -- post; and it calls what a replay of them one after the other calls: for an event, all
    -- subscribers that were added before it and not removed in between, in the order of their
    -- requests, and nobody if the bus was dropped; for a flush, always its callback. What the task
    -- that runs has still to call counts as called.
    pub run-replays :
        (es : List (Event E))
        → ((run react es new).log ++ outstanding (run react es new).working
            ≡ replay [] (run react es new).performed)
          × (map (λ x. x.1) (run react es new).performed ++ (run react es new).queue
              ≡ (run react es new).posted)
    run-replays es =
        let h = run-IsReplay es new (record { current = refl; called = refl; in_order = refl }) in
        (h.called, h.in_order)
