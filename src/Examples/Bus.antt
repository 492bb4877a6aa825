-- ===== src/Examples/Bus.antt =====
-- A run of the event bus.
use rust_task_runner.Common.{
  ℕ, ℕ_discrete, ◌≡◌, refl, List, [], ◌∷◌, ◌++◌, map, pick, ◌==◌, ◌&&◌, if◌then◌else◌,
}
use rust_task_runner.EventBus.{
  Call, publish, Called, heard, flushed, new, Event, begins, ends, unsubscribes, publishes, runs,
  drops, post_task, do_call, call, end_subscribe, perform_request, start_request, do_work, step,
  run,
}
use rust_task_runner.EventBus.Replay.{replay, outstanding}
use rust_task_runner.EventBus.Histories.{run-replays}

-- Callback 9 answers event 1 with the publication of event 2.
abbrev react : Called ℕ → List (Call ℕ)
react (heard callback event) = if (callback == 9) && (event == 1) then publish 2 ∷ [] else []
react (flushed callback) = []

-- Two subscribers hear event 1; callback 8 is removed before event 2, which callback 9 publishes.
abbrev events : List (Event ℕ)
events =
    begins 8
    ∷ begins 9
    ∷ ends 1
    ∷ ends 0
    ∷ publishes 1
    ∷ unsubscribes 0
    ∷ runs
    ∷ runs
    ∷ runs
    ∷ runs
    ∷ runs
    ∷ runs
    ∷ runs
    ∷ runs
    ∷ runs
    ∷ drops
    ∷ []

test_calls : (run react events new).log ≡ heard 8 1 ∷ heard 9 1 ∷ heard 9 2 ∷ []
unfolding run step do_work do_call start_request perform_request end_subscribe call post_task pick
    ℕ_discrete
test_calls = refl

run-replays_example :
    ((run react events new).log ++ outstanding (run react events new).working
      ≡ replay [] (run react events new).performed)
    × (map (λ x. x.1) (run react events new).performed ++ (run react events new).queue
        ≡ (run react events new).posted)
run-replays_example = run-replays react events
