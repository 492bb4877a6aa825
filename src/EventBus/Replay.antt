-- ===== src/EventBus/Replay.antt =====
-- A replay of the requests of the event bus, one after the other.
use rust_task_runner.Common.{
  ℕ, ◌≡◌, refl, ap, Bool, true, false, not, ◌||◌, ◌==◌, List, [], ◌∷◌, ◌++◌, map, append-nil,
  append_assoc, select, if◌then◌else◌, arith,
}
use rust_task_runner.EventBus.{
  Subscriber, Request, add, remove, publication, done, Call, Work, callbacks, calls, Called, heard,
  flushed,
}

module _ {E : Type 0} where
  -- Whether a list of requests, with whether the bus was found, removes subscriber `id`.
  abbrev pub removes : ℕ → Bool × Request E → Bool
  removes id (true, remove j) = id == j
  removes id _ = false

  abbrev pub removed : ℕ → List (Bool × Request E) → Bool
  removed id [] = false
  removed id (x ∷ xs) = removes id x || removed id xs

  -- The subscribers after a list of requests: those that are added and not removed later.
  abbrev pub active : List (Bool × Request E) → List Subscriber
  active [] = []
  active ((true, add s) ∷ xs) = if removed s.id xs then active xs else s ∷ active xs
  active (_ ∷ xs) = active xs

  -- What a request behind `before` calls.
  abbrev pub calls_of : List (Bool × Request E) → Bool × Request E → List (Called E)
  calls_of before (true, publication event) = map (λ s. heard s.callback event) (active before)
  calls_of before (b, done callback) = flushed callback ∷ []
  calls_of before _ = []

  abbrev pub replay : List (Bool × Request E) → List (Bool × Request E) → List (Called E)
  replay before [] = []
  replay before (x ∷ xs) = calls_of before x ++ replay (before ++ x ∷ []) xs

  -- The callbacks that the task that runs has still to call.
  abbrev pub outstanding : List (Work E) → List (Called E)
  outstanding [] = []
  outstanding (callbacks callback event ∷ ws) = heard callback event ∷ outstanding ws
  outstanding (_ ∷ ws) = outstanding ws

  removed-append :
      (id : ℕ) (xs : List (Bool × Request E)) (x : Bool × Request E)
      → removed id (xs ++ x ∷ []) ≡ (removed id xs || removes id x)
  removed-append id [] x = ground arith
  removed-append id (y ∷ xs) x = ground (arith, removed-append id xs x)

  pub replay-append :
      (before xs : List (Bool × Request E)) (x : Bool × Request E)
      → replay before (xs ++ x ∷ []) ≡ replay before xs ++ calls_of (before ++ xs) x
  replay-append before [] x = simp append-nil
  replay-append before (y ∷ xs) x = rw (replay-append (before ++ y ∷ []) xs x) (simp append_assoc)

  pub active-add :
      (s : Subscriber) (xs : List (Bool × Request E))
      → active (xs ++ (true, add s) ∷ []) ≡ active xs ++ s ∷ []
  active-add s [] = refl
  active-add s ((true, add t) ∷ xs) =
      ground (arith, active-add s xs, removed-append t.id xs (true, add s))
  active-add s (x ∷ xs) = active-add s xs

  pub active-remove :
      (id : ℕ) (xs : List (Bool × Request E))
      → active (xs ++ (true, remove id) ∷ []) ≡ select (λ s. not (s.id == id)) (active xs)
  active-remove id [] = refl
  active-remove id ((true, add t) ∷ xs) =
      ground (arith, active-remove id xs, removed-append t.id xs (true, remove id))
  active-remove id (x ∷ xs) = active-remove id xs

  -- A request that adds and removes nobody.
  pub active_skips :
      (x : Bool × Request E)
      → ((id : ℕ) → removes id x ≡ false)
      → active (x ∷ []) ≡ []
      → (xs : List (Bool × Request E)) → active (xs ++ x ∷ []) ≡ active xs
  active_skips x h e [] = e
  active_skips x h e ((true, add t) ∷ xs) =
      ground (arith, active_skips x h e xs, removed-append t.id xs x, h t.id)
  active_skips x h e (y ∷ xs) = active_skips x h e xs

  pub outstanding_calls :
      (cs : List (Call E)) (ws : List (Work E)) → outstanding (map calls cs ++ ws) ≡ outstanding ws
  outstanding_calls [] ws = refl
  outstanding_calls (c ∷ cs) ws = outstanding_calls cs ws

  pub callbacks_heard :
      (event : E) (xs : List Subscriber)
      → outstanding (map (λ s. callbacks s.callback event) xs)
        ≡ map (λ s. heard s.callback event) xs
  callbacks_heard event [] = refl
  callbacks_heard event (x ∷ xs) = ap (λ cs. heard x.callback event ∷ cs) (callbacks_heard event xs)
