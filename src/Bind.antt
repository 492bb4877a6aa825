-- ===== src/Bind.antt =====
-- rust_task/bind.rs: pointers to shared objects and the closures that call a function with one. An
-- object and a function are numbers; `count` says how many strong references an object has, and it
-- is dropped with the last.
use rust_task_runner.Common.{
  ℕ, ◌+◌, ◌-◌, ◌≡◌, refl, ◌∙◌, arith, Bool-cases, List, [], ◌∷◌, ◌++◌, Option, none, some, ◌==◌,
  if◌then◌else◌, update, inl, inr,
}

pub data Pointer : Type 0 where
  arc : ℕ → Pointer
  weak : ℕ → Pointer

-- The function that was called, and with which object.
pub record Called : Type 0 where
  pub function : ℕ
  pub object : ℕ

pub record Heap : Type 0 where
  pub count : ℕ → ℕ
  pub called : List Called

abbrev pub retain : ℕ → Heap → Heap
retain object h = record h { count = update h.count object (h.count object + 1) }

abbrev pub release : ℕ → Heap → Heap
release object h = record h { count = update h.count object (h.count object - 1) }

-- `IntoArc::into_arc`: an `Arc` is handed on, a `Weak` is upgraded, which counts one more.
unfoldable pub into_arc : Pointer → Heap → Option ℕ × Heap
into_arc (arc object) h = (some object, h)
into_arc (weak object) h = if h.count object == 0 then (none, h) else (some object, retain object h)

-- The call of a bound function, which drops the `Arc` that it was given.
unfoldable pub call : ℕ → Option ℕ × Heap → Heap
call f (none, h) = h
call f (some object, h) =
    release object (record h { called = h.called ++ record { function = f; object = object } ∷ [] })

-- The closure of `bind_once`, when it is called.
unfoldable pub bind_once : Pointer → ℕ → Heap → Heap
unfolding into_arc call
bind_once p f h = call f (into_arc p h)

-- The closure of `bind_repeating`, when it is called.
unfoldable pub bind_repeating : ℕ → ℕ → Heap → Heap
unfolding into_arc call
bind_repeating object f h = call f (into_arc (weak object) h)

-- Any number of calls of the closure of `bind_repeating`.
abbrev pub repeat : ℕ → List ℕ → Heap → Heap
repeat object [] h = h
repeat object (f ∷ fs) h = repeat object fs (bind_repeating object f h)

-- What a call leaves: the references of every object are as many as before it.
retained :
    (count : ℕ → ℕ) (object o : ℕ)
    → update
        (update count object (count object + 1))
        object
        (update count object (count object + 1) object - 1)
        o
      ≡ count o
retained count object o = ground arith

pub bind_repeating-count :
    (object f o : ℕ) (h : Heap) → (bind_repeating object f h).count o ≡ h.count o
unfolding bind_repeating into_arc call
bind_repeating-count object f o h = elim (Bool-cases (h.count object == 0)) [
  | inl x ↦ rw x refl
  | inr x ↦ rw x (retained h.count object o)
]

-- Calls of a repeating closure, while the object lives and after it has been dropped, never keep it
-- alive nor drop it.
pub repeat-count :
    (object : ℕ) (fs : List ℕ) (o : ℕ) (h : Heap) → (repeat object fs h).count o ≡ h.count o
repeat-count object [] o h = refl
repeat-count object (f ∷ fs) o h =
    repeat-count object fs o (bind_repeating object f h) ∙ bind_repeating-count object f o h

-- Calls after the object has been dropped do nothing.
pub repeat-dropped :
    (object : ℕ) (fs : List ℕ) (h : Heap) → h.count object ≡ 0 → repeat object fs h ≡ h
unfolding bind_repeating into_arc call
repeat-dropped object [] h gone = refl
repeat-dropped object (f ∷ fs) h gone = rw gone (repeat-dropped object fs h gone)
