-- ===== src/ThreadLocals.antt =====
-- The thread-local state: rust_task/sequence_token.rs (the current token and the counter of
-- tokens), rust_task/sequenced_task_runner.rs (the current default runner) and
-- rust_task/thread_pool/worker_thread.rs (the scope of a token). A runner is named by a number.
pub mod Scopes
use rust_task_runner.Common.{
  ℕ, ◌+◌, Bool, true, false, Option, none, some, u64, ◌==◌, if◌then◌else◌,
}

-- `SequenceToken::create` over the counter `NEXT_SEQUENCE_ID`: the token and the counter after it.
unfoldable pub create : ℕ → ℕ × ℕ
create next_sequence_id = (next_sequence_id, u64 (next_sequence_id + 1))

pub record ThreadLocals : Type 0 where
  pub current_sequence_token : Option ℕ
  pub current_default : Option ℕ

-- `SequenceToken::set_current`
abbrev pub set_current : Option ℕ → ThreadLocals → ThreadLocals
set_current token t = record t { current_sequence_token = token }

-- `ScopedSequenceToken::new` and its `drop`.
unfoldable pub enter_token : ℕ → ThreadLocals → ThreadLocals
enter_token token t = set_current (some token) t

unfoldable pub leave_token : ThreadLocals → ThreadLocals
leave_token t = set_current none t

-- `CurrentDefaultHandle`: what the scope found when it was entered.
pub record CurrentDefaultHandle : Type 0 where
  pub previous : Option ℕ

-- `CurrentDefaultHandle::new`
unfoldable pub enter_default : ℕ → ThreadLocals → CurrentDefaultHandle × ThreadLocals
enter_default runner t =
    (record { previous = t.current_default }, record t { current_default = some runner })

-- `CurrentDefaultHandle::drop`
unfoldable pub leave_default : CurrentDefaultHandle → ThreadLocals → ThreadLocals
leave_default h t = record t { current_default = h.previous }

-- `has_current_default`
unfoldable pub has_current_default : ThreadLocals → Bool
has_current_default t = elim t.current_default [ none ↦ false | some _ ↦ true ]

-- `runs_tasks_in_current_sequence` of a runner with the given token.
unfoldable pub runs_tasks_in_current_sequence : ℕ → ThreadLocals → Bool
runs_tasks_in_current_sequence token t = elim t.current_sequence_token [
  | none ↦ false
  | some current ↦ current == token
]
