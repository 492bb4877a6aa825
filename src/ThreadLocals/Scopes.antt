-- ===== src/ThreadLocals/Scopes.antt =====
-- Scopes of the default runner and of tokens, as handles on the stack of one thread.
use rust_task_runner.Common.{ℕ, ◌≡◌, refl, ◌∙◌}
use rust_task_runner.ThreadLocals.{
  ThreadLocals, enter_default, leave_default, enter_token, leave_token,
}

-- What a thread does between two points of its program: enter a scope of the default runner
-- `within runner body`, leave it after `body`, and go on; or run a task under a token.
mutual
  pub data Scope : Type 0 where
    within : ℕ → Scopes → Scope
    under_token : ℕ → Scopes → Scope

  pub data Scopes : Type 0 where
    done : Scopes
    next : Scope → Scopes → Scopes

unfoldable mutual
  pub run_scope : Scope → ThreadLocals → ThreadLocals
  run_scope (within runner body) t =
      let (h, t') = enter_default runner t in leave_default h (run_scopes body t')
  run_scope (under_token token body) t = leave_token (run_scopes body (enter_token token t))

  pub run_scopes : Scopes → ThreadLocals → ThreadLocals
  run_scopes done t = t
  run_scopes (next s rest) t = run_scopes rest (run_scope s t)

mutual
  unfolding run_scope run_scopes enter_default leave_default enter_token leave_token

  scope_keeps_default :
      (s : Scope) (t : ThreadLocals) → (run_scope s t).current_default ≡ t.current_default
  scope_keeps_default (within runner body) t = refl
  scope_keeps_default (under_token token body) t = scopes_keep_default body (enter_token token t)

  scopes_keep_default :
      (ss : Scopes) (t : ThreadLocals) → (run_scopes ss t).current_default ≡ t.current_default
  scopes_keep_default done t = refl
  scopes_keep_default (next s rest) t =
      scopes_keep_default rest (run_scope s t) ∙ scope_keeps_default s t

-- However deep scopes of the default runner and of tokens nest and in whatever order they follow
-- one another, when they are left the thread has the default runner that it had before.
pub run_scopes-restores :
    (ss : Scopes) (t : ThreadLocals) → (run_scopes ss t).current_default ≡ t.current_default
run_scopes-restores ss t = scopes_keep_default ss t
