-- ===== src/FileProxy.antt =====
-- rust_io/file_proxy.rs: the blocking helpers, over a file system that is a parameter, and the jobs
-- of a proxy on its runner, each of which posts its callback to the IO thread. A path is the list
-- of its bytes, callbacks are named by numbers; an error is the number of `errno`.
pub mod Descriptors
pub mod Bytes
pub mod RoundTrip
pub mod Synchronous
use rust_task_runner.Common.{
  ℕ, ◌^◌, ◌%◌, Bool, true, false, ◌||◌, List, [], ◌∷◌, ◌++◌, Option, none, some, ◌==◌,
  if◌then◌else◌,
}
use rust_task_runner.Task.{user}
use rust_task_runner.IoTaskRunner.{Kernel, IoTaskRunner, post_task}
use rust_task_runner.SocketPosix.{IoResult, ok, err}

-- The flags of `open(2)` that the helpers pass.
pub data OpenFlags : Type 0 where
  rdonly wronly_creat wronly_creat_append : OpenFlags

-- The system calls, and `std::fs::read` and `std::fs::write`.
pub record FileSystem : Type 1 where
  pub State : Type 0
  pub open_file : OpenFlags → List ℕ → State → IoResult ℕ × State
  pub pread : ℕ → ℕ → ℕ → State → IoResult (List ℕ) × State
  pub pwrite : ℕ → List ℕ → ℕ → State → IoResult ℕ × State
  pub write : ℕ → List ℕ → State → IoResult ℕ × State
  pub close_file : ℕ → State → IoResult Unit × State
  pub read_path : List ℕ → State → IoResult (List ℕ) × State
  pub write_path : List ℕ → List ℕ → State → IoResult Unit × State

-- `ErrorKind::InvalidInput`, which has no number of the system.
abbrev pub invalid_input : ℕ
invalid_input = 0

abbrev pub contains_nul : List ℕ → Bool
contains_nul [] = false
contains_nul (b ∷ bs) = b == 0 || contains_nul bs

-- `last_os_error` behind a call that failed with `e` and the `close` that follows it: a `close`
-- that fails leaves its own error.
abbrev pub last_os_error : IoResult Unit → ℕ → ℕ
last_os_error (ok _) e = e
last_os_error (err e') e = e'

-- The end of a helper: the result of its call, after `close`.
abbrev pub after_close : {A : Type 0} → IoResult A → IoResult Unit → IoResult A
after_close (ok a) c = ok a
after_close (err e) c = err (last_os_error c e)

module _ (fs : FileSystem) where
  -- What follows `open`: `call` on the descriptor, then `close`.
  abbrev pub opened_file :
      {A : Type 0}
      → (ℕ → fs.State → IoResult A × fs.State)
      → IoResult ℕ
      → fs.State
      → IoResult A × fs.State
  opened_file call (err e) s = (err e, s)
  opened_file call (ok fd) s =
      let (r, s') = call fd s in let (c, s'') = fs.close_file fd s' in (after_close r c, s'')

  -- A helper: it opens the file, unless the path has a null byte.
  unfoldable pub with_file :
      {A : Type 0}
      → OpenFlags
      → List ℕ
      → (ℕ → fs.State → IoResult A × fs.State)
      → fs.State
      → IoResult A × fs.State
  with_file flags path call s =
      let (opened, s') = fs.open_file flags path s in
      if contains_nul path then (err invalid_input, s) else opened_file call opened s'

  -- An offset goes over as the bits of an `off_t`.
  abbrev pub blocking_pread : List ℕ → ℕ → ℕ → fs.State → IoResult (List ℕ) × fs.State
  blocking_pread path offset len = with_file rdonly path (λ fd. fs.pread fd len (offset % 2 ^ 64))

  abbrev pub blocking_pwrite : List ℕ → ℕ → List ℕ → fs.State → IoResult ℕ × fs.State
  blocking_pwrite path offset bytes =
      with_file wronly_creat path (λ fd. fs.pwrite fd bytes (offset % 2 ^ 64))

  abbrev pub blocking_append : List ℕ → List ℕ → fs.State → IoResult ℕ × fs.State
  blocking_append path bytes = with_file wronly_creat_append path (λ fd. fs.write fd bytes)

-- The operations of a proxy, and what their callbacks get.
pub data Op : Type 0 where
  read_at : ℕ → ℕ → Op
  read_all : Op
  write_at : ℕ → List ℕ → Op
  write_all : List ℕ → Op
  append : List ℕ → Op

pub data Outcome : Type 0 where
  contents : IoResult (List ℕ) → Outcome
  written : IoResult ℕ → Outcome
  stored : IoResult Unit → Outcome

-- The blocking part of an operation.
unfoldable pub perform : (fs : FileSystem) → Op → List ℕ → fs.State → Outcome × fs.State
perform fs (read_at offset len) path s =
    let (r, s') = blocking_pread fs path offset len s in (contents r, s')
perform fs read_all path s = let (r, s') = fs.read_path path s in (contents r, s')
perform fs (write_at offset bytes) path s =
    let (r, s') = blocking_pwrite fs path offset bytes s in (written r, s')
perform fs (write_all bytes) path s = let (r, s') = fs.write_path path bytes s in (stored r, s')
perform fs (append bytes) path s = let (r, s') = blocking_append fs path bytes s in (written r, s')

pub record Job : Type 0 where
  pub op : Op
  pub cb : ℕ

-- `jobs` wait on the runner of the proxy, in the order of posting, and any of them may run next,
-- which is up to the runner; `results` are the callbacks that
-- the IO thread has been given, with what they are called with.
pub record FileProxy (kernel : Kernel) (fs : FileSystem) : Type 0 where
  pub path : List ℕ
  pub jobs : List Job
  pub io : IoTaskRunner kernel
  pub results : List (ℕ × Outcome)
  pub files : fs.State

module _ {kernel : Kernel} {fs : FileSystem} where
  -- `read`, `read_all`, `write`, `write_all` and `append`: they post a job.
  unfoldable pub ask : Op → ℕ → FileProxy kernel fs → FileProxy kernel fs
  ask op cb p = record p { jobs = p.jobs ++ record { op = op; cb = cb } ∷ [] }

  -- The closure of a job: the blocking part, and the callback with its result to the IO thread,
  -- which takes it unless it is shut down.
  unfoldable pub run_job : ℕ → Option (Job × List Job) → FileProxy kernel fs → FileProxy kernel fs
  unfolding perform
  run_job now none p = p
  run_job now (some (j, rest)) p =
      let (r, s) = perform fs j.op p.path p.files in
      let (posted, io) = post_task now (user j.cb) p.io in
      record p {
        jobs = rest;
        io = io;
        results = if posted then p.results ++ (j.cb, r) ∷ [] else p.results;
        files = s;
      }
