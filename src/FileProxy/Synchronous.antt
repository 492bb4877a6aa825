-- ===== src/FileProxy/Synchronous.antt =====
-- A file that is used one operation after the other, without a thread, for the proxy of
-- rust_io/file_proxy.rs: a proxy is seen as what it has answered once its jobs are done.
use rust_task_runner.Common.{
  ℕ, zero, suc, ◌≡◌, refl, ◌∙◌, ap, List, [], ◌∷◌, ◌++◌, Option, none, some, pick, All, false,
}
use rust_task_runner.IoTaskRunner.{Kernel, post_task}
use rust_task_runner.FileProxy.{FileSystem, Op, Outcome, perform, Job, FileProxy, ask, run_job}

-- The callbacks that were called, with their arguments, and the state of the files.
abbrev pub View : FileSystem → Type 0
View fs = List (ℕ × Outcome) × fs.State

-- An operation that is done at once.
abbrev pub do_now : (fs : FileSystem) → List ℕ → Job → View fs → View fs
do_now fs path j v = let (r, s) = perform fs j.op path v.1 in (v.0 ++ (j.cb, r) ∷ [], s)

abbrev pub do_all : (fs : FileSystem) → List ℕ → List Job → View fs → View fs
do_all fs path [] v = v
do_all fs path (j ∷ js) v = do_all fs path js (do_now fs path j v)

-- A program calls a method, or the runner of the proxy runs the `k`-th of the jobs that wait.
pub data Step : Type 0 where
  asks : Op → ℕ → Step
  runs : ℕ → ℕ → Step

-- A step on a sequenced runner, which runs its jobs one at a time in the order of posting.
abbrev pub IsSequenced : Step → Type 0
IsSequenced (asks op cb) = Unit
IsSequenced (runs now zero) = Unit
IsSequenced (runs now (suc k)) = ⊥

abbrev pub asked : List Step → List Job
asked [] = []
asked (asks op cb ∷ xs) = record { op = op; cb = cb } ∷ asked xs
asked (runs _ _ ∷ xs) = asked xs

do_all-append :
    (fs : FileSystem) (path : List ℕ) (xs ys : List Job) (v : View fs)
    → do_all fs path (xs ++ ys) v ≡ do_all fs path ys (do_all fs path xs v)
do_all-append fs path [] ys v = refl
do_all-append fs path (x ∷ xs) ys v = do_all-append fs path xs ys (do_now fs path x v)

module _ {kernel : Kernel} {fs : FileSystem} where
  -- What a proxy has answered once its jobs are done.
  abbrev pub view : FileProxy kernel fs → View fs
  view p = do_all fs p.path p.jobs (p.results, p.files)

  abbrev pub step : Step → FileProxy kernel fs → FileProxy kernel fs
  step (asks op cb) p = ask op cb p
  step (runs now k) p = run_job now (pick k p.jobs) p

  abbrev pub run : List Step → FileProxy kernel fs → FileProxy kernel fs
  run [] p = p
  run (x ∷ xs) p = run xs (step x p)

  run_job-view :
      (now : ℕ) (js : List Job) (p : FileProxy kernel fs)
      → p.jobs ≡ js
      → p.io.shutdown ≡ false
      → view (run_job now (pick 0 js) p) ≡ view p
  unfolding run_job post_task pick
  run_job-view now [] p h up = refl
  run_job-view now (j ∷ js) p h up = rw (up, h) refl

  run_job-keeps :
      (now : ℕ) (o : Option (Job × List Job)) (p : FileProxy kernel fs)
      → p.io.shutdown ≡ false
      → ((run_job now o p).path ≡ p.path) × ((run_job now o p).io.shutdown ≡ false)
  unfolding run_job post_task
  run_job-keeps now none p up = (refl, up)
  run_job-keeps now (some (j, js)) p up = (refl, rw up refl)

  -- However the jobs of a proxy on a sequenced runner, as `FileProxy::new` makes one, are delayed,
  -- it answers as a file does on which every operation is done at once: the same callbacks in the
  -- same order, with the same results, and the same files in the end. The IO thread is not shut
  -- down.
  pub run-refines_do_all :
      (steps : List Step) (p : FileProxy kernel fs)
      → All IsSequenced steps
      → p.io.shutdown ≡ false
      → view (run steps p) ≡ do_all fs p.path (asked steps) (view p)
  unfolding ask
  run-refines_do_all [] p h up = refl
  run-refines_do_all (asks op cb ∷ xs) p h up =
      run-refines_do_all xs (ask op cb p) h.1 up
      ∙ ap (do_all fs p.path (asked xs)) (do_all-append fs p.path p.jobs _ (p.results, p.files))
  run-refines_do_all (runs now zero ∷ xs) p h up =
      let (same, up_after) = run_job-keeps now (pick 0 p.jobs) p up in
      run-refines_do_all xs (run_job now (pick 0 p.jobs) p) h.1 up_after
      ∙ ap (λ path. do_all fs path (asked xs) (view (run_job now (pick 0 p.jobs) p))) same
      ∙ ap (do_all fs p.path (asked xs)) (run_job-view now p.jobs p refl up)
  run-refines_do_all (runs now (suc k) ∷ xs) p h up = absurd h.0
