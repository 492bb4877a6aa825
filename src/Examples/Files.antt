-- ===== src/Examples/Files.antt =====
-- Runs of a file proxy on a file system with one file, which every path names.
use rust_task_runner.Common.{
  ℕ, zero, suc, ◌+◌, ◌≤◌, ◌≡◌, refl, ap, pick, Bool, true, false, ◌&&◌, ◌==◌, if◌then◌else◌, update,
  List, [], ◌∷◌, ◌++◌, none, some, Option, length, take, drop, min, arith,
}
use rust_task_runner.IoTaskRunner
use rust_task_runner.IoTaskRunner.{Kernel, IoTaskRunner, post_task}
use rust_task_runner.SocketPosix.{IoResult, ok, err}
use rust_task_runner.FileProxy.{
  FileSystem, blocking_pread, blocking_pwrite, read_at, write_at, append, perform, FileProxy,
  with_file, run_job, ask, written, contents,
}
use rust_task_runner.FileProxy.Descriptors.{IsTracking, perform-keeps_descriptors}
use rust_task_runner.FileProxy.Bytes.{splice}
use rust_task_runner.FileProxy.RoundTrip.{IsStoring, blocking_pread-blocking_pwrite}
use rust_task_runner.FileProxy.Synchronous.{
  Step, asks, runs, asked, do_all, view, run, run-refines_do_all,
}

-- The bytes of the file, the path that was opened last, and whether the one descriptor, 3, is open.
pub record Disk : Type 0 where
  pub bytes : List ℕ
  pub opened : Option (List ℕ)
  pub busy : Bool

-- It writes two bytes at a time; `open` fails for the path with no byte and while the descriptor is
-- open, and `close` on a descriptor that is not open.
abbrev disk_open : List ℕ → Disk → IoResult ℕ × Disk
disk_open [] d = (err 2, d)
disk_open (b ∷ bs) d =
    if d.busy then (err 24, d) else (ok 3, record d { opened = some (b ∷ bs); busy = true })

abbrev disk_close : ℕ → Disk → IoResult Unit × Disk
disk_close fd d = if d.busy && (fd == 3) then (ok tt, record d { busy = false }) else (err 9, d)

abbrev disk : FileSystem
disk = record {
  State = Disk;
  open_file = λ flags path d. disk_open path d;
  pread = λ fd len offset d. (ok (take len (drop offset d.bytes)), d);
  pwrite = λ fd bytes offset d. (
    ok (min 2 (length bytes)),
    record d { bytes = splice offset (take (min 2 (length bytes)) bytes) d.bytes },
  );
  write = λ fd bytes d. (ok (length bytes), record d { bytes = d.bytes ++ bytes });
  close_file = λ fd d. disk_close fd d;
  read_path = λ path d. (ok d.bytes, d);
  write_path = λ path bytes d. (ok tt, record d { bytes = bytes });
}

abbrev empty_disk : Disk
empty_disk = record { bytes = []; opened = none; busy = false }

abbrev disk_is_open : Disk → ℕ → Bool
disk_is_open d fd = d.busy && (fd == 3)

disk_open-opens :
    (path : List ℕ) (d : Disk) (fd : ℕ)
    → (disk_open path d).0 ≡ ok fd
    → (disk_is_open d fd ≡ false)
      × ((x : ℕ) → disk_is_open (disk_open path d).1 x ≡ update (disk_is_open d) fd true x)
disk_open-opens [] d fd h = absurd (cc h)
disk_open-opens (b ∷ bs) d fd h = (ground (arith, h), λ x. ground (arith, h))

disk_open-spares :
    (path : List ℕ) (d : Disk) (e : ℕ)
    → (disk_open path d).0 ≡ err e
    → (x : ℕ) → disk_is_open (disk_open path d).1 x ≡ disk_is_open d x
disk_open-spares [] d e h x = refl
disk_open-spares (b ∷ bs) d e h x = ground (arith, h)

disk_close-closes :
    (fd : ℕ) (d : Disk) (x : ℕ)
    → disk_is_open (disk_close fd d).1 x ≡ update (disk_is_open d) fd false x
disk_close-closes fd d x = ground arith

disk-IsTracking : IsTracking disk disk_is_open
disk-IsTracking = record {
  opens = λ flags path d fd h. disk_open-opens path d fd h;
  fails = λ flags path d e h. disk_open-spares path d e h;
  preads = λ fd len offset d x. refl;
  pwrites = λ fd bytes offset d x. refl;
  writes = λ fd bytes d x. refl;
  closes = λ fd d x. disk_close-closes fd d x;
  reads_path = λ path d x. refl;
  writes_path = λ path bytes d x. refl;
}

perform-keeps_descriptors_example :
    disk_is_open (perform disk (write_at 1 (7 ∷ 8 ∷ [])) (97 ∷ []) empty_disk).1 3 ≡ false
perform-keeps_descriptors_example =
    perform-keeps_descriptors disk disk_is_open disk-IsTracking (write_at 1 (7 ∷ 8 ∷ [])) (97 ∷ [])
      empty_disk 3

disk_open-names :
    (path : List ℕ) (d : Disk) (fd : ℕ)
    → (disk_open path d).0 ≡ ok fd
    → ((disk_open path d).1.opened ≡ some path) × ((disk_open path d).1.bytes ≡ d.bytes)
disk_open-names [] d fd h = absurd (cc h)
disk_open-names (b ∷ bs) d fd h = (ground (arith, h), ground (arith, h))

length-take_le : (n : ℕ) (xs : List ℕ) → length (take n xs) ≤ n
length-take_le zero xs = omega arith
length-take_le (suc n) [] = omega arith
length-take_le (suc n) (x ∷ xs) = omega (arith, length-take_le n xs)

take_itself : (n : ℕ) (xs : List ℕ) → take n xs ≡ take (length (take n xs)) xs
take_itself zero xs = refl
take_itself (suc n) [] = refl
take_itself (suc n) (x ∷ xs) = ap (λ ys. x ∷ ys) (take_itself n xs)

disk-IsStoring : IsStoring disk (λ d path. d.bytes) (λ d fd. d.opened)
disk-IsStoring = record {
  opens = λ flags path d fd h. disk_open-names path d fd h;
  pwrites = λ fd offset n path bytes d named small pos h.
      let all : min 2 (length bytes) ≡ n = cc in (omega (arith, all), rw all refl);
  preads = λ fd len offset path got d named small h.
      let all : take len (drop offset d.bytes) ≡ got = cc in
      rw (← all) (length-take_le len (drop offset d.bytes), take_itself len (drop offset d.bytes));
  closes = λ fd path d. ground arith;
}

abbrev two_bytes : List ℕ
two_bytes = 7 ∷ 8 ∷ []

-- Of three bytes two are written, behind a hole, and two are read.
disk-writes : (blocking_pwrite disk (97 ∷ []) 1 (7 ∷ 8 ∷ 9 ∷ []) empty_disk).0 ≡ ok 2
unfolding with_file
disk-writes = refl

disk-reads :
    (blocking_pread disk
      (97 ∷ [])
      1
      2
      (blocking_pwrite disk (97 ∷ []) 1 (7 ∷ 8 ∷ 9 ∷ []) empty_disk).1).0
    ≡ ok two_bytes
unfolding with_file
disk-reads = refl

blocking_pread-blocking_pwrite_example : (2 ≤ 2) × (2 ≤ 3) × (two_bytes ≡ take 2 (7 ∷ 8 ∷ 9 ∷ []))
blocking_pread-blocking_pwrite_example =
    blocking_pread-blocking_pwrite disk (λ d path. d.bytes) (λ d fd. d.opened) disk-IsStoring
      (97 ∷ []) (7 ∷ 8 ∷ 9 ∷ []) two_bytes 1 2 empty_disk (omega arith) (omega arith) disk-writes
      disk-reads

abbrev kernel : Kernel
kernel = record { State = ℕ; epoll_ctl = λ op fd flags calls. (IoTaskRunner.ok, calls + 1) }

abbrev new_proxy : FileProxy kernel disk
new_proxy = record {
  path = 97 ∷ [];
  jobs = [];
  io = record {
    wake_fd = 3;
    tasks = [];
    delayed_tasks = [];
    watches = λ fd. none;
    generation_counter = 0;
    shutdown = false;
    token = 0;
    monitored = false;
    epoll = 0;
  };
  results = [];
  files = empty_disk;
}

-- The read is asked for before the write has been done.
abbrev overtaken : List Step
overtaken =
    asks (write_at 0 (7 ∷ 8 ∷ [])) 1
    ∷ asks (read_at 1 4) 2
    ∷ runs 10 0
    ∷ asks (append (9 ∷ [])) 3
    ∷ runs 20 0
    ∷ []

run-refines_do_all_example :
    view (run overtaken new_proxy) ≡ do_all disk (97 ∷ []) (asked overtaken) ([], empty_disk)
run-refines_do_all_example =
    run-refines_do_all overtaken new_proxy (tt, (tt, (tt, (tt, (tt, tt))))) refl

test_overtaken :
    (run overtaken new_proxy).results ≡ (1, written (ok 2)) ∷ (2, contents (ok (8 ∷ []))) ∷ []
unfolding run_job ask perform with_file post_task pick
test_overtaken = refl
