-- ===== src/FileProxy/Descriptors.antt =====
-- The descriptors that the helpers of rust_io/file_proxy.rs open, and the errors that they return.
use rust_task_runner.Common.{
  ℕ, ◌^◌, ◌%◌, ◌≡◌, refl, ◌∙◌, Bool, true, false, List, update, arith, Bool-cases, inl, inr,
}
use rust_task_runner.SocketPosix.{IoResult, ok, err, IoResult-cases}
use rust_task_runner.FileProxy.{
  FileSystem, OpenFlags, rdonly, wronly_creat, wronly_creat_append, Op, read_at, read_all, write_at,
  write_all, append, with_file, opened_file, perform, contains_nul,
}

-- Which descriptors are open, as the system calls are documented: an `open` that succeeds returns
-- one that was not open, and opens it; `close` closes the one it is given, also when it reports an
-- error, and leaves all as they are when that is not open; no other call opens or closes any.
pub record IsTracking (fs : FileSystem) (is_open : fs.State → ℕ → Bool) : Type 0 where
  pub opens :
      (flags : OpenFlags) (path : List ℕ) (s : fs.State) (fd : ℕ)
      → (fs.open_file flags path s).0 ≡ ok fd
      → (is_open s fd ≡ false)
        × ((d : ℕ) → is_open (fs.open_file flags path s).1 d ≡ update (is_open s) fd true d)
  pub fails :
      (flags : OpenFlags) (path : List ℕ) (s : fs.State) (e : ℕ)
      → (fs.open_file flags path s).0 ≡ err e
      → (d : ℕ) → is_open (fs.open_file flags path s).1 d ≡ is_open s d
  pub preads :
      (fd len offset : ℕ) (s : fs.State) (d : ℕ)
      → is_open (fs.pread fd len offset s).1 d ≡ is_open s d
  pub pwrites :
      (fd : ℕ) (bytes : List ℕ) (offset : ℕ) (s : fs.State) (d : ℕ)
      → is_open (fs.pwrite fd bytes offset s).1 d ≡ is_open s d
  pub writes :
      (fd : ℕ) (bytes : List ℕ) (s : fs.State) (d : ℕ)
      → is_open (fs.write fd bytes s).1 d ≡ is_open s d
  pub closes :
      (fd : ℕ) (s : fs.State) (d : ℕ)
      → is_open (fs.close_file fd s).1 d ≡ update (is_open s) fd false d
  pub reads_path :
      (path : List ℕ) (s : fs.State) (d : ℕ) → is_open (fs.read_path path s).1 d ≡ is_open s d
  pub writes_path :
      (path bytes : List ℕ) (s : fs.State) (d : ℕ)
      → is_open (fs.write_path path bytes s).1 d ≡ is_open s d

module _ (fs : FileSystem) (is_open : fs.State → ℕ → Bool) (laws : IsTracking fs is_open)
    (d : ℕ) where
  opened_file-keeps :
      {A : Type 0} (flags : OpenFlags) (path : List ℕ) (call : ℕ → fs.State → IoResult A × fs.State)
      (s : fs.State)
      → ((fd : ℕ) (x : fs.State) → is_open (call fd x).1 d ≡ is_open x d)
      → let (opened, s') = fs.open_file flags path s in
        is_open (opened_file fs call opened s').1 d ≡ is_open s d
  opened_file-keeps flags path call s h = elim (IoResult-cases (fs.open_file flags path s).0) [
    | inl (fd, x) ↦ rw x (closed fd x)
    | inr (e, x) ↦ rw x (laws.fails flags path s e x d)
  ]
    where
      s1 : fs.State
      s1 = (fs.open_file flags path s).1

      closed :
          (fd : ℕ)
          → (fs.open_file flags path s).0 ≡ ok fd
          → is_open (fs.close_file fd (call fd s1).1).1 d ≡ is_open s d
      closed fd x =
          let (was_closed, now_open) = laws.opens flags path s fd x in
          laws.closes fd (call fd s1).1 d ∙ ground (arith, h fd s1, now_open d, was_closed)

  with_file-keeps :
      {A : Type 0} (flags : OpenFlags) (path : List ℕ) (call : ℕ → fs.State → IoResult A × fs.State)
      (s : fs.State)
      → ((fd : ℕ) (x : fs.State) → is_open (call fd x).1 d ≡ is_open x d)
      → is_open (with_file fs flags path call s).1 d ≡ is_open s d
  unfolding with_file
  with_file-keeps flags path call s h = elim (Bool-cases (contains_nul path)) [
    | inl x ↦ rw x refl
    | inr x ↦ rw x (opened_file-keeps flags path call s h)
  ]

-- Also when the path is refused, or `open`, the call on the descriptor or `close` fails, an
-- operation leaves the descriptors open that were open before it, and no others.
pub perform-keeps_descriptors :
    (fs : FileSystem) (is_open : fs.State → ℕ → Bool)
    → IsTracking fs is_open
    → (op : Op) (path : List ℕ) (s : fs.State) (d : ℕ)
    → is_open (perform fs op path s).1 d ≡ is_open s d
unfolding perform
perform-keeps_descriptors fs is_open laws (read_at offset len) path s d =
    with_file-keeps fs is_open laws d rdonly path _ s
      (λ fd x. laws.preads fd len (offset % 2 ^ 64) x d)
perform-keeps_descriptors fs is_open laws read_all path s d = laws.reads_path path s d
perform-keeps_descriptors fs is_open laws (write_at offset bytes) path s d =
    with_file-keeps fs is_open laws d wronly_creat path _ s
      (λ fd x. laws.pwrites fd bytes (offset % 2 ^ 64) x d)
perform-keeps_descriptors fs is_open laws (write_all bytes) path s d =
    laws.writes_path path bytes s d
perform-keeps_descriptors fs is_open laws (append bytes) path s d =
    with_file-keeps fs is_open laws d wronly_creat_append path _ s
      (λ fd x. laws.writes fd bytes x d)
