-- ===== src/FileProxy/RoundTrip.antt =====
-- What `read` gives of what `write` wrote, in rust_io/file_proxy.rs.
use rust_task_runner.Common.{
  ℕ, ◌≤◌, ◌<◌, ◌^◌, ◌%◌, ◌≡◌, refl, sym, ◌∙◌, ap, List, Option, some, length, take, drop, true,
  false, Bool-cases, inl, inr, arith,
}
use rust_task_runner.SocketPosix.{IoResult, ok, err}
use rust_task_runner.FileProxy.{
  FileSystem, OpenFlags, with_file, opened_file, contains_nul, invalid_input, blocking_pread,
  blocking_pwrite, rdonly, wronly_creat, after_close,
}
use rust_task_runner.FileProxy.Bytes.{splice, take-drop-splice}

-- The bytes of a file by its path, and the file of a descriptor, as the system calls are documented:
-- `pwrite` may write less than it is given, `pread` may give less than is there.
pub record IsStoring (fs : FileSystem) (bytes_at : fs.State → List ℕ → List ℕ)
    (path_of : fs.State → ℕ → Option (List ℕ)) : Type 0 where
  pub opens :
      (flags : OpenFlags) (path : List ℕ) (s : fs.State) (fd : ℕ)
      → (fs.open_file flags path s).0 ≡ ok fd
      → let s' = (fs.open_file flags path s).1 in
        (path_of s' fd ≡ some path) × (bytes_at s' path ≡ bytes_at s path)
  pub pwrites :
      (fd offset n : ℕ) (path bytes : List ℕ) (s : fs.State)
      → path_of s fd ≡ some path
      → offset < 2 ^ 63
      → 0 < n
      → (fs.pwrite fd bytes offset s).0 ≡ ok n
      → (n ≤ length bytes)
        × (bytes_at (fs.pwrite fd bytes offset s).1 path
            ≡ splice offset (take n bytes) (bytes_at s path))
  pub preads :
      (fd len offset : ℕ) (path got : List ℕ) (s : fs.State)
      → path_of s fd ≡ some path
      → offset < 2 ^ 63
      → (fs.pread fd len offset s).0 ≡ ok got
      → (length got ≤ len) × (got ≡ take (length got) (drop offset (bytes_at s path)))
  pub closes :
      (fd : ℕ) (path : List ℕ) (s : fs.State)
      → bytes_at (fs.close_file fd s).1 path ≡ bytes_at s path

-- A helper that succeeds has got a descriptor and its call has succeeded.
abbrev Succeeded :
    (fs : FileSystem) {A : Type 0}
    → OpenFlags
    → List ℕ
    → (ℕ → fs.State → IoResult A × fs.State)
    → fs.State
    → A
    → Type 0
Succeeded fs flags path call s a =
    let (opened, s1) = fs.open_file flags path s in
    (fd : ℕ) × (opened ≡ ok fd)
    × ((call fd s1).0 ≡ ok a)
    × ((with_file fs flags path call s).1 ≡ (fs.close_file fd (call fd s1).1).1)

after_close-ok :
    {A : Type 0} (r : IoResult A) (c : IoResult Unit) (a : A) → after_close r c ≡ ok a → r ≡ ok a
after_close-ok (ok x) c a h = h
after_close-ok (err e) c a h = absurd (cc h)

module _ (fs : FileSystem) {A : Type 0} (flags : OpenFlags) (path : List ℕ)
    (call : ℕ → fs.State → IoResult A × fs.State) (s : fs.State) where
  with_file-eq-opened_file :
      contains_nul path ≡ false
      → let (opened, s1) = fs.open_file flags path s in
        with_file fs flags path call s ≡ opened_file fs call opened s1
  unfolding with_file
  with_file-eq-opened_file h = rw h refl

  with_file-refused :
      contains_nul path ≡ true → (with_file fs flags path call s).0 ≡ err invalid_input
  unfolding with_file
  with_file-refused h = rw h refl

  opened_file-Succeeded :
      (r : IoResult ℕ) (a : A)
      → (fs.open_file flags path s).0 ≡ r
      → let s1 = (fs.open_file flags path s).1 in
        with_file fs flags path call s ≡ opened_file fs call r s1
        → (opened_file fs call r s1).0 ≡ ok a
        → Succeeded fs flags path call s a
  opened_file-Succeeded (err e) a x same h = absurd (cc h)
  opened_file-Succeeded (ok fd) a x same h =
      (fd, x, after_close-ok _ _ a h, ap (λ (p : IoResult A × fs.State). p.1) same)

  with_file-Succeeded :
      (a : A) → (with_file fs flags path call s).0 ≡ ok a → Succeeded fs flags path call s a
  with_file-Succeeded a h = elim (Bool-cases (contains_nul path)) [
    | inl x ↦ absurd (cc (with_file-refused x, h))
    | inr x ↦
        let same = with_file-eq-opened_file x in
        opened_file-Succeeded _ a refl same (sym (ap (λ (p : IoResult A × fs.State). p.0) same) ∙ h)
  ]

-- The laws, at the two helpers.
module _ (fs : FileSystem) (bytes_at : fs.State → List ℕ → List ℕ)
    (path_of : fs.State → ℕ → Option (List ℕ)) (laws : IsStoring fs bytes_at path_of)
    (path : List ℕ) (offset : ℕ) (small : offset < 2 ^ 63) where
  off_t : offset % 2 ^ 64 ≡ offset
  off_t = omega arith

  blocking_pwrite-bytes_at :
      (bytes : List ℕ) (n : ℕ) (s : fs.State)
      → 0 < n
      → (blocking_pwrite fs path offset bytes s).0 ≡ ok n
      → (n ≤ length bytes)
        × (bytes_at (blocking_pwrite fs path offset bytes s).1 path
            ≡ splice offset (take n bytes) (bytes_at s path))
  blocking_pwrite-bytes_at bytes n s pos h =
      let (fd, opened, called, closed) = with_file-Succeeded fs wronly_creat path _ s n h in
      let (named, same) = laws.opens wronly_creat path s fd opened in
      let (le, stored) =
        laws.pwrites fd (offset % 2 ^ 64) n path bytes _ named (omega arith) pos called in
      (
        le,
        ap (λ x. bytes_at x path) closed ∙ laws.closes fd path _ ∙ stored ∙ rw (off_t, same) refl,
      )

  blocking_pread-bytes_at :
      (got : List ℕ) (len : ℕ) (s : fs.State)
      → (blocking_pread fs path offset len s).0 ≡ ok got
      → (length got ≤ len) × (got ≡ take (length got) (drop offset (bytes_at s path)))
  blocking_pread-bytes_at got len s h =
      let (fd, opened, called, _) = with_file-Succeeded fs rdonly path _ s got h in
      let (named, same) = laws.opens rdonly path s fd opened in
      let (le, found) =
        laws.preads fd len (offset % 2 ^ 64) path got _ named (omega arith) called in
      (le, found ∙ rw (off_t, same) refl)

-- `write` and then `read` at the same offset: when both succeed, and `write` has written `n` bytes,
-- the read of `n` bytes gives the first `n` bytes that were to be written, or the first of them
-- where the read is short. The offset is below 2^63, and `n` is not 0.
pub blocking_pread-blocking_pwrite :
    (fs : FileSystem) (bytes_at : fs.State → List ℕ → List ℕ)
    (path_of : fs.State → ℕ → Option (List ℕ))
    → IsStoring fs bytes_at path_of
    → (path bytes got : List ℕ) (offset n : ℕ) (s : fs.State) → offset < 2 ^ 63
    → 0 < n
    → (blocking_pwrite fs path offset bytes s).0 ≡ ok n
    → (blocking_pread fs path offset n (blocking_pwrite fs path offset bytes s).1).0 ≡ ok got
    → (length got ≤ n) × (n ≤ length bytes) × (got ≡ take (length got) bytes)
blocking_pread-blocking_pwrite fs bytes_at path_of laws path bytes got offset n s small pos h h' =
    let (le, stored) =
      blocking_pwrite-bytes_at fs bytes_at path_of laws path offset small bytes n s pos h in
    let (short, found) =
      blocking_pread-bytes_at fs bytes_at path_of laws path offset small got n _ h' in
    (
      short,
      le,
      found
          ∙ ap (λ c. take (length got) (drop offset c)) stored
          ∙ take-drop-splice (length got) n offset bytes (bytes_at s path) short le,
    )
