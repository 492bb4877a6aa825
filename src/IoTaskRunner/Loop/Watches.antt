-- ===== src/IoTaskRunner/Loop/Watches.antt =====
-- The numbers of registrations in rust_io/io_task_runner.rs: which watches may still fire.
use rust_task_runner.Common.{
  ℕ, ◌+◌, ◌≤◌, ◌<◌, ◌≡◌, ◌≢◌, sym, ◌∙◌, ap, ◌⊎◌, true, false, not, ◌&&◌, List, [], ◌∷◌, ◌++◌,
  Option, none, some, if◌then◌else◌, ◌==◌, update, total, total-append, ℕ_discrete, arith, inl, inr,
}
use rust_task_runner.IoTaskRunner.{WatchEntry}
use rust_task_runner.IoTaskRunner.Loop.{Firing}

-- 1 for a firing of the registration `g`, if its watch is not persistent.
abbrev pub shot : ℕ → Firing → ℕ
shot g f = if not f.entry.persistent && f.entry.generation == g then 1 else 0

-- The table of watches, the counter of registrations and what has fired agree: the entries have
-- numbers of their own that the counter has given out, and a watch that is not persistent has
-- fired at most once, and not at all while it is in the table.
pub record IsOnce (watches : ℕ → Option WatchEntry) (n : ℕ) (fired : List Firing) : Type 0 where
  pub small : (fd : ℕ) (e : WatchEntry) → watches fd ≡ some e → e.generation < n
  pub unique :
      (fd fd' : ℕ) (e e' : WatchEntry)
      → watches fd ≡ some e
      → watches fd' ≡ some e'
      → e.generation ≡ e'.generation
      → fd ≡ fd'
  pub unfired :
      (fd : ℕ) (e : WatchEntry)
      → watches fd ≡ some e
      → e.persistent ≡ false
      → total (shot e.generation) fired ≡ 0
  pub past : (g : ℕ) → n ≤ g → total (shot g) fired ≡ 0
  pub once : (g : ℕ) → total (shot g) fired ≤ 1

-- What a table says after a descriptor is taken off it was said before.
removed :
    (watches : ℕ → Option WatchEntry) (x fd : ℕ) (e : WatchEntry)
    → update watches x none fd ≡ some e
    → watches fd ≡ some e
removed watches x fd e h = ground arith

-- What a table says after a write is the new entry, or was said before.
inserted :
    (watches : ℕ → Option WatchEntry) (x : ℕ) (new_entry : WatchEntry) (fd : ℕ) (e : WatchEntry)
    → update watches x (some new_entry) fd ≡ some e
    → (x ≡ fd) × (new_entry ≡ e) ⊎ (watches fd ≡ some e)
inserted watches x new_entry fd e h = elim (ℕ_discrete x fd) [
  | yes same ↦ inl (same, ground arith)
  | no apart ↦ inr (ground arith)
]

pub remove-IsOnce :
    (watches : ℕ → Option WatchEntry) (n : ℕ) (fired : List Firing) (x : ℕ)
    → IsOnce watches n fired
    → IsOnce (update watches x none) n fired
remove-IsOnce watches n fired x o = record {
  small = λ fd e h. o.small fd e (removed watches x fd e h);
  unique = λ fd fd' e e' h k s.
      o.unique fd fd' e e' (removed watches x fd e h) (removed watches x fd' e' k) s;
  unfired = λ fd e h p. o.unfired fd e (removed watches x fd e h) p;
  past = o.past;
  once = o.once;
}

pub bump-IsOnce :
    (watches : ℕ → Option WatchEntry) (n : ℕ) (fired : List Firing)
    → IsOnce watches n fired
    → IsOnce watches (n + 1) fired
bump-IsOnce watches n fired o = record {
  small = λ fd e h. omega (arith, o.small fd e h);
  unique = o.unique;
  unfired = o.unfired;
  past = λ g h. o.past g (omega arith);
  once = o.once;
}

pub insert-IsOnce :
    (watches : ℕ → Option WatchEntry) (n : ℕ) (fired : List Firing) (x : ℕ) (e : WatchEntry)
    → e.generation ≡ n
    → IsOnce watches n fired
    → IsOnce (update watches x (some e)) (n + 1) fired
insert-IsOnce watches n fired x e g o = record {
  small = λ fd a h. elim (inserted watches x e fd a h) [
    | inl fresh ↦ omega (arith, ap (λ (y : WatchEntry). y.generation) fresh.1)
    | inr old ↦ omega (arith, o.small fd a old)
  ];
  unique = λ fd fd' a b h k s. elim (inserted watches x e fd a h) [
    | inl fresh ↦ elim (inserted watches x e fd' b k) [
      | inl fresh' ↦ sym fresh.0 ∙ fresh'.0
      | inr old' ↦ omega (arith, o.small fd' b old', ap (λ (y : WatchEntry). y.generation) fresh.1)
    ]
    | inr old ↦ elim (inserted watches x e fd' b k) [
      | inl fresh' ↦ omega (arith, o.small fd a old, ap (λ (y : WatchEntry). y.generation) fresh'.1)
      | inr old' ↦ o.unique fd fd' a b old old' s
    ]
  ];
  unfired = λ fd a h p. elim (inserted watches x e fd a h) [
    | inl fresh ↦ o.past a.generation (omega (arith, ap (λ (y : WatchEntry). y.generation) fresh.1))
    | inr old ↦ o.unfired fd a old p
  ];
  past = λ i h. o.past i (omega arith);
  once = o.once;
}

-- The firings of a registration after one more.
total-fire :
    (g : ℕ) (fired : List Firing) (f : Firing)
    → total (shot g) (fired ++ f ∷ []) ≡ total (shot g) fired + shot g f
total-fire g fired f = rw (total-append (shot g) fired (f ∷ [])) (omega arith)

shot_persistent : (g : ℕ) (f : Firing) → f.entry.persistent ≡ true → shot g f ≡ 0
shot_persistent g f h = ground arith

shot_other : (g : ℕ) (f : Firing) → g ≢ f.entry.generation → shot g f ≡ 0
shot_other g f h = ground arith

shot-le : (g : ℕ) (f : Firing) → shot g f ≤ 1
shot-le g f = ground arith

pub fire_again-IsOnce :
    (watches : ℕ → Option WatchEntry) (n : ℕ) (fired : List Firing) (f : Firing)
    → f.entry.persistent ≡ true
    → IsOnce watches n fired
    → IsOnce watches n (fired ++ f ∷ [])
fire_again-IsOnce watches n fired f keeps o = record {
  small = o.small;
  unique = o.unique;
  unfired = λ fd e h p. no_more e.generation ∙ o.unfired fd e h p;
  past = λ g h. no_more g ∙ o.past g h;
  once = λ g. omega (arith, no_more g, o.once g);
}
  where
    no_more : (g : ℕ) → total (shot g) (fired ++ f ∷ []) ≡ total (shot g) fired
    no_more g = rw (total-fire g fired f, shot_persistent g f keeps) (omega arith)

pub fire_last-IsOnce :
    (watches : ℕ → Option WatchEntry) (n : ℕ) (fired : List Firing) (x : ℕ) (f : Firing)
    → watches x ≡ some f.entry
    → f.entry.persistent ≡ false
    → IsOnce watches n fired
    → IsOnce (update watches x none) n (fired ++ f ∷ [])
fire_last-IsOnce watches n fired x f at_x goes o = record {
  small = λ fd e h. o.small fd e (removed watches x fd e h);
  unique = λ fd fd' e e' h k s.
      o.unique fd fd' e e' (removed watches x fd e h) (removed watches x fd' e' k) s;
  unfired = λ fd e h p.
      let old = removed watches x fd e h in
      omega (
        arith,
        total-fire e.generation fired f,
        o.unfired fd e old p,
        shot_other e.generation f (λ s. gone fd e h (o.unique x fd f.entry e at_x old (sym s))),
      );
  past = λ g h. omega (
    arith,
    total-fire g fired f,
    o.past g h,
    shot_other g f (λ s. omega (arith, o.small x f.entry at_x)),
  );
  once = λ g. elim (ℕ_discrete g f.entry.generation) [
    | yes same ↦ omega (
      arith,
      total-fire g fired f,
      shot-le g f,
      o.unfired x f.entry at_x goes,
      ap (λ i. total (shot i) fired) same,
    )
    | no other ↦ omega (arith, total-fire g fired f, o.once g, shot_other g f other)
  ];
}
  where
    gone : (fd : ℕ) (e : WatchEntry) → update watches x none fd ≡ some e → x ≢ fd
    gone fd e h same = ground arith
