-- ===== src/BinaryHeap/Laws.antt =====
-- The order and the contents of a heap (rust_task's and rust_io's queues stand on it).
use mathlib.Core.List.Perm
use rust_task_runner.Common.{
  ◌≡◌, refl, false, List, [], ◌∷◌, ◌⊎◌, inl, inr, All, All-map, In, Perm, Bool-cases, arith,
}
use rust_task_runner.BinaryHeap.Defs.{Ord, is_gt, push}

module _ {ℓ} {A : Type ℓ} (o : Ord A) where
  -- No later element is greater than an earlier one.
  abbrev pub IsSorted : List A → Type ℓ
  IsSorted [] = Unit
  IsSorted (x ∷ xs) = All (λ y. is_gt (o.cmp y x) ≡ false) xs × IsSorted xs

  pub push-All {κ} : (P : A → Type κ) (x : A) (xs : List A) → P x → All P xs → All P (push o x xs)
  unfolding push
  push-All P x [] h hs = (h, tt)
  push-All P x (y ∷ ys) h hs = ground (arith, push-All P x ys h hs.1)

  pub push-IsSorted : (x : A) (xs : List A) → IsSorted xs → IsSorted (push o x xs)
  unfolding push
  push-IsSorted x [] s = (tt, tt)
  push-IsSorted x (y ∷ ys) s = elim (Bool-cases (is_gt (o.cmp x y))) [
    | inl up ↦
        rw up ((o.asym x y up, All-map _ _ ys (λ z h. o.trans z y x h (o.asym x y up)) s.0), s)
    | inr down ↦ rw down (push-All _ x ys down s.0, push-IsSorted x ys s.1)
  ]

  pub push-perm : (x : A) (xs : List A) → Perm (push o x xs) (x ∷ xs)
  unfolding push
  push-perm x [] = Perm.refl (x ∷ [])
  push-perm x (y ∷ ys) = elim (Bool-cases (is_gt (o.cmp x y))) [
    | inl up ↦ rw up (Perm.refl (x ∷ y ∷ ys))
    | inr down ↦ rw down (Perm.trans (Perm.cons y (push-perm x ys)) (Perm.swap x y ys))
  ]

-- A later element is the pushed one or was there, if that holds of the tail.
skip_case :
    {A : Type 0} {a x y : A} (xs ys : List A)
    → (In a xs → (a ≡ x) ⊎ In a ys)
    → (a ≡ y) ⊎ In a xs
    → (a ≡ x) ⊎ In a (y ∷ ys)
skip_case xs ys f (inl e) = inr (inl e)
skip_case xs ys f (inr k) = elim (f k) [ inl e ↦ inl e | inr j ↦ inr (inr j) ]

module _ {A : Type 0} (o : Ord A) where
  -- What is pushed is in the heap, and nothing is pushed out.
  pub In-push : (x : A) (xs : List A) → In x (push o x xs)
  unfolding push
  In-push x [] = inl refl
  In-push x (y ∷ ys) = ground (arith, In-push x ys)

  pub In-push_keep : (a x : A) (xs : List A) → In a xs → In a (push o x xs)
  unfolding push
  In-push_keep a x [] m = absurd m
  In-push_keep a x (y ∷ ys) (inl e) = ground arith
  In-push_keep a x (y ∷ ys) (inr m) = ground (arith, In-push_keep a x ys m)

  pub In-push_cases : (a x : A) (xs : List A) → In a (push o x xs) → (a ≡ x) ⊎ In a xs
  unfolding push
  In-push_cases a x [] (inl e) = inl e
  In-push_cases a x [] (inr m) = absurd m
  In-push_cases a x (y ∷ ys) m = elim (Bool-cases (is_gt (o.cmp x y))) [
    | inl up ↦ rw up at m
    | inr down ↦ skip_case _ ys (In-push_cases a x ys) (rw down at m)
  ]
