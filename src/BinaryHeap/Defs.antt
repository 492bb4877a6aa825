-- ===== src/BinaryHeap/Defs.antt =====
-- The operations of a binary heap, over the order that its elements implement (`Ord`).
use rust_task_runner.Common.{
  ◌≡◌, Bool, true, false, Ordering, Option, none, some, List, [], ◌∷◌, if◌then◌else◌,
}

abbrev pub is_gt : Ordering → Bool
is_gt Ordering.gt = true
is_gt _ = false

-- An implementation of `Ord`: a comparison whose "greater" is a strict weak order.
pub record Ord {ℓ} (A : Type ℓ) : Type ℓ where
  pub cmp : A → A → Ordering
  pub asym : (x y : A) → is_gt (cmp x y) ≡ true → is_gt (cmp y x) ≡ false
  pub trans :
      (x y z : A) → is_gt (cmp x y) ≡ false → is_gt (cmp y z) ≡ false → is_gt (cmp x z) ≡ false

-- `std::cmp::Reverse`.
abbrev pub reverse_cmp {ℓ} : {A : Type ℓ} → (A → A → Ordering) → A → A → Ordering
reverse_cmp cmp x y = cmp y x

module _ {ℓ} {A : Type ℓ} (o : Ord A) where
  unfoldable pub push : A → List A → List A
  push x [] = x ∷ []
  push x (y ∷ ys) = if is_gt (o.cmp x y) then x ∷ y ∷ ys else y ∷ push x ys

abbrev pub peek {ℓ} : {A : Type ℓ} → List A → Option A
peek [] = none
peek (x ∷ xs) = some x

abbrev pub pop {ℓ} : {A : Type ℓ} → List A → Option (A × List A)
pop [] = none
pop (x ∷ xs) = some (x, xs)

abbrev pub is_empty {ℓ} : {A : Type ℓ} → List A → Bool
is_empty [] = true
is_empty (x ∷ xs) = false
