-- ===== src/Common/Lists.antt =====
-- Lists over the native numbers, with the predicates on them that the components share.
use Prim.Native.Nat.{ℕ, zero, suc, ◌+◌, ◌-◌, ◌≤◌}
use mathlib.Core.Path.{◌≡◌, refl, ap, subst}
use mathlib.Core.Logic.{◌⊎◌, inl, inr}
use mathlib.Core.Bool.{Bool, true, false}
use mathlib.Core.List.{List, [], ◌∷◌, ◌++◌}
use mathlib.Core.Option.{Option, none, some}
use native.Mathlib.Decide.{ℕ_discrete}
use mathlib.Core.Logic.{ite}
use native.Mathlib.Omega.{arith}
use rust_task_runner.Common.Tests.{if◌then◌else◌}

module _ {ℓ} {A : Type ℓ} where
  abbrev pub length : List A → ℕ
  length [] = 0
  length (x ∷ xs) = suc (length xs)

  abbrev pub All {κ} : (A → Type κ) → List A → Type κ
  All P [] = Unit
  All P (x ∷ xs) = P x × All P xs

  abbrev pub get_elem? : List A → ℕ → Option A
  get_elem? [] i = none
  get_elem? (x ∷ xs) zero = some x
  get_elem? (x ∷ xs) (suc i) = get_elem? xs i

  -- A write out of bounds changes nothing.
  abbrev pub set : List A → ℕ → A → List A
  set [] i v = []
  set (x ∷ xs) zero v = v ∷ xs
  set (x ∷ xs) (suc i) v = x ∷ set xs i v

  abbrev pub take : ℕ → List A → List A
  take zero xs = []
  take (suc n) [] = []
  take (suc n) (x ∷ xs) = x ∷ take n xs

  abbrev pub drop : ℕ → List A → List A
  drop zero xs = xs
  drop (suc n) [] = []
  drop (suc n) (x ∷ xs) = drop n xs

  -- The sum of a weight over a list.
  abbrev pub total : (A → ℕ) → List A → ℕ
  total w [] = 0
  total w (x ∷ xs) = w x + total w xs

  -- The elements that pass a Boolean test, in order.
  abbrev pub select : (A → Bool) → List A → List A
  select p [] = []
  select p (x ∷ xs) = if p x then x ∷ select p xs else select p xs

module _ {ℓ} {A : Type ℓ} where
  pub length-append : (xs ys : List A) → length (xs ++ ys) ≡ length xs + length ys
  length-append [] ys = omega arith
  length-append (x ∷ xs) ys = omega (arith, length-append xs ys)

  pub take-append-drop : (n : ℕ) (xs : List A) → take n xs ++ drop n xs ≡ xs
  take-append-drop zero xs = refl
  take-append-drop (suc n) [] = refl
  take-append-drop (suc n) (x ∷ xs) = ap (λ ys. x ∷ ys) (take-append-drop n xs)

  pub length-drop : (n : ℕ) (xs : List A) → length (drop n xs) ≡ length xs - n
  length-drop zero xs = omega arith
  length-drop (suc n) [] = omega arith
  length-drop (suc n) (x ∷ xs) = omega (arith, length-drop n xs)

  pub length-set : (xs : List A) (i : ℕ) (v : A) → length (set xs i v) ≡ length xs
  length-set [] i v = refl
  length-set (x ∷ xs) zero v = refl
  length-set (x ∷ xs) (suc i) v = omega (arith, length-set xs i v)

  pub total-append : (w : A → ℕ) (xs ys : List A) → total w (xs ++ ys) ≡ total w xs + total w ys
  total-append w [] ys = omega arith
  total-append w (x ∷ xs) ys = omega (arith, total-append w xs ys)

  pub total-set :
      (w : A → ℕ) (xs : List A) (i : ℕ) (x y : A)
      → get_elem? xs i ≡ some x
      → total w (set xs i y) + w x ≡ total w xs + w y
  total-set w [] i x y h = cc
  total-set w (z ∷ xs) zero x y h = ground arith
  total-set w (z ∷ xs) (suc i) x y h = omega (arith, total-set w xs i x y h)

  pub total-le-length : (w : A → ℕ) (xs : List A) → ((a : A) → w a ≤ 1) → total w xs ≤ length xs
  total-le-length w [] h = omega arith
  total-le-length w (x ∷ xs) h = omega (arith, h x, total-le-length w xs h)

  pub All-set {κ} :
      (P : A → Type κ) (xs : List A) (i : ℕ) (v : A) → P v → All P xs → All P (set xs i v)
  All-set P [] i v h hs = tt
  All-set P (x ∷ xs) zero v h hs = (h, hs.1)
  All-set P (x ∷ xs) (suc i) v h hs = (hs.0, All-set P xs i v h hs.1)

  pub All-append {κ} : (P : A → Type κ) (xs ys : List A) → All P xs → All P ys → All P (xs ++ ys)
  All-append P [] ys hx hy = hy
  All-append P (x ∷ xs) ys hx hy = (hx.0, All-append P xs ys hx.1 hy)

  pub All-map {κ μ} :
      (P : A → Type κ) (Q : A → Type μ) (xs : List A) → ((a : A) → P a → Q a) → All P xs → All Q xs
  All-map P Q [] f h = tt
  All-map P Q (x ∷ xs) f h = (f x h.0, All-map P Q xs f h.1)

  pub select-append :
      (p : A → Bool) (xs ys : List A) → select p (xs ++ ys) ≡ select p xs ++ select p ys
  select-append p [] ys = refl
  select-append p (x ∷ xs) ys = ground (arith, select-append p xs ys)

  pub select_full : (p : A → Bool) (xs : List A) → All (λ x. p x ≡ true) xs → select p xs ≡ xs
  select_full p [] h = refl
  select_full p (x ∷ xs) h = rw (h.0, select_full p xs h.1)

  pub select-none : (p : A → Bool) (xs : List A) → All (λ x. p x ≡ false) xs → select p xs ≡ []
  select-none p [] h = refl
  select-none p (x ∷ xs) h = rw (h.0, select-none p xs h.1)

  pub All-select {κ} :
      (P : A → Type κ) (p : A → Bool) (xs : List A) → All P xs → All P (select p xs)
  All-select P p [] h = tt
  All-select P p (x ∷ xs) h = ground (arith, All-select P p xs h.1)

module _ {A : Type 0} where
  -- Membership as data: where the element stands.
  abbrev pub In : A → List A → Type 0
  In a [] = ⊥
  In a (x ∷ xs) = (a ≡ x) ⊎ In a xs

  pub All-In {κ} : (P : A → Type κ) (a : A) (xs : List A) → All P xs → In a xs → P a
  All-In P a [] h m = absurd m
  All-In P a (x ∷ xs) h (inl e) = rw e h.0
  All-In P a (x ∷ xs) h (inr m) = All-In P a xs h.1 m

  pub In-append_left : (a : A) (xs ys : List A) → In a xs → In a (xs ++ ys)
  In-append_left a [] ys m = absurd m
  In-append_left a (x ∷ xs) ys (inl e) = inl e
  In-append_left a (x ∷ xs) ys (inr m) = inr (In-append_left a xs ys m)

  pub In-append_right : (a : A) (xs ys : List A) → In a ys → In a (xs ++ ys)
  In-append_right a [] ys m = m
  In-append_right a (x ∷ xs) ys m = inr (In-append_right a xs ys m)

-- Take out the `k`-th element of a list.
unfoldable pub pick {ℓ} : {A : Type ℓ} → ℕ → List A → Option (A × List A)
pick k [] = none
pick zero (x ∷ xs) = some (x, xs)
pick (suc k) (x ∷ xs) = elim (pick k xs) [ none ↦ none | some (a, ys) ↦ some (a, x ∷ ys) ]

pick-suc :
    {A : Type 0} (k : ℕ) (x : A) (xs : List A) {a : A} {zs : List A}
    → pick (suc k) (x ∷ xs) ≡ some (a, zs)
    → (ys : List A) × (pick k xs ≡ some (a, ys)) × (zs ≡ x ∷ ys)
unfolding pick
pick-suc k x xs h = ground arith

-- What is not taken out stays.
pub pick-In :
    {A : Type 0} (k : ℕ) (xs : List A) {a : A} {ys : List A}
    → pick k xs ≡ some (a, ys)
    → (x : A) → In x xs
    → (x ≡ a) ⊎ In x ys
unfolding pick
pick-In k [] h x m = absurd m
pick-In zero (y ∷ xs) h x (inl e) = inl (ground arith)
pick-In zero (y ∷ xs) h x (inr m) = inr (subst (In x) (ground arith) m)
pick-In (suc k) (y ∷ xs) h x m =
    let (ys, e, f) = pick-suc k y xs h in
    elim m [
      | inl here ↦ inr (rw f (inl here))
      | inr there ↦ elim (pick-In k xs e x there) [
        | inl same ↦ inl same
        | inr rest ↦ inr (rw f (inr rest))
      ]
    ]

pub All-pick {κ} :
    {A : Type 0} (P : A → Type κ) (k : ℕ) (xs : List A) {a : A} {ys : List A}
    → pick k xs ≡ some (a, ys)
    → All P xs
    → P a × All P ys
unfolding pick
All-pick P k [] h hs = cc
All-pick P zero (y ∷ xs) {a} {ys} h hs =
    let first : y ≡ a = cc in let rest : xs ≡ ys = cc in rw (← first, ← rest) hs
All-pick P (suc k) (y ∷ xs) h hs =
    let (zs, e, f) = pick-suc k y xs h in
    let (pa, ps) = All-pick P k xs e hs.1 in (pa, rw f (hs.0, ps))

pub total-pick :
    {A : Type 0} (w : A → ℕ) (k : ℕ) (xs : List A) {a : A} {ys : List A}
    → pick k xs ≡ some (a, ys)
    → total w xs ≡ w a + total w ys
unfolding pick
total-pick w k [] h = cc
total-pick w zero (y ∷ xs) {a} {ys} h =
    let first : y ≡ a = cc in let rest : xs ≡ ys = cc in rw (first, rest)
total-pick w (suc k) (y ∷ xs) h =
    let (zs, e, f) = pick-suc k y xs h in rw f (omega (arith, total-pick w k xs e))

-- A family of values indexed by number, changed at one index.
abbrev pub update {ℓ} : {A : Type ℓ} → (ℕ → A) → ℕ → A → ℕ → A
update f i a j = ite (ℕ_discrete i j) a (f j)
