-- ===== src/Common/Places.antt =====
-- An entry of a list after a change of another entry, and after an addition.
use Prim.Native.Nat.{ℕ, zero, suc, ◌<◌}
use mathlib.Core.Path.{◌≡◌, refl, ap, subst}
use mathlib.Core.Logic.{◌≢◌, ◌⊎◌, inl, inr}
use mathlib.Core.Option.{some}
use mathlib.Core.List.{List, [], ◌∷◌, ◌++◌}
use native.Mathlib.Decide.{ℕ_discrete}
use native.Mathlib.Omega.{arith}
use rust_task_runner.Common.Lists.{get_elem?, set, length, update, All}

module _ {ℓ} {A : Type ℓ} where
  pub get_elem?-set_self :
      (xs : List A) (i : ℕ) (v w : A) → get_elem? xs i ≡ some v → get_elem? (set xs i w) i ≡ some w
  get_elem?-set_self [] i v w e = absurd (cc e)
  get_elem?-set_self (x ∷ xs) zero v w e = refl
  get_elem?-set_self (x ∷ xs) (suc i) v w e = get_elem?-set_self xs i v w e

  pub get_elem?-set_other :
      (xs : List A) (i j : ℕ) (w : A) → j ≢ i → get_elem? (set xs i w) j ≡ get_elem? xs j
  get_elem?-set_other [] i j w o = refl
  get_elem?-set_other (x ∷ xs) zero zero w o = absurd (o refl)
  get_elem?-set_other (x ∷ xs) zero (suc j) w o = refl
  get_elem?-set_other (x ∷ xs) (suc i) zero w o = refl
  get_elem?-set_other (x ∷ xs) (suc i) (suc j) w o =
      get_elem?-set_other xs i j w (λ e. o (omega (arith, e)))

  pub get_elem?-append :
      (xs ys : List A) (i : ℕ) → i < length xs → get_elem? (xs ++ ys) i ≡ get_elem? xs i
  get_elem?-append [] ys i h = absurd (omega (arith, h))
  get_elem?-append (x ∷ xs) ys zero h = refl
  get_elem?-append (x ∷ xs) ys (suc i) h = get_elem?-append xs ys i (omega (arith, h))

  pub get_elem?-last : (xs : List A) (v : A) → get_elem? (xs ++ v ∷ []) (length xs) ≡ some v
  get_elem?-last [] v = refl
  get_elem?-last (x ∷ xs) v = get_elem?-last xs v

  pub update_cases :
      (f : ℕ → A) (i : ℕ) (v : A) (j : ℕ) (w : A)
      → update f i v j ≡ w
      → (i ≡ j) × (v ≡ w) ⊎ (i ≢ j) × (f j ≡ w)
  update_cases f i v j w e = elim (ℕ_discrete i j) [
    | yes same ↦ inl (same, ground arith)
    | no other ↦ inr (other, ground arith)
  ]

  pub update_other : (f : ℕ → A) (i : ℕ) (v : A) (j : ℕ) → i ≢ j → update f i v j ≡ f j
  update_other f i v j o = ground arith

  pub All-get {κ} :
      (P : A → Type κ) (xs : List A) (i : ℕ) (x : A) → All P xs → get_elem? xs i ≡ some x → P x
  All-get P [] i x h e = absurd (cc e)
  All-get P (y ∷ xs) zero x h e = subst P (cc e) h.0
  All-get P (y ∷ xs) (suc i) x h e = All-get P xs i x h.1 e

  pub get_elem?-append_cases :
      (xs : List A) (y : A) (i : ℕ) (x : A)
      → get_elem? (xs ++ y ∷ []) i ≡ some x
      → (get_elem? xs i ≡ some x) ⊎ (i ≡ length xs) × (x ≡ y)
  get_elem?-append_cases [] y zero x e = inr (refl, cc e)
  get_elem?-append_cases [] y (suc i) x e = absurd (cc e)
  get_elem?-append_cases (z ∷ xs) y zero x e = inl e
  get_elem?-append_cases (z ∷ xs) y (suc i) x e = elim (get_elem?-append_cases xs y i x e) [
    | inl old ↦ inl old
    | inr (last, same) ↦ inr (ap suc last, same)
  ]
