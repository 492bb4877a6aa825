-- ===== src/FileProxy/Bytes.antt =====
-- Files as lists of bytes, for what rust_io/file_proxy.rs writes and reads.
use rust_task_runner.Common.{
  ℕ, zero, suc, ◌≤◌, ◌≡◌, refl, ◌∙◌, ap, List, [], ◌∷◌, length, take, drop, arith,
}

-- Bytes over the beginning of others.
abbrev pub overlay : List ℕ → List ℕ → List ℕ
overlay [] c = c
overlay (x ∷ d) [] = x ∷ overlay d []
overlay (x ∷ d) (_ ∷ c) = x ∷ overlay d c

-- The bytes `d` at an offset of the file `c`, which is filled up with zeros.
abbrev pub splice : ℕ → List ℕ → List ℕ → List ℕ
splice zero d c = overlay d c
splice (suc o) d [] = 0 ∷ splice o d []
splice (suc o) d (x ∷ c) = x ∷ splice o d c

drop-nil : (o : ℕ) → drop {A = ℕ} o [] ≡ []
drop-nil zero = refl
drop-nil (suc o) = refl

drop-splice : (o : ℕ) (d c : List ℕ) → drop o (splice o d c) ≡ overlay d (drop o c)
drop-splice zero d c = refl
drop-splice (suc o) d [] = drop-splice o d [] ∙ ap (overlay d) (drop-nil o)
drop-splice (suc o) d (x ∷ c) = drop-splice o d c

take-overlay : (n : ℕ) (d c : List ℕ) → n ≤ length d → take n (overlay d c) ≡ take n d
take-overlay zero d c h = refl
take-overlay (suc n) [] c h = absurd (omega arith)
take-overlay (suc n) (x ∷ d) [] h = ap (λ xs. x ∷ xs) (take-overlay n d [] (omega arith))
take-overlay (suc n) (x ∷ d) (_ ∷ c) h = ap (λ xs. x ∷ xs) (take-overlay n d c (omega arith))

length-take : (n : ℕ) (xs : List ℕ) → n ≤ length xs → length (take n xs) ≡ n
length-take zero xs h = refl
length-take (suc n) [] h = absurd (omega arith)
length-take (suc n) (x ∷ xs) h = omega (arith, length-take n xs (omega arith))

take-take : (k n : ℕ) (xs : List ℕ) → k ≤ n → take k (take n xs) ≡ take k xs
take-take zero n xs h = refl
take-take (suc k) zero xs h = absurd (omega arith)
take-take (suc k) (suc n) [] h = refl
take-take (suc k) (suc n) (x ∷ xs) h = ap (λ ys. x ∷ ys) (take-take k n xs (omega arith))

-- The first bytes at an offset at which the first `n` of `d` have been put.
pub take-drop-splice :
    (k n o : ℕ) (d c : List ℕ)
    → k ≤ n
    → n ≤ length d
    → take k (drop o (splice o (take n d) c)) ≡ take k d
take-drop-splice k n o d c h h' =
    ap (take k) (drop-splice o (take n d) c)
    ∙ take-overlay k (take n d) (drop o c) (omega (arith, length-take n d h'))
    ∙ take-take k n d h
