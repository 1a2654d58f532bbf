-- ===== src/Matching/Subsequences.antt =====
-- Subsequences of a list, and what sums and lengths of items say of them.
use fin_arch.Base.{
  ◌+◌, ◌≤◌, ◌≡◌, refl, List, [], ◌∷◌, ◌++◌, arith, Bool, if◌then◌else◌, true, false,
}
use fin_arch.Matching.Score.{Item, sum_amounts}

-- `xs` is `ys` with some elements left out.
pub data IsSubsequence {ℓ} {A : Type ℓ} : List A → List A → Type ℓ where
  done : IsSubsequence [] []
  keep : (x : A) {xs ys : List A} → IsSubsequence xs ys → IsSubsequence (x ∷ xs) (x ∷ ys)
  skip : (y : A) {xs ys : List A} → IsSubsequence xs ys → IsSubsequence xs (y ∷ ys)

pub nil-IsSubsequence {ℓ} : {A : Type ℓ} (ys : List A) → IsSubsequence [] ys
nil-IsSubsequence [] = done
nil-IsSubsequence (y ∷ ys) = skip y (nil-IsSubsequence ys)

pub IsSubsequence_refl {ℓ} : {A : Type ℓ} (xs : List A) → IsSubsequence xs xs
IsSubsequence_refl [] = done
IsSubsequence_refl (x ∷ xs) = keep x (IsSubsequence_refl xs)

pub sum_amounts-append :
    (xs ys : List Item) → sum_amounts (xs ++ ys) ≡ sum_amounts xs + sum_amounts ys
unfolding sum_amounts
sum_amounts-append [] ys = omega arith
sum_amounts-append (x ∷ xs) ys = omega (arith, sum_amounts-append xs ys)

-- A subsequence of items adds up to no more than the whole.
pub IsSubsequence-sum : {xs ys : List Item} → IsSubsequence xs ys → sum_amounts xs ≤ sum_amounts ys
unfolding sum_amounts
IsSubsequence-sum done = omega arith
IsSubsequence-sum (keep x s) = omega (arith, IsSubsequence-sum s)
IsSubsequence-sum (skip y s) = omega (arith, IsSubsequence-sum s)

-- A property of both branches is one of the conditional.
pub choose {ℓ κ} :
    {A : Type ℓ} (P : A → Type κ) (b : Bool) {x y : A} → P x → P y → P (if b then x else y)
choose P true px py = px
choose P false px py = py

pub choose_by {ℓ κ} :
    {A : Type ℓ} (P : A → Type κ) (b : Bool) {x y : A}
    → (b ≡ true → P x)
    → (b ≡ false → P y)
    → P (if b then x else y)
choose_by P true px py = px refl
choose_by P false px py = py refl

pub choose_then {ℓ κ} :
    {A : Type ℓ} (P : A → Type κ) (b : Bool) {x : A} (y : A)
    → b ≡ true
    → P x
    → P (if b then x else y)
choose_then P true y e px = px
choose_then P false y e px = absurd (ground arith)

pub choose_else {ℓ κ} :
    {A : Type ℓ} (P : A → Type κ) (b : Bool) (x : A) {y : A}
    → b ≡ false
    → P y
    → P (if b then x else y)
choose_else P true x e py = absurd (ground arith)
choose_else P false x e py = py
