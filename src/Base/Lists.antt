-- ===== src/Base/Lists.antt =====
-- Lists measured by native numbers and tested by Boolean predicates, under the library's names.
use Prim.Native.Nat.{ℕ, zero, suc, ◌+◌, ◌-◌, ◌≤◌, min}
use mathlib.Core.Path.{◌≡◌, refl, ap}
use mathlib.Core.Bool.{Bool, true, false, ◌&&◌, ◌||◌}
use mathlib.Core.List.{List, [], ◌∷◌, ◌++◌}
use mathlib.Core.Logic.{◌⊎◌, inl, inr}
use native.Mathlib.Omega.{arith}
use compose_manager.Base.Tests.{Bool-cases, if◌then◌else◌, and_true}

module _ {ℓ} {A : Type ℓ} where
  abbrev pub length : List A → ℕ
  length [] = 0
  length (x ∷ xs) = suc (length xs)

  abbrev pub take : ℕ → List A → List A
  take zero xs = []
  take (suc n) [] = []
  take (suc n) (x ∷ xs) = x ∷ take n xs

  abbrev pub drop : ℕ → List A → List A
  drop zero xs = xs
  drop (suc n) [] = []
  drop (suc n) (x ∷ xs) = drop n xs

  abbrev pub all : (A → Bool) → List A → Bool
  all p [] = true
  all p (x ∷ xs) = p x && all p xs

  abbrev pub any : (A → Bool) → List A → Bool
  any p [] = false
  any p (x ∷ xs) = p x || any p xs

  unfoldable pub filter : (A → Bool) → List A → List A
  filter p [] = []
  filter p (x ∷ xs) = let rest = filter p xs in if p x then x ∷ rest else rest

  pub length-append : (xs ys : List A) → length (xs ++ ys) ≡ length xs + length ys
  length-append [] ys = omega arith
  length-append (x ∷ xs) ys = omega (arith, length-append xs ys)

  pub length-take : (n : ℕ) (xs : List A) → length (take n xs) ≡ min n (length xs)
  length-take zero xs = omega arith
  length-take (suc n) [] = omega arith
  length-take (suc n) (x ∷ xs) = omega (arith, length-take n xs)

  pub length-drop : (n : ℕ) (xs : List A) → length (drop n xs) ≡ length xs - n
  length-drop zero xs = omega arith
  length-drop (suc n) [] = omega arith
  length-drop (suc n) (x ∷ xs) = omega (arith, length-drop n xs)

  pub take-append-drop : (n : ℕ) (xs : List A) → take n xs ++ drop n xs ≡ xs
  take-append-drop zero xs = refl
  take-append-drop (suc n) [] = refl
  take-append-drop (suc n) (x ∷ xs) = ap (λ t. x ∷ t) (take-append-drop n xs)

module _ {ℓ κ} {A : Type ℓ} where
  -- Every element of a list satisfies the predicate.
  abbrev pub All : (A → Type κ) → List A → Type κ
  All P [] = Unit
  All P (x ∷ xs) = P x × All P xs

  pub All-append : (P : A → Type κ) (xs ys : List A) → All P xs → All P ys → All P (xs ++ ys)
  All-append P [] ys hx hy = hy
  All-append P (x ∷ xs) ys (h, hx) hy = (h, All-append P xs ys hx hy)

  pub All-mono : {P Q : A → Type κ} (f : (x : A) → P x → Q x) (xs : List A) → All P xs → All Q xs
  All-mono f [] h = tt
  All-mono f (x ∷ xs) (h, hs) = (f x h, All-mono f xs hs)

  pub All-filter : (P : A → Type κ) (p : A → Bool) (xs : List A) → All P xs → All P (filter p xs)
  unfolding filter
  All-filter P p [] h = tt
  All-filter P p (x ∷ xs) (h, hs) = ground (arith, All-filter P p xs hs)

module _ {ℓ} {A : Type ℓ} where
  pub All-filter_test : (p : A → Bool) (xs : List A) → All (λ x. p x ≡ true) (filter p xs)
  unfolding filter
  All-filter_test p [] = tt
  All-filter_test p (x ∷ xs) = ground (arith, All-filter_test p xs)

  pub All-of_all : (p : A → Bool) (xs : List A) → all p xs ≡ true → All (λ x. p x ≡ true) xs
  All-of_all p [] h = tt
  All-of_all p (x ∷ xs) h =
      let (here, later) = and_true (p x) (all p xs) h in (here, All-of_all p xs later)

  pub length-filter : (p : A → Bool) (xs : List A) → length (filter p xs) ≤ length xs
  unfolding filter
  length-filter p [] = omega arith
  length-filter p (x ∷ xs) = ground (arith, length-filter p xs)

  pub All-of_any : (p : A → Bool) (xs : List A) → any p xs ≡ false → All (λ x. p x ≡ false) xs
  All-of_any p [] h = tt
  All-of_any p (x ∷ xs) h = ground (arith, All-of_any p xs)

-- The proposition with no proof, at every level.
pub data Never {ℓ} : Type ℓ where

module _ {ℓ κ} {A : Type ℓ} where
  -- Some element of a list satisfies the predicate.
  abbrev pub Exists : (A → Type κ) → List A → Type κ
  Exists P [] = Never
  Exists P (x ∷ xs) = P x ⊎ Exists P xs

module _ {ℓ κ μ} {A : Type ℓ} where
  pub Exists-mono :
      {P : A → Type κ} {Q : A → Type μ} (f : (x : A) → P x → Q x) (xs : List A)
      → Exists P xs
      → Exists Q xs
  Exists-mono f [] e = elim e [ ]
  Exists-mono f (x ∷ xs) (inl p) = inl (f x p)
  Exists-mono f (x ∷ xs) (inr e) = inr (Exists-mono f xs e)

module _ {ℓ} {A : Type ℓ} where
  pub Exists-of_any : (p : A → Bool) (xs : List A) → any p xs ≡ true → Exists (λ x. p x ≡ true) xs
  Exists-of_any p [] h = cc
  Exists-of_any p (x ∷ xs) h = elim (Bool-cases (p x)) [
    | inl e ↦ inl e
    | inr e ↦ inr (Exists-of_any p xs (rw e at h))
  ]

module _ {ℓ} {A : Type ℓ} (less : A → A → Bool) where
  -- `sort.Slice`, by insertion: what stands in front keeps its place among equals.
  unfoldable pub put_sorted : A → List A → List A
  put_sorted x [] = x ∷ []
  put_sorted x (y ∷ ys) = if less y x then y ∷ put_sorted x ys else x ∷ y ∷ ys

  unfoldable pub sort_by : List A → List A
  unfolding put_sorted
  sort_by [] = []
  sort_by (x ∷ xs) = put_sorted x (sort_by xs)

module _ {ℓ κ} {A : Type ℓ} (less : A → A → Bool) (P : A → Type κ) where
  All-put_sorted : (x : A) (ys : List A) → P x → All P ys → All P (put_sorted less x ys)
  unfolding put_sorted
  All-put_sorted x [] p h = (p, tt)
  All-put_sorted x (y ∷ ys) p (h, hs) = elim (Bool-cases (less y x)) [
    | inl e ↦ rw e (h, All-put_sorted x ys p hs)
    | inr e ↦ rw e (p, (h, hs))
  ]

  pub All-sort_by : (xs : List A) → All P xs → All P (sort_by less xs)
  unfolding sort_by
  All-sort_by [] h = tt
  All-sort_by (x ∷ xs) (h, hs) = All-put_sorted x (sort_by less xs) h (All-sort_by xs hs)
