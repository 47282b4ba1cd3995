-- ===== src/Prelude/Lists.antt =====
-- Lists measured by native numbers, and predicates on lists by recursion.
use Prim.Native.Nat.{ℕ, suc, ◌+◌}
use mathlib.Core.Path.{◌≡◌, refl}
use mathlib.Core.Logic.{◌⊎◌, inl, inr}
use mathlib.Core.Bool.{Bool, true, false, ◌||◌}
use mathlib.Core.Option.{Option, none, some}
use antitimely.Prelude.Tests.{if◌then◌else◌, Bool-cases}
use mathlib.Core.List.{List, [], ◌∷◌, ◌++◌, map}
use native.Mathlib.Omega.{arith}

module _ {ℓ} {A : Type ℓ} where
  abbrev pub length : List A → ℕ
  length [] = 0
  length (x ∷ xs) = suc (length xs)

  pub length-append : (xs ys : List A) → length (xs ++ ys) ≡ length xs + length ys
  length-append [] ys = omega arith
  length-append (x ∷ xs) ys = omega (arith, length-append xs ys)

  -- Some entry passes the test.
  abbrev pub any : (A → Bool) → List A → Bool
  any f [] = false
  any f (x ∷ xs) = f x || any f xs

  -- The first entry that passes the test.
  abbrev pub find : (A → Bool) → List A → Option A
  find f [] = none
  find f (x ∷ xs) = if f x then some x else find f xs

  abbrev pub keep : (A → Bool) → List A → List A
  keep f [] = []
  keep f (x ∷ xs) = let rest = keep f xs in if f x then x ∷ rest else rest

module _ {ℓ κ} {A : Type ℓ} (P : A → Type κ) where
  abbrev pub All : List A → Type κ
  All [] = Unit
  All (x ∷ xs) = P x × All xs

  pub All-append : (xs ys : List A) → All xs → All ys → All (xs ++ ys)
  All-append [] ys h k = k
  All-append (x ∷ xs) ys h k = (h.0, All-append xs ys h.1 k)

module _ {A : Type 0} where
  -- The entry occurs in the list, with its place kept.
  abbrev pub In : A → List A → Type 0
  In a [] = ⊥
  In a (x ∷ xs) = (a ≡ x) ⊎ In a xs

pub each_entry {κ} :
    {A : Type 0} (P : A → Type κ) (xs : List A) → ((x : A) → In x xs → P x) → All P xs
each_entry P [] h = tt
each_entry P (x ∷ xs) h = (h x (inl refl), each_entry P xs (λ y i. h y (inr i)))

module _ {ℓ κ} {A : Type ℓ} (P Q : A → Type κ) where
  pub All-mono : (xs : List A) → ((x : A) → P x → Q x) → All P xs → All Q xs
  All-mono [] f h = tt
  All-mono (x ∷ xs) f h = (f x h.0, All-mono xs f h.1)

  pub All-keep :
      (test : A → Bool) (xs : List A)
      → ((x : A) → test x ≡ true → P x → Q x)
      → All P xs
      → All Q (keep test xs)
  All-keep test [] f h = tt
  All-keep test (x ∷ xs) f h = elim (Bool-cases (test x)) [
    | inl t ↦ rw t (f x t h.0, All-keep test xs f h.1)
    | inr t ↦ rw t (All-keep test xs f h.1)
  ]

  pub All-map : (g : A → A) (xs : List A) → ((x : A) → P x → Q (g x)) → All P xs → All Q (map g xs)
  All-map g [] f h = tt
  All-map g (x ∷ xs) f h = (f x h.0, All-map g xs f h.1)

  pub All-both : (xs : List A) → All P xs → All Q xs → All (λ x. P x × Q x) xs
  All-both [] h k = tt
  All-both (x ∷ xs) h k = ((h.0, k.0), All-both xs h.1 k.1)

module _ {ℓ} {A : Type ℓ} where
  -- What passes `f` is kept by `g`, so `f` finds it as before.
  pub any-keep :
      (f g : A → Bool) (xs : List A)
      → ((x : A) → f x ≡ true → g x ≡ true)
      → any f (keep g xs) ≡ any f xs
  any-keep f g [] h = refl
  any-keep f g (x ∷ xs) h = elim (Bool-cases (g x)) [
    | inl t ↦ rw t (rw (any-keep f g xs h))
    | inr t ↦ elim (Bool-cases (f x)) [
      | inl u ↦ absurd (cc (t, h x u))
      | inr u ↦ rw t (rw u (any-keep f g xs h))
    ]
  ]

  pub any-map :
      (f : A → Bool) (g : A → A) (xs : List A)
      → ((x : A) → f (g x) ≡ f x)
      → any f (map g xs) ≡ any f xs
  any-map f g [] h = refl
  any-map f g (x ∷ xs) h = rw (h x, any-map f g xs h)

  -- No entry passes a test that finds nothing.
  pub any-All : (f : A → Bool) (xs : List A) → any f xs ≡ false → All (λ x. f x ≡ false) xs
  any-All f [] h = tt
  any-All f (x ∷ xs) h = elim (Bool-cases (f x)) [
    | inl t ↦ absurd (ground (arith, t, h))
    | inr t ↦ (t, any-All f xs (ground (arith, t, h)))
  ]

  pub keep-none : (f : A → Bool) (xs : List A) → length (keep f xs) ≡ 0 → All (λ x. f x ≡ false) xs
  keep-none f [] h = tt
  keep-none f (x ∷ xs) h = elim (Bool-cases (f x)) [
    | inl t ↦ absurd (ground (arith, t, h))
    | inr t ↦ (t, keep-none f xs (ground (arith, t, h)))
  ]
