-- ===== src/Prelude/Sorting.antt =====
-- Filters, and what sort.Slice promises.
use mathlib.Core.Path.{◌≡◌, refl, subst}
use mathlib.Core.Bool.{Bool, true, false}
use mathlib.Core.List.{List, [], ◌∷◌, Permᴰ}
use mathlib.Core.Logic.{inl, inr}
use native.Mathlib.Omega.{arith}
use dispatcher.Prelude.Lists.{All, Any}
use dispatcher.Prelude.Tests.{if◌then◌else◌}

module _ {A : Type 0} where
  abbrev pub filter : (A → Bool) → List A → List A
  filter p [] = []
  filter p (x ∷ xs) = if p x then x ∷ filter p xs else filter p xs

  -- No element belongs before an earlier one.
  abbrev pub IsSorted : (A → A → Bool) → List A → Type 0
  IsSorted lt [] = Unit
  IsSorted lt (x ∷ xs) = All (λ y. lt y x ≡ false) xs × IsSorted lt xs

  pub All-Perm : (P : A → Type 0) {xs ys : List A} → Permᴰ xs ys → All P xs → All P ys
  All-Perm P Permᴰ.nil a = a
  All-Perm P (Permᴰ.cons e p) a = (subst P e a.0, All-Perm P p a.1)
  All-Perm P (Permᴰ.swap e f) a = (subst P f a.1.0, (subst P e a.0, a.1.1))
  All-Perm P (Permᴰ.trans p q) a = All-Perm P q (All-Perm P p a)

  pub All-filter :
      (p : A → Bool) (P : A → Type 0) (xs : List A)
      → ((x : A) → p x ≡ true → P x)
      → All P (filter p xs)
  All-filter p P [] h = tt
  All-filter p P (x ∷ xs) h = ground (arith, h x, All-filter p P xs h)

  -- What holds of the kept elements holds of every element that is kept.
  pub All-filter_inv :
      (p : A → Bool) (P : A → Type 0) (xs : List A)
      → All P (filter p xs)
      → All (λ x. p x ≡ true → P x) xs
  All-filter_inv p P [] h = tt
  All-filter_inv p P (x ∷ xs) h = ground (arith, h, All-filter_inv p P xs)

  pub All-filter_sub :
      (p : A → Bool) (P : A → Type 0) (xs : List A) → All P xs → All P (filter p xs)
  All-filter_sub p P [] h = tt
  All-filter_sub p P (x ∷ xs) h = ground (arith, h, All-filter_sub p P xs)

  pub IsSorted-filter :
      (p : A → Bool) (lt : A → A → Bool) (xs : List A) → IsSorted lt xs → IsSorted lt (filter p xs)
  IsSorted-filter p lt [] h = tt
  IsSorted-filter p lt (x ∷ xs) h =
      ground (arith, h, IsSorted-filter p lt xs, All-filter_sub p (λ y. lt y x ≡ false) xs)

  pub All-both : (P Q : A → Type 0) (xs : List A) → All P xs → All Q xs → All (λ x. P x × Q x) xs
  All-both P Q [] a b = tt
  All-both P Q (x ∷ xs) a b = ((a.0, b.0), All-both P Q xs a.1 b.1)

  pub All-map : (P Q : A → Type 0) (xs : List A) → ((x : A) → P x → Q x) → All P xs → All Q xs
  All-map P Q [] f h = tt
  All-map P Q (x ∷ xs) f h = (f x h.0, All-map P Q xs f h.1)

  -- Every element is one of the list.
  pub All-Any_self : (xs : List A) → All (λ y. Any (λ x. x ≡ y) xs) xs
  All-Any_self [] = tt
  All-Any_self (x ∷ xs) = (
    inl refl,
    All-map (λ y. Any (λ z. z ≡ y) xs) (λ y. Any (λ z. z ≡ y) (x ∷ xs)) xs (λ y m. inr m)
        (All-Any_self xs),
  )

-- sort.Slice, as it is documented: for a comparison that is a strict weak order the result is a
-- sorted permutation.
pub record IsStrictWeak {A : Type 0} (lt : A → A → Bool) : Type 0 where
  pub irreflexive : (a : A) → lt a a ≡ false
  pub transitive : (a b c : A) → lt a b ≡ true → lt b c ≡ true → lt a c ≡ true
  pub weak : (a b c : A) → lt a c ≡ true → lt b c ≡ false → lt a b ≡ true

pub record IsSortSlice {A : Type 0} (sort : (A → A → Bool) → List A → List A) : Type 0 where
  pub permutes : (lt : A → A → Bool) (xs : List A) → Permᴰ xs (sort lt xs)
  pub sorts : (lt : A → A → Bool) (xs : List A) → IsStrictWeak lt → IsSorted lt (sort lt xs)
