-- ===== src/Cost/Median.antt =====
-- median of internal/cost/history.go: its exchange sort, for any comparison, and what it leaves.
use mathlib.Core.List.Permᴰ
use mathlib.Core.List.{Permᴰ}
use mathlib.Core.Bool.{true≢false}
use dispatcher.Prelude.{
  ℕ, ◌/◌, ◌≡◌, refl, Bool, true, false, List, [], ◌∷◌, Option, none, some, arith, All, All-Perm,
  IsSorted, IsStrictWeak, IsSortSlice, sym, ap, ◌∙◌, length, get_elem?, ltb, if◌then◌else◌,
  Bool-cases, inl, inr, zero, suc, ◌≢◌, ◌<◌, ◌≤◌,
}

-- The inner loop: every element of the tail that belongs before the head changes places with it.
unfoldable pub exchange : {A : Type 0} → (A → A → Bool) → A → List A → A × List A
exchange lt x [] = (x, [])
exchange lt x (y ∷ ys) =
    let (m, zs) = exchange lt x ys in
    let (m', zs') = exchange lt y ys in if lt y x then (m', x ∷ zs') else (m, y ∷ zs)

-- The outer loop, on so many elements.
unfoldable pub exchange_rounds : {A : Type 0} → (A → A → Bool) → ℕ → List A → List A
unfolding exchange
exchange_rounds lt zero xs = xs
exchange_rounds lt (suc n) [] = []
exchange_rounds lt (suc n) (x ∷ xs) = let (m, zs) = exchange lt x xs in m ∷ exchange_rounds lt n zs

unfoldable pub exchange_sort : {A : Type 0} → (A → A → Bool) → List A → List A
unfolding exchange_rounds
exchange_sort lt xs = exchange_rounds lt (length xs) xs

abbrev or_zero : Option ℕ → ℕ
or_zero none = 0
or_zero (some d) = d

unfoldable pub median : List ℕ → ℕ
unfolding exchange_sort
median ds = or_zero (get_elem? (exchange_sort ltb ds) (length ds / 2))

module _ {A : Type 0} (lt : A → A → Bool) where
  exchange-Perm :
      (x : A) (xs : List A) → Permᴰ (x ∷ xs) ((exchange lt x xs).0 ∷ (exchange lt x xs).1)
  unfolding exchange
  exchange-Perm x [] = Permᴰ.refl (x ∷ [])
  exchange-Perm x (y ∷ ys) = elim (Bool-cases (lt y x)) [
    | inl b ↦ rw b (Permᴰ.trans (Permᴰ.cons refl (exchange-Perm y ys)) (Permᴰ.swap refl refl))
    | inr b ↦ rw b (
        Permᴰ.trans (Permᴰ.swap refl refl)
          (Permᴰ.trans (Permᴰ.cons refl (exchange-Perm x ys)) (Permᴰ.swap refl refl)))
  ]

  length-exchange : (x : A) (xs : List A) → length (exchange lt x xs).1 ≡ length xs
  unfolding exchange
  length-exchange x [] = refl
  length-exchange x (y ∷ ys) = ground (arith, length-exchange x ys, length-exchange y ys)

  exchange_rounds-Perm : (n : ℕ) (xs : List A) → Permᴰ xs (exchange_rounds lt n xs)
  unfolding exchange_rounds
  exchange_rounds-Perm zero xs = Permᴰ.refl xs
  exchange_rounds-Perm (suc n) [] = Permᴰ.nil
  exchange_rounds-Perm (suc n) (x ∷ xs) =
      Permᴰ.trans (exchange-Perm x xs)
        (Permᴰ.cons refl (exchange_rounds-Perm n (exchange lt x xs).1))

module _ {A : Type 0} (lt : A → A → Bool) (o : IsStrictWeak lt) where
  after_later : (x y m : A) → lt y x ≡ true → lt y m ≡ false → lt x m ≡ false
  after_later x y m b h = elim (Bool-cases (lt x m)) [
    | inl c ↦ absurd (true≢false (sym (o.transitive y x m b c) ∙ h))
    | inr c ↦ c
  ]

  after_same : (x y m : A) → lt y x ≡ false → lt x m ≡ false → lt y m ≡ false
  after_same x y m b h = elim (Bool-cases (lt y m)) [
    | inl c ↦ absurd (true≢false (sym (o.weak y x m c h) ∙ b))
    | inr c ↦ c
  ]

  -- Nothing belongs before what the inner loop leaves at the head.
  exchange-IsLeast :
      (x : A) (xs : List A)
      → (lt x (exchange lt x xs).0 ≡ false)
        × All (λ y. lt y (exchange lt x xs).0 ≡ false) (exchange lt x xs).1
  unfolding exchange
  exchange-IsLeast x [] = (o.irreflexive x, tt)
  exchange-IsLeast x (y ∷ ys) = elim (Bool-cases (lt y x)) [
    | inl b ↦
        let ih = exchange-IsLeast y ys in
        let here = after_later x y (exchange lt y ys).0 b ih.0 in rw b (here, (here, ih.1))
    | inr b ↦
        let ih = exchange-IsLeast x ys in
        rw b (ih.0, (after_same x y (exchange lt x ys).0 b ih.0, ih.1))
  ]

  exchange_rounds-IsSorted :
      (n : ℕ) (xs : List A) → length xs ≤ n → IsSorted lt (exchange_rounds lt n xs)
  unfolding exchange_rounds
  exchange_rounds-IsSorted zero [] h = tt
  exchange_rounds-IsSorted zero (x ∷ xs) h = absurd (omega arith)
  exchange_rounds-IsSorted (suc n) [] h = tt
  exchange_rounds-IsSorted (suc n) (x ∷ xs) h =
      let zs = (exchange lt x xs).1 in
      let m = (exchange lt x xs).0 in
      (
        All-Perm (λ y. lt y m ≡ false) (exchange_rounds-Perm lt n zs) (exchange-IsLeast x xs).1,
        exchange_rounds-IsSorted n zs (omega (arith, length-exchange lt x xs)),
      )

-- The exchange sort fulfils what sort.Slice documents.
pub exchange_sort-IsSortSlice : {A : Type 0} → IsSortSlice (exchange_sort {A = A})
unfolding exchange_sort
exchange_sort-IsSortSlice = record {
  permutes = λ lt xs. exchange_rounds-Perm lt (length xs) xs;
  sorts = λ lt xs o. exchange_rounds-IsSorted lt o (length xs) xs (omega arith);
}

ltb-IsStrictWeak : IsStrictWeak ltb
ltb-IsStrictWeak = record {
  irreflexive = λ a. ground arith;
  transitive = λ a b c p q. ground arith;
  weak = λ a b c p q. ground arith;
}

-- The middle of the durations in order.
pub record IsMedian (ds : List ℕ) (m : ℕ) : Type 0 where
  pub in_order : List ℕ
  pub same : Permᴰ ds in_order
  pub sorted : IsSorted ltb in_order
  pub middle : get_elem? in_order (length ds / 2) ≡ some m

get_elem?-some :
    {A : Type 0} (xs : List A) (i : ℕ) → i < length xs → (x : A) × (get_elem? xs i ≡ some x)
get_elem?-some [] i h = absurd (omega arith)
get_elem?-some (x ∷ xs) zero h = (x, refl)
get_elem?-some (x ∷ xs) (suc i) h = get_elem?-some xs i (omega arith)

length-exchange_rounds :
    {A : Type 0} (lt : A → A → Bool) (n : ℕ) (xs : List A)
    → length (exchange_rounds lt n xs) ≡ length xs
unfolding exchange_rounds
length-exchange_rounds lt zero xs = refl
length-exchange_rounds lt (suc n) [] = refl
length-exchange_rounds lt (suc n) (x ∷ xs) =
    omega (arith, length-exchange_rounds lt n (exchange lt x xs).1, length-exchange lt x xs)

pub median-IsMedian : (ds : List ℕ) → ds ≢ [] → IsMedian ds (median ds)
unfolding median exchange_sort
median-IsMedian [] ne = absurd (ne refl)
median-IsMedian (d ∷ ds) ne =
    let all = d ∷ ds in
    let got =
      get_elem?-some (exchange_sort ltb all) (length all / 2)
        (omega (arith, length-exchange_rounds ltb (length all) all)) in
    record {
      in_order = exchange_sort ltb all;
      same = exchange_sort-IsSortSlice.permutes ltb all;
      sorted = exchange_sort-IsSortSlice.sorts ltb all ltb-IsStrictWeak;
      middle = got.1 ∙ ap some (sym (ap or_zero got.1));
    }
