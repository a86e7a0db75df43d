-- ===== src/Build/Compose/Kept.antt =====
-- What the order and the budget filter of Build keep.
use mathlib.Core.List.Permᴰ
use dispatcher.Prelude.{
  ℕ, String, Bool, List, [], ◌∷◌, ◌≡◌, ◌≢◌, refl, inl, inr, sym, subst, arith, All, All-Perm,
  IsSortSlice, Bool-cases, str_eq, ◌==◌, if◌then◌else◌,
}
use dispatcher.Types.{PlanConstraints}
use dispatcher.Build.{Candidate, planned, sift, nonempty, order_and_filter, less}
use dispatcher.Build.Budget.{Filtered-cases, order_and_filter-Affordable}
use dispatcher.Build.Compose.{Outside}

-- The budget filter keeps what holds of every candidate.
pub sift-All :
    (P : Candidate → Type 0) (budget : ℕ) (pin : String) (cs kept rejected : List Candidate)
    → All P cs
    → sift budget pin cs ≡ planned kept rejected
    → All P kept
unfolding sift
sift-All P budget pin [] kept rejected a e = ground arith
sift-All P budget pin (c ∷ cs) kept rejected a e = elim (Filtered-cases (sift budget pin cs)) [
  | inl (x, s) ↦ ground (arith, s, e)
  | inr (inl s) ↦ ground (arith, s, e)
  | inr (inr (k, (j, s))) ↦ ground (arith, s, e, a, sift-All P budget pin cs k j a.1 s)
]

module _ (o : Outside) (s : IsSortSlice o.sort) where
  pub sort-nonempty :
      (lt : Candidate → Candidate → Bool) (c : Candidate) (cs : List Candidate)
      → o.sort lt (c ∷ cs) ≢ []
  sort-nonempty lt c cs e =
      (All-Perm (λ x. ⊥) (Permᴰ.symm (s.permutes lt (c ∷ cs))) (subst (All (λ x. ⊥)) (sym e) tt)).0

  pub ordered-All :
      (P : Candidate → Type 0) (cs : List Candidate) (k : PlanConstraints)
      → All P cs
      → All P (if str_eq k.target_name "" then o.sort (less k.optimize_for) cs else cs)
  ordered-All P cs k a = elim (Bool-cases (str_eq k.target_name "")) [
    | inl t ↦ rw t (All-Perm P (s.permutes (less k.optimize_for) cs) a)
    | inr f ↦ rw f a
  ]

  pub ordered_nonempty :
      (c : Candidate) (cs : List Candidate) (k : PlanConstraints)
      → (if str_eq k.target_name "" then o.sort (less k.optimize_for) (c ∷ cs) else c ∷ cs) ≢ []
  ordered_nonempty c cs k = elim (Bool-cases (str_eq k.target_name "")) [
    | inl t ↦ rw t (sort-nonempty (less k.optimize_for) c cs)
    | inr f ↦ rw f (λ e. cc)
  ]

  pub order_and_filter-nonempty :
      (c : Candidate) (cs rejected : List Candidate) (k : PlanConstraints)
      → order_and_filter o.sort (c ∷ cs) k ≢ planned [] rejected
  unfolding order_and_filter
  order_and_filter-nonempty c cs rejected k e = elim (Bool-cases (k.max_estimated_cost_usd == 0)) [
    | inl z ↦ ground (arith, z, e, ordered_nonempty c cs k)
    | inr z ↦
        (order_and_filter-Affordable o.sort (c ∷ cs) [] rejected k (ground (arith, z)) e).0 refl
  ]

  pub order_and_filter-All :
      (P : Candidate → Type 0) (cs kept rejected : List Candidate) (k : PlanConstraints)
      → All P cs
      → order_and_filter o.sort cs k ≡ planned kept rejected
      → All P kept
  unfolding order_and_filter nonempty
  order_and_filter-All P cs kept rejected k a e =
      let ordered = if str_eq k.target_name "" then o.sort (less k.optimize_for) cs else cs in
      let in_order = ordered-All P cs k a in
      elim (Filtered-cases (sift k.max_estimated_cost_usd k.target_name ordered)) [
        | inl (x, f) ↦ ground (arith, f, e, in_order)
        | inr (inl f) ↦ ground (arith, f, e, in_order)
        | inr (inr (l, (j, f))) ↦
            let b = sift-All P k.max_estimated_cost_usd k.target_name ordered l j in_order f in
            ground (arith, f, e, in_order, b)
      ]
