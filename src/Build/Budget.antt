-- ===== src/Build/Budget.antt =====
-- What the budget filter lets through.
use dispatcher.Prelude.{
  ◌≤◌, String, Bool, true, List, [], ◌∷◌, ◌≡◌, ◌≢◌, refl, ◌⊎◌, inl, inr, arith, All, Bool-cases,
  subst, false, Splits, splits_nil, splits_left, splits_right, str_eq, eq_iff, if◌then◌else◌,
}
use dispatcher.Types.{PlanConstraints, Usd, unknown}
use dispatcher.Build.{
  Candidate, is_unknown, less, is_within, Filtered, pinned_conflict, none_within, planned, sift,
  nonempty, order_and_filter,
}

-- Priced, and within the budget.
abbrev pub Affordable : Usd → Candidate → Type 0
Affordable budget c = (c.cost.confidence ≢ unknown) × (c.cost.value ≤ budget)

is_within-Affordable :
    (budget : Usd) (c : Candidate) → is_within budget c ≡ true → Affordable budget c
unfolding is_within is_unknown
is_within-Affordable budget c h = ground arith

pub Filtered-cases :
    (r : Filtered)
    → ((c : Candidate) × (r ≡ pinned_conflict c))
      ⊎ ((r ≡ none_within) ⊎ ((k : List Candidate) × ((j : List Candidate) × (r ≡ planned k j))))
Filtered-cases (pinned_conflict c) = inl (c, refl)
Filtered-cases none_within = inr (inl refl)
Filtered-cases (planned k j) = inr (inr (k, (j, refl)))

-- The kept and the rejected candidates are all there were, in their order.
abbrev pub IsSifted : Usd → List Candidate → List Candidate → List Candidate → Type 0
IsSifted budget kept rejected cs =
    All (Affordable budget) kept
    × All (λ c. ¬ Affordable budget c) rejected
    × Splits kept rejected cs

not_within-Affordable :
    (budget : Usd) (c : Candidate) → is_within budget c ≡ false → ¬ Affordable budget c
unfolding is_within is_unknown
not_within-Affordable budget c h a = ground (arith, h, a.0, a.1)

planned_injective :
    {k j kept rejected : List Candidate}
    → planned k j ≡ planned kept rejected
    → (k ≡ kept) × (j ≡ rejected)
planned_injective h = (cc, cc)

sift-IsSifted :
    (budget : Usd) (pin : String) (cs kept rejected : List Candidate)
    → sift budget pin cs ≡ planned kept rejected
    → IsSifted budget kept rejected cs
unfolding sift
sift-IsSifted budget pin [] kept rejected e =
    let q = planned_injective e in
    subst (λ k. IsSifted budget k rejected []) q.0
      (subst (λ j. IsSifted budget [] j []) q.1 (tt, tt, splits_nil))
sift-IsSifted budget pin (c ∷ cs) kept rejected e = elim (Filtered-cases (sift budget pin cs)) [
  | inl (x, s) ↦ absurd (ground (arith, s, e))
  | inr (inl s) ↦ absurd (ground (arith, s, e))
  | inr (inr (k, (j, s))) ↦
      let ih = sift-IsSifted budget pin cs k j s in
      elim (Bool-cases (is_within budget c)) [
        | inl y ↦
            let q : planned (c ∷ k) j ≡ planned kept rejected = ground (arith, s, e, y) in
            subst (λ l. IsSifted budget l rejected (c ∷ cs)) (planned_injective q).0
              (subst (λ l. IsSifted budget (c ∷ k) l (c ∷ cs)) (planned_injective q).1
                ((is_within-Affordable budget c y, ih.0), ih.1, splits_left ih.2))
        | inr n ↦
            let q : planned k (c ∷ j) ≡ planned kept rejected = ground (arith, s, e, n) in
            subst (λ l. IsSifted budget l rejected (c ∷ cs)) (planned_injective q).0
              (subst (λ l. IsSifted budget k l (c ∷ cs)) (planned_injective q).1
                (ih.0, (not_within-Affordable budget c n, ih.1), splits_right ih.2))
      ]
]

nonempty-planned :
    (f : Filtered) {kept rejected : List Candidate}
    → nonempty f ≡ planned kept rejected
    → (f ≡ planned kept rejected) × (kept ≢ [])
unfolding nonempty
nonempty-planned (pinned_conflict c) h = absurd cc
nonempty-planned none_within h = absurd cc
nonempty-planned (planned [] j) h = absurd cc
nonempty-planned (planned (x ∷ k) j) h = (h, λ e. let q = (planned_injective h).0 in cc (q, e))

-- With a budget, whatever the sort, the candidates that Build keeps are those of the sorted or pinned
-- list that have a known cost within the budget, in their order, the rejected ones are the others, and
-- at least one is kept.
pub order_and_filter-Affordable :
    (sort : (Candidate → Candidate → Bool) → List Candidate → List Candidate)
    (feasible kept rejected : List Candidate) (k : PlanConstraints)
    → k.max_estimated_cost_usd ≢ 0
    → order_and_filter sort feasible k ≡ planned kept rejected
    → (kept ≢ [])
      × IsSifted k.max_estimated_cost_usd kept rejected
          (if str_eq k.target_name "" then sort (less k.optimize_for) feasible else feasible)
unfolding order_and_filter
order_and_filter-Affordable sort feasible kept rejected k b e =
    let ordered =
      if str_eq k.target_name "" then sort (less k.optimize_for) feasible else feasible in
    let f = sift k.max_estimated_cost_usd k.target_name ordered in
    let h : nonempty f ≡ planned kept rejected = ground (arith, b, e) in
    let q = nonempty-planned f h in
    (q.1, sift-IsSifted k.max_estimated_cost_usd k.target_name ordered kept rejected q.0)

sift_conflict :
    (budget : Usd) (pin : String) (cs : List Candidate)
    → (sift budget pin cs ≢ none_within)
      × ((x : Candidate) → sift budget pin cs ≡ pinned_conflict x → x.target.id ≡ pin)
unfolding sift
sift_conflict budget pin [] = (λ e. ground arith, λ x e. ground arith)
sift_conflict budget pin (c ∷ cs) =
    let ih = sift_conflict budget pin cs in
    let same = eq_iff pin c.target.id in
    elim (Filtered-cases (sift budget pin cs)) [
      | inl (x, s) ↦ (λ e. ground (arith, s, e), λ y e. ground (arith, s, e, same, ih.1 x s))
      | inr (inl s) ↦ absurd (ih.0 s)
      | inr (inr (k, (j, s))) ↦ (λ e. ground (arith, s, e), λ y e. ground (arith, s, e, same))
    ]

-- What a pinned first target may come to.
abbrev pub IsHonoured : Candidate → String → Filtered → Type 0
IsHonoured c pin (planned [] rejected) = ⊥
IsHonoured c pin (planned (x ∷ rest) rejected) = x ≡ c
IsHonoured c pin (pinned_conflict x) = x.target.id ≡ pin
IsHonoured c pin none_within = ⊥

-- A pinned target that comes first is never rerouted: it is the first of the plan, or the conflict
-- of a target of its name with the budget is reported.
pub order_and_filter-IsHonoured :
    (sort : (Candidate → Candidate → Bool) → List Candidate → List Candidate) (c : Candidate)
    (cs : List Candidate) (k : PlanConstraints)
    → k.target_name ≢ ""
    → c.target.id ≡ k.target_name
    → IsHonoured c k.target_name (order_and_filter sort (c ∷ cs) k)
unfolding order_and_filter nonempty sift
order_and_filter-IsHonoured sort c cs k p e =
    let ih = sift_conflict k.max_estimated_cost_usd k.target_name cs in
    let same = eq_iff k.target_name c.target.id in
    let none = eq_iff k.target_name "" in
    elim (Filtered-cases (sift k.max_estimated_cost_usd k.target_name cs)) [
      | inl (x, s) ↦ ground (arith, s, same, none, p, e, ih.1 x s)
      | inr (inl s) ↦ absurd (ih.0 s)
      | inr (inr (l, (j, s))) ↦ ground (arith, s, same, none, p, e)
    ]
