-- ===== src/Build/Compose/Sound.antt =====
-- What Build promises of the plan that it returns.
use dispatcher.Prelude.{
  String, true, not, List, [], ◌∷◌, Option, none, some, ◌≡◌, ◌≢◌, refl, inl, inr, sym, ap, ◌∙◌,
  subst, All, IsSortSlice, Bool-cases, str_eq, eq_iff, filter, All-filter_sub,
}
use dispatcher.Types.{PlanConstraints, WorkloadSpec, TargetConfig, Recommendation}
use dispatcher.Target.Match.{check_feasibility}
use dispatcher.Target.Feasible.{CanRun}
use dispatcher.Target.Verdict.{feasible_iff}
use dispatcher.Target.Registry.{
  Registry, get, get-id, get-Registered, Registered, list_targets, list_targets-Registered,
}
use dispatcher.Policy.{evaluate}
use dispatcher.Risk.{analyze}
use dispatcher.Build.{Candidate, Filtered, pinned_conflict, none_within, planned, order_and_filter}
use dispatcher.Build.Budget.{
  Affordable, order_and_filter-Affordable, IsHonoured, order_and_filter-IsHonoured,
}
use dispatcher.Build.Validation.{validate}
use dispatcher.Build.Inputs.{DispatcherConfig, merge_config, apply_gpu_override}
use dispatcher.Build.Compose.{
  Rejected, Built, BuildEnd, panicked, built, Outside, candidate, assess, build_on, build_filtered,
  build_candidates, build_pinned, build_targets, build_overridden, build,
}
use dispatcher.Build.Compose.Kept.{order_and_filter-All, order_and_filter-nonempty}

-- A candidate is a registered target that can run the workload, at its price.
pub record IsWorthy (o : Outside) (w : WorkloadSpec) (k : PlanConstraints) (r : Registry)
    (c : Candidate) : Type 0 where
  pub registered : Registered r c.target
  pub able : CanRun o.host_arch c.target w
  pub priced : c.cost ≡ o.price w c.target k.spot

abbrev HeadIs : String → List Candidate → Type 0
HeadIs name [] = Unit
HeadIs name (c ∷ cs) = c.target.id ≡ name

-- What a plan says, and why it may.
pub record IsSoundPlan (o : Outside) (w : WorkloadSpec) (k : PlanConstraints) (r : Registry)
    (b : Built) : Type 0 where
  pub best : Candidate
  pub worthy : IsWorthy o w k r best
  pub affordable : k.max_estimated_cost_usd ≢ 0 → Affordable k.max_estimated_cost_usd best
  pub pinned : k.target_name ≢ "" → best.target.id ≡ k.target_name
  pub recommendation : Recommendation
  pub recommended : b.plan.recommendation ≡ some recommendation
  pub target : recommendation.target ≡ best.target.id
  pub estimated_cost : recommendation.estimated_cost ≡ best.cost
  pub workload : b.plan.workload ≡ w
  pub approvals : b.plan.required_approvals ≡ evaluate w best.target best.cost
  pub validation : b.plan.validation ≡ validate w best.cost
  pub risks : b.risks ≡ analyze w best.target best.cost k.spot

abbrev pub IsSoundEnd : Outside → WorkloadSpec → PlanConstraints → Registry → BuildEnd → Type 0
IsSoundEnd o w k r (built b) = IsSoundPlan o w k r b
IsSoundEnd o w k r panicked = ⊥
IsSoundEnd o w k r _ = Unit

module _ (o : Outside) (s : IsSortSlice o.sort) (w : WorkloadSpec) (k : PlanConstraints)
    (r : Registry) where
  abbrev Worthy : Candidate → Type 0
  Worthy c = IsWorthy o w k r c

  worthy :
      (t : TargetConfig)
      → Registered r t
      → (check_feasibility o.host_arch t w).feasible ≡ true
      → Worthy (candidate o w k t)
  worthy t a y = record { registered = a; able = (feasible_iff o.host_arch t w).0 y; priced = refl }

  assess-Worthy : (ts : List TargetConfig) → All (Registered r) ts → All Worthy (assess o w k ts).0
  unfolding assess
  assess-Worthy [] a = tt
  assess-Worthy (t ∷ ts) a = elim (Bool-cases (check_feasibility o.host_arch t w).feasible) [
    | inl y ↦ rw y (worthy t a.0 y, assess-Worthy ts a.1)
    | inr n ↦ rw n (assess-Worthy ts a.1)
  ]

  -- The first candidate that the budget filter keeps.
  IsKept : Filtered → Type 0
  IsKept (planned [] rejected) = ⊥
  IsKept (planned (x ∷ rest) rejected) =
      Worthy x
      × (k.max_estimated_cost_usd ≢ 0 → Affordable k.max_estimated_cost_usd x)
      × (k.target_name ≢ "" → x.target.id ≡ k.target_name)
  IsKept _ = Unit

  order_and_filter-IsKept :
      (c : Candidate) (cs : List Candidate)
      → All Worthy (c ∷ cs)
      → (k.target_name ≢ "" → c.target.id ≡ k.target_name)
      → (f : Filtered) → order_and_filter o.sort (c ∷ cs) k ≡ f
      → IsKept f
  unfolding IsKept
  order_and_filter-IsKept c cs a pin (pinned_conflict x) e = tt
  order_and_filter-IsKept c cs a pin none_within e = tt
  order_and_filter-IsKept c cs a pin (planned [] rejected) e =
      absurd (order_and_filter-nonempty o s c cs rejected k e)
  order_and_filter-IsKept c cs a pin (planned (x ∷ rest) rejected) e = (
    (order_and_filter-All o s Worthy (c ∷ cs) (x ∷ rest) rejected k a e).0,
    λ b. (order_and_filter-Affordable o.sort (c ∷ cs) (x ∷ rest) rejected k b e).1.0.0,
    λ n.
        ap (λ y. y.target.id)
          (subst (IsHonoured c k.target_name) e
            (order_and_filter-IsHonoured o.sort c cs k n (pin n)))
        ∙ pin n,
  )

  build_filtered-IsSound :
      (rejected : List Rejected) (f : Filtered)
      → IsKept f
      → IsSoundEnd o w k r (build_filtered o w k rejected f)
  unfolding IsKept build_filtered build_on
  build_filtered-IsSound rejected (pinned_conflict x) h = tt
  build_filtered-IsSound rejected none_within h = tt
  build_filtered-IsSound rejected (planned [] dropped) h = h
  build_filtered-IsSound rejected (planned (x ∷ rest) dropped) h = record {
    best = x;
    worthy = h.0;
    affordable = h.1;
    pinned = h.2;
    recommendation = _;
    recommended = refl;
    target = refl;
    estimated_cost = refl;
    workload = refl;
    approvals = refl;
    validation = refl;
    risks = refl;
  }

  build_candidates-IsSound :
      (cs : List Candidate) (rejected : List Rejected)
      → All Worthy cs
      → ((c : Candidate) (rest : List Candidate)
          → cs ≡ c ∷ rest
          → k.target_name ≢ ""
          → c.target.id ≡ k.target_name)
      → IsSoundEnd o w k r (build_candidates o w k (cs, rejected))
  unfolding build_candidates
  build_candidates-IsSound [] rejected a pin = tt
  build_candidates-IsSound (c ∷ cs) rejected a pin =
      build_filtered-IsSound rejected (order_and_filter o.sort (c ∷ cs) k)
        (order_and_filter-IsKept c cs a (pin c cs refl) (order_and_filter o.sort (c ∷ cs) k) refl)

  build_pinned-IsSound :
      (ts : List TargetConfig) (t : Option TargetConfig)
      → All (Registered r) ts
      → ((u : TargetConfig) → t ≡ some u → Registered r u × (u.id ≡ k.target_name))
      → IsSoundEnd o w k r (build_pinned o w k ts t)
  unfolding build_pinned
  build_pinned-IsSound ts none a f = tt
  build_pinned-IsSound ts (some t) a f =
      let others = filter (λ u. not (str_eq u.id k.target_name)) ts in
      let rest = assess-Worthy others (All-filter_sub _ (Registered r) ts a) in
      let here = f t refl in
      elim (Bool-cases (check_feasibility o.host_arch t w).feasible) [
        | inl y ↦ rw y (
            build_candidates-IsSound (candidate o w k t ∷ (assess o w k others).0)
              (assess o w k others).1 (worthy t here.0 y, rest)
              (λ c cs e n. subst (λ xs. HeadIs k.target_name xs) e here.1))
        | inr n ↦ rw n tt
      ]

  build_targets-IsSound : IsSoundEnd o w k r (build_targets o w k r)
  unfolding build_targets
  build_targets-IsSound =
      let ts = list_targets o.sort_strings r in
      let a = list_targets-Registered o.sort_strings r in
      elim (Bool-cases (str_eq k.target_name "")) [
        | inl y ↦ rw y (
            build_candidates-IsSound (assess o w k ts).0 (assess o w k ts).1 (assess-Worthy ts a)
              (λ c rest e n. absurd (n ((eq_iff k.target_name "").0 y))))
        | inr n ↦ rw n (
            build_pinned-IsSound ts (get r k.target_name) a
              (λ u e. (get-Registered r k.target_name u e, get-id r k.target_name u e)))
      ]

-- If Build returns a plan, it recommends a registered target that can run the workload, at its
-- price, known and within the budget if there is one, and the pinned target if one is pinned; and
-- the plan carries the approvals, the validation and the risks of that very target and price. The
-- workload is the inspected one with --gpu applied, and the constraints are the flags with the
-- config file merged in. Build never indexes an empty list.
pub build-IsSound :
    (o : Outside) (s : IsSortSlice o.sort) (w w' : WorkloadSpec) (cfg : Option DispatcherConfig)
    (flags : PlanConstraints) (r : Registry)
    → apply_gpu_override o.atoi (merge_config o.parse_duration cfg flags).require_gpu w ≡ some w'
    → IsSoundEnd o w'
        (merge_config o.parse_duration cfg flags)
        r
        (build o (some w) (some cfg) flags r)
unfolding build build_overridden
build-IsSound o s w w' cfg flags r e =
    let k = merge_config o.parse_duration cfg flags in
    subst (λ x. IsSoundEnd o w' k r (build_overridden o k r x)) (sym e)
      (build_targets-IsSound o s w' k r)
