-- ===== src/Build.antt =====
-- internal/plan/build.go: the order of the candidates and the budget filter of Build. sort.Slice is
-- a parameter. The reasons of a rejection are texts made of the candidate's cost and the budget.
pub mod Order
pub mod Budget
pub mod Validation
pub mod Inputs
pub mod Compose
use dispatcher.Prelude.{
  ℕ, String, Bool, true, false, ◌&&◌, ◌||◌, not, List, [], ◌∷◌, ◌==◌, ltb, leb, if◌then◌else◌,
  str_eq, is_empty,
}
use dispatcher.Types.{
  TargetConfig, TargetKind, local, docker, local_vm, CostEstimate, Confidence-discrete, unknown,
  eq_by, OptimizeGoal, optimize_speed, optimize_cost, PlanConstraints, Usd,
}

pub record Candidate : Type 0 where
  pub target : TargetConfig
  pub cost : CostEstimate

unfoldable pub is_unknown : Candidate → Bool
unfolding Confidence-discrete
is_unknown c = eq_by Confidence-discrete c.cost.confidence unknown

unfoldable pub is_near : TargetKind → Bool
is_near local = true
is_near docker = true
is_near local_vm = true
is_near _ = false

-- The comparison among candidates of one kind of knowledge.
unfoldable pub cheaper : OptimizeGoal → Candidate → Candidate → Bool
unfolding is_near
cheaper optimize_cost a b = ltb a.cost.value b.cost.value
cheaper optimize_speed a b =
    let m = is_near a.target.kind in
    let n = is_near b.target.kind in
    if m && not n
    then true
    else if n && not m
    then false
    else if not m && not n
    then ltb b.cost.value a.cost.value
    else ltb a.cost.value b.cost.value

-- The function that sortCandidates gives to sort.Slice.
unfoldable pub less : OptimizeGoal → Candidate → Candidate → Bool
unfolding is_unknown cheaper
less goal a b =
    if is_unknown a && not (is_unknown b)
    then false
    else if is_unknown b && not (is_unknown a)
    then true
    else cheaper goal a b

-- Known, and within the budget.
unfoldable pub is_within : Usd → Candidate → Bool
unfolding is_unknown
is_within budget c = not (is_unknown c) && leb c.cost.value budget

-- The errors: the pinned target conflicts with the budget, or nothing is within it.
pub data Filtered : Type 0 where
  pinned_conflict : Candidate → Filtered
  none_within : Filtered
  planned : List Candidate → List Candidate → Filtered

abbrev pub keep : Candidate → Filtered → Filtered
keep c (planned kept rejected) = planned (c ∷ kept) rejected
keep c r = r

abbrev pub reject : Candidate → Filtered → Filtered
reject c (planned kept rejected) = planned kept (c ∷ rejected)
reject c r = r

-- The loop over the candidates.
unfoldable pub sift : Usd → String → List Candidate → Filtered
sift budget pin [] = planned [] []
sift budget pin (c ∷ cs) =
    let rest = sift budget pin cs in
    if is_within budget c
    then keep c rest
    else if str_eq pin c.target.id
    then pinned_conflict c
    else reject c rest

-- No candidate was kept.
unfoldable pub nonempty : Filtered → Filtered
nonempty (planned [] rejected) = none_within
nonempty r = r

-- orderAndFilter.
unfoldable pub order_and_filter :
    ((Candidate → Candidate → Bool) → List Candidate → List Candidate)
    → List Candidate
    → PlanConstraints
    → Filtered
order_and_filter sort feasible constraints =
    let ordered =
      if str_eq constraints.target_name ""
      then sort (less constraints.optimize_for) feasible
      else feasible in
    if constraints.max_estimated_cost_usd == 0
    then planned ordered []
    else nonempty (sift constraints.max_estimated_cost_usd constraints.target_name ordered)
