-- ===== src/Build/Compose.antt =====
-- internal/plan/build.go: Build. The inspection of the directory, the config file, the registry and
-- the price of a target come from outside.
pub mod Kept
pub mod Sound
use dispatcher.Prelude.{
  ℕ, ℤ, String, Bool, true, false, not, List, [], ◌∷◌, ◌++◌, Option, none, some, if◌then◌else◌,
  str_eq, filter, map,
}
use dispatcher.Types.{
  Time, Duration, PlanConstraints, WorkloadSpec, TargetConfig, CostEstimate, Plan, PlanMetadata,
  Recommendation,
}
use dispatcher.Target.Match.{Reason, check_feasibility, runtime_for_target}
use dispatcher.Target.Registry.{Registry, get, list_targets}
use dispatcher.Policy.{evaluate}
use dispatcher.Risk.{Risk, analyze}
use dispatcher.Build.{Candidate, Filtered, pinned_conflict, none_within, planned, order_and_filter}
use dispatcher.Build.Validation.{validate}
use dispatcher.Build.Inputs.{
  DispatcherConfig, merge_config, apply_gpu_override, build_reasons, build_tradeoffs,
  build_execution_steps,
}

-- A rejected target: infeasible, for its first reason, or over the budget.
pub data Rejected : Type 0 where
  infeasible : String → List Reason → Rejected
  over_budget : Candidate → Rejected

pub record Alternative : Type 0 where
  pub target : String
  pub runtime : String
  pub estimated_cost : CostEstimate
  pub tradeoff : List String

-- A plan with what it shows to the reader.
pub record Built : Type 0 where
  pub plan : Plan
  pub alternatives : List Alternative
  pub rejected : List Rejected
  pub risks : List Risk
  pub execution_steps : List String

pub data BuildEnd : Type 0 where
  inspection_failed config_failed invalid_gpu target_not_found no_feasible : BuildEnd
  not_feasible : List Reason → BuildEnd
  over_budget_pinned : Candidate → BuildEnd
  none_within_budget : BuildEnd
  -- The index of an empty list.
  panicked : BuildEnd
  built : Built → BuildEnd

-- What Build meets outside: the sorts, the parsers, the formatted texts, the price of a target, the
-- architecture of the host, and the id and the time of the plan.
pub record Outside : Type 0 where
  pub sort : (Candidate → Candidate → Bool) → List Candidate → List Candidate
  pub sort_strings : List String → List String
  pub parse_duration : String → Option Duration
  pub atoi : String → Option ℤ
  pub port_note : ℕ → String
  pub gpu_note : String → String
  pub price : WorkloadSpec → TargetConfig → Bool → CostEstimate
  pub host_arch : String
  pub plan_id : String
  pub now : Time

module _ (o : Outside) where
  abbrev pub candidate : WorkloadSpec → PlanConstraints → TargetConfig → Candidate
  candidate w k t = record { target = t; cost = o.price w t k.spot }

  -- The loop over the targets.
  unfoldable pub assess :
      WorkloadSpec → PlanConstraints → List TargetConfig → List Candidate × List Rejected
  assess w k [] = ([], [])
  assess w k (t ∷ ts) =
      let (cs, rs) = assess w k ts in
      let result = check_feasibility o.host_arch t w in
      if result.feasible
      then (candidate w k t ∷ cs, rs)
      else (cs, infeasible t.id result.reasons ∷ rs)

  alternative : TargetConfig → Candidate → Alternative
  alternative best c = record {
    target = c.target.id;
    runtime = runtime_for_target c.target.kind;
    estimated_cost = c.cost;
    tradeoff = build_tradeoffs c.target.kind best.kind;
  }

  -- The plan on the first candidate.
  unfoldable pub build_on :
      WorkloadSpec → PlanConstraints → Candidate → List Candidate → List Rejected → Built
  unfolding alternative
  build_on w k best rest rejected = record {
    plan = record {
      metadata = record { id = o.plan_id; created_at = o.now; created_by = "dispatcher-cli" };
      workload = w;
      constraints = k;
      recommendation = some (record {
        target = best.target.id;
        runtime = runtime_for_target best.target.kind;
        estimated_cost = best.cost;
        reason = build_reasons o.port_note o.gpu_note w best.target;
      });
      validation = validate w best.cost;
      required_approvals = evaluate w best.target best.cost;
    };
    alternatives = map (alternative best.target) rest;
    rejected = rejected;
    risks = analyze w best.target best.cost k.spot;
    execution_steps = build_execution_steps w best.target;
  }

  unfoldable pub build_filtered :
      WorkloadSpec → PlanConstraints → List Rejected → Filtered → BuildEnd
  unfolding build_on
  build_filtered w k rejected (pinned_conflict c) = over_budget_pinned c
  build_filtered w k rejected none_within = none_within_budget
  build_filtered w k rejected (planned [] dropped) = panicked
  build_filtered w k rejected (planned (best ∷ rest) dropped) =
      built (build_on w k best rest (rejected ++ map over_budget dropped))

  -- After the loop.
  unfoldable pub build_candidates :
      WorkloadSpec → PlanConstraints → List Candidate × List Rejected → BuildEnd
  unfolding build_filtered
  build_candidates w k ([], rejected) = no_feasible
  build_candidates w k (c ∷ cs, rejected) =
      build_filtered w k rejected (order_and_filter o.sort (c ∷ cs) k)

  -- The pinned target comes first, and the others are assessed as alternatives.
  unfoldable pub build_pinned :
      WorkloadSpec → PlanConstraints → List TargetConfig → Option TargetConfig → BuildEnd
  unfolding assess build_candidates
  build_pinned w k targets none = target_not_found
  build_pinned w k targets (some t) =
      let result = check_feasibility o.host_arch t w in
      let (cs, rs) = assess w k (filter (λ u. not (str_eq u.id k.target_name)) targets) in
      if result.feasible
      then build_candidates w k (candidate w k t ∷ cs, rs)
      else not_feasible result.reasons

  unfoldable pub build_targets : WorkloadSpec → PlanConstraints → Registry → BuildEnd
  unfolding build_pinned
  build_targets w k r =
      let targets = list_targets o.sort_strings r in
      if str_eq k.target_name ""
      then build_candidates w k (assess w k targets)
      else build_pinned w k targets (get r k.target_name)

  unfoldable pub build_overridden : PlanConstraints → Registry → Option WorkloadSpec → BuildEnd
  unfolding build_targets
  build_overridden k r none = invalid_gpu
  build_overridden k r (some w) = build_targets w k r

  -- Build: `none` of the inspection and of the config are their errors.
  unfoldable pub build :
      Option WorkloadSpec → Option (Option DispatcherConfig) → PlanConstraints → Registry → BuildEnd
  unfolding build_overridden
  build none cfg k r = inspection_failed
  build (some w) none k r = config_failed
  build (some w) (some cfg) k r =
      let k' = merge_config o.parse_duration cfg k in
      build_overridden k' r (apply_gpu_override o.atoi k'.require_gpu w)
