-- ===== src/Run/Cost.antt =====
-- internal/run/cost.go: what a run has cost so far. The Go code computes with floats and cuts to
-- four decimals; here the quotient is exact and cut the same way.
pub mod Growth
use dispatcher.Prelude.{
  ◌-◌, ◌*◌, ◌/◌, ◌&&◌, not, [], ◌∷◌, Option, none, some, ◌==◌, ltb, if◌then◌else◌, is_some,
}
use dispatcher.Types.{
  Time, Duration, hour, CostEstimate, Plan, WorkloadKind, WorkloadKind-discrete, service, eq_by,
}
use dispatcher.Run.State.{Run, no_cost, set_cost}

-- Started and not finished: until now; clamped at 0, as `-` is.
unfoldable pub elapsed : Run → Time → Duration
elapsed r now =
    if r.started_at == 0
    then 0
    else if r.finished_at == 0
    then now - r.started_at
    else r.finished_at - r.started_at

-- cost.DefaultDurationHours, and 24 hours for a service.
unfoldable pub assumed_duration : WorkloadKind → Duration
unfolding WorkloadKind-discrete
assumed_duration kind = if eq_by WorkloadKind-discrete kind service then 24 * hour else 1 * hour

-- The recommendation's estimate, unless there is no plan.
unfoldable pub planned_cost : Option Plan → Option (CostEstimate × WorkloadKind)
planned_cost none = none
planned_cost (some p) = elim p.recommendation [
  | none ↦ none
  | some rec ↦ some (rec.estimated_cost, p.workload.detected_kind)
]

unfoldable pub scaled_cost : CostEstimate → WorkloadKind → Duration → CostEstimate
unfolding assumed_duration
scaled_cost base kind d = if d == 0 then base else record {
  value = base.value * d / assumed_duration kind;
  confidence = base.confidence;
  assumptions = "cost scaled from rate card based on actual runtime" ∷ [];
  exclusions = [];
  instance_type = "";
  spot_ratio = 0;
}

-- Run.ComputeLiveCost.
unfoldable pub compute_live_cost : Run → Time → CostEstimate
unfolding elapsed scaled_cost planned_cost
compute_live_cost r now = elim (planned_cost r.plan) [
  | none ↦ no_cost
  | some (base, kind) ↦ scaled_cost base kind (elapsed r now)
]

-- Run.FinalizeCost.
unfoldable pub finalize_cost : Run → Time → Run
unfolding planned_cost set_cost
finalize_cost r now =
    if not (is_some (planned_cost r.plan)) && ltb 0 r.cost.value
    then r
    else set_cost r (compute_live_cost r now)
