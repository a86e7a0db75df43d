-- ===== src/Types/Plans.antt =====
-- internal/types/plan.go: estimates, constraints, validation and the plan itself.
use dispatcher.Prelude.{String, Bool, List, [], ◌∷◌, Option, not, any, ℕ}
use dispatcher.Types.Money.{Usd, Time, Duration, eq_by}
use dispatcher.Types.Workloads.{WorkloadSpec}

pub data Confidence : Type 0 where
  high medium low unknown : Confidence

unfoldable pub Confidence-discrete : Discrete Confidence
Confidence-discrete = hlevel

pub data OptimizeGoal : Type 0 where
  optimize_cost optimize_speed : OptimizeGoal

-- The currency is always USD. The assumptions and exclusions are notes to the reader; SpotRatio
-- is kept in 1/10000.
pub record CostEstimate : Type 0 where
  pub value : Usd
  pub confidence : Confidence
  pub assumptions : List String
  pub exclusions : List String
  pub instance_type : String
  pub spot_ratio : ℕ

pub record PlanMetadata : Type 0 where
  pub id : String
  pub created_at : Time
  pub created_by : String

pub record PlanConstraints : Type 0 where
  pub target_scope : String
  pub optimize_for : OptimizeGoal
  pub max_estimated_cost_usd : Usd
  pub max_duration : Duration
  pub require_gpu : String
  pub target_name : String
  pub region : String
  pub watchdog_ttl : Duration
  pub retry_transient_failures : Bool
  pub allow_ssh_from : String
  pub spot : Bool

pub record Recommendation : Type 0 where
  pub target : String
  pub runtime : String
  pub estimated_cost : CostEstimate
  pub reason : List String

pub data ValidationStatus : Type 0 where
  pass fail skipped warn : ValidationStatus

unfoldable pub ValidationStatus-discrete : Discrete ValidationStatus
ValidationStatus-discrete = hlevel

pub record ValidationResult : Type 0 where
  pub schema : ValidationStatus
  pub package_build : ValidationStatus
  pub target_capabilities : ValidationStatus
  pub credentials : ValidationStatus
  pub quota : ValidationStatus
  pub network : ValidationStatus
  pub policy : ValidationStatus
  pub cost_estimate : ValidationStatus
  pub cleanup_plan : ValidationStatus

-- ValidationResult.IsValid.
unfoldable pub is_valid : ValidationResult → Bool
unfolding ValidationStatus-discrete
is_valid v = not (
    any (λ s. eq_by ValidationStatus-discrete s fail)
      (v.schema ∷ v.package_build ∷ v.target_capabilities ∷ v.credentials ∷ v.quota ∷ v.network
        ∷ v.policy ∷ v.cost_estimate ∷ v.cleanup_plan ∷ []))

pub record PolicyRequirement : Type 0 where
  pub name : String
  pub reason : String

-- The alternatives, rejected targets, risks and execution steps of a plan are for the reader, and
-- no run looks at them: they are outputs of plan.Build, not fields here.
pub record Plan : Type 0 where
  pub metadata : PlanMetadata
  pub workload : WorkloadSpec
  pub constraints : PlanConstraints
  pub recommendation : Option Recommendation
  pub validation : ValidationResult
  pub required_approvals : List PolicyRequirement
