-- ===== src/Policy.antt =====
-- internal/policy/gates.go: which approvals a plan needs.
use dispatcher.Prelude.{
  String, ◌≤◌, Bool, true, false, ◌&&◌, ◌||◌, not, List, [], ◌++◌, ◌≡◌, ◌≢◌, ◌↔◌, ◌⊎◌, arith, ltb,
  is_empty, when, any, any-append, any-when, str_eq,
}
use dispatcher.Types.{
  WorkloadSpec, TargetConfig, CostEstimate, PolicyRequirement, Usd, TargetKind, cloud_vm,
  kubernetes, ssh, Confidence-discrete, unknown, low, WorkloadKind-discrete, service, eq_by,
}

-- DefaultCostAutoApproveUSD, $5.
abbrev pub default_cost_auto_approve_usd : Usd
default_cost_auto_approve_usd = 50000

is_cloud_vm : TargetKind → Bool
is_cloud_vm cloud_vm = true
is_cloud_vm _ = false

unfoldable pub is_external_provider : TargetKind → Bool
is_external_provider cloud_vm = true
is_external_provider kubernetes = true
is_external_provider ssh = true
is_external_provider _ = false

unfoldable pub unconfirmed_cost : CostEstimate → TargetConfig → Bool
unfolding Confidence-discrete is_cloud_vm
unconfirmed_cost est t =
    eq_by Confidence-discrete est.confidence unknown
    || (eq_by Confidence-discrete est.confidence low && is_cloud_vm t.kind)

unfoldable pub public_service : WorkloadSpec → TargetConfig → Bool
unfolding WorkloadKind-discrete
public_service w t =
    eq_by WorkloadKind-discrete w.detected_kind service && t.capabilities.networking.public_endpoint

unfoldable pub evaluate : WorkloadSpec → TargetConfig → CostEstimate → List PolicyRequirement
evaluate w t est =
    when (unconfirmed_cost est t) (record {
      name = "unconfirmed-cost";
      reason = "cost estimate is unconfirmed (no live pricing); approval required before execution";
    })
    ++ (when (ltb default_cost_auto_approve_usd est.value) (record {
      name = "cost-approval";
      reason = "estimated cost exceeds auto-approve threshold";
    })
        ++ (when w.requirements.gpu.required
              (record { name = "gpu-approval"; reason = "GPU workloads require approval" })
            ++ (when (public_service w t) (record {
              name = "public-endpoint";
              reason = "public endpoint exposure requires approval";
            })
                ++ when (not (is_empty w.secrets) && is_external_provider t.kind) (record {
                  name = "secrets-on-external";
                  reason = "workload uses secrets on an external provider; approval required";
                }))))

-- What may run with nobody asked: a confirmed cost of at most $5, no GPU, no public service, and no
-- secrets that leave the machine.
pub record IsAutoApproved (w : WorkloadSpec) (t : TargetConfig) (est : CostEstimate) : Type 0 where
  pub priced : est.confidence ≢ unknown
  pub cloud_price_live : est.confidence ≡ low → t.kind ≢ cloud_vm
  pub cheap : est.value ≤ default_cost_auto_approve_usd
  pub no_gpu : w.requirements.gpu.required ≡ false
  pub private : w.detected_kind ≡ service → t.capabilities.networking.public_endpoint ≡ false
  pub secrets_stay :
      (w.secrets ≡ []) ⊎ ((t.kind ≢ cloud_vm) × (t.kind ≢ kubernetes) × (t.kind ≢ ssh))

-- A plan needs no approval exactly when its cost is known and, on a cloud VM, not of low
-- confidence, its cost is at most $5, there is no GPU and no public service, and there are no
-- secrets or the target is no cloud VM, cluster or SSH host.
pub evaluate-nil_iff :
    (w : WorkloadSpec) (t : TargetConfig) (est : CostEstimate)
    → (evaluate w t est ≡ []) ↔ IsAutoApproved w t est
unfolding evaluate unconfirmed_cost public_service is_external_provider
evaluate-nil_iff w t est = (λ h. ground arith, λ h. ground arith)

abbrev pub named : String → PolicyRequirement → Bool
named n req = str_eq req.name n

-- Each requirement is listed exactly under its condition.
module _ (w : WorkloadSpec) (t : TargetConfig) (est : CostEstimate) where
  pub unconfirmed_cost_lem :
      any (named "unconfirmed-cost") (evaluate w t est) ≡ unconfirmed_cost est t
  unfolding evaluate
  unconfirmed_cost_lem = simp (any-append, any-when) (ground arith)

  pub gpu_approval_lem : any (named "gpu-approval") (evaluate w t est) ≡ w.requirements.gpu.required
  unfolding evaluate
  gpu_approval_lem = simp (any-append, any-when) (ground arith)

  pub public_endpoint_lem : any (named "public-endpoint") (evaluate w t est) ≡ public_service w t
  unfolding evaluate
  public_endpoint_lem = simp (any-append, any-when) (ground arith)

  pub secrets_on_external_lem :
      any (named "secrets-on-external") (evaluate w t est)
      ≡ (not (is_empty w.secrets) && is_external_provider t.kind)
  unfolding evaluate
  secrets_on_external_lem = simp (any-append, any-when) (ground arith)
