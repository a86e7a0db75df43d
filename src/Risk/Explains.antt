-- ===== src/Risk/Explains.antt =====
-- gates.go and analyze.go side by side: what needs an approval is also explained as a risk.
use dispatcher.Prelude.{Bool, true, ◌≡◌, ◌∙◌, sym, arith, any}
use dispatcher.Types.{WorkloadSpec, TargetConfig, CostEstimate}
use dispatcher.Policy.{
  evaluate, named, unconfirmed_cost, public_service, unconfirmed_cost_lem, gpu_approval_lem,
  public_endpoint_lem, secrets_on_external_lem,
}
use dispatcher.Risk.{
  analyze, uncertain, is_service, is_cost_uncertainty, is_capacity_risk, is_credential_risk,
  is_public_endpoint_risk, cost_uncertainty_lem, capacity_risk_lem, credential_risk_lem,
  public_endpoint_risk_lem,
}

-- The plan shows the risk behind each approval that it asks for: an unconfirmed cost is listed as
-- cost uncertainty, a GPU as a capacity risk, a public endpoint as one, and secrets on an external
-- provider as a credential risk. A GPU and a public endpoint are risks only where they need an
-- approval.
pub record Explained (w : WorkloadSpec) (t : TargetConfig) (est : CostEstimate) (spot : Bool)
    : Type 0 where
  pub cost :
      any (named "unconfirmed-cost") (evaluate w t est) ≡ true
      → any is_cost_uncertainty (analyze w t est spot) ≡ true
  pub gpu :
      any is_capacity_risk (analyze w t est spot) ≡ any (named "gpu-approval") (evaluate w t est)
  pub endpoint :
      any is_public_endpoint_risk (analyze w t est spot)
      ≡ any (named "public-endpoint") (evaluate w t est)
  pub secrets :
      any (named "secrets-on-external") (evaluate w t est) ≡ true
      → any is_credential_risk (analyze w t est spot) ≡ true

-- An approval for an unconfirmed cost comes with the risk of cost uncertainty, and one for secrets
-- on an external provider with the credential risk; an approval for a GPU is asked for exactly when
-- the capacity risk is listed, and one for a public endpoint exactly when its risk is.
pub approvals-Explained :
    (w : WorkloadSpec) (t : TargetConfig) (est : CostEstimate) (spot : Bool)
    → Explained w t est spot
unfolding unconfirmed_cost uncertain public_service is_service
approvals-Explained w t est spot = record {
  cost = rw (cost_uncertainty_lem w t est spot, unconfirmed_cost_lem w t est) (ground arith);
  gpu = capacity_risk_lem w t est spot ∙ sym (gpu_approval_lem w t est);
  endpoint = public_endpoint_risk_lem w t est spot ∙ sym (public_endpoint_lem w t est);
  secrets = rw (credential_risk_lem w t est spot, secrets_on_external_lem w t est) (ground arith);
}
