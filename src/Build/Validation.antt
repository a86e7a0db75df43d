-- ===== src/Build/Validation.antt =====
-- internal/plan/build.go: validate.
use dispatcher.Prelude.{true, ◌&&◌, ◌≡◌, ◌≢◌, ◌↔◌, arith, str_eq, is_empty, if◌then◌else◌}
use dispatcher.Types.{
  WorkloadSpec, CostEstimate, Confidence-discrete, unknown, eq_by, ValidationResult, pass, fail,
  skipped, warn, is_valid,
}

-- The target is not looked at.
unfoldable pub validate : WorkloadSpec → CostEstimate → ValidationResult
unfolding Confidence-discrete
validate w est = record {
  schema = pass;
  package_build =
      if w.package_plan.build_required
        && str_eq w.package_plan.dockerfile ""
        && str_eq w.package_plan.base_image ""
      then warn
      else pass;
  target_capabilities = pass;
  credentials = if is_empty w.secrets then skipped else warn;
  quota = skipped;
  network = pass;
  policy = pass;
  cost_estimate = if eq_by Confidence-discrete est.confidence unknown then fail else pass;
  cleanup_plan = pass;
}

-- The validation that a plan carries passes exactly when its cost is known: warnings about the
-- package and the secrets do not fail it.
pub validate_passes_iff :
    (w : WorkloadSpec) (est : CostEstimate)
    → (is_valid (validate w est) ≡ true) ↔ (est.confidence ≢ unknown)
unfolding is_valid validate
validate_passes_iff w est = (λ h. ground arith, λ h. ground arith)
