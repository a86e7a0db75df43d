-- ===== src/Risk.antt =====
-- internal/risk/analyze.go: the risks that a plan lists.
pub mod Explains
use dispatcher.Prelude.{
  String, Bool, true, false, ◌&&◌, ◌||◌, not, List, [], ◌∷◌, ◌++◌, ◌≡◌, ◌↔◌, arith, is_empty, when,
  any, any-append, any-when, str_eq, ◌==◌, Bool-cases, inl, inr, refl,
}
use dispatcher.Types.{
  WorkloadSpec, TargetConfig, CostEstimate, DataRequirement, TargetKind, cloud_vm, docker,
  kubernetes, Confidence-discrete, unknown, low, WorkloadKind-discrete, service, eq_by,
  PolicyRequirement,
}

-- A risk is its category, with the parts that its description shows.
pub data Risk : Type 0 where
  spot_interruption cost_uncertainty runtime_uncertainty capacity_risk right_sizing : Risk
  gpu_unschedulable credential_risk network_access_risk public_endpoint_risk package_risk : Risk
  confidential_disk_residual : Risk
  data_egress_risk : String → Risk
  outputs_unretrievable : TargetKind → Risk

pub is_cloud_vm : TargetKind → Bool
is_cloud_vm cloud_vm = true
is_cloud_vm _ = false

pub tears_down_outputs : TargetKind → Bool
tears_down_outputs docker = true
tears_down_outputs kubernetes = true
tears_down_outputs _ = false

unfoldable pub is_service : WorkloadSpec → Bool
unfolding WorkloadKind-discrete
is_service w = eq_by WorkloadKind-discrete w.detected_kind service

pub gpu_risks : WorkloadSpec → TargetConfig → CostEstimate → List Risk
unfolding is_cloud_vm
gpu_risks w t est = elim w.requirements.gpu.required [
  | false ↦ []
  | true ↦
      capacity_risk
      ∷ (when (str_eq w.requirements.gpu.model "") right_sizing
          ++ when (is_cloud_vm t.kind && str_eq est.instance_type "") gpu_unschedulable)
]

-- One round of the loop over w.Data.
pub data_risk : DataRequirement → List Risk
data_risk d =
    when (str_eq d.kind "s3" || str_eq d.kind "gcs") (data_egress_risk d.details)
    ++ when (str_eq d.kind "database") network_access_risk

pub data_risks : List DataRequirement → List Risk
unfolding data_risk
data_risks [] = []
data_risks (d ∷ ds) = data_risk d ++ data_risks ds

unfoldable pub uncertain : CostEstimate → Bool
unfolding Confidence-discrete
uncertain est =
    eq_by Confidence-discrete est.confidence low || eq_by Confidence-discrete est.confidence unknown

unfoldable pub analyze : WorkloadSpec → TargetConfig → CostEstimate → Bool → List Risk
analyze w t est spot =
    when spot spot_interruption
    ++ (when (uncertain est) cost_uncertainty
        ++ (when (is_service w) runtime_uncertainty
            ++ (gpu_risks w t est
                ++ (when (not (is_empty w.secrets)) credential_risk
                    ++ (data_risks w.data_deps
                        ++ (when (is_service w && t.capabilities.networking.public_endpoint)
                              public_endpoint_risk
                            ++ (when
                                  (w.package_plan.build_required
                                    && str_eq w.package_plan.dockerfile "")
                                  package_risk
                                ++ (when w.requirements.confidential.required
                                      confidential_disk_residual
                                    ++ when (not (is_empty w.outputs) && tears_down_outputs t.kind)
                                        (outputs_unretrievable t.kind)))))))))

abbrev pub is_cost_uncertainty : Risk → Bool
is_cost_uncertainty cost_uncertainty = true
is_cost_uncertainty _ = false

abbrev pub is_capacity_risk : Risk → Bool
is_capacity_risk capacity_risk = true
is_capacity_risk _ = false

abbrev pub is_credential_risk : Risk → Bool
is_credential_risk credential_risk = true
is_credential_risk _ = false

abbrev pub is_public_endpoint_risk : Risk → Bool
is_public_endpoint_risk public_endpoint_risk = true
is_public_endpoint_risk _ = false

-- The loop over the data adds only the two risks of data.
any-data_risks :
    (p : Risk → Bool) (ds : List DataRequirement)
    → ((s : String) → p (data_egress_risk s) ≡ false)
    → p network_access_risk ≡ false
    → any p (data_risks ds) ≡ false
unfolding data_risks
any-data_risks p [] h k = refl
any-data_risks p (d ∷ ds) h k =
    simp (any-append, any-when, any-data_risks p ds h k, h d.details, k) (ground arith)

any-gpu_risks :
    (p : Risk → Bool) (w : WorkloadSpec) (t : TargetConfig) (est : CostEstimate)
    → p right_sizing ≡ false
    → p gpu_unschedulable ≡ false
    → any p (gpu_risks w t est) ≡ (w.requirements.gpu.required && p capacity_risk)
unfolding gpu_risks
any-gpu_risks p w t est h k = ground arith

module _ (w : WorkloadSpec) (t : TargetConfig) (est : CostEstimate) (spot : Bool) where
  pub cost_uncertainty_lem : any is_cost_uncertainty (analyze w t est spot) ≡ uncertain est
  unfolding analyze
  cost_uncertainty_lem =
      simp
        (
          any-append,
          any-when,
          any-data_risks is_cost_uncertainty w.data_deps (λ s. refl) refl,
          any-gpu_risks is_cost_uncertainty w t est refl refl,
        )
        (ground arith)

  pub capacity_risk_lem : any is_capacity_risk (analyze w t est spot) ≡ w.requirements.gpu.required
  unfolding analyze
  capacity_risk_lem =
      simp
        (
          any-append,
          any-when,
          any-data_risks is_capacity_risk w.data_deps (λ s. refl) refl,
          any-gpu_risks is_capacity_risk w t est refl refl,
        )
        (ground arith)

  pub credential_risk_lem : any is_credential_risk (analyze w t est spot) ≡ not (is_empty w.secrets)
  unfolding analyze
  credential_risk_lem =
      simp
        (
          any-append,
          any-when,
          any-data_risks is_credential_risk w.data_deps (λ s. refl) refl,
          any-gpu_risks is_credential_risk w t est refl refl,
        )
        (ground arith)

  pub public_endpoint_risk_lem :
      any is_public_endpoint_risk (analyze w t est spot)
      ≡ (is_service w && t.capabilities.networking.public_endpoint)
  unfolding analyze
  public_endpoint_risk_lem =
      simp
        (
          any-append,
          any-when,
          any-data_risks is_public_endpoint_risk w.data_deps (λ s. refl) refl,
          any-gpu_risks is_public_endpoint_risk w t est refl refl,
        )
        (ground arith)
