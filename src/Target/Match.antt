-- ===== src/Target/Match.antt =====
-- internal/target/match.go: CheckFeasibility. `host_arch` is runtime.GOARCH. Letter case and
-- spaces are those of ASCII.
use dispatcher.Prelude.{
  ℕ, String, Bool, true, false, ◌&&◌, not, List, [], ◌∷◌, ◌++◌, if◌then◌else◌, any, when, is_empty,
  str_eq, equal_fold, to_lower, trim_space, codes, codes_eq,
}
use dispatcher.Types.{
  WorkloadSpec, TargetConfig, WorkloadKind, WorkloadKind-discrete, service, eq_by, TargetKind,
  local, local_vm, docker, ssh, kubernetes, cloud_vm, other, GpuRequirement, GpuCapability,
  ConfidentialRequirement, ConfidentialCapability,
}

-- One constructor for each message, with the parts that it shows.
pub data Reason : Type 0 where
  target_disabled gpu_not_supported confidential_not_supported confidential_gpu : Reason
  nitro_required azure_snp_required sandbox_required services_not_supported : Reason
  kind_not_supported : WorkloadKind → Reason
  gpu_models_unknown : String → Reason
  gpu_model_not_offered confidential_type_not_offered : String → List String → Reason
  profile_requires_target : String → String → Reason
  arch_mismatch : List ℕ → List ℕ → Reason

pub record FeasibilityResult : Type 0 where
  pub feasible : Bool
  pub reasons : List Reason

-- RequiredTargetForProfile.
unfoldable pub required_target_for_profile : String → String
required_target_for_profile profile =
    if str_eq profile "nitro"
    then "aws-vm"
    else if str_eq profile "azure-snp"
    then "azure-vm"
    else ""

unfoldable pub is_host_bound : TargetKind → Bool
is_host_bound local = true
is_host_bound docker = true
is_host_bound local_vm = true
is_host_bound _ = false

in_codes : List ℕ → List String → Bool
in_codes a names = any (λ n. codes_eq a (codes n)) names

unfoldable pub normalize_arch : String → List ℕ
unfolding in_codes
normalize_arch a =
    let s = to_lower (trim_space (codes a)) in
    if in_codes s ("amd64" ∷ "x86_64" ∷ "x86-64" ∷ "x64" ∷ [])
    then codes "amd64"
    else if in_codes s ("arm64" ∷ "aarch64" ∷ [])
    then codes "arm64"
    else s

unfoldable pub offers_isolation : List String → Bool
offers_isolation levels = any (λ l. not (str_eq l "") && not (equal_fold l "process")) levels

unfoldable pub offers_gpu_model : List String → String → Bool
offers_gpu_model models m = any (λ x. equal_fold x m) models

unfoldable pub supports_kind : List WorkloadKind → WorkloadKind → Bool
unfolding WorkloadKind-discrete
supports_kind supported kind = any (λ k. eq_by WorkloadKind-discrete k kind) supported

-- inSlice of registry.go.
unfoldable pub in_slice : List String → String → Bool
in_slice ss s = any (λ v. str_eq v s) ss

unfoldable pub gpu_reasons : GpuRequirement → GpuCapability → List Reason
gpu_reasons req gpu =
    if not req.required
    then []
    else if not gpu.supported
    then gpu_not_supported ∷ []
    else if str_eq req.model ""
    then []
    else if is_empty gpu.models
    then gpu_models_unknown req.model ∷ []
    else when (not (offers_gpu_model gpu.models req.model))
        (gpu_model_not_offered req.model gpu.models)

unfoldable pub tee_reasons : ConfidentialRequirement → ConfidentialCapability → List Reason
tee_reasons c conf =
    if not conf.supported
    then confidential_not_supported ∷ []
    else when
        (not (str_eq c.type "") && not (str_eq c.type "any") && not (in_slice conf.types c.type))
        (confidential_type_not_offered c.type conf.types)

unfoldable pub profile_reasons : ConfidentialRequirement → String → List Reason
profile_reasons c id =
    let req = required_target_for_profile c.profile in
    when (not (str_eq req "") && not (str_eq id req)) (profile_requires_target c.profile req)

unfoldable pub attested_reasons : ConfidentialRequirement → String → List Reason
attested_reasons c id =
    if equal_fold c.attestation "off"
    then []
    else if str_eq id "aws-vm"
    then when (not (str_eq c.profile "nitro")) nitro_required
    else if str_eq id "azure-vm"
    then when (not (str_eq c.profile "azure-snp")) azure_snp_required
    else []

unfoldable pub confidential_reasons : WorkloadSpec → TargetConfig → List Reason
confidential_reasons w t =
    let c = w.requirements.confidential in
    if c.required
    then tee_reasons c t.capabilities.resources.confidential
      ++ (when w.requirements.gpu.required confidential_gpu
          ++ (profile_reasons c t.id ++ attested_reasons c t.id))
    else []

unfoldable pub arch_reasons : String → WorkloadSpec → TargetConfig → List Reason
arch_reasons host_arch w t =
    let a = normalize_arch w.requirements.arch in
    let host = normalize_arch host_arch in
    when (not (is_empty a) && is_host_bound t.kind && not (codes_eq a host)) (arch_mismatch a host)

-- The loop over NotSupported.
unfoldable pub service_reasons : List String → List Reason
service_reasons [] = []
service_reasons (ns ∷ rest) =
    when (str_eq ns "long-running-service") services_not_supported ++ service_reasons rest

unfoldable pub reasons : String → TargetConfig → WorkloadSpec → List Reason
unfolding WorkloadKind-discrete
reasons host_arch t w =
    when (not (supports_kind t.capabilities.workload_kinds w.detected_kind))
      (kind_not_supported w.detected_kind)
    ++ (gpu_reasons w.requirements.gpu t.capabilities.resources.gpu
        ++ (confidential_reasons w t
            ++ (arch_reasons host_arch w t
                ++ (when
                      (w.requirements.sandbox
                        && not (offers_isolation t.capabilities.isolation.levels))
                      sandbox_required
                    ++ (if eq_by WorkloadKind-discrete w.detected_kind service
                        then service_reasons t.capabilities.not_supported
                        else [])))))

unfoldable pub check_feasibility : String → TargetConfig → WorkloadSpec → FeasibilityResult
check_feasibility host_arch t w =
    if not t.enabled
    then record { feasible = false; reasons = target_disabled ∷ [] }
    else let rs = reasons host_arch t w in record { feasible = is_empty rs; reasons = rs }

-- RuntimeForTarget.
unfoldable pub runtime_for_target : TargetKind → String
runtime_for_target local = "local-process"
runtime_for_target local_vm = "local-vm"
runtime_for_target docker = "local-docker"
runtime_for_target ssh = "ssh-remote"
runtime_for_target kubernetes = "kubernetes-deployment"
runtime_for_target cloud_vm = "cloud-vm"
runtime_for_target (other s) = s
