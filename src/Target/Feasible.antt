-- ===== src/Target/Feasible.antt =====
-- What feasibility means, rule by rule.
use dispatcher.Prelude.{
  String, true, false, List, [], ◌∷◌, ◌++◌, ◌≡◌, ◌≢◌, refl, ◌↔◌, arith, Any, All, when, eq_iff,
  equal_fold, codes_eq, nil_append_iff, if◌then◌else◌,
}
use dispatcher.Types.{
  WorkloadSpec, TargetConfig, WorkloadKind, WorkloadKind-discrete, service, eq_by, GpuRequirement,
  GpuCapability, ConfidentialRequirement, ConfidentialCapability,
}
use dispatcher.Target.Match.{
  confidential_gpu, required_target_for_profile, is_host_bound, normalize_arch, offers_isolation,
  offers_gpu_model, supports_kind, in_slice, gpu_reasons, tee_reasons, profile_reasons,
  attested_reasons, confidential_reasons, arch_reasons, service_reasons,
}

-- A GPU is there, and if a model is asked for it is among those offered, in any letter case.
abbrev pub GpuFits : GpuRequirement → GpuCapability → Type 0
GpuFits req gpu =
    req.required ≡ true
    → (gpu.supported ≡ true)
      × (req.model ≢ "" → Any (λ m. equal_fold m req.model ≡ true) gpu.models)

-- The TEE is there, of the type asked for; there is no GPU; a measured profile runs on its own
-- provider; and with attestation on, AWS and Azure run measured profiles only.
pub record TeeFits (w : WorkloadSpec) (t : TargetConfig) : Type 0 where
  pub supported : t.capabilities.resources.confidential.supported ≡ true
  pub offered :
      w.requirements.confidential.type ≢ ""
      → w.requirements.confidential.type ≢ "any"
      → Any (λ v. v ≡ w.requirements.confidential.type) t.capabilities.resources.confidential.types
  pub no_gpu : w.requirements.gpu.required ≡ false
  pub nitro_on_aws : w.requirements.confidential.profile ≡ "nitro" → t.id ≡ "aws-vm"
  pub snp_on_azure : w.requirements.confidential.profile ≡ "azure-snp" → t.id ≡ "azure-vm"
  pub aws_measured :
      equal_fold w.requirements.confidential.attestation "off" ≡ false
      → t.id ≡ "aws-vm"
      → w.requirements.confidential.profile ≡ "nitro"
  pub azure_measured :
      equal_fold w.requirements.confidential.attestation "off" ≡ false
      → t.id ≡ "azure-vm"
      → w.requirements.confidential.profile ≡ "azure-snp"

pub record CanRun (host_arch : String) (t : TargetConfig) (w : WorkloadSpec) : Type 0 where
  pub enabled : t.enabled ≡ true
  pub kind : Any (λ k. k ≡ w.detected_kind) t.capabilities.workload_kinds
  pub gpu : GpuFits w.requirements.gpu t.capabilities.resources.gpu
  pub tee : w.requirements.confidential.required ≡ true → TeeFits w t
  pub arch :
      is_host_bound t.kind ≡ true
      → normalize_arch w.requirements.arch ≢ []
      → codes_eq (normalize_arch w.requirements.arch) (normalize_arch host_arch) ≡ true
  pub sandbox :
      w.requirements.sandbox ≡ true → offers_isolation t.capabilities.isolation.levels ≡ true
  pub services :
      w.detected_kind ≡ service
      → All (λ ns. ns ≢ "long-running-service") t.capabilities.not_supported

pub supports_kind_iff :
    (ks : List WorkloadKind) (k : WorkloadKind) → (supports_kind ks k ≡ true) ↔ Any (λ j. j ≡ k) ks
unfolding supports_kind
supports_kind_iff [] k = (λ h. cc, λ h. absurd h)
supports_kind_iff (j ∷ ks) k =
    (λ h. ground (arith, supports_kind_iff ks k), λ h. ground (arith, supports_kind_iff ks k))

pub offers_gpu_model_iff :
    (ms : List String) (m : String)
    → (offers_gpu_model ms m ≡ true) ↔ Any (λ x. equal_fold x m ≡ true) ms
unfolding offers_gpu_model
offers_gpu_model_iff [] m = (λ h. cc, λ h. absurd h)
offers_gpu_model_iff (x ∷ ms) m =
    (λ h. ground (arith, offers_gpu_model_iff ms m), λ h. ground (arith, offers_gpu_model_iff ms m))

pub in_slice_iff : (ss : List String) (s : String) → (in_slice ss s ≡ true) ↔ Any (λ v. v ≡ s) ss
unfolding in_slice
in_slice_iff [] s = (λ h. cc, λ h. absurd h)
in_slice_iff (v ∷ ss) s = (
  λ h. ground (arith, in_slice_iff ss s, eq_iff v s),
  λ h. ground (arith, in_slice_iff ss s, eq_iff v s),
)

pub gpu_reasons_iff :
    (req : GpuRequirement) (gpu : GpuCapability) → (gpu_reasons req gpu ≡ []) ↔ GpuFits req gpu
unfolding gpu_reasons
gpu_reasons_iff req gpu = (
  λ h. ground (arith, offers_gpu_model_iff gpu.models req.model, eq_iff req.model ""),
  λ h. ground (arith, offers_gpu_model_iff gpu.models req.model, eq_iff req.model ""),
)

pub service_reasons_iff :
    (ns : List String) → (service_reasons ns ≡ []) ↔ All (λ n. n ≢ "long-running-service") ns
unfolding service_reasons
service_reasons_iff [] = (λ h. tt, λ h. refl)
service_reasons_iff (n ∷ ns) = (
  λ h. ground (arith, service_reasons_iff ns, eq_iff n "long-running-service"),
  λ h. ground (arith, service_reasons_iff ns, eq_iff n "long-running-service"),
)

pub tee_reasons_iff :
    (c : ConfidentialRequirement) (conf : ConfidentialCapability)
    → (tee_reasons c conf ≡ []) ↔ (
        (conf.supported ≡ true) × (c.type ≢ "" → c.type ≢ "any" → Any (λ v. v ≡ c.type) conf.types))
unfolding tee_reasons
tee_reasons_iff c conf = (
  λ h. ground (arith, in_slice_iff conf.types c.type, eq_iff c.type "", eq_iff c.type "any"),
  λ h. ground (arith, in_slice_iff conf.types c.type, eq_iff c.type "", eq_iff c.type "any"),
)

pub profile_reasons_iff :
    (c : ConfidentialRequirement) (id : String)
    → (profile_reasons c id ≡ [])
      ↔ ((c.profile ≡ "nitro" → id ≡ "aws-vm") × (c.profile ≡ "azure-snp" → id ≡ "azure-vm"))
unfolding profile_reasons required_target_for_profile
profile_reasons_iff c id =
    let req = required_target_for_profile c.profile in
    (
      λ h. ground (
        arith,
        eq_iff c.profile "nitro",
        eq_iff c.profile "azure-snp",
        eq_iff id req,
        eq_iff req "",
        eq_iff "aws-vm" "",
        eq_iff "azure-vm" "",
        eq_iff "azure-snp" "nitro",
      ),
      λ h. ground (
        arith,
        eq_iff c.profile "nitro",
        eq_iff c.profile "azure-snp",
        eq_iff id req,
        eq_iff req "",
        eq_iff "aws-vm" "",
        eq_iff "azure-vm" "",
        eq_iff "azure-snp" "nitro",
      ),
    )

pub attested_reasons_iff :
    (c : ConfidentialRequirement) (id : String)
    → (attested_reasons c id ≡ []) ↔ (
        (equal_fold c.attestation "off" ≡ false → id ≡ "aws-vm" → c.profile ≡ "nitro")
        × (equal_fold c.attestation "off" ≡ false → id ≡ "azure-vm" → c.profile ≡ "azure-snp"))
unfolding attested_reasons
attested_reasons_iff c id = (
  λ h. ground (
    arith,
    eq_iff c.profile "nitro",
    eq_iff c.profile "azure-snp",
    eq_iff id "aws-vm",
    eq_iff id "azure-vm",
    eq_iff "azure-vm" "aws-vm",
  ),
  λ h. ground (
    arith,
    eq_iff c.profile "nitro",
    eq_iff c.profile "azure-snp",
    eq_iff id "aws-vm",
    eq_iff id "azure-vm",
    eq_iff "azure-vm" "aws-vm",
  ),
)

abbrev ConfidentialParts : WorkloadSpec → TargetConfig → Type 0
ConfidentialParts w t =
    let c = w.requirements.confidential in
    (tee_reasons c t.capabilities.resources.confidential ≡ [])
    × (w.requirements.gpu.required ≡ false)
    × (profile_reasons c t.id ≡ [])
    × (attested_reasons c t.id ≡ [])

confidential_reasons-parts :
    (w : WorkloadSpec) (t : TargetConfig)
    → (confidential_reasons w t ≡ [])
      ↔ (w.requirements.confidential.required ≡ true → ConfidentialParts w t)
unfolding confidential_reasons
confidential_reasons-parts w t =
    let c = w.requirements.confidential in
    let tee = tee_reasons c t.capabilities.resources.confidential in
    let gpu = when w.requirements.gpu.required confidential_gpu in
    let profile = profile_reasons c t.id in
    let attested = attested_reasons c t.id in
    (
      λ h. ground (
        arith,
        nil_append_iff tee (gpu ++ (profile ++ attested)),
        nil_append_iff gpu (profile ++ attested),
        nil_append_iff profile attested,
      ),
      λ h. ground (
        arith,
        nil_append_iff tee (gpu ++ (profile ++ attested)),
        nil_append_iff gpu (profile ++ attested),
        nil_append_iff profile attested,
      ),
    )

pub confidential_reasons_iff :
    (w : WorkloadSpec) (t : TargetConfig)
    → (confidential_reasons w t ≡ []) ↔ (w.requirements.confidential.required ≡ true → TeeFits w t)
confidential_reasons_iff w t =
    let c = w.requirements.confidential in
    let conf = t.capabilities.resources.confidential in
    (
      λ h on.
          let parts = (confidential_reasons-parts w t).0 h on in
          ground (
            arith,
            tee_reasons_iff c conf,
            profile_reasons_iff c t.id,
            attested_reasons_iff c t.id,
          ),
      λ fits. (confidential_reasons-parts w t).1 (λ on.
          let f = fits on in
          (
            (tee_reasons_iff c conf).1 (f.supported, f.offered),
            f.no_gpu,
            (profile_reasons_iff c t.id).1 (f.nitro_on_aws, f.snp_on_azure),
            (attested_reasons_iff c t.id).1 (f.aws_measured, f.azure_measured),
          )),
    )

pub arch_reasons_iff :
    (host_arch : String) (w : WorkloadSpec) (t : TargetConfig)
    → (arch_reasons host_arch w t ≡ []) ↔ (
        is_host_bound t.kind ≡ true
        → normalize_arch w.requirements.arch ≢ []
        → codes_eq (normalize_arch w.requirements.arch) (normalize_arch host_arch) ≡ true)
unfolding arch_reasons
arch_reasons_iff host_arch w t = (λ h. ground arith, λ h. ground arith)

pub service_part_iff :
    (w : WorkloadSpec) (t : TargetConfig)
    → ((if eq_by WorkloadKind-discrete w.detected_kind service
          then service_reasons t.capabilities.not_supported
          else [])
        ≡ [])
      ↔ (w.detected_kind ≡ service
          → All (λ ns. ns ≢ "long-running-service") t.capabilities.not_supported)
unfolding WorkloadKind-discrete
service_part_iff w t = (
  λ h. ground (arith, service_reasons_iff t.capabilities.not_supported),
  λ h. ground (arith, service_reasons_iff t.capabilities.not_supported),
)
