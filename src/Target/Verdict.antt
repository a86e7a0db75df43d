-- ===== src/Target/Verdict.antt =====
-- The verdict of CheckFeasibility as a whole.
use dispatcher.Prelude.{
  String, true, List, [], ◌++◌, ◌≡◌, ◌↔◌, arith, not, ◌&&◌, when, nil_append_iff, if◌then◌else◌,
}
use dispatcher.Types.{WorkloadSpec, TargetConfig, WorkloadKind-discrete, service, eq_by}
use dispatcher.Target.Match.{
  Reason, kind_not_supported, sandbox_required, supports_kind, offers_isolation, gpu_reasons,
  confidential_reasons, arch_reasons, service_reasons, reasons, check_feasibility,
}
use dispatcher.Target.Feasible.{
  CanRun, supports_kind_iff, gpu_reasons_iff, confidential_reasons_iff, arch_reasons_iff,
  service_part_iff,
}

abbrev ReasonParts : String → TargetConfig → WorkloadSpec → Type 0
ReasonParts host t w =
    (supports_kind t.capabilities.workload_kinds w.detected_kind ≡ true)
    × (gpu_reasons w.requirements.gpu t.capabilities.resources.gpu ≡ [])
    × (confidential_reasons w t ≡ [])
    × (arch_reasons host w t ≡ [])
    × (w.requirements.sandbox ≡ true → offers_isolation t.capabilities.isolation.levels ≡ true)
    × ((if eq_by WorkloadKind-discrete w.detected_kind service
          then service_reasons t.capabilities.not_supported
          else [])
        ≡ [])

reasons-parts :
    (host : String) (t : TargetConfig) (w : WorkloadSpec)
    → (reasons host t w ≡ []) ↔ ReasonParts host t w
unfolding reasons
reasons-parts host t w =
    let kind =
      when (not (supports_kind t.capabilities.workload_kinds w.detected_kind))
        (kind_not_supported w.detected_kind) in
    let gpu = gpu_reasons w.requirements.gpu t.capabilities.resources.gpu in
    let tee = confidential_reasons w t in
    let arch = arch_reasons host w t in
    let box =
      when (w.requirements.sandbox && not (offers_isolation t.capabilities.isolation.levels))
        sandbox_required in
    let services : List Reason =
      if eq_by WorkloadKind-discrete w.detected_kind service
      then service_reasons t.capabilities.not_supported
      else [] in
    (
      λ h. ground (
        arith,
        nil_append_iff kind (gpu ++ (tee ++ (arch ++ (box ++ services)))),
        nil_append_iff gpu (tee ++ (arch ++ (box ++ services))),
        nil_append_iff tee (arch ++ (box ++ services)),
        nil_append_iff arch (box ++ services),
        nil_append_iff box services,
      ),
      λ h. ground (
        arith,
        nil_append_iff kind (gpu ++ (tee ++ (arch ++ (box ++ services)))),
        nil_append_iff gpu (tee ++ (arch ++ (box ++ services))),
        nil_append_iff tee (arch ++ (box ++ services)),
        nil_append_iff arch (box ++ services),
        nil_append_iff box services,
      ),
    )

feasible-reasons :
    (host : String) (t : TargetConfig) (w : WorkloadSpec)
    → ((check_feasibility host t w).feasible ≡ true)
      ↔ ((t.enabled ≡ true) × (reasons host t w ≡ []))
unfolding check_feasibility
feasible-reasons host t w = (λ h. ground arith, λ h. ground arith)

-- A target is feasible exactly when it is enabled, supports the workload's kind, has the GPU and
-- its model, keeps the confidential rules if they apply, matches the architecture if it is bound to
-- the host, isolates a sandboxed workload, and supports services if the workload is one.
pub feasible_iff :
    (host : String) (t : TargetConfig) (w : WorkloadSpec)
    → ((check_feasibility host t w).feasible ≡ true) ↔ CanRun host t w
feasible_iff host t w = (
  λ h.
      let (on, none) = (feasible-reasons host t w).0 h in
      let (kind, gpu, tee, arch, box, services) = (reasons-parts host t w).0 none in
      record {
        enabled = on;
        kind = (supports_kind_iff _ _).0 kind;
        gpu = (gpu_reasons_iff _ _).0 gpu;
        tee = (confidential_reasons_iff w t).0 tee;
        arch = (arch_reasons_iff host w t).0 arch;
        sandbox = box;
        services = (service_part_iff w t).0 services;
      },
  λ c. (feasible-reasons host t w).1 (
    c.enabled,
    (reasons-parts host t w).1 (
      (supports_kind_iff _ _).1 c.kind,
      (gpu_reasons_iff _ _).1 c.gpu,
      (confidential_reasons_iff w t).1 c.tee,
      (arch_reasons_iff host w t).1 c.arch,
      c.sandbox,
      (service_part_iff w t).1 c.services,
    ),
  ),
)
