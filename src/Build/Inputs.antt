-- ===== src/Build/Inputs.antt =====
-- internal/plan/build.go: what Build makes of the config file and of --gpu, and the texts of a plan.
-- time.ParseDuration and strconv.Atoi are parameters.
use Prim.Native.Char.{code}
use dispatcher.Prelude.{
  ℕ, ℤ, pos, suc, String, Bool, true, false, ◌&&◌, not, List, [], ◌∷◌, ◌++◌, Option, none, some,
  ◌==◌, if◌then◌else◌, str_eq, when, is_empty,
}
use dispatcher.Types.{
  Duration, Usd, PlanConstraints, WorkloadSpec, WorkloadKind-discrete, gpu_job, service, eq_by,
  TargetConfig, TargetKind, local, local_vm, docker, kubernetes, cloud_vm,
}

-- The fields of dispatcher.yaml that constrain a plan.
pub record DispatcherConfig : Type 0 where
  pub max_cost : Usd
  pub max_time : String
  pub target : String
  pub region : String
  pub watchdog_ttl : String
  pub retry_transient_failures : Option Bool
  pub spot : Bool

-- A value that no flag gave, from the file.
abbrev pub or_number : ℕ → ℕ → ℕ
or_number flag file = if flag == 0 then file else flag

abbrev pub or_text : String → String → String
or_text flag file = if str_eq flag "" then file else flag

-- A text that does not parse leaves the flag's value.
or_duration : (String → Option Duration) → Duration → String → Duration
or_duration parse flag file =
    if flag == 0 && not (str_eq file "")
    then elim (parse file) [ none ↦ flag | some d ↦ d ]
    else flag

or_flag : Bool → Option Bool → Bool
or_flag flag none = flag
or_flag flag (some b) = if flag then flag else b

-- The merge of the file into the constraints; the flags take precedence.
unfoldable pub merge_config :
    (String → Option Duration) → Option DispatcherConfig → PlanConstraints → PlanConstraints
unfolding or_duration or_flag
merge_config parse none k = k
merge_config parse (some cfg) k = record k {
  max_estimated_cost_usd = or_number k.max_estimated_cost_usd cfg.max_cost;
  max_duration = or_duration parse k.max_duration cfg.max_time;
  target_name = or_text k.target_name cfg.target;
  region = or_text k.region cfg.region;
  watchdog_ttl = or_duration parse k.watchdog_ttl cfg.watchdog_ttl;
  retry_transient_failures = or_flag k.retry_transient_failures cfg.retry_transient_failures;
  spot = if k.spot then k.spot else cfg.spot;
}

-- strings.SplitN(s, ":", 2), where there is a colon.
unfoldable pub split_colon : String → Option (String × String)
split_colon String.[] = none
split_colon (String.◌∷◌ c s) =
    let rest = split_colon s in
    if code c == 58
    then some ("", s)
    else elim rest [ none ↦ none | some (a, b) ↦ some (String.◌∷◌ c a, b) ]

positive : Option ℤ → Option ℕ
positive (some (pos (suc n))) = some (suc n)
positive _ = none

-- The model and the count; `none` is an invalid value.
unfoldable pub parse_gpu : (String → Option ℤ) → String → Option (String × ℕ)
unfolding split_colon positive
parse_gpu atoi gpu = elim (split_colon gpu) [
  | none ↦ elim (positive (atoi gpu)) [ none ↦ none | some n ↦ some ("", n) ]
  | some (model, count) ↦ elim (positive (atoi count)) [ none ↦ none | some n ↦ some (model, n) ]
]

-- The requirement that --gpu puts in place of the detected one.
abbrev pub with_gpu : String → ℕ → WorkloadSpec → WorkloadSpec
with_gpu model n w = record w {
  detected_kind = gpu_job;
  requirements = record w.requirements {
    gpu = record { required = true; count = n; model = model; framework = "" };
  };
}

-- applyGPUOverride, where --gpu is given; `none` is its error.
unfoldable pub apply_gpu_override :
    (String → Option ℤ) → String → WorkloadSpec → Option WorkloadSpec
unfolding parse_gpu
apply_gpu_override atoi gpu w =
    if str_eq gpu ""
    then some w
    else elim (parse_gpu atoi gpu) [ none ↦ none | some (model, n) ↦ some (with_gpu model n w) ]

abbrev is_local : TargetKind → Bool
is_local local = true
is_local local_vm = true
is_local docker = true
is_local _ = false

abbrev is_process : TargetKind → Bool
is_process local = true
is_process _ = false

abbrev is_vm : TargetKind → Bool
is_vm local_vm = true
is_vm _ = false

port_reason : (ℕ → String) → List ℕ → List String
port_reason port_note [] = []
port_reason port_note (p ∷ ps) = port_note p ∷ []

-- buildReasons; the notes are the texts on a port and on a GPU framework.
unfoldable pub build_reasons :
    (ℕ → String) → (String → String) → WorkloadSpec → TargetConfig → List String
unfolding port_reason
build_reasons port_note gpu_note w t =
    when (not (str_eq w.package_plan.dockerfile "")) "workload is containerized"
    ++ (port_reason port_note w.ports
        ++ ((if not w.requirements.gpu.required
              then "no GPU required"
              else gpu_note w.requirements.gpu.framework)
            ∷ (when (is_local t.kind) "local execution has zero marginal cost"
                ++ (when (is_process t.kind) "runs as local process, no container overhead"
                    ++ (when (is_vm t.kind) "runs in isolated local VM"
                        ++ when t.capabilities.networking.private_vpc_access
                            "target has private network access")))))

tradeoffs_of : TargetKind → TargetKind → List String
tradeoffs_of cloud_vm best = "more isolation" ∷ "more setup and cleanup overhead" ∷ []
tradeoffs_of docker docker = []
tradeoffs_of docker best = "zero marginal cost" ∷ "limited to local resources" ∷ []
tradeoffs_of kubernetes best = "production-grade orchestration" ∷ "requires cluster access" ∷ []
tradeoffs_of _ best = []

-- buildTradeoffs.
unfoldable pub build_tradeoffs : TargetKind → TargetKind → List String
unfolding tradeoffs_of
build_tradeoffs alt best =
    let ts = tradeoffs_of alt best in
    if is_empty ts then "different operational characteristics" ∷ [] else ts

is_docker : TargetKind → Bool
is_docker docker = true
is_docker _ = false

-- buildExecutionSteps.
unfoldable pub build_execution_steps : WorkloadSpec → TargetConfig → List String
unfolding is_docker WorkloadKind-discrete
build_execution_steps w t =
    when w.package_plan.build_required "build-image"
    ++ (when (w.package_plan.build_required && not (is_docker t.kind)) "push-image"
        ++ ((if eq_by WorkloadKind-discrete w.detected_kind service
              then "deploy-service" ∷ "wait-for-health-check" ∷ []
              else "run-workload" ∷ [])
            ++ "stream-logs" ∷ "track-cost" ∷ "register-cleanup" ∷ []))
