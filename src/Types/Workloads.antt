-- ===== src/Types/Workloads.antt =====
-- internal/types/workload.go and shard.go: the detected shape of a workload.
use dispatcher.Prelude.{ℕ, String, Bool, List, ltb, not, ◌||◌, str_eq}

pub data WorkloadKind : Type 0 where
  script job service gpu_job sandbox container unknown_kind : WorkloadKind

unfoldable pub WorkloadKind-discrete : Discrete WorkloadKind
WorkloadKind-discrete = hlevel

pub data Runtime : Type 0 where
  python node go rust java ruby unknown_runtime : Runtime

pub data PackageType : Type 0 where
  container_package script_package image_package : PackageType

pub record GpuRequirement : Type 0 where
  pub required : Bool
  pub count : ℕ
  pub model : String
  pub framework : String

pub record ConfidentialRequirement : Type 0 where
  pub required : Bool
  pub type : String
  pub profile : String
  pub attestation : String
  pub measurements : List String
  pub min_tcb : ℕ

pub record ResourceRequirements : Type 0 where
  pub cpu : String
  pub memory : String
  pub arch : String
  pub gpu : GpuRequirement
  pub confidential : ConfidentialRequirement
  pub sandbox : Bool

pub record PackagePlan : Type 0 where
  pub type : PackageType
  pub dockerfile : String
  pub build_required : Bool
  pub base_image : String

pub record SecretRef : Type 0 where
  pub kind : String
  pub location : String
  pub name : String

pub record DataRequirement : Type 0 where
  pub kind : String
  pub location : String
  pub details : String

pub record ShardSpec : Type 0 where
  pub count : ℕ
  pub discover : String
  pub max_parallel : ℕ
  pub outputs : List String
  pub on_shard_failure : String

-- ShardSpec.Enabled.
unfoldable pub enabled : ShardSpec → Bool
enabled s = ltb 0 s.count || not (str_eq s.discover "")

pub record WorkloadSource : Type 0 where
  pub type : String
  pub path : String

pub record WorkloadSpec : Type 0 where
  pub name : String
  pub detected_kind : WorkloadKind
  pub source : WorkloadSource
  pub runtime : Runtime
  pub entrypoints : List String
  pub package_plan : PackagePlan
  pub command : List String
  pub ports : List ℕ
  pub requirements : ResourceRequirements
  pub secrets : List SecretRef
  pub data_deps : List DataRequirement
  pub outputs : List String
  pub shard : ShardSpec
  pub env : List (String × String)
