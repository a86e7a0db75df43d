-- ===== src/Types/Targets.antt =====
-- internal/types/target.go: execution targets and what they can do.
use dispatcher.Prelude.{ℕ, String, Bool, List, Option}
use dispatcher.Types.Workloads.{WorkloadKind}

-- `other` is any string that is none of the constants.
pub data TargetKind : Type 0 where
  local local_vm docker ssh kubernetes cloud_vm : TargetKind
  other : String → TargetKind

pub record GpuCapability : Type 0 where
  pub supported : Bool
  pub models : List String

pub record NetworkingCapability : Type 0 where
  pub public_endpoint : Bool
  pub private_vpc_access : Bool
  pub static_egress_ip : Bool

pub record AccountingCapability : Type 0 where
  pub cost_estimate : Bool
  pub actual_billing : Bool
  pub rate_card : String

pub record IsolationCapability : Type 0 where
  pub levels : List String

pub record ObservabilityCapability : Type 0 where
  pub logs : Bool
  pub metrics : Bool
  pub artifacts : Bool

pub record ConfidentialCapability : Type 0 where
  pub supported : Bool
  pub types : List String

pub record ResourceCapability : Type 0 where
  pub cpu : Bool
  pub memory : Bool
  pub gpu : GpuCapability
  pub confidential : ConfidentialCapability

pub record Capabilities : Type 0 where
  pub workload_kinds : List WorkloadKind
  pub resources : ResourceCapability
  pub networking : NetworkingCapability
  pub accounting : AccountingCapability
  pub isolation : IsolationCapability
  pub observability : ObservabilityCapability
  pub not_supported : List String

pub record SshTargetConfig : Type 0 where
  pub host : String
  pub user : String
  pub port : ℕ
  pub key_file : String

pub record TargetConfig : Type 0 where
  pub id : String
  pub kind : TargetKind
  pub enabled : Bool
  pub capabilities : Capabilities
  pub ssh : Option SshTargetConfig
