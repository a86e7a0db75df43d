-- ===== src/Adapter.antt =====
-- internal/adapter/adapter.go: what an execution target hands to the executor.
pub mod Classify
pub mod Message
pub mod Resources
use dispatcher.Prelude.{ℕ, String, Bool, List, [], ℤ, pos, false}

pub record ArtifactRef : Type 0 where
  pub name : String
  pub path : String
  pub size : ℕ

pub record CleanupResult : Type 0 where
  pub success : Bool
  pub resources_cleaned : List String
  pub errors : List String

-- The adapter's opaque state is its serialised text.
pub record RunHandle : Type 0 where
  pub id : String
  pub target_id : String
  pub state : String
  pub run_id : String

pub record FailureDetails : Type 0 where
  pub exit_code : ℤ
  pub signal : String
  pub oom_killed : Bool
  pub reclaimed : Bool
  pub message : String

-- The zero value of FailureDetails.
abbrev pub no_details : FailureDetails
no_details = record {
  exit_code = pos 0;
  signal = "";
  oom_killed = false;
  reclaimed = false;
  message = "";
}
