-- ===== src/Types/States.antt =====
-- internal/types/run.go: the states of a run.
use dispatcher.Prelude.{Bool, true, false}

pub data RunState : Type 0 where
  created planning validated awaiting_approval preparing running : RunState
  collecting_artifacts reconciling_cost cleaning_up completed stopping : RunState
  plan_invalid approval_denied package_failed provisioning_failed execution_failed : RunState
  budget_exceeded artifact_failed cleanup_failed cost_unknown : RunState

unfoldable pub RunState-discrete : Discrete RunState
RunState-discrete = hlevel

unfoldable pub is_terminal : RunState → Bool
is_terminal completed = true
is_terminal plan_invalid = true
is_terminal approval_denied = true
is_terminal package_failed = true
is_terminal provisioning_failed = true
is_terminal execution_failed = true
is_terminal budget_exceeded = true
is_terminal artifact_failed = true
is_terminal cleanup_failed = true
is_terminal cost_unknown = true
is_terminal _ = false

unfoldable pub is_failure : RunState → Bool
is_failure plan_invalid = true
is_failure approval_denied = true
is_failure package_failed = true
is_failure provisioning_failed = true
is_failure execution_failed = true
is_failure budget_exceeded = true
is_failure artifact_failed = true
is_failure cleanup_failed = true
is_failure cost_unknown = true
is_failure _ = false
