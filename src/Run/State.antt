-- ===== src/Run/State.antt =====
-- internal/run/state.go and executor.go: the Run record and the methods that write it. `now` is
-- what time.Now returned in the call.
use dispatcher.Prelude.{
  ℕ, String, Bool, true, false, ◌&&◌, List, [], ◌∷◌, ◌++◌, Option, none, some, ◌==◌, ltb,
  if◌then◌else◌, any, ◌+◌, ◌*◌,
}
use dispatcher.Types.{
  RunState, created, planning, validated, awaiting_approval, preparing, running,
  collecting_artifacts, reconciling_cost, cleaning_up, completed, stopping, plan_invalid,
  approval_denied, package_failed, execution_failed, budget_exceeded, artifact_failed,
  cleanup_failed, cost_unknown, RunState-discrete, is_terminal, Time, Duration, minute, Plan,
  CostEstimate, WorkloadKind, service, WorkloadKind-discrete, eq_by, unknown, Recommendation,
}
use dispatcher.Adapter.{ArtifactRef, RunHandle, FailureDetails, no_details}
use dispatcher.Approval.{Record}

pub record PhaseMark : Type 0 where
  pub state : RunState
  pub entered_at : Time

pub data LifecycleMode : Type 0 where
  unset ephemeral long_running : LifecycleMode

unfoldable pub lifecycle_for_workload : WorkloadKind → LifecycleMode
unfolding WorkloadKind-discrete
lifecycle_for_workload kind =
    if eq_by WorkloadKind-discrete kind service then long_running else ephemeral

-- What went wrong, for Run.Error: the error values of the executor, and those of an adapter.
pub data Failure : Type 0 where
  validation_failed cleanup_retries_exhausted workload_failed wait_canceled denied : Failure
  max_duration_exceeded panicked stranded not_cleaned : Failure
  status_failed : ℕ → String → Failure
  adapter_error : String → Failure

pub record Run : Type 0 where
  pub id : String
  pub plan_id : String
  pub target_id : String
  pub owner : String
  pub state : RunState
  pub plan : Option Plan
  pub handle : Option RunHandle
  pub started_at : Time
  pub finished_at : Time
  pub error : Option Failure
  pub artifacts : List ArtifactRef
  pub cost : CostEstimate
  pub failure : FailureDetails
  pub retry_count : ℕ
  pub cleanup_error : Bool
  pub timeline : List PhaseMark
  pub handle_id : String
  pub handle_state : Option String
  pub lifecycle : LifecycleMode
  pub watchdog_ttl : Duration
  pub last_heartbeat : Time
  pub log_file : String
  pub approval : Option Record

abbrev pub default_watchdog_ttl : Duration
default_watchdog_ttl = 30 * minute

abbrev pub no_cost : CostEstimate
no_cost = record {
  value = 0;
  confidence = unknown;
  assumptions = [];
  exclusions = [];
  instance_type = "";
  spot_ratio = 0;
}

-- NewRun, on a plan with a recommendation (without one the Go code panics).
unfoldable pub new_run : String → Plan → Recommendation → Time → Run
new_run id plan rec now = record {
  id = id;
  plan_id = plan.metadata.id;
  target_id = rec.target;
  owner = plan.metadata.created_by;
  state = created;
  plan = some plan;
  handle = none;
  started_at = 0;
  finished_at = 0;
  error = none;
  artifacts = [];
  cost = no_cost;
  failure = no_details;
  retry_count = 0;
  cleanup_error = false;
  timeline = record { state = created; entered_at = now } ∷ [];
  handle_id = "";
  handle_state = none;
  lifecycle = unset;
  watchdog_ttl = plan.constraints.watchdog_ttl;
  last_heartbeat = 0;
  log_file = "";
  approval = none;
}

unfoldable pub effective_watchdog_ttl : Run → Duration
effective_watchdog_ttl r = if ltb 0 r.watchdog_ttl then r.watchdog_ttl else default_watchdog_ttl

-- The map validTransitions; a state with no entry has none.
unfoldable pub valid_transitions : RunState → List RunState
valid_transitions created = planning ∷ plan_invalid ∷ []
valid_transitions planning = validated ∷ plan_invalid ∷ []
valid_transitions validated = awaiting_approval ∷ preparing ∷ []
valid_transitions awaiting_approval = preparing ∷ approval_denied ∷ []
valid_transitions preparing = running ∷ package_failed ∷ []
valid_transitions running =
    collecting_artifacts ∷ execution_failed ∷ budget_exceeded ∷ stopping ∷ []
valid_transitions stopping = cleaning_up ∷ cleanup_failed ∷ []
valid_transitions collecting_artifacts = reconciling_cost ∷ artifact_failed ∷ []
valid_transitions reconciling_cost = cleaning_up ∷ cost_unknown ∷ []
valid_transitions cleaning_up = completed ∷ cleanup_failed ∷ []
valid_transitions _ = []

unfoldable pub is_valid_transition : RunState → RunState → Bool
unfolding valid_transitions RunState-discrete
is_valid_transition from to = any (λ s. eq_by RunState-discrete s to) (valid_transitions from)

mark : Run → RunState → Time → List PhaseMark
mark r s now = r.timeline ++ record { state = s; entered_at = now } ∷ []

entered : Run → RunState → Time → Run
unfolding mark
entered r to now = record r {
  state = to;
  started_at =
      if eq_by RunState-discrete to running && r.started_at == 0 then now else r.started_at;
  finished_at = if is_terminal to then now else r.finished_at;
  timeline = mark r to now;
}

pub data TransitionError : Type 0 where
  from_terminal invalid : TransitionError

-- Run.Transition: the run, and the error if the transition is refused.
unfoldable pub transition : Run → RunState → Time → Run × Option TransitionError
unfolding entered
transition r to now =
    if is_terminal r.state
    then (r, some from_terminal)
    else if is_valid_transition r.state to
    then (entered r to now, none)
    else (r, some invalid)

-- Run.SetError.
unfoldable pub set_error : Run → RunState → Failure → Time → Run
unfolding mark
set_error r s err now =
    if is_terminal r.state
    then r
    else record r { state = s; error = some err; finished_at = now; timeline = mark r s now }

finished : Run → Time → Time
finished r now = if r.finished_at == 0 then now else r.finished_at

-- Run.MarkTerminal.
unfoldable pub mark_terminal : Run → RunState → Time → Run
unfolding mark finished
mark_terminal r s now =
    if is_terminal r.state
    then r
    else record r { state = s; finished_at = finished r now; timeline = mark r s (finished r now) }

-- Run.PersistHandle: `marshal` is SerializableState of the handle's state, if it implements it.
-- The result says whether it returned nil.
unfoldable pub persist_handle : (RunHandle → Option (Option String)) → Run → Run × Bool
persist_handle marshal r = elim r.handle [
  | none ↦ (r, true)
  | some h ↦ elim (marshal h) [
    | none ↦ (record r { handle_id = h.id }, true)
    | some none ↦ (record r { handle_id = h.id }, false)
    | some (some raw) ↦ (record r { handle_id = h.id; handle_state = some raw }, true)
  ]
]

-- setFailure, setCleanupError, beginRetry and setCost of executor.go and cost.go.
unfoldable pub set_failure : Run → FailureDetails → Run
set_failure r fd = record r { failure = fd }

unfoldable pub set_cleanup_error : Run → Run
set_cleanup_error r = record r { cleanup_error = true }

unfoldable pub begin_retry : Run → Run
begin_retry r = record r { retry_count = r.retry_count + 1; failure = no_details }

unfoldable pub set_cost : Run → CostEstimate → Run
set_cost r est = record r { cost = est }
