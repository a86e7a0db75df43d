-- ===== src/Run/World.antt =====
-- What the executor meets outside: the adapter, the approval gate, the clock, the cost sampler's
-- ticker and the context. Each answers by what has happened so far, newest first.
use dispatcher.Prelude.{String, Bool, List, ◌∷◌, Option}
use dispatcher.Types.{RunState, Time, ValidationResult}
use dispatcher.Adapter.{ArtifactRef, CleanupResult, RunHandle, FailureDetails}
use dispatcher.Approval.{Record}
use dispatcher.Run.State.{Run, TransitionError, transition}

-- A call that leaves the executor.
pub data Call : Type 0 where
  validate prepare execute open_gate : Call
  status logs artifacts terminate cleanup extend_watchdog : RunHandle → Call
  -- Save, with the state on the record.
  save : RunState → Call
  -- The executor waits in a select.
  pause : Call

abbrev pub Trace : Type 0
Trace = List Call

pub data Answer (A : Type 0) : Type 0 where
  ok : A → Answer A
  err : String → Answer A

-- Which branch of a select is taken.
pub data Wake : Type 0 where
  timer ctx_done deadline : Wake

-- NewGate and Wait: the gate did not open, Wait returned nil, or it returned an error (a denial or a
-- canceled context).
pub data GateResult : Type 0 where
  gate_error : String → GateResult
  granted refused : Record → GateResult

pub record World : Type 0 where
  pub on_validate : Trace → Answer ValidationResult
  pub on_gate : Trace → GateResult
  pub on_prepare : Trace → Answer (Unit {0})
  pub on_execute : Trace → Answer RunHandle
  -- Status answers a state also where it answers an error.
  pub on_status : Trace → RunState × Option String
  pub on_artifacts : Trace → Answer (List ArtifactRef)
  -- `some` of a result, for Cleanup that returned no error.
  pub on_cleanup : Trace → Option CleanupResult
  pub on_extend : Trace → Bool
  -- DurableAdapter and FailureReporter are optional interfaces.
  pub is_durable : Bool
  pub failure_reporter : Option (Trace → FailureDetails)
  pub marshal : RunHandle → Option (Option String)
  pub clock : Trace → Time
  -- The ticks of the cost sampler that come before the call returns.
  pub ticks : Trace → List Time
  pub wake : Trace → Wake
  -- externallyStopped.
  pub stopped : Trace → Bool
  -- A log writer is given.
  pub logging : Bool

-- What the sampler's terminate does: cancel the provisioning context, or Terminate on a handle.
pub data Killer : Type 0 where
  cancel_provisioning : Killer
  kill : RunHandle → Killer

pub record Machine : Type 0 where
  pub run : Run
  pub trace : Trace
  -- The running cost sampler.
  pub sampler : Option Killer

unfoldable pub on_run : (Run → Run) → Machine → Machine
on_run f m = record m { run = f m.run }

unfoldable pub call : Call → Machine → Machine
call c m = record m { trace = c ∷ m.trace }

-- saveRun.
unfoldable pub save_run : Machine → Machine
save_run m = record m { trace = save m.run.state ∷ m.trace }

module _ (w : World) where
  -- Transition, at the time of the clock.
  unfoldable pub go : RunState → Machine → Machine × Option TransitionError
  go to m = let (r, e) = transition m.run to (w.clock m.trace) in (record m { run = r }, e)
