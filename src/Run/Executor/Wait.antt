-- ===== src/Run/Executor/Wait.antt =====
-- waitForTerminal: the polls, with fuel for their number; none says that the fuel ran out.
use dispatcher.Prelude.{ℕ, zero, suc, ◌+◌, String, Option, none, some, ◌==◌, leb, if◌then◌else◌}
use dispatcher.Types.{RunState, RunState-discrete, running, execution_failed, eq_by, Duration}
use dispatcher.Adapter.{RunHandle}
use dispatcher.Run.State.{Failure, status_failed, wait_canceled, max_duration_exceeded}
use dispatcher.Run.World.{
  World, Machine, status, pause, terminate, Wake, timer, ctx_done, deadline, call,
}
use dispatcher.Run.Sampler.{block}

abbrev pub max_consecutive_status_errors : ℕ
max_consecutive_status_errors = 5

pub record Waited : Type 0 where
  pub machine : Machine
  pub state : RunState
  pub error : Option Failure

-- A poll ends the wait, or leaves a count of consecutive errors.
pub data Poll : Type 0 where
  over : RunState → Option Failure → Poll
  again : RunState → ℕ → Poll

unfoldable pub poll : ℕ → RunState × Option String → Poll
unfolding RunState-discrete
poll errs (s, none) = if eq_by RunState-discrete s running then again s 0 else over s none
poll errs (s, some e) =
    if leb max_consecutive_status_errors (errs + 1)
    then over s (some (status_failed (errs + 1) e))
    else again s (errs + 1)

-- The select; without a maximal duration the deadline channel is nil and never fires.
unfoldable pub wakes : Wake → Duration → Wake
wakes timer d = timer
wakes ctx_done d = ctx_done
wakes deadline d = if d == 0 then timer else deadline

module _ (w : World) (h : RunHandle) (d : Duration) where
  unfoldable pub wait_for_terminal : ℕ → ℕ → Machine → Option Waited
  wait_for_terminal zero errs m = none
  wait_for_terminal (suc fuel) errs m =
      let m' = block w (status h) m in
      let slept = block w pause m' in
      elim (poll errs (w.on_status m'.trace)) [
        | over s e ↦ some (record { machine = m'; state = s; error = e })
        | again s errs' ↦ elim (wakes (w.wake slept.trace) d) [
          | timer ↦ wait_for_terminal fuel errs' slept
          | ctx_done ↦ some (record { machine = slept; state = s; error = some wait_canceled })
          | deadline ↦ some (record {
            machine = call (terminate h) slept;
            state = execution_failed;
            error = some max_duration_exceeded;
          })
        ]
      ]
