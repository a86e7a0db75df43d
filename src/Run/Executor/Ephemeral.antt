-- ===== src/Run/Executor/Ephemeral.antt =====
-- executeEphemeral, with the supervision of a handle and the one retry.
use dispatcher.Prelude.{
  ℕ, Bool, true, false, ◌&&◌, not, Option, none, some, ◌==◌, if◌then◌else◌, is_some,
}
use dispatcher.Types.{
  RunState-discrete, is_terminal, execution_failed, artifact_failed, reconciling_cost,
  cleanup_failed, eq_by, Duration, Plan,
}
use dispatcher.Adapter.{RunHandle, FailureDetails}
use dispatcher.Adapter.Classify.{FailureKind, transient, classify_failure}
use dispatcher.Run.State.{
  Failure, workload_failed, TransitionError, set_failure, begin_retry, persist_handle,
}
use dispatcher.Run.Cost.{finalize_cost}
use dispatcher.Run.World.{
  World, Machine, execute, logs, cleanup, extend_watchdog, Answer, ok, err, kill, on_run, call,
  save_run, go, Trace,
}
use dispatcher.Run.Sampler.{block, start_sampler, stop_sampler}
use dispatcher.Run.Executor.Cleanup.{fail, attempt_cleanup, collect_artifacts}
use dispatcher.Run.Executor.Wait.{Waited, wait_for_terminal}

-- The errors that Execute returns.
pub data ExecError : Type 0 where
  refused_transition invalid_plan approval_failed preparation_failed over_budget : ExecError
  provisioning_failed status_check_failed workload_execution_failed : ExecError
  outputs_not_retrieved cleanup_not_done executor_panic : ExecError

pub record Ended : Type 0 where
  pub machine : Machine
  pub error : Option ExecError

is_transient : FailureKind → Bool
is_transient transient = true
is_transient _ = false

module _ (w : World) where
  -- One renewal of the watchdog. The later ones, on a ticker, write LastHeartbeat only.
  unfoldable pub renew_watchdog : RunHandle → Machine → Machine
  unfolding save_run
  renew_watchdog h m =
      if w.is_durable
      then (let m' = block w (extend_watchdog h) m in
          if w.on_extend m'.trace
          then save_run (record m' { run = record m'.run { last_heartbeat = w.clock m'.trace } })
          else m')
      else m

  -- superviseHandle.
  unfoldable pub supervise_handle : RunHandle → Machine → Machine
  unfolding renew_watchdog
  supervise_handle h m = renew_watchdog h (start_sampler (kill h) m)

  unfoldable pub record_failure : Option (Trace → FailureDetails) → Machine → Machine
  unfolding on_run set_failure
  record_failure none m = m
  record_failure (some details) m = on_run (λ r. set_failure r (details m.trace)) m

  -- What the defers of executeEphemeral do, in their order.
  unfoldable pub deferred : Machine → Machine
  unfolding save_run
  deferred m = save_run (attempt_cleanup w (stop_sampler m))

  -- The branch of a failure: crash dumps, SetError, the deferred cleanup.
  unfoldable pub failed_end : Option RunHandle → Failure → ExecError → Machine → Ended
  failed_end h f e m =
      let m' = (collect_artifacts w h m).0 in
      record { machine = deferred (fail w execution_failed f m'); error = some e }

  unfoldable pub reconcile : Machine × Option TransitionError → Machine
  unfolding on_run
  reconcile (m, none) = on_run (λ r. finalize_cost r (w.clock m.trace)) m
  reconcile (m, some e) = m

  -- The end of a run whose workload succeeded.
  unfoldable pub success_end : Machine × Bool → Ended
  unfolding save_run RunState-discrete reconcile
  success_end (m, false) = record {
    machine = stop_sampler (save_run (go w artifact_failed m).0);
    error = some outputs_not_retrieved;
  }
  success_end (m, true) =
      let m' = save_run (attempt_cleanup w (reconcile (go w reconciling_cost m))) in
      record {
        machine = stop_sampler m';
        error =
            if eq_by RunState-discrete m'.run.state cleanup_failed
            then some cleanup_not_done
            else none;
      }

  unfoldable pub finish : RunHandle → Machine → Ended
  unfolding success_end
  finish h m = success_end (collect_artifacts w (some h) m)

  -- The second half of retryTransientFailure, once a new handle is there.
  unfoldable pub retry_on : ℕ → Duration → RunHandle → Machine → Option Ended
  unfolding persist_handle save_run record_failure RunState-discrete
  retry_on fuel d h m =
      let r = record m.run { handle = some (record h { run_id = m.run.id }) } in
      let h' = record h { run_id = m.run.id } in
      let m' = supervise_handle h' (save_run (record m { run = (persist_handle w.marshal r).0 })) in
      elim (wait_for_terminal w h' d fuel 0 m') [
        | none ↦ none
        | some v ↦ some (
            if not (is_some v.error) && not (eq_by RunState-discrete v.state execution_failed)
            then finish h' v.machine
            else failed_end (some h') workload_failed workload_execution_failed
                (record_failure w.failure_reporter v.machine))
      ]

  unfoldable pub retried : ℕ → Duration → Machine → Answer RunHandle → Option Ended
  unfolding retry_on
  retried fuel d m (ok h) = retry_on fuel d h m
  retried fuel d m (err e) = some (failed_end none workload_failed workload_execution_failed m)

  -- retryTransientFailure: count the retry, stop supervising, clean the dead handle up, and
  -- provision once more. The context is the caller's, so no sampler can cancel it.
  unfoldable pub retry_transient_failure : ℕ → Duration → RunHandle → Machine → Option Ended
  unfolding retried on_run begin_retry
  retry_transient_failure fuel d h m =
      let m1 = call (cleanup h) (stop_sampler (on_run begin_retry m)) in
      let m2 = call execute (on_run (λ r. record r { handle = none }) m1) in
      retried fuel d m2 (w.on_execute m2.trace)

  -- What the retry asks for.
  unfoldable pub may_retry : Plan → Machine → Bool
  unfolding is_transient
  may_retry p m =
      p.constraints.retry_transient_failures
      && is_transient (classify_failure m.run.failure)
      && m.run.retry_count == 0
      && not (is_terminal m.run.state)
      && not (w.stopped m.trace)

  unfoldable pub after_wait : ℕ → Plan → RunHandle → Waited → Option Ended
  unfolding record_failure RunState-discrete
  after_wait fuel p h v = elim v.error [
    | some f ↦
        some
          (failed_end (some h) f status_check_failed (record_failure w.failure_reporter v.machine))
    | none ↦
        if eq_by RunState-discrete v.state execution_failed
        then (let m = record_failure w.failure_reporter v.machine in
            if may_retry p m
            then retry_transient_failure fuel p.constraints.max_duration h m
            else some (failed_end (some h) workload_failed workload_execution_failed m))
        else some (finish h v.machine)
  ]

  -- executeEphemeral. The fuel bounds the polls of one wait.
  unfoldable pub execute_ephemeral : ℕ → Plan → RunHandle → Machine → Option Ended
  unfolding after_wait
  execute_ephemeral fuel p h m =
      let m1 = supervise_handle h m in
      let m2 = if w.logging then block w (logs h) m1 else m1 in
      elim (wait_for_terminal w h p.constraints.max_duration fuel 0 m2) [
        | none ↦ none
        | some v ↦ after_wait fuel p h v
      ]
