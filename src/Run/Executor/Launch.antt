-- ===== src/Run/Executor/Launch.antt =====
-- Execute: planning, approval, preparation, provisioning, and the choice of a lifecycle.
use dispatcher.Prelude.{ℕ, Bool, true, false, ◌&&◌, Option, none, some, if◌then◌else◌, is_empty}
use dispatcher.Types.{
  RunState, RunState-discrete, planning, validated, awaiting_approval, preparing, running,
  plan_invalid, approval_denied, package_failed, execution_failed, budget_exceeded, eq_by, Plan,
  ValidationResult, is_valid,
}
use dispatcher.Adapter.{RunHandle}
use dispatcher.Approval.{Record}
use dispatcher.Run.State.{
  validation_failed, adapter_error, denied, panicked, TransitionError, LifecycleMode, long_running,
  lifecycle_for_workload, persist_handle,
}
use dispatcher.Run.World.{
  World, Machine, validate, prepare, execute, open_gate, extend_watchdog, Answer, ok, err,
  GateResult, gate_error, granted, refused, cancel_provisioning, on_run, call, save_run, go,
}
use dispatcher.Run.Sampler.{block, start_sampler, stop_sampler}
use dispatcher.Run.Executor.Cleanup.{fail, attempt_cleanup}
use dispatcher.Run.Executor.Ephemeral.{
  ExecError, refused_transition, invalid_plan, approval_failed, preparation_failed, over_budget,
  executor_panic, provisioning_failed, Ended, execute_ephemeral,
}

-- A part of Execute that returns an error, or goes on.
pub data Stage : Type 0 where
  stop : Machine → ExecError → Stage
  ready : Machine → Stage

infixl 5 ◌>>=◌
abbrev pub ◌>>=◌ : Stage → (Machine → Stage) → Stage
stop m e >>= k = stop m e
ready m >>= k = k m

-- A refused transition is returned as it is.
abbrev pub checked : Machine × Option TransitionError → Stage
checked (m, none) = ready m
checked (m, some e) = stop m refused_transition

module _ (w : World) where
  unfoldable pub judge_validation : Machine → Answer ValidationResult → Stage
  judge_validation m (err e) = stop (fail w plan_invalid (adapter_error e) m) invalid_plan
  judge_validation m (ok v) =
      if is_valid v then ready m else stop (fail w plan_invalid validation_failed m) invalid_plan

  unfoldable pub validate_plan : Machine → Stage
  unfolding judge_validation
  validate_plan m = let m' = call validate m in judge_validation m' (w.on_validate m'.trace)

  unfoldable pub stamp : Record → Machine → Machine
  unfolding on_run
  stamp rec m = on_run (λ r. record r { approval = some rec }) m

  unfoldable pub judge_gate : Machine → GateResult → Stage
  unfolding stamp
  judge_gate m (gate_error e) = stop (fail w approval_denied (adapter_error e) m) approval_failed
  judge_gate m (granted rec) = ready (stamp rec m)
  judge_gate m (refused rec) = stop (fail w approval_denied denied (stamp rec m)) approval_failed

  unfoldable pub ask_gate : Machine → Stage
  unfolding judge_gate
  ask_gate m = let m' = call open_gate m in judge_gate m' (w.on_gate m'.trace)

  -- Only a plan that requires approvals opens a gate.
  unfoldable pub approve : Plan → Machine → Stage
  unfolding ask_gate
  approve p m =
      if is_empty p.required_approvals
      then ready m
      else (checked (go w awaiting_approval m) >>= ask_gate)

  unfoldable pub judge_prepare : Machine → Answer (Unit {0}) → Stage
  judge_prepare m (err e) = stop (fail w package_failed (adapter_error e) m) preparation_failed
  judge_prepare m (ok u) = ready m

  unfoldable pub prepare_target : Machine → Stage
  unfolding judge_prepare
  prepare_target m = let m' = call prepare m in judge_prepare m' (w.on_prepare m'.trace)

  -- Everything before provisioning, with the record saved as running.
  unfoldable pub prelaunch : Plan → Machine → Stage
  unfolding validate_plan approve prepare_target save_run
  prelaunch p m =
      checked (go w planning m)
      >>= validate_plan
      >>= (λ m. checked (go w validated m))
      >>= approve p
      >>= (λ m. checked (go w preparing m))
      >>= prepare_target
      >>= (λ m. checked (go w running m))
      >>= (λ m. ready (save_run m))

  is_over_budget : Machine → Bool
  unfolding RunState-discrete
  is_over_budget m = eq_by RunState-discrete m.run.state budget_exceeded

  over_budget_end : Machine → Ended
  unfolding save_run
  over_budget_end m = record { machine = save_run m; error = some over_budget }

  -- adapter.Execute, under a sampler that can only cancel it.
  provision : Machine → Machine
  provision m = stop_sampler (block w execute (start_sampler cancel_provisioning m))

  is_long_running : LifecycleMode → Bool
  is_long_running long_running = true
  is_long_running _ = false

  -- startLongRunning: extend the watchdog once and leave the workload alone.
  unfoldable pub start_long_running : RunHandle → Machine → Ended
  unfolding save_run
  start_long_running h m =
      let m' = call (extend_watchdog h) m in
      let r = record m'.run { last_heartbeat = w.clock m'.trace } in
      record { machine = save_run (record m' { run = r }); error = none }

  -- After the handle is stored on the run.
  with_handle : ℕ → Plan → RunHandle → Machine → Option Ended
  unfolding is_over_budget over_budget_end persist_handle save_run is_long_running
  with_handle fuel p h m =
      if is_over_budget m
      then some (over_budget_end (attempt_cleanup w m))
      else (let mode = lifecycle_for_workload p.workload.detected_kind in
          let m' =
            save_run
              (record m { run = record (persist_handle w.marshal m.run).0 { lifecycle = mode } }) in
          if is_long_running mode && w.is_durable
          then some (start_long_running h m')
          else execute_ephemeral w fuel p h m')

  provisioned : ℕ → Plan → Machine → Answer RunHandle → Option Ended
  unfolding with_handle on_run
  provisioned fuel p m (ok h) =
      let h' = record h { run_id = m.run.id } in
      with_handle fuel p h' (on_run (λ r. record r { handle = some h' }) m)
  provisioned fuel p m (err e) = some (
      if is_over_budget m then over_budget_end m else record {
        machine = fail w RunState.provisioning_failed (adapter_error e) m;
        error = some provisioning_failed;
      })

  unfoldable pub launched : ℕ → Plan → Stage → Option Ended
  unfolding provision provisioned
  launched fuel p (stop m e) = some (record { machine = m; error = some e })
  launched fuel p (ready m) = let m' = provision m in provisioned fuel p m' (w.on_execute m'.trace)

  -- Execute, on a run that holds the plan p.
  unfoldable pub execute_run : ℕ → Plan → Machine → Option Ended
  unfolding launched
  execute_run fuel p m = launched fuel p (prelaunch p m)

  -- The deferred function of Execute, for a panic that left the run in the given state.
  unfoldable pub recovered : Machine → Ended
  unfolding save_run
  recovered m = record {
    machine = attempt_cleanup w (save_run (fail w execution_failed panicked m));
    error = some executor_panic;
  }
