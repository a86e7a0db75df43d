-- ===== src/Run/Executor/Release.antt =====
-- executeEphemeral: the handle it is given is not lost.
use dispatcher.Prelude.{
  ℕ, String, Bool, true, false, Option, none, some, ◌≡◌, ◌≢◌, refl, ◌⊎◌, inl, inr, arith,
  Option-cases, if◌then◌else◌,
}
use dispatcher.Types.{is_terminal, completed, execution_failed, reconciling_cost, Duration, Plan}
use dispatcher.Adapter.{RunHandle}
use dispatcher.Run.State.{
  Run, Failure, TransitionError, set_error, persist_handle, workload_failed, begin_retry,
}
use dispatcher.Run.Cost.{finalize_cost}
use dispatcher.Run.World.{
  World, Machine, cleanup, execute, logs, call, go, on_run, save_run, Answer, ok, err,
}
use dispatcher.Run.Sampler.{block, stop_sampler}
use dispatcher.Run.Executor.Cleanup.{fail, attempt_cleanup, cleanup_handle, collect_artifacts}
use dispatcher.Run.Executor.Wait.{Waited, wait_for_terminal}
use dispatcher.Run.Executor.Ephemeral.{
  ExecError, outputs_not_retrieved, Ended, deferred, failed_end, success_end, reconcile, finish,
  retry_on, retried, retry_transient_failure, after_wait, workload_execution_failed,
  status_check_failed, record_failure, supervise_handle, execute_ephemeral,
}
use dispatcher.Run.Executor.Teardown.{IsSettled, attempt_cleanup-IsSettled}
use dispatcher.Run.Executor.Holding.{
  go-Holds, block-Holds, collect_artifacts-Holds, wait_for_terminal-Holds, supervise_handle-Holds,
  record_failure-Holds,
}

-- No handle is left, or the record says that the cleanup failed and the run is over.
pub IsReleased : Run → Type 0
IsReleased r = (r.handle ≡ none) ⊎ ((r.cleanup_error ≡ true) × (is_terminal r.state ≡ true))

attempt_cleanup-none : (w : World) (m : Machine) → m.run.handle ≡ none → attempt_cleanup w m ≡ m
unfolding attempt_cleanup cleanup_handle
attempt_cleanup-none w m e = rw e refl

pub attempt_cleanup-IsReleased :
    (w : World) (m : Machine) → m.run.state ≢ completed → IsReleased (attempt_cleanup w m).run
unfolding IsReleased IsSettled
attempt_cleanup-IsReleased w m live = elim (Option-cases m.run.handle) [
  | inl e ↦ inl (rw (attempt_cleanup-none w m e) e)
  | inr (h, e) ↦ elim ((attempt_cleanup-IsSettled w h m e live).0) [
    | inl n ↦ inl n
    | inr (_, c, t) ↦ inr (c, t)
  ]
]

failed : World → Failure → Machine → Machine
failed w f m = stop_sampler (fail w execution_failed f m)

failed_undone :
    (w : World) (f : Failure) (m : Machine)
    → m.run.state ≢ completed
    → (failed w f m).run.state ≢ completed
unfolding failed stop_sampler fail on_run set_error
failed_undone w f m live = ground arith

-- The branch of a failure releases the handle.
failed_end-IsReleased :
    (w : World) (h : Option RunHandle) (f : Failure) (x : ExecError) (m : Machine)
    → m.run.state ≢ completed
    → IsReleased (failed_end w h f x m).machine.run
unfolding failed_end deferred save_run failed
failed_end-IsReleased w h f x m live =
    let m' = (collect_artifacts w h m).0 in
    let live' = failed_undone w f m' ((collect_artifacts-Holds w h m).undone live) in
    attempt_cleanup-IsReleased w (failed w f m') live'

-- The handle is released, or the outputs of the workload were not retrieved.
pub IsHandled : Ended → Type 0
IsHandled e = IsReleased e.machine.run ⊎ (e.error ≡ some outputs_not_retrieved)

reconcile_undone :
    (w : World) (m : Machine) (e : Option TransitionError)
    → (m.run.state ≢ completed)
    → (reconcile w (m, e)).run.state ≢ completed
unfolding reconcile on_run finalize_cost
reconcile_undone w m none live = ground arith
reconcile_undone w m (some e) live = live

success_end-IsHandled :
    (w : World) (m : Machine) (b : Bool)
    → m.run.state ≢ completed
    → IsHandled (success_end w (m, b))
unfolding success_end save_run stop_sampler IsHandled
success_end-IsHandled w m false live = inr refl
success_end-IsHandled w m true live =
    let r = go w reconciling_cost m in
    let live' = (go-Holds w reconciling_cost m (ground arith)).undone live in
    inl (attempt_cleanup-IsReleased w (reconcile w r) (reconcile_undone w r.0 r.1 live'))

finish-IsHandled :
    (w : World) (h : RunHandle) (m : Machine) → m.run.state ≢ completed → IsHandled (finish w h m)
unfolding finish
finish-IsHandled w h m live =
    let c = collect_artifacts w (some h) m in
    success_end-IsHandled w c.0 c.1 ((collect_artifacts-Holds w (some h) m).undone live)

persisted : World → RunHandle → Machine → Machine
persisted w h m =
    let r = record m.run { handle = some (record h { run_id = m.run.id }) } in
    save_run (record m { run = (persist_handle w.marshal r).0 })

persisted-state :
    (w : World) (h : RunHandle) (m : Machine) → (persisted w h m).run.state ≡ m.run.state
unfolding persisted persist_handle save_run
persisted-state w h m = ground arith

retry_on-IsHandled :
    (w : World) (fuel : ℕ) (d : Duration) (h : RunHandle) (m : Machine) (e : Ended)
    → m.run.state ≢ completed
    → retry_on w fuel d h m ≡ some e
    → IsHandled e
unfolding retry_on persisted IsHandled
retry_on-IsHandled w fuel d h m e live eq =
    let h' = record h { run_id = m.run.id } in
    let m0 = persisted w h m in
    let m1 = supervise_handle w h' m0 in
    let live1 = (supervise_handle-Holds w h' m0).undone (rw (persisted-state w h m) live) in
    elim (Option-cases (wait_for_terminal w h' d fuel 0 m1)) [
      | inl n ↦ ground (arith, n, eq)
      | inr (v, s) ↦
          let live2 = (wait_for_terminal-Holds w h' d fuel 0 m1 v s).undone live1 in
          let f = record_failure w w.failure_reporter v.machine in
          let live3 = (record_failure-Holds w w.failure_reporter v.machine).undone live2 in
          ground (
            arith,
            s,
            eq,
            finish-IsHandled w h' v.machine live2,
            failed_end-IsReleased w (some h') workload_failed workload_execution_failed f live3,
          )
    ]

pub Answer-cases :
    {A : Type 0} (a : Answer A) → ((x : A) × (a ≡ ok x)) ⊎ ((x : String) × (a ≡ err x))
Answer-cases (ok x) = inl (x, refl)
Answer-cases (err x) = inr (x, refl)

retry-IsHandled :
    (w : World) (fuel : ℕ) (d : Duration) (h : RunHandle) (m : Machine) (e : Ended)
    → m.run.state ≢ completed
    → retry_transient_failure w fuel d h m ≡ some e
    → IsHandled e
unfolding retry_transient_failure retried on_run begin_retry call stop_sampler IsHandled
retry-IsHandled w fuel d h m e live eq =
    let m1 = call (cleanup h) (stop_sampler (on_run begin_retry m)) in
    let m2 = call execute (on_run (λ r. record r { handle = none }) m1) in
    elim (Answer-cases (w.on_execute m2.trace)) [
      | inl (h', a) ↦ retry_on-IsHandled w fuel d h' m2 e live (ground (arith, a, eq))
      | inr (x, a) ↦ ground (
        arith,
        a,
        eq,
        failed_end-IsReleased w none workload_failed workload_execution_failed m2 live,
      )
    ]

after_wait-IsHandled :
    (w : World) (fuel : ℕ) (p : Plan) (h : RunHandle) (v : Waited) (e : Ended)
    → v.machine.run.state ≢ completed
    → after_wait w fuel p h v ≡ some e
    → IsHandled e
unfolding after_wait IsHandled
after_wait-IsHandled w fuel p h v e live eq =
    let m = record_failure w w.failure_reporter v.machine in
    let live' = (record_failure-Holds w w.failure_reporter v.machine).undone live in
    let failed = λ (f : Failure) (x : ExecError). failed_end-IsReleased w (some h) f x m live' in
    elim (Option-cases v.error) [
      | inr (f, x) ↦ ground (arith, x, eq, failed f status_check_failed)
      | inl n ↦ ground (
        arith,
        n,
        eq,
        finish-IsHandled w h v.machine live,
        failed workload_failed workload_execution_failed,
        λ (r : retry_transient_failure w fuel p.constraints.max_duration h m ≡ some e).
            retry-IsHandled w fuel p.constraints.max_duration h m e live' r,
      )
    ]

-- However the adapter, the clock, the sampler and the context behave, a run that executeEphemeral
-- takes over and that has not completed ends with its handle dropped, or with a recorded cleanup
-- error in a terminal state, or with the error that its outputs were not retrieved.
pub execute_ephemeral-IsHandled :
    (w : World) (fuel : ℕ) (p : Plan) (h : RunHandle) (m : Machine) (e : Ended)
    → m.run.state ≢ completed
    → execute_ephemeral w fuel p h m ≡ some e
    → IsHandled e
unfolding execute_ephemeral
execute_ephemeral-IsHandled w fuel p h m e live eq =
    let m1 = supervise_handle w h m in
    let m2 = if w.logging then block w (logs h) m1 else m1 in
    let live1 = (supervise_handle-Holds w h m).undone live in
    let live2 : m2.run.state ≢ completed =
      ground (arith, live1, (block-Holds w (logs h) m1 refl).undone live1) in
    elim (Option-cases (wait_for_terminal w h p.constraints.max_duration fuel 0 m2)) [
      | inl n ↦ ground (arith, n, eq)
      | inr (v, s) ↦
          after_wait-IsHandled w fuel p h v e
            ((wait_for_terminal-Holds w h p.constraints.max_duration fuel 0 m2 v s).undone live2)
            (ground (arith, s, eq))
    ]
