-- ===== src/Run/Executor/Polls.antt =====
-- The polling of waitForTerminal ends.
use dispatcher.Prelude.{
  ℕ, zero, suc, ◌+◌, ◌≤◌, ◌<◌, none, some, ◌≡◌, ◌≢◌, inl, inr, arith, Option-cases, if◌then◌else◌,
}
use dispatcher.Types.{completed, Duration, Plan}
use dispatcher.Adapter.{RunHandle}
use dispatcher.Run.State.{persist_handle, begin_retry}
use dispatcher.Run.World.{
  World, Machine, status, pause, logs, cleanup, execute, call, on_run, save_run, timer, Trace,
}
use dispatcher.Run.Sampler.{block, stop_sampler}
use dispatcher.Run.Sampler.Budget.{pauses}
use dispatcher.Run.Executor.Wait.{Waited, poll, wakes, wait_for_terminal}
use dispatcher.Run.Executor.Ephemeral.{
  Ended, supervise_handle, record_failure, after_wait, retry_transient_failure, retried, retry_on,
  execute_ephemeral,
}
use dispatcher.Run.Executor.Teardown.{block-Keeps}
use dispatcher.Run.Executor.Holding.{Poll-cases}
use dispatcher.Run.Executor.Release.{IsHandled, execute_ephemeral-IsHandled, Answer-cases}

-- After n sleeps a select does not take the ticker's branch any more: the context is done, or the
-- deadline has passed.
abbrev pub Expires : World → Duration → ℕ → Type 0
Expires w d n = (t : Trace) → n ≤ pauses t → wakes (w.wake t) d ≢ timer

slept-pauses :
    (w : World) (h : RunHandle) (m : Machine)
    → pauses (block w pause (block w (status h) m)).trace ≡ suc (pauses m.trace)
unfolding call
slept-pauses w h m =
    let m' = block w (status h) m in
    let a = (block-Keeps w (status h) m).pauses in
    let b = (block-Keeps w pause m').pauses in omega (arith, a, b)

wait_for_terminal_ends :
    (w : World) (h : RunHandle) (d : Duration) (n : ℕ)
    → Expires w d n
    → (fuel errs : ℕ) (m : Machine) → n < fuel + pauses m.trace
    → 0 < fuel
    → wait_for_terminal w h d fuel errs m ≢ none
unfolding wait_for_terminal
wait_for_terminal_ends w h d n x zero errs m l p = ground arith
wait_for_terminal_ends w h d n x (suc fuel) errs m l p =
    let m' = block w (status h) m in
    let slept = block w pause m' in
    elim (Poll-cases (poll errs (w.on_status m'.trace))) [
      | inl (s, e, q) ↦ ground (arith, q)
      | inr (s, k, q) ↦ ground (
        arith,
        q,
        slept-pauses w h m,
        x slept.trace,
        wait_for_terminal_ends w h d n x fuel k slept,
      )
    ]

retry_on_ends :
    (w : World) (fuel : ℕ) (d : Duration) (n : ℕ) (h : RunHandle) (m : Machine)
    → Expires w d n
    → n < fuel
    → retry_on w fuel d h m ≢ none
unfolding retry_on
retry_on_ends w fuel d n h m x l =
    let h' = record h { run_id = m.run.id } in
    let r = record m.run { handle = some h' } in
    let m1 = supervise_handle w h' (save_run (record m { run = (persist_handle w.marshal r).0 })) in
    ground (arith, wait_for_terminal_ends w h' d n x fuel 0 m1)

retry_ends :
    (w : World) (fuel : ℕ) (d : Duration) (n : ℕ) (h : RunHandle) (m : Machine)
    → Expires w d n
    → n < fuel
    → retry_transient_failure w fuel d h m ≢ none
unfolding retry_transient_failure retried
retry_ends w fuel d n h m x l =
    let m1 = call (cleanup h) (stop_sampler (on_run begin_retry m)) in
    let m2 = call execute (on_run (λ r. record r { handle = none }) m1) in
    elim (Answer-cases (w.on_execute m2.trace)) [
      | inl (h', a) ↦ ground (arith, a, retry_on_ends w fuel d n h' m2 x l)
      | inr (e, a) ↦ ground (arith, a)
    ]

after_wait_ends :
    (w : World) (fuel : ℕ) (p : Plan) (n : ℕ) (h : RunHandle) (v : Waited)
    → Expires w p.constraints.max_duration n
    → n < fuel
    → after_wait w fuel p h v ≢ none
unfolding after_wait
after_wait_ends w fuel p n h v x l =
    let m = record_failure w w.failure_reporter v.machine in
    let again = retry_ends w fuel p.constraints.max_duration n h m x l in
    elim (Option-cases v.error) [
      | inl e ↦ ground (arith, e, again)
      | inr (f, e) ↦ ground (arith, e)
    ]

-- If the context or the deadline ends every wait after n sleeps, then with more than n polls of
-- fuel executeEphemeral returns, its retry included, whatever else happens. A run that had not
-- completed then has its handle dropped, or a recorded cleanup error and a terminal state, or the
-- error that its outputs were not retrieved.
pub execute_ephemeral_ends :
    (w : World) (fuel : ℕ) (p : Plan) (n : ℕ) (h : RunHandle) (m : Machine)
    → Expires w p.constraints.max_duration n
    → n < fuel
    → m.run.state ≢ completed
    → (e : Ended) × ((execute_ephemeral w fuel p h m ≡ some e) × IsHandled e)
unfolding execute_ephemeral
execute_ephemeral_ends w fuel p n h m x l live =
    let d = p.constraints.max_duration in
    let m1 = supervise_handle w h m in
    let m2 = if w.logging then block w (logs h) m1 else m1 in
    let waits = wait_for_terminal_ends w h d n x fuel 0 m2 in
    let ends : execute_ephemeral w fuel p h m ≢ none =
      elim (Option-cases (wait_for_terminal w h d fuel 0 m2)) [
        | inl e ↦ ground (arith, waits, e)
        | inr (v, e) ↦ ground (arith, e, after_wait_ends w fuel p n h v x l)
      ] in
    elim (Option-cases (execute_ephemeral w fuel p h m)) [
      | inl e ↦ absurd (ends e)
      | inr (e, eq) ↦ (e, (eq, execute_ephemeral-IsHandled w fuel p h m e live eq))
    ]
