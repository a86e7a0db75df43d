-- ===== src/Tests/Runs.antt =====
-- A run and its executor.
use dispatcher.Prelude.{◌≤◌, ◌<◌, List, [], ◌∷◌, Option, none, some, ◌≡◌, ◌≢◌, ◌↔◌, refl, arith}
use dispatcher.Types.{
  running, completed, planning, execution_failed, budget_exceeded, is_terminal, is_failure,
  is_valid,
}
use dispatcher.Run.State.{Run, new_run, transition, workload_failed, is_valid_transition}
use dispatcher.Run.Machine.{
  Write, move, fail, finish, write_all, terminal_is_final, IsConsistent, new_run_stays-IsConsistent,
}
use dispatcher.Run.Cost.{compute_live_cost}
use dispatcher.Run.World.{World, Machine, kill, terminate, save, go, call, err}
use dispatcher.Run.Sampler.{budget_of, sample_tick, stop_sampler, block, start_sampler}
use dispatcher.Run.Sampler.Budget.{cleanups, executes, sample_tick-budget_iff}
use dispatcher.Run.Executor.Cleanup as Cleanup
use dispatcher.Run.Executor.Cleanup.{attempt_cleanup}
use dispatcher.Run.Executor.Ephemeral.{Ended, execute_ephemeral}
use dispatcher.Run.Executor.Teardown.{IsSettled, attempt_cleanup-IsSettled}
use dispatcher.Run.Executor.Release.{IsHandled}
use dispatcher.Run.Executor.Wait.{wakes}
use dispatcher.Run.Executor.Polls.{Expires, execute_ephemeral_ends}
use dispatcher.Run.Executor.Launch.{prelaunch, ready, execute_run}
use dispatcher.Run.Executor.Consent.{IsCleared, execute_run-IsCleared}
use dispatcher.Tests.Data.{
  gpu_plan, recommendation, instance_handle, fresh_run, fresh, busy_machine, calm,
}

abbrev over_run : Run
over_run = record fresh_run { state = budget_exceeded }

abbrev writes : List Write
writes = move planning 2 ∷ fail execution_failed workload_failed 3 ∷ finish completed 4 ∷ []

terminal_is_final_example : write_all over_run writes ≡ over_run
unfolding is_terminal
terminal_is_final_example = terminal_is_final over_run writes refl

new_run_stays-IsConsistent_example :
    IsConsistent (write_all (new_run "run-1" gpu_plan recommendation 1) writes)
unfolding is_failure is_terminal
new_run_stays-IsConsistent_example =
    new_run_stays-IsConsistent "run-1" gpu_plan recommendation 1 writes (ground arith)

attempt_cleanup-IsSettled_example :
    IsSettled instance_handle (attempt_cleanup calm busy_machine).run
    × (1 ≤ cleanups (attempt_cleanup calm busy_machine).trace)
    × (cleanups (attempt_cleanup calm busy_machine).trace ≤ 3)
attempt_cleanup-IsSettled_example =
    attempt_cleanup-IsSettled calm instance_handle busy_machine refl (ground arith)

expires : Expires calm gpu_plan.constraints.max_duration 0
unfolding wakes
expires t h = ground arith

execute_ephemeral_ends_example :
    (e : Ended) × ((execute_ephemeral calm 1 gpu_plan instance_handle busy_machine ≡ some e)
      × IsHandled e)
execute_ephemeral_ends_example =
    execute_ephemeral_ends calm 1 gpu_plan 0 instance_handle busy_machine expires (omega arith)
      (ground arith)

-- The provider has no instance left.
abbrev full : World
full = record calm { on_execute = λ t. err "no capacity" }

-- What a run of the fresh machine returns.
abbrev or_fresh : Option Ended → Ended
or_fresh none = record { machine = fresh; error = none }
or_fresh (some e) = e

abbrev fresh_end : Ended
fresh_end = or_fresh (execute_run full 1 gpu_plan fresh)

fresh_end_lem :
    (execute_run full 1 gpu_plan fresh ≡ some fresh_end) × (executes fresh_end.machine.trace ≡ 1)
unfolding execute_run prelaunch go transition is_terminal new_run is_valid_transition is_valid call
    stop_sampler block start_sampler budget_of Cleanup.fail
fresh_end_lem = (refl, refl)

called : executes fresh_end.machine.trace ≢ executes fresh.trace
called h = ground (arith, fresh_end_lem.1, h)

execute_run-IsCleared_example :
    (n : Machine) × ((prelaunch full gpu_plan fresh ≡ ready n) × IsCleared full gpu_plan fresh n)
execute_run-IsCleared_example =
    execute_run-IsCleared full 1 gpu_plan fresh fresh_end fresh_end_lem.0 called

sample_tick-budget_iff_example :
    (((sample_tick calm (kill instance_handle) 9 busy_machine).run.state ≡ budget_exceeded) ↔ (
      (0 < budget_of busy_machine.run)
      × (budget_of busy_machine.run < (compute_live_cost busy_machine.run 9).value)))
    × ((sample_tick calm (kill instance_handle) 9 busy_machine).run.cost
        ≡ compute_live_cost busy_machine.run 9)
    × ((sample_tick calm (kill instance_handle) 9 busy_machine).run.state ≡ budget_exceeded
        → ((sample_tick calm (kill instance_handle) 9 busy_machine).sampler ≡ none)
          × ((sample_tick calm (kill instance_handle) 9 busy_machine).trace
              ≡ terminate instance_handle ∷ save running ∷ []))
    × ((sample_tick calm (kill instance_handle) 9 busy_machine).run.state ≢ budget_exceeded
        → ((sample_tick calm (kill instance_handle) 9 busy_machine).run.state ≡ running)
          × ((sample_tick calm (kill instance_handle) 9 busy_machine).sampler ≡ none))
sample_tick-budget_iff_example = sample_tick-budget_iff calm instance_handle 9 busy_machine refl
