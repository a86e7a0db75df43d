-- ===== src/Run/Executor/Recovery.antt =====
-- What is left after a panic in Execute.
use dispatcher.Prelude.{◌≢◌, arith}
use dispatcher.Types.{completed, execution_failed, is_terminal}
use dispatcher.Run.State.{panicked, set_error}
use dispatcher.Run.World.{World, Machine, save_run, on_run}
use dispatcher.Run.Executor.Cleanup.{fail}
use dispatcher.Run.Executor.Launch.{recovered}
use dispatcher.Run.Executor.Release.{IsReleased, attempt_cleanup-IsReleased}

marked : World → Machine → Machine
marked w m = save_run (fail w execution_failed panicked m)

marked_undone :
    (w : World) (m : Machine) → m.run.state ≢ completed → (marked w m).run.state ≢ completed
unfolding marked save_run fail on_run set_error is_terminal
marked_undone w m live = ground arith

-- Wherever Execute panics with a run that has not completed, the recovery leaves no handle on the
-- run, or a recorded cleanup error and a terminal state.
recovered-IsReleased :
    (w : World) (m : Machine) → m.run.state ≢ completed → IsReleased (recovered w m).machine.run
unfolding recovered marked
recovered-IsReleased w m live = attempt_cleanup-IsReleased w (marked w m) (marked_undone w m live)
