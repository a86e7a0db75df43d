-- ===== src/Stop.antt =====
-- internal/cli/stop.go: `dispatcher stop` and its --force. `clock` gives the readings of the clock
-- in their order.
pub mod Walk
pub mod Settle
use dispatcher.Prelude.{
  ℕ, Bool, true, false, not, List, [], ◌∷◌, ◌++◌, Option, none, some, if◌then◌else◌,
}
use dispatcher.Types.{RunState, stopping, cleaning_up, completed, cleanup_failed, is_terminal, Time}
use dispatcher.Adapter.{RunHandle}
use dispatcher.Run.State.{Run, Failure, not_cleaned, stranded, transition, set_error}
use dispatcher.Run.World.{Call, terminate, cleanup, save}
use dispatcher.Run.Cost.{finalize_cost}
use dispatcher.Run.Record.{RunRecord, run_from_record}
use dispatcher.Run.Reconnect.{
  Cleaned, cleanup_error, nil_result, cleanup_result, Target, Reconnected, no_record, no_adapter,
  ended, live, no_handle_state, no_reconnection,
}

-- How the command ends: the run as it is saved, and the calls of the adapter and of Save, in order.
pub data StopEnd : Type 0 where
  cannot_connect : StopEnd
  already_terminal : Run → StopEnd
  stopped cleanup_lost force_stopped : Run → List Call → StopEnd

-- A cleanup counts as failed on an error or on a result that says so.
unfoldable pub lost : Cleaned → Bool
lost cleanup_error = true
lost nil_result = false
lost (cleanup_result res) = not res.success

module _ (clock : ℕ → Time) where
  unfoldable pub finalize_and_save : Run → List Call → Run × List Call
  finalize_and_save r calls =
      let r' = finalize_cost r (clock 3) in (r', calls ++ save r'.state ∷ [])

  unfoldable pub complete_stop : Run → List Call → StopEnd
  unfolding finalize_and_save
  complete_stop r calls =
      let (r', all) = finalize_and_save (transition r completed (clock 2)).0 calls in stopped r' all

  unfoldable pub stop_on : RunHandle → Run → Target → StopEnd
  unfolding complete_stop finalize_and_save lost
  stop_on h r a =
      let stopping_run = (transition r stopping (clock 0)).0 in
      let cleaning = (transition stopping_run cleaning_up (clock 1)).0 in
      let calls = terminate h ∷ cleanup h ∷ [] in
      if lost (a.on_cleanup h)
      then (let (r', all) =
            finalize_and_save (set_error cleaning cleanup_failed not_cleaned (clock 2)) calls in
          cleanup_lost r' all)
      else complete_stop cleaning calls

  unfoldable pub stop_with : Option RunHandle → Run → Target → StopEnd
  unfolding complete_stop
  stop_with none r a = complete_stop (transition r stopping (clock 0)).0 []
  stop_with (some h) r a = stop_on h r a

  unfoldable pub stop_live : Run → Target → StopEnd
  unfolding stop_with
  stop_live r a = stop_with r.handle r a

  -- forceStop, with what its own LoadRecord gave.
  unfoldable pub force_stop : Option RunRecord → StopEnd
  unfolding finalize_and_save
  force_stop none = cannot_connect
  force_stop (some rec) =
      if is_terminal rec.state
      then already_terminal (run_from_record rec)
      else (let (r', calls) =
            finalize_and_save (set_error (run_from_record rec) cleanup_failed stranded (clock 2))
              [] in
          force_stopped r' calls)

  -- The command, after ReconnectToRun.
  unfoldable pub stop : Bool → Option RunRecord → Reconnected → StopEnd
  stop force rec (ended r) = already_terminal r
  stop force rec (live r a) = stop_live r a
  stop force rec _ = if force then force_stop rec else cannot_connect
