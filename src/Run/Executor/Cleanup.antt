-- ===== src/Run/Executor/Cleanup.antt =====
-- attemptCleanup and collectArtifacts.
use dispatcher.Prelude.{
  ℕ, zero, suc, Bool, true, false, List, Option, none, some, ◌==◌, if◌then◌else◌,
}
use dispatcher.Types.{
  RunState, RunState-discrete, eq_by, completed, cleaning_up, cleanup_failed, collecting_artifacts,
}
use dispatcher.Adapter.{ArtifactRef, CleanupResult, RunHandle}
use dispatcher.Run.State.{
  Failure, cleanup_retries_exhausted, TransitionError, set_error, set_cleanup_error,
}
use dispatcher.Run.World.{World, Machine, cleanup, artifacts, pause, ok, err, ctx_done, on_run, go}
use dispatcher.Run.Sampler.{block}

unfoldable pub succeeded : Option CleanupResult → Bool
succeeded none = false
succeeded (some r) = r.success

module _ (w : World) where
  -- SetError, at the time of the clock.
  unfoldable pub fail : RunState → Failure → Machine → Machine
  unfolding on_run
  fail s e m = on_run (λ r. set_error r s e (w.clock m.trace)) m

  -- The cleanup succeeded: drop the handle and complete.
  unfoldable pub cleaned : Machine → Machine
  unfolding on_run
  cleaned m = (go w completed (on_run (λ r. record r { handle = none }) m)).0

  unfoldable pub give_up : Machine → Machine
  unfolding on_run
  give_up m = fail cleanup_failed cleanup_retries_exhausted (on_run set_cleanup_error m)

  -- The loop, with so many rounds left. Between two rounds it sleeps.
  unfoldable pub cleanup_loop : ℕ → RunHandle → Machine → Machine
  unfolding succeeded
  cleanup_loop zero h m = give_up m
  cleanup_loop (suc left) h m =
      let m' = block w (cleanup h) (go w cleaning_up m).0 in
      let again = cleanup_loop left h (if left == 0 then m' else block w pause m') in
      if succeeded (w.on_cleanup m'.trace) then cleaned m' else again

  unfoldable pub cleanup_handle : Option RunHandle → Machine → Machine
  unfolding RunState-discrete
  cleanup_handle none m = m
  cleanup_handle (some h) m =
      if eq_by RunState-discrete m.run.state completed then m else cleanup_loop 3 h m

  unfoldable pub attempt_cleanup : Machine → Machine
  unfolding cleanup_handle
  attempt_cleanup m = cleanup_handle m.run.handle m

  abbrev pub collected : List ArtifactRef → Machine → Machine
  collected refs m = record m { run = record m.run { artifacts = refs } }

  -- The attempts, with so many more after this one.
  unfoldable pub collect_loop : ℕ → RunHandle → Machine → Machine × Bool
  collect_loop zero h m =
      let m' = block w (artifacts h) m in
      elim (w.on_artifacts m'.trace) [ ok refs ↦ (collected refs m', true) | err e ↦ (m', false) ]
  collect_loop (suc more) h m =
      let m' = block w (artifacts h) m in
      let waited = block w pause m' in
      let again = collect_loop more h waited in
      elim (w.on_artifacts m'.trace) [
        | ok refs ↦ (collected refs m', true)
        | err e ↦ elim (w.wake waited.trace) [ ctx_done ↦ (waited, false) | _ ↦ again ]
      ]

  -- artifactCollectAttempts is 3.
  unfoldable pub collect_from : RunHandle → Machine × Option TransitionError → Machine × Bool
  collect_from h (m, none) = collect_loop 2 h m
  collect_from h (m, some e) = (m, false)

  unfoldable pub collect_artifacts : Option RunHandle → Machine → Machine × Bool
  unfolding collect_from
  collect_artifacts none m = (m, false)
  collect_artifacts (some h) m = collect_from h (go w collecting_artifacts m)
