-- ===== src/Run/Executor/Teardown.antt =====
-- What executor.go promises about cleanup.
use dispatcher.Prelude.{
  ℕ, zero, suc, ◌+◌, ◌≤◌, true, none, some, ◌≡◌, ◌≢◌, refl, ◌∙◌, ◌⊎◌, inl, inr, ◌==◌, arith,
  Bool-cases, if◌then◌else◌,
}
use dispatcher.Types.{RunState, is_terminal, completed, cleaning_up}
use dispatcher.Adapter.{RunHandle}
use dispatcher.Run.State.{Run, set_error, set_cleanup_error}
use dispatcher.Run.World.{World, Machine, Call, cleanup, pause, call, go, on_run}
use dispatcher.Run.Sampler.{block}
use dispatcher.Run.Sampler.Budget.{cleanups, Keeps, sample_all-Keeps, transition-cases}
use dispatcher.Run.Executor.Cleanup.{
  fail, cleaned, give_up, cleanup_loop, attempt_cleanup, cleanup_handle, succeeded,
}

-- A transition leaves the handle alone.
go-handle : (w : World) (s : RunState) (m : Machine) → (go w s m).0.run.handle ≡ m.run.handle
unfolding go
go-handle w s m = elim (transition-cases m.run s (w.clock m.trace)) [
  | inl same ↦ rw same refl
  | inr (_, _, h, _, _, _) ↦ h
]

go-trace : (w : World) (s : RunState) (m : Machine) → (go w s m).0.trace ≡ m.trace
unfolding go
go-trace w s m = refl

pub block-Keeps : (w : World) (c : Call) (m : Machine) → Keeps (call c m) (block w c m)
unfolding block
block-Keeps w c m = sample_all-Keeps w (w.ticks (call c m).trace) (call c m)

-- A handle is dropped, or the record says that the cleanup failed and the run is over.
unfoldable pub IsSettled : RunHandle → Run → Type 0
IsSettled h r =
    (r.handle ≡ none)
    ⊎ ((r.handle ≡ some h) × (r.cleanup_error ≡ true) × (is_terminal r.state ≡ true))

cleaned-IsSettled : (w : World) (h : RunHandle) (m : Machine) → IsSettled h (cleaned w m).run
unfolding IsSettled cleaned on_run
cleaned-IsSettled w h m = inl (go-handle w completed _)

cleaned-trace : (w : World) (m : Machine) → (cleaned w m).trace ≡ m.trace
unfolding cleaned on_run go
cleaned-trace w m = refl

give_up-IsSettled :
    (w : World) (h : RunHandle) (m : Machine)
    → m.run.handle ≡ some h
    → IsSettled h (give_up w m).run
unfolding IsSettled give_up fail on_run set_error set_cleanup_error is_terminal
give_up-IsSettled w h m e = inr (ground arith)

give_up-trace : (w : World) (m : Machine) → (give_up w m).trace ≡ m.trace
unfolding give_up fail on_run
give_up-trace w m = refl

-- One round: what the loop asks for, the handle being held.
abbrev round : World → RunHandle → Machine → Machine
round w h m = block w (cleanup h) (go w cleaning_up m).0

round-handle : (w : World) (h : RunHandle) (m : Machine) → (round w h m).run.handle ≡ m.run.handle
unfolding call
round-handle w h m =
    (block-Keeps w (cleanup h) (go w cleaning_up m).0).handle ∙ go-handle w cleaning_up m

round-cleanups :
    (w : World) (h : RunHandle) (m : Machine)
    → cleanups (round w h m).trace ≡ suc (cleanups m.trace)
unfolding call go
round-cleanups w h m = (block-Keeps w (cleanup h) (go w cleaning_up m).0).cleanups

pause-handle : (w : World) (m : Machine) → (block w pause m).run.handle ≡ m.run.handle
unfolding call
pause-handle w m = (block-Keeps w pause m).handle

pause-cleanups : (w : World) (m : Machine) → cleanups (block w pause m).trace ≡ cleanups m.trace
unfolding call
pause-cleanups w m = (block-Keeps w pause m).cleanups

-- The pause between two rounds, after the last of which there is none.
abbrev rest : World → ℕ → Machine → Machine
rest w left m = if left == 0 then m else block w pause m

rest-handle : (w : World) (left : ℕ) (m : Machine) → (rest w left m).run.handle ≡ m.run.handle
rest-handle w left m = ground (arith, pause-handle w m)

rest-cleanups :
    (w : World) (left : ℕ) (m : Machine) → cleanups (rest w left m).trace ≡ cleanups m.trace
rest-cleanups w left m = ground (arith, pause-cleanups w m)

-- The loop settles the handle in at most as many rounds as it has, and in one at least.
pub IsBounded : ℕ → Machine → Machine → Type 0
IsBounded left m n =
    (cleanups m.trace + (if left == 0 then 0 else 1) ≤ cleanups n.trace)
    × (cleanups n.trace ≤ cleanups m.trace + left)

cleanup_loop-IsSettled :
    (w : World) (left : ℕ) (h : RunHandle) (m : Machine)
    → m.run.handle ≡ some h
    → IsSettled h (cleanup_loop w left h m).run × IsBounded left m (cleanup_loop w left h m)
unfolding cleanup_loop IsBounded
cleanup_loop-IsSettled w zero h m e =
    (give_up-IsSettled w h m e, rw (give_up-trace w m) (omega arith, omega arith))
cleanup_loop-IsSettled w (suc left) h m e =
    let m' = round w h m in
    let next = rest w left m' in
    let called = round-cleanups w h m in
    let paused = rest-cleanups w left m' in
    let held = rest-handle w left m' ∙ round-handle w h m ∙ e in
    let ih = cleanup_loop-IsSettled w left h next held in
    elim (Bool-cases (succeeded (w.on_cleanup m'.trace))) [
      | inl s ↦ rw s (cleaned-IsSettled w h m', rw (cleaned-trace w m') (ground (arith, called)))
      | inr s ↦ rw s (ih.0, ground (arith, called, paused, ih.1))
    ]

-- The deferred cleanup of a run that holds a handle and has not completed: it asks the adapter to
-- clean up between once and three times, and ends with the handle dropped, or with the handle kept,
-- a cleanup error on the record and the run in a terminal state.
pub attempt_cleanup-IsSettled :
    (w : World) (h : RunHandle) (m : Machine)
    → m.run.handle ≡ some h
    → m.run.state ≢ completed
    → IsSettled h (attempt_cleanup w m).run
      × (cleanups m.trace + 1 ≤ cleanups (attempt_cleanup w m).trace)
      × (cleanups (attempt_cleanup w m).trace ≤ cleanups m.trace + 3)
unfolding attempt_cleanup cleanup_handle IsBounded
attempt_cleanup-IsSettled w h m e live = rw e (ground (arith, cleanup_loop-IsSettled w 3 h m e))
