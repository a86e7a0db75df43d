-- ===== src/Run/Executor/Holding.antt =====
-- The parts of the executor that leave the handle with the run and ask for no cleanup.
use dispatcher.Prelude.{
  ℕ, zero, suc, ◌∷◌, Option, none, some, ◌≡◌, ◌≢◌, refl, ◌∙◌, sym, ◌⊎◌, inl, inr, arith,
}
use dispatcher.Types.{RunState, completed, collecting_artifacts, Duration}
use dispatcher.Adapter.{RunHandle, FailureDetails}
use dispatcher.Run.State.{Failure, set_failure}
use dispatcher.Run.World.{
  World, Machine, Call, artifacts, status, extend_watchdog, pause, call, go, on_run, save_run, kill,
  Trace,
}
use dispatcher.Run.Sampler.{block, start_sampler}
use dispatcher.Run.Sampler.Budget.{cleanups, transition-cases}
use dispatcher.Run.Executor.Cleanup.{collect_loop, collect_artifacts, collect_from}
use dispatcher.Run.Executor.Wait.{Waited, Poll, over, again, poll, wait_for_terminal}
use dispatcher.Run.Executor.Ephemeral.{renew_watchdog, supervise_handle, record_failure}
use dispatcher.Run.Executor.Teardown.{block-Keeps}

pub record Holds (m n : Machine) : Type 0 where
  pub handle : n.run.handle ≡ m.run.handle
  pub cleanups : cleanups n.trace ≡ cleanups m.trace
  pub undone : m.run.state ≢ completed → n.run.state ≢ completed

pub Holds-trans : (l m n : Machine) → Holds l m → Holds m n → Holds l n
Holds-trans l m n a b = record {
  handle = b.handle ∙ a.handle;
  cleanups = b.cleanups ∙ a.cleanups;
  undone = λ u. b.undone (a.undone u);
}

pub Holds-refl : (m : Machine) → Holds m m
Holds-refl m = record { handle = refl; cleanups = refl; undone = λ u. u }

-- A blocking call other than a cleanup.
pub block-Holds :
    (w : World) (c : Call) (m : Machine)
    → cleanups (c ∷ m.trace) ≡ cleanups m.trace
    → Holds m (block w c m)
unfolding call
block-Holds w c m e =
    let k = block-Keeps w c m in
    record { handle = k.handle; cleanups = k.cleanups ∙ e; undone = k.undone }

pub go-Holds : (w : World) (s : RunState) (m : Machine) → s ≢ completed → Holds m (go w s m).0
unfolding go
go-Holds w s m ne = elim (transition-cases m.run s (w.clock m.trace)) [
  | inl same ↦ rw same (Holds-refl m)
  | inr (_, st, h, _, _, _) ↦ record {
    handle = h;
    cleanups = refl;
    undone = λ u e. ne (sym st ∙ e);
  }
]

collect_loop-Holds :
    (w : World) (more : ℕ) (h : RunHandle) (m : Machine) → Holds m (collect_loop w more h m).0
unfolding collect_loop
collect_loop-Holds w zero h m =
    let m' = block w (artifacts h) m in ground (arith, block-Holds w (artifacts h) m refl)
collect_loop-Holds w (suc more) h m =
    let m' = block w (artifacts h) m in
    let waited = block w pause m' in
    let a = block-Holds w (artifacts h) m refl in
    let b = Holds-trans m m' waited a (block-Holds w pause m' refl) in
    let c = Holds-trans m waited _ b (collect_loop-Holds w more h waited) in ground (arith, a, b, c)

pub collect_artifacts-Holds :
    (w : World) (h : Option RunHandle) (m : Machine) → Holds m (collect_artifacts w h m).0
unfolding collect_artifacts collect_from
collect_artifacts-Holds w none m = Holds-refl m
collect_artifacts-Holds w (some h) m =
    let n = (go w collecting_artifacts m).0 in
    let g = go-Holds w collecting_artifacts m (ground arith) in
    ground (arith, g, Holds-trans m n _ g (collect_loop-Holds w 2 h n))

pub Poll-cases :
    (p : Poll)
    → ((s : RunState) × (e : Option Failure) × (p ≡ over s e))
      ⊎ ((s : RunState) × (k : ℕ) × (p ≡ again s k))
Poll-cases (over s e) = inl (s, e, refl)
Poll-cases (again s k) = inr (s, k, refl)

pub wait_for_terminal-Holds :
    (w : World) (h : RunHandle) (d : Duration) (fuel errs : ℕ) (m : Machine) (v : Waited)
    → wait_for_terminal w h d fuel errs m ≡ some v
    → Holds m v.machine
unfolding wait_for_terminal call
wait_for_terminal-Holds w h d zero errs m v e = ground arith
wait_for_terminal-Holds w h d (suc fuel) errs m v e =
    let m' = block w (status h) m in
    let slept = block w pause m' in
    let a = block-Holds w (status h) m refl in
    let b = Holds-trans m m' slept a (block-Holds w pause m' refl) in
    elim (Poll-cases (poll errs (w.on_status m'.trace))) [
      | inl (s, x, p) ↦ ground (arith, a, p)
      | inr (s, k, p) ↦ ground (
        arith,
        b,
        p,
        λ (f : wait_for_terminal w h d fuel k slept ≡ some v).
            Holds-trans m slept v.machine b (wait_for_terminal-Holds w h d fuel k slept v f),
      )
    ]

pub supervise_handle-Holds :
    (w : World) (h : RunHandle) (m : Machine) → Holds m (supervise_handle w h m)
unfolding supervise_handle renew_watchdog start_sampler save_run
supervise_handle-Holds w h m =
    let n = start_sampler (kill h) m in ground (arith, block-Holds w (extend_watchdog h) n refl)

pub record_failure-Holds :
    (w : World) (fr : Option (Trace → FailureDetails)) (m : Machine)
    → Holds m (record_failure w fr m)
unfolding record_failure on_run set_failure
record_failure-Holds w none m = Holds-refl m
record_failure-Holds w (some details) m = ground arith
