-- ===== src/Run/Sampler/Budget.antt =====
-- What a tick of the cost sampler does to a run, and what it leaves alone.
use dispatcher.Prelude.{
  ℕ, suc, ◌<◌, true, false, List, [], ◌∷◌, Option, none, some, ◌≡◌, ◌≢◌, refl, ◌⊎◌, inl, inr, ◌↔◌,
  arith, leb, ◌==◌, ◌||◌, Bool-cases,
}
use dispatcher.Types.{
  RunState, running, completed, budget_exceeded, is_terminal, Time, CostEstimate,
}
use dispatcher.Adapter.{RunHandle}
use dispatcher.Run.State.{Run, transition, is_valid_transition, TransitionError, set_cost}
use dispatcher.Run.Cost.{compute_live_cost}
use dispatcher.Run.World.{
  World, Machine, Killer, cancel_provisioning, kill, execute, terminate, cleanup, save, pause,
  Trace, on_run, call, save_run,
}
use dispatcher.Run.Sampler.{budget_of, stop_sampler, fire, trip, sample_tick, sample_if, sample_all}

-- The teardowns and the provisionings that were asked for.
abbrev pub cleanups : Trace → ℕ
cleanups [] = 0
cleanups (cleanup h ∷ t) = suc (cleanups t)
cleanups (_ ∷ t) = cleanups t

abbrev pub executes : Trace → ℕ
executes [] = 0
executes (execute ∷ t) = suc (executes t)
executes (_ ∷ t) = executes t

-- The sleeps in a select.
abbrev pub pauses : Trace → ℕ
pauses [] = 0
pauses (pause ∷ t) = suc (pauses t)
pauses (_ ∷ t) = pauses t

-- What survives any number of ticks.
pub record Keeps (m n : Machine) : Type 0 where
  pub handle : n.run.handle ≡ m.run.handle
  pub cleanup_error : n.run.cleanup_error ≡ m.run.cleanup_error
  pub approval : n.run.approval ≡ m.run.approval
  pub plan : n.run.plan ≡ m.run.plan
  pub terminal : is_terminal m.run.state ≡ true → n.run.state ≡ m.run.state
  pub undone : m.run.state ≢ completed → n.run.state ≢ completed
  pub cleanups : cleanups n.trace ≡ cleanups m.trace
  pub pauses : pauses n.trace ≡ pauses m.trace
  pub executes : executes n.trace ≡ executes m.trace

-- A refused transition changes nothing, and an accepted one only the state and its times.
pub transition-cases :
    (r : Run) (to : RunState) (now : Time)
    → ((transition r to now).0 ≡ r)
      ⊎ ((is_terminal r.state ≡ false)
          × ((transition r to now).0.state ≡ to)
          × ((transition r to now).0.handle ≡ r.handle)
          × ((transition r to now).0.cleanup_error ≡ r.cleanup_error)
          × ((transition r to now).0.approval ≡ r.approval)
          × ((transition r to now).0.plan ≡ r.plan))
unfolding transition
transition-cases r to now = elim (Bool-cases (is_terminal r.state)) [
  | inl over ↦ inl (rw over refl)
  | inr live ↦ elim (Bool-cases (is_valid_transition r.state to)) [
    | inl valid ↦ inr (rw (live, valid) (refl, refl, refl, refl, refl, refl))
    | inr bad ↦ inl (rw (live, bad) refl)
  ]
]

moved-Keeps :
    (m : Machine) (r : Run) (s : Option Killer)
    → (r ≡ m.run)
      ⊎ ((is_terminal m.run.state ≡ false)
          × (r.state ≡ budget_exceeded)
          × (r.handle ≡ m.run.handle)
          × (r.cleanup_error ≡ m.run.cleanup_error)
          × (r.approval ≡ m.run.approval)
          × (r.plan ≡ m.run.plan))
    → Keeps m (record m { run = r; sampler = s })
moved-Keeps m r s (inl same) = ground arith
moved-Keeps m r s (inr (live, st, h, c, a, p)) = ground arith

Keeps-trans : (l m n : Machine) → Keeps l m → Keeps m n → Keeps l n
Keeps-trans l m n a b = ground (arith, a.terminal, b.terminal, a.undone, b.undone)

trip-Keeps :
    (k : Killer) (live : CostEstimate) (m : Machine) (e : Option TransitionError)
    → Keeps m (trip k live (m, e))
unfolding trip fire set_cost stop_sampler call on_run
trip-Keeps cancel_provisioning live m none = ground arith
trip-Keeps (kill h) live m none = ground arith
trip-Keeps k live m (some e) = ground arith

priced-Keeps :
    (m : Machine) (live : CostEstimate) → Keeps m (save_run (on_run (λ r. set_cost r live) m))
unfolding save_run on_run set_cost
priced-Keeps m live = ground arith

-- A step of the sampler keeps what is not its own.
sample_tick-Keeps :
    (w : World) (k : Killer) (t : Time) (m : Machine) → Keeps m (sample_tick w k t m)
unfolding sample_tick
sample_tick-Keeps w k t m =
    let live = compute_live_cost m.run t in
    let m' = save_run (on_run (λ r. set_cost r live) m) in
    let r = transition m'.run budget_exceeded t in
    let moved = moved-Keeps m' r.0 m'.sampler (transition-cases m'.run budget_exceeded t) in
    let tripped = Keeps-trans m' _ _ moved (trip-Keeps k live (record m' { run = r.0 }) r.1) in
    elim (Bool-cases (budget_of m.run == 0 || leb live.value (budget_of m.run))) [
      | inl e ↦ rw e (priced-Keeps m live)
      | inr e ↦ rw e (Keeps-trans m m' _ (priced-Keeps m live) tripped)
    ]

Keeps-refl : (m : Machine) → Keeps m m
Keeps-refl m = ground arith

sample_if-Keeps :
    (w : World) (k : Option Killer) (t : Time) (m : Machine) → Keeps m (sample_if w k t m)
unfolding sample_if
sample_if-Keeps w none t m = Keeps-refl m
sample_if-Keeps w (some k) t m = sample_tick-Keeps w k t m

pub sample_all-Keeps : (w : World) (ts : List Time) (m : Machine) → Keeps m (sample_all w ts m)
unfolding sample_all
sample_all-Keeps w [] m = Keeps-refl m
sample_all-Keeps w (t ∷ ts) m =
    let m' = sample_if w m.sampler t m in
    Keeps-trans m m' _ (sample_if-Keeps w m.sampler t m) (sample_all-Keeps w ts m')

-- A tick of the sampler moves a running run to BudgetExceeded exactly when there is a budget and
-- the live cost is above it. Then the sampler returns and the handle that it supervises is
-- terminated last; otherwise the run stays running under the same sampler. Either way the live
-- cost is on the record.
pub sample_tick-budget_iff :
    (w : World) (h : RunHandle) (t : Time) (m : Machine)
    → m.run.state ≡ running
    → let live = compute_live_cost m.run t in
      let n = sample_tick w (kill h) t m in
      ((n.run.state ≡ budget_exceeded) ↔ ((0 < budget_of m.run) × (budget_of m.run < live.value)))
      × (n.run.cost ≡ live)
      × (n.run.state ≡ budget_exceeded
          → (n.sampler ≡ none) × (n.trace ≡ terminate h ∷ save running ∷ m.trace))
      × (n.run.state ≢ budget_exceeded → (n.run.state ≡ running) × (n.sampler ≡ m.sampler))
unfolding sample_tick trip fire set_cost stop_sampler call on_run save_run transition is_terminal
    is_valid_transition
sample_tick-budget_iff w h t m e =
    elim (Bool-cases
      (budget_of m.run == 0 || leb (compute_live_cost m.run t).value (budget_of m.run))) [
        | inl c ↦ rw (c, e) (ground arith)
        | inr c ↦ rw (c, e) (ground arith)
      ]
