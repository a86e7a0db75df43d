-- ===== src/Run/Sampler.antt =====
-- startCostSampler of internal/run/executor.go: one tick, and the ticks during a call.
pub mod Budget
use dispatcher.Prelude.{
  ℕ, ◌+◌, ◌*◌, ◌/◌, Bool, true, false, ◌&&◌, ◌||◌, not, List, [], ◌∷◌, Option, none, some, ◌==◌,
  ltb, leb, if◌then◌else◌,
}
use dispatcher.Types.{
  RunState, budget_exceeded, Time, Duration, second, Usd, CostEstimate, PlanConstraints, Plan,
}
use dispatcher.Run.State.{Run, transition, set_cost, TransitionError}
use dispatcher.Run.Cost.{compute_live_cost, planned_cost}
use dispatcher.Run.World.{
  World, Machine, Killer, cancel_provisioning, kill, Call, terminate, on_run, call, save_run, go,
}

-- PlanConstraints.MaxEstimatedCostUSD of the run's plan.
unfoldable pub budget_of : Run → Usd
budget_of r = elim r.plan [ none ↦ 0 | some p ↦ p.constraints.max_estimated_cost_usd ]

-- A sampler is started where there is a budget, or a price to follow.
unfoldable pub start_sampler : Killer → Machine → Machine
unfolding planned_cost
start_sampler k m =
    let price : Usd = elim (planned_cost m.run.plan) [
      | none ↦ 0
      | some (base, kind) ↦ base.value
    ] in
    if budget_of m.run == 0 && price == 0 then m else record m { sampler = some k }

unfoldable pub stop_sampler : Machine → Machine
stop_sampler m = record m { sampler = none }

unfoldable pub fire : Killer → Machine → Machine
fire cancel_provisioning m = m
fire (kill h) m = call (terminate h) m

-- The branch of a breach: claim the run by the transition, then terminate. Either way the sampler
-- returns.
unfoldable pub trip : Killer → CostEstimate → Machine × Option TransitionError → Machine
unfolding fire set_cost on_run
trip k live (m, none) = fire k (on_run (λ r. set_cost r live) (stop_sampler m))
trip k live (m, some e) = stop_sampler m

module _ (w : World) where
  -- The branch `<-ticker.C`.
  unfoldable pub sample_tick : Killer → Time → Machine → Machine
  unfolding trip save_run on_run
  sample_tick k now m =
      let live = compute_live_cost m.run now in
      let m' = save_run (on_run (λ r. set_cost r live) m) in
      if budget_of m.run == 0 || leb live.value (budget_of m.run)
      then m'
      else trip k live
          (let (r, e) = transition m'.run budget_exceeded now in (record m' { run = r }, e))

  unfoldable pub sample_if : Option Killer → Time → Machine → Machine
  unfolding sample_tick
  sample_if none now m = m
  sample_if (some k) now m = sample_tick k now m

  -- The ticks in turn; once the sampler has returned the rest does nothing.
  unfoldable pub sample_all : List Time → Machine → Machine
  unfolding sample_if
  sample_all [] m = m
  sample_all (t ∷ ts) m = sample_all ts (sample_if m.sampler t m)

  -- A blocking call: it is made, and the sampler ticks until it returns.
  unfoldable pub block : Call → Machine → Machine
  unfolding sample_all
  block c m = let m' = call c m in sample_all (w.ticks m'.trace) m'

-- samplerRateFor, for a budget that is not 0.
unfoldable pub sampler_rate_for : Usd → Usd → Duration → Duration
sampler_rate_for live budget base =
    let want =
      if leb (8 * budget) (10 * live)
      then second / 2
      else if leb (5 * budget) (10 * live)
      then base / 2
      else base in
    if ltb want (second / 10) then second / 10 else want
