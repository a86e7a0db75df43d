-- ===== src/Run/Cost/Growth.antt =====
-- How the live cost develops.
use dispatcher.Prelude.{ℕ, ◌+◌, ◌-◌, ◌*◌, ◌/◌, ◌≤◌, ◌<◌, ◌≡◌, ◌≢◌, some, arith}
use native.Mathlib.Nat.{le-div_iff_mul-le, div-mul-le_self, mul-le-mul_left, mul-div_left}
use dispatcher.Types.{Time, CostEstimate, WorkloadKind}
use dispatcher.Run.State.{Run}
use dispatcher.Run.Cost.{elapsed, assumed_duration, planned_cost, scaled_cost, compute_live_cost}

div-monotone : (a b d : ℕ) → a ≤ b → 0 < d → a / d ≤ b / d
div-monotone a b d h p = (le-div_iff_mul-le p).1 (omega (arith, div-mul-le_self a d, h))

assumed_pos : (kind : WorkloadKind) → 0 < assumed_duration kind
unfolding assumed_duration
assumed_pos kind = ground arith

-- While a priced run goes on, its live cost never falls after the first instant, and after the
-- duration that the estimate assumes it is the estimate.
pub compute_live_cost-monotone :
    (r : Run) (base : CostEstimate) (kind : WorkloadKind) (t u : Time)
    → planned_cost r.plan ≡ some (base, kind)
    → r.started_at ≢ 0
    → r.finished_at ≡ 0
    → r.started_at < t
    → t ≤ u
    → ((compute_live_cost r t).value ≤ (compute_live_cost r u).value)
      × ((compute_live_cost r (r.started_at + assumed_duration kind)).value ≡ base.value)
unfolding compute_live_cost scaled_cost elapsed
compute_live_cost-monotone r base kind t u p s f h l =
    let d = assumed_duration kind in
    let pos = assumed_pos kind in
    let later : t - r.started_at ≤ u - r.started_at = omega (arith, l) in
    let more = mul-le-mul_left base.value later in
    let grows =
      div-monotone (base.value * (t - r.started_at)) (base.value * (u - r.started_at)) d more pos in
    let whole = mul-div_left base.value pos in
    rw (compute_live_cost, p) (ground (arith, grows, whole, pos))
