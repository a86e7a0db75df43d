-- ===== src/Tests/Plans.antt =====
-- Approvals, risks and feasibility of a plan.
use dispatcher.Prelude.{List, ◌≢◌, ◌∷◌, refl, arith, eq_iff, Bool, true, [], ◌≡◌, ◌↔◌}
use dispatcher.Policy.{evaluate, IsAutoApproved, evaluate-nil_iff}
use dispatcher.Target.Match.{check_feasibility}
use dispatcher.Target.Feasible.{CanRun}
use dispatcher.Target.Verdict.{feasible_iff}
use dispatcher.Types.{local, optimize_speed}
use dispatcher.Build.{
  Candidate, order_and_filter, less, cheaper, sift, nonempty, is_within, is_unknown,
}
use dispatcher.Build.Order.{IsOrder, less-IsOrder}
use dispatcher.Build.Budget.{IsSifted, order_and_filter-Affordable}
use dispatcher.Tests.Data.{gpu_plan, workload, target, price}

evaluate-nil_iff_example :
    (evaluate workload target price ≡ []) ↔ IsAutoApproved workload target price
evaluate-nil_iff_example = evaluate-nil_iff workload target price

feasible_iff_example :
    ((check_feasibility "amd64" target workload).feasible ≡ true) ↔ CanRun "amd64" target workload
feasible_iff_example = feasible_iff "amd64" target workload

abbrev here : Candidate
here = record {
  target = record target { id = "local"; kind = local };
  cost = record price { value = 0 };
}

abbrev there : Candidate
there = record { target = target; cost = price }

abbrev keep_order : (Candidate → Candidate → Bool) → List Candidate → List Candidate
keep_order lt cs = cs

-- With $1 only the local target is left.
order_and_filter-Affordable_example :
    (here ∷ [] ≢ []) × IsSifted 10000 (here ∷ []) (there ∷ []) (here ∷ there ∷ [])
unfolding order_and_filter less cheaper sift nonempty is_within is_unknown
order_and_filter-Affordable_example =
    order_and_filter-Affordable keep_order (here ∷ there ∷ []) (here ∷ []) (there ∷ [])
      gpu_plan.constraints (ground arith) refl

pinned : target.id ≢ ""
pinned h = ground (arith, eq_iff "aws-vm" "", h)

less-IsOrder_example : IsOrder (less optimize_speed)
less-IsOrder_example = less-IsOrder optimize_speed
