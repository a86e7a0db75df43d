-- ===== src/Tests/Commands.antt =====
-- The commands on records, and the plan that Build makes.
use dispatcher.Prelude.{
  zero, suc, ℕ, arith, String, [], ◌∷◌, Option, none, some, true, false, ◌≡◌, ◌⊎◌, refl, arith, All,
  is_empty,
}
use dispatcher.Types.{running, is_terminal}
use dispatcher.Adapter.Resources.{
  ResourceInfo, instance_resource, dispatcher_owned, tag, reprice_all,
}
use dispatcher.Run.State.{new_run}
use dispatcher.Run.Record.{RunRecord, to_record}
use dispatcher.Run.Reconnect.{Target, cleanup_error, reconnect_to_run}
use dispatcher.Stop.{stop}
use dispatcher.Stop.Settle.{IsStopped, stop-IsStopped}
use dispatcher.Gc.{
  Flags, Report, readable, reported, gc, conclude, report, scan, sort_out, verdict, listed,
  protect_all, protect, is_protected, destroyed_of, keys_of, monthly,
}
use dispatcher.Gc.Safety.{IsReapable, IsMeant, gc-IsReapable}
use dispatcher.Build.Inputs.{apply_gpu_override, merge_config}
use dispatcher.Build.Compose.{Outside, build}
use dispatcher.Build.Compose.Sound.{IsSoundEnd, build-IsSound}
use dispatcher.Cost.Median.{exchange_sort, exchange_sort-IsSortSlice}
use dispatcher.CloudVm.Retry.{RetryPolicy, retry}
use dispatcher.CloudVm.Retry.Attempts.{IsRetried, longest, limit, retry-IsRetried}
use dispatcher.Tests.Data.{gpu_plan, fresh_run, price, workload, target}

abbrev saved : RunRecord
saved = to_record fresh_run

abbrev lone : Target
lone = record { durable = none; on_cleanup = λ h. cleanup_error }

abbrev busy : RunRecord
busy = record saved { state = running }

stop-IsStopped_example :
    IsStopped true busy
      (reconnect_to_run (λ id. some lone) (λ id. none) (some busy))
      (stop (λ i. i) true (some busy) (reconnect_to_run (λ id. some lone) (λ id. none) (some busy)))
stop-IsStopped_example = stop-IsStopped (λ i. i) (λ id. some lone) (λ id. none) true busy

abbrev outside : Outside
outside = record {
  sort = exchange_sort;
  sort_strings = λ ss. ss;
  parse_duration = λ s. none;
  atoi = λ s. none;
  port_note = λ p. "port";
  gpu_note = λ f. "GPU required";
  price = λ w t spot. price;
  host_arch = "amd64";
  plan_id = "plan-2";
  now = 1;
}

no_override :
    apply_gpu_override outside.atoi
      (merge_config outside.parse_duration none gpu_plan.constraints).require_gpu
      workload
    ≡ some workload
unfolding apply_gpu_override merge_config
no_override = refl

build-IsSound_example :
    IsSoundEnd outside workload
      (merge_config outside.parse_duration none gpu_plan.constraints)
      (target ∷ [])
      (build outside (some workload) (some none) gpu_plan.constraints (target ∷ []))
build-IsSound_example =
    build-IsSound outside exchange_sort-IsSortSlice workload workload none gpu_plan.constraints
      (target ∷ []) no_override

abbrev orphan_vm : ResourceInfo
orphan_vm = record {
  resource_id = "i-9";
  provider = "aws";
  kind = instance_resource;
  region = "eu";
  instance_type = "";
  created_at = 1;
  run_id = "plan-9";
  tags = ("dispatcher", "true") ∷ [];
  scope = "";
  monthly_usd = 5;
}

abbrev flags : Flags
flags = record {
  dry_run = false;
  force = true;
  allow_empty_store = false;
  as_json = false;
  warn_over = 0;
}

abbrev reaped : Report
reaped = record {
  found = 1;
  attempted = orphan_vm ∷ [];
  destroyed = orphan_vm ∷ [];
  keys_removed = "plan-9" ∷ [];
  monthly_total = 5;
  cost_warning = false;
}

reaps :
    gc (λ r. true) flags (some (readable busy ∷ [])) (some (orphan_vm ∷ []) ∷ []) none true
    ≡ reported reaped
unfolding gc conclude report scan sort_out verdict listed protect_all protect is_protected
    destroyed_of keys_of monthly dispatcher_owned tag reprice_all to_record new_run is_terminal
reaps = refl

gc-IsReapable_example :
    All (IsReapable (readable busy ∷ [])) (orphan_vm ∷ [])
    × ((orphan_vm ∷ [] ≡ []) ⊎ IsMeant flags (is_empty (readable busy ∷ [])) true)
gc-IsReapable_example =
    gc-IsReapable (λ r. true) flags (readable busy ∷ []) (some (orphan_vm ∷ []) ∷ []) none true
      reaped reaps

-- A call that fails once, with an error that passes.
abbrev flaky_call : ℕ → Option String
flaky_call zero = some "throttled"
flaky_call (suc n) = none

abbrev policy : RetryPolicy
policy = record { max_attempts = 4; initial = 500000000; max = 8000000000 }

retry-IsRetried_example :
    IsRetried flaky_call
      (λ e. true)
      (λ i. false)
      (longest policy)
      0
      (limit policy)
      (retry policy (λ e. true) flaky_call (λ i. false))
retry-IsRetried_example = retry-IsRetried policy (λ e. true) flaky_call (λ i. false) (omega arith)
