-- ===== src/Tests/Clouds.antt =====
-- Prices, provisioning and past runs.
use dispatcher.Prelude.{
  List, ℕ, String, [], ◌∷◌, ◌++◌, none, some, true, false, ◌≡◌, ◌≢◌, ◌⊎◌, refl, sym, ◌∙◌, arith,
  eq_iff, Any, map, trim_space, to_lower,
}
use dispatcher.Types.{WorkloadSpec, TargetConfig, CostEstimate, hour}
use dispatcher.Policy.{evaluate, unconfirmed_cost, public_service, is_external_provider}
use dispatcher.CloudVm.Catalog.{
  ProviderId-discrete, aws, hetzner, InstanceType, InstanceRequirements, Catalog,
  find_cheapest_for_provider, find_cheapest, is_match, cheaper, too_small, wrong_gpu, wrong_bucket,
  wrong_arch,
}
use dispatcher.CloudVm.Catalog.Cheapest.{IsCheapest, find_cheapest_for_provider-IsCheapest}
use dispatcher.CloudVm.Adapter.Execute.{Config, Calls, execute}
use dispatcher.CloudVm.Adapter.Release.{IsReleased, nothing_held, execute-IsReleased}
use dispatcher.Cost.Median.{
  exchange, exchange_rounds, exchange_sort, exchange_sort-IsSortSlice, IsMedian,
}
use dispatcher.Cost.Parse.{parse_cpu, parse_memory}
use dispatcher.Cost.Estimator.{
  requirements_from_spec, rate_card_to_provider, price_target, estimate_cost, estimate_from_catalog,
  from_matches, from_instance, matches, is_cloud_vm, gpus_wanted, confidence_of, is_gpu_job,
  price_for, assumed_hours, is_long,
}
use dispatcher.Cost.Estimator.Cases.{Suits}
use dispatcher.Cost.Estimator.Pinned.{IsLivePrice, price_target-Suits, auto_approved-IsLivePrice}
use dispatcher.Cost.History.{RunHistory, estimate_duration}
use dispatcher.Cost.History.Reads.{AreSimilar, estimate_duration-IsMedian}
use dispatcher.Tests.Data.{workload, target, gpu_plan}

abbrev small : InstanceType
small = record {
  name = "t3";
  provider = aws;
  vcpus = 2;
  memory = 4096000;
  gpu_count = 0;
  gpu_model = "";
  price_per_hour = 41600;
  spot_price_per_hour = 0;
  arch = "amd64";
  confidential = false;
}

abbrev large : InstanceType
large = record small { name = "m5"; vcpus = 4; price_per_hour = 192000 }

abbrev offers : Catalog
offers = large ∷ small ∷ record small { name = "cx22"; provider = hetzner } ∷ []

abbrev two_cpus : InstanceRequirements
two_cpus = record {
  min_vcpus = 2;
  min_memory = 0;
  gpu_count = 0;
  gpu_model = "";
  arch = "";
  confidential = false;
}

find_cheapest_for_provider-IsCheapest_example :
    IsCheapest two_cpus aws offers (find_cheapest_for_provider exchange_sort offers aws two_cpus)
find_cheapest_for_provider-IsCheapest_example =
    find_cheapest_for_provider-IsCheapest exchange_sort exchange_sort-IsSortSlice offers aws
      two_cpus

-- A job without a GPU, on a target with a rate card.
abbrev pub plain : WorkloadSpec
plain = record workload {
  requirements = record workload.requirements {
    memory = "";
    gpu = record { required = false; count = 0; model = ""; framework = "" };
  };
}

abbrev pub carded : TargetConfig
carded = record target {
  capabilities = record target.capabilities {
    accounting = record { cost_estimate = true; actual_billing = false; rate_card = "aws" };
  };
}

abbrev based_on : InstanceType → String
based_on i = i.name

abbrev spot_note : ℕ → String
spot_note n = "spot"

abbrev calls : Calls
calls = record {
  generate_key = some "key";
  pub_key = λ k. "key.pub";
  vm_name = "dispatcher-train";
  remote_dir = "/tmp/dispatcher/plan-1";
  log_path = "/tmp/dispatcher/plan-1/dispatcher.log";
  cloud_init = λ d u. "";
  attestable = λ w p. true;
  create_vm = λ o. some (record {
    id = "i-1";
    ip = "10.0.0.1";
    ssh_port = 0;
    ssh_key_path = "";
    ssh_user = "";
    instance_type = "";
  });
  destroys = λ id. true;
  wait_ready = true;
  pin_host_key = some "known_hosts";
  wait_auth = true;
  write_wrapper = some "wrapper";
  wrapper_left = none;
  key_left = [];
  vms_left = [];
  verify = some none;
  rsync = true;
  start_workload = some 7;
  now = 1;
}

abbrev config : Config
config = record { provider_id = aws; region = "eu"; ssh_user = "" }

pinned_path : calls.pin_host_key ≢ some ""
pinned_path h = ground (arith, eq_iff "known_hosts" "", h)

wrapper_path : calls.write_wrapper ≢ some ""
wrapper_path h = ground (arith, eq_iff "wrapper" "", h)

execute-IsReleased_example :
    IsReleased calls.pub_key calls.wrapper_left
      (execute calls config gpu_plan nothing_held).0
      (execute calls config gpu_plan nothing_held).1
execute-IsReleased_example =
    execute-IsReleased calls config gpu_plan (λ id. refl) pinned_path wrapper_path refl refl

abbrev good_run : RunHistory
good_run = record {
  run_id = "run-1";
  target_id = "aws-vm";
  workload_kind = "job";
  workload_name = "train";
  actual_duration = hour;
  estimated_cost = 100;
  actual_cost = 90;
  completed_at = 1;
  success = true;
}

abbrev bad_run : RunHistory
bad_run = record good_run { run_id = "run-2"; success = false }

estimate_duration-IsMedian_example :
    (rs : List RunHistory) × AreSimilar "aws-vm" "job" (good_run ∷ bad_run ∷ []) rs
    × (((rs ≡ []) × (estimate_duration "aws-vm" "job" (good_run ∷ bad_run ∷ []) ≡ 0))
        ⊎ IsMedian
            (map (λ e. e.actual_duration) rs)
            (estimate_duration "aws-vm" "job" (good_run ∷ bad_run ∷ [])))
estimate_duration-IsMedian_example =
    estimate_duration-IsMedian "aws-vm" "job" (good_run ∷ bad_run ∷ [])

card : rate_card_to_provider "aws" ≡ some aws
unfolding rate_card_to_provider
card = refl

abbrev lived : CostEstimate
lived = price_target exchange_sort based_on [] spot_note plain carded (some offers) false

named : lived.instance_type ≡ "t3"
unfolding price_target estimate_cost estimate_from_catalog from_matches from_instance matches
    is_cloud_vm rate_card_to_provider requirements_from_spec gpus_wanted parse_cpu parse_memory
    find_cheapest_for_provider find_cheapest is_match cheaper too_small wrong_gpu wrong_bucket
    wrong_arch exchange_sort exchange_rounds exchange trim_space to_lower ProviderId-discrete
named = refl

pins_some : lived.instance_type ≢ ""
pins_some h = ground (arith, eq_iff "t3" "", sym named ∙ h)

price_target-Suits_example : Any (Suits aws plain lived.instance_type) (offers ++ [])
price_target-Suits_example =
    price_target-Suits exchange_sort exchange_sort-IsSortSlice based_on [] plain carded spot_note
      (some offers) false refl card pins_some

asks_nobody : evaluate plain carded lived ≡ []
unfolding evaluate unconfirmed_cost public_service is_external_provider price_target estimate_cost
    estimate_from_catalog from_matches from_instance matches is_cloud_vm rate_card_to_provider
    requirements_from_spec gpus_wanted parse_cpu parse_memory find_cheapest_for_provider
    find_cheapest is_match cheaper too_small wrong_gpu wrong_bucket wrong_arch exchange_sort
    exchange_rounds exchange confidence_of is_gpu_job price_for assumed_hours is_long trim_space
    to_lower ProviderId-discrete
asks_nobody = refl

auto_approved-IsLivePrice_example :
    IsLivePrice exchange_sort exchange_sort-IsSortSlice based_on [] plain carded aws
      (some offers)
      lived
auto_approved-IsLivePrice_example =
    auto_approved-IsLivePrice exchange_sort exchange_sort-IsSortSlice based_on [] plain carded
      spot_note (some offers) false refl card asks_nobody
