-- ===== src/Cost/Estimator.antt =====
-- internal/cost/estimator.go and spot.go, with estimateCost of internal/plan/build.go. Prices are in
-- 1/1000000 USD per hour; the Go code computes with floats and cuts to 1/10000 USD, here the value is
-- exact and cut the same way. The catalogs and the text on the instance are parameters.
pub mod Cases
pub mod Pinned
use dispatcher.Prelude.{
  ℕ, ◌+◌, ◌*◌, ◌/◌, String, Bool, true, false, ◌&&◌, not, List, [], ◌∷◌, ◌++◌, Option, none, some,
  ◌==◌, ltb, if◌then◌else◌, str_eq, is_some,
}
use dispatcher.Types.{
  Duration, hour, Usd, CostEstimate, Confidence, high, medium, low, unknown, WorkloadSpec,
  WorkloadKind-discrete, gpu_job, service, eq_by, GpuRequirement, TargetConfig, TargetKind,
  cloud_vm,
}
use dispatcher.CloudVm.Catalog.{
  ProviderId, aws, gcp, azure, hetzner, oci, lambda, InstanceType, InstanceRequirements, Catalog,
  find_cheapest_for_provider,
}
use dispatcher.Cost.Parse.{parse_cpu, parse_memory}

pub record RateCard : Type 0 where
  pub cpu_per_hour : ℕ
  pub memory_per_hour : ℕ
  pub gpu_per_hour : ℕ
  pub base_per_hour : ℕ

abbrev card : ℕ → ℕ → ℕ → ℕ → RateCard
card cpu memory gpu base = record {
  cpu_per_hour = cpu;
  memory_per_hour = memory;
  gpu_per_hour = gpu;
  base_per_hour = base;
}

unfoldable pub rate_cards : String → Option RateCard
rate_cards name =
    if str_eq name "local"
    then some (card 0 0 0 0)
    else if str_eq name "ssh"
    then some (card 0 0 0 100000)
    else if str_eq name "internal"
    then some (card 40000 5000 1500000 20000)
    else if str_eq name "aws"
    then some (card 50000 7000 3000000 100000)
    else if str_eq name "gcp"
    then some (card 40000 5000 2800000 80000)
    else if str_eq name "azure"
    then some (card 50000 7000 3000000 100000)
    else if str_eq name "hetzner"
    then some (card 3000 1000 0 3000)
    else if str_eq name "oci"
    then some (card 30000 4000 0 20000)
    else none

unfoldable pub rate_card_to_provider : String → Option ProviderId
rate_card_to_provider name =
    if str_eq name "aws"
    then some aws
    else if str_eq name "gcp"
    then some gcp
    else if str_eq name "azure"
    then some azure
    else if str_eq name "hetzner"
    then some hetzner
    else if str_eq name "oci"
    then some oci
    else if str_eq name "lambda"
    then some lambda
    else none

unfoldable pub gpus_wanted : GpuRequirement → ℕ
gpus_wanted gpu = if gpu.required then (if gpu.count == 0 then 1 else gpu.count) else 0

unfoldable pub requirements_from_spec : WorkloadSpec → InstanceRequirements
unfolding gpus_wanted
requirements_from_spec w = record {
  min_vcpus = parse_cpu w.requirements.cpu;
  min_memory = parse_memory w.requirements.memory;
  gpu_count = gpus_wanted w.requirements.gpu;
  gpu_model = if w.requirements.gpu.required then w.requirements.gpu.model else "";
  arch = w.requirements.arch;
  confidential = w.requirements.confidential.required;
}

unfoldable pub is_long : WorkloadSpec → Bool
unfolding WorkloadKind-discrete
is_long w = eq_by WorkloadKind-discrete w.detected_kind service

unfoldable pub is_gpu_job : WorkloadSpec → Bool
unfolding WorkloadKind-discrete
is_gpu_job w = eq_by WorkloadKind-discrete w.detected_kind gpu_job

-- assumedHours.
unfoldable pub assumed_hours : WorkloadSpec → Duration
unfolding is_long
assumed_hours w = if is_long w then 24 * hour else hour

-- assumes … runtime, with durationLabel of the assumed hours.
abbrev assumed_runtime : WorkloadSpec → String
unfolding is_long
assumed_runtime w = if is_long w then "assumes 24h runtime" else "assumes 1h runtime"

-- roundCents of a price for so long.
unfoldable pub price_for : ℕ → Duration → Usd
price_for per_hour d = per_hour * d / (hour * 100)

-- The total of a rate card, of which the memory is priced per GiB.
unfoldable pub card_price : RateCard → WorkloadSpec → Duration → Usd
unfolding gpus_wanted
card_price c w d =
    let per_hour =
      c.base_per_hour
      + c.cpu_per_hour * parse_cpu w.requirements.cpu
      + c.gpu_per_hour * gpus_wanted w.requirements.gpu in
    (per_hour * 1024000 + c.memory_per_hour * parse_memory w.requirements.memory)
    * d
    / (1024000 * hour * 100)

unfoldable pub confidence_of : Confidence → WorkloadSpec → Confidence
unfolding is_gpu_job
confidence_of usual w = if is_gpu_job w then low else usual

abbrev no_card : CostEstimate
no_card = record {
  value = 0;
  confidence = unknown;
  assumptions = "no rate card available for target" ∷ [];
  exclusions = [];
  instance_type = "";
  spot_ratio = 0;
}

-- The ratio in 1/10000: one below that counts as none.
unfoldable pub spot_ratio_of : InstanceType → ℕ
spot_ratio_of i =
    if ltb 0 i.spot_price_per_hour && ltb 0 i.price_per_hour
    then i.spot_price_per_hour * 10000 / i.price_per_hour
    else 0

unfoldable pub from_card : WorkloadSpec → String → RateCard → CostEstimate
unfolding confidence_of rate_card_to_provider card_price assumed_hours is_long
from_card w name c =
    let is_cloud = is_some (rate_card_to_provider name) in
    let runtime = assumed_runtime w ∷ [] in
    record {
      value = card_price c w (assumed_hours w);
      confidence =
          if is_cloud then low else confidence_of (if str_eq name "local" then high else medium) w;
      assumptions =
          if is_cloud
          then runtime ++ "fallback: live pricing unavailable for this provider" ∷ []
          else runtime;
      exclusions = "excludes network egress" ∷ "excludes storage after run" ∷ [];
      instance_type = "";
      spot_ratio = 0;
    }

unfoldable pub estimate_from_rate_card : WorkloadSpec → TargetConfig → CostEstimate
unfolding from_card rate_cards
estimate_from_rate_card w t =
    let name = t.capabilities.accounting.rate_card in
    elim (rate_cards name) [ none ↦ no_card | some c ↦ from_card w name c ]

unfoldable pub is_cloud_vm : TargetKind → Bool
is_cloud_vm cloud_vm = true
is_cloud_vm _ = false

-- spotDiscount, in percent.
unfoldable pub spot_discount : String → Option ℕ
spot_discount name =
    if str_eq name "gcp"
    then some 30
    else if str_eq name "aws"
    then some 35
    else if str_eq name "azure"
    then some 40
    else if str_eq name "oci"
    then some 50
    else none

-- ApplySpot: `spot_note` is the text on the price, by the ratio in 1/10000.
unfoldable pub apply_spot : (ℕ → String) → CostEstimate → TargetConfig → CostEstimate
unfolding spot_discount
apply_spot spot_note est t =
    if ltb 0 est.spot_ratio
    then record est {
      value = est.value * est.spot_ratio / 10000;
      confidence = low;
      assumptions = est.assumptions ++ spot_note est.spot_ratio ∷ [];
    }
    else elim (spot_discount t.capabilities.accounting.rate_card) [
      | none ↦ est
      | some f ↦ record est {
        value = est.value * f / 100;
        confidence = low;
        assumptions = est.assumptions ++ spot_note (f * 100) ∷ [];
      }
    ]

abbrev pub first_name : Catalog → String
first_name [] = ""
first_name (i ∷ rest) = i.name

module _ (sort : (InstanceType → InstanceType → Bool) → Catalog → Catalog)
    (based_on : InstanceType → String) (static : Catalog) where
  -- The matches of a catalog for the target, none without a provider.
  unfoldable pub matches : Catalog → WorkloadSpec → TargetConfig → Catalog
  unfolding rate_card_to_provider requirements_from_spec
  matches c w t = elim (rate_card_to_provider t.capabilities.accounting.rate_card) [
    | none ↦ []
    | some p ↦ find_cheapest_for_provider sort c p (requirements_from_spec w)
  ]

  -- staticInstance.
  unfoldable pub static_instance : WorkloadSpec → TargetConfig → String
  unfolding matches
  static_instance w t = first_name (matches static w t)

  unfoldable pub from_instance : WorkloadSpec → InstanceType → CostEstimate
  unfolding confidence_of price_for assumed_hours spot_ratio_of is_long
  from_instance w i = record {
    value = price_for i.price_per_hour (assumed_hours w);
    confidence = confidence_of medium w;
    assumptions = based_on i ∷ assumed_runtime w ∷ [];
    exclusions = "excludes network egress" ∷ "excludes storage after run" ∷ [];
    instance_type = i.name;
    spot_ratio = spot_ratio_of i;
  }

  unfoldable pub from_matches : WorkloadSpec → Catalog → Option CostEstimate
  unfolding from_instance
  from_matches w [] = none
  from_matches w (i ∷ rest) = some (from_instance w i)

  -- estimateFromCatalog.
  unfoldable pub estimate_from_catalog :
      WorkloadSpec → TargetConfig → Option Catalog → Option CostEstimate
  unfolding matches from_matches
  estimate_from_catalog w t none = none
  estimate_from_catalog w t (some c) = from_matches w (matches c w t)

  -- The fallback of EstimateCost.
  unfoldable pub fallback : WorkloadSpec → TargetConfig → CostEstimate
  unfolding estimate_from_rate_card static_instance is_cloud_vm
  fallback w t =
      let est = estimate_from_rate_card w t in
      if is_cloud_vm t.kind && str_eq est.instance_type ""
      then record est { instance_type = static_instance w t }
      else est

  unfoldable pub estimate_cost : WorkloadSpec → TargetConfig → Option Catalog → CostEstimate
  unfolding estimate_from_catalog fallback is_cloud_vm
  estimate_cost w t live =
      if is_cloud_vm t.kind
      then elim (estimate_from_catalog w t live) [ none ↦ fallback w t | some est ↦ est ]
      else fallback w t

  -- estimateCost of internal/plan/build.go.
  unfoldable pub price_target :
      (ℕ → String) → WorkloadSpec → TargetConfig → Option Catalog → Bool → CostEstimate
  unfolding estimate_cost apply_spot
  price_target spot_note w t live spot =
      let est = estimate_cost w t live in if spot then apply_spot spot_note est t else est
