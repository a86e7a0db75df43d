-- ===== src/Cost/Estimator/Cases.antt =====
-- Where an estimate comes from, case by case.
use dispatcher.Prelude.{
  ℕ, ◌≤◌, String, Bool, true, false, equal_fold, [], ◌∷◌, Option, none, some, ◌≡◌, ◌≢◌, refl, ◌⊎◌,
  inl, inr, arith, Any, subst, sym, ap, ◌∙◌, IsSortSlice, Option-cases, List-cases, Any-map,
}
use dispatcher.Types.{CostEstimate, low, unknown, WorkloadSpec, TargetConfig}
use dispatcher.CloudVm.Catalog.{
  ProviderId, InstanceType, InstanceRequirements, Catalog, find_cheapest_for_provider,
}
use dispatcher.CloudVm.Catalog.Cheapest.{Meets, IsCheapest, find_cheapest_for_provider-IsCheapest}
use dispatcher.Cost.Parse.{parse_cpu, parse_memory}
use dispatcher.Cost.Estimator.{
  RateCard, rate_cards, rate_card_to_provider, requirements_from_spec, gpus_wanted, is_cloud_vm,
  from_card, estimate_from_rate_card, spot_discount, apply_spot, first_name, matches,
  static_instance, from_instance, estimate_from_catalog, from_matches, fallback, estimate_cost,
}

abbrev pub card_of : TargetConfig → String
card_of t = t.capabilities.accounting.rate_card

-- An offering has what the workload asks for: the size, as many GPUs as it requires (one where it
-- gives no number) of the model that it names, none without a GPU, its architecture, and
-- confidentiality exactly if it requires that.
pub record Serves (w : WorkloadSpec) (i : InstanceType) : Type 0 where
  pub vcpus : parse_cpu w.requirements.cpu ≤ i.vcpus
  pub memory : parse_memory w.requirements.memory ≤ i.memory
  pub no_gpu : w.requirements.gpu.required ≡ false → i.gpu_count ≡ 0
  pub some_gpu : w.requirements.gpu.required ≡ true → 1 ≤ i.gpu_count
  pub all_gpus : w.requirements.gpu.required ≡ true → w.requirements.gpu.count ≤ i.gpu_count
  pub gpu_model :
      w.requirements.gpu.required ≡ true
      → w.requirements.gpu.model ≢ ""
      → equal_fold i.gpu_model w.requirements.gpu.model ≡ true
  pub confidential : i.confidential ≡ w.requirements.confidential.required
  pub arch : w.requirements.arch ≢ "" → i.arch ≡ w.requirements.arch

Meets-Serves :
    (w : WorkloadSpec) (i : InstanceType) → Meets (requirements_from_spec w) i → Serves w i
unfolding requirements_from_spec gpus_wanted
Meets-Serves w i m = record {
  vcpus = m.vcpus;
  memory = m.memory;
  no_gpu = λ n. (let g = m.gpus.1 in ground (arith, g, n));
  some_gpu = λ y. (let g = m.gpus.0 in ground (arith, g, y));
  all_gpus = λ y. (let g = m.gpus.0 in ground (arith, g, y));
  gpu_model = λ y named. (let g = m.gpus.2 in ground (arith, g, y, named));
  confidential = m.confidential;
  arch = m.arch;
}

-- An offering that may run the workload on this provider.
abbrev pub Suits : ProviderId → WorkloadSpec → String → InstanceType → Type 0
Suits p w name i = (i.name ≡ name) × (i.provider ≡ p) × Serves w i

pub from_card-low :
    (w : WorkloadSpec) (name : String) (c : RateCard) {p : ProviderId}
    → rate_card_to_provider name ≡ some p
    → (from_card w name c).confidence ≡ low
unfolding from_card
from_card-low w name c e = rw e refl

pub estimate_from_rate_card-unsure :
    (w : WorkloadSpec) (t : TargetConfig) {p : ProviderId}
    → rate_card_to_provider (card_of t) ≡ some p
    → ((estimate_from_rate_card w t).confidence ≡ low)
      ⊎ ((estimate_from_rate_card w t).confidence ≡ unknown)
unfolding estimate_from_rate_card
estimate_from_rate_card-unsure w t e = elim (Option-cases (rate_cards (card_of t))) [
  | inl n ↦ rw (n, estimate_from_rate_card) (inr refl)
  | inr (c, s) ↦ rw (s, estimate_from_rate_card) (inl (from_card-low w (card_of t) c e))
]

pub estimate_from_rate_card-instance :
    (w : WorkloadSpec) (t : TargetConfig) → (estimate_from_rate_card w t).instance_type ≡ ""
unfolding from_card estimate_from_rate_card
estimate_from_rate_card-instance w t = elim (Option-cases (rate_cards (card_of t))) [
  | inl n ↦ rw (n, estimate_from_rate_card) refl
  | inr (c, s) ↦ rw (s, estimate_from_rate_card) refl
]

pub apply_spot-confidence :
    (note : ℕ → String) (est : CostEstimate) (t : TargetConfig)
    → ((apply_spot note est t).confidence ≡ low) ⊎ (apply_spot note est t ≡ est)
unfolding apply_spot
apply_spot-confidence note est t = elim (Option-cases (spot_discount (card_of t))) [
  | inl n ↦ ground (arith, n)
  | inr (f, s) ↦ ground (arith, s)
]

pub apply_spot-instance :
    (note : ℕ → String) (est : CostEstimate) (t : TargetConfig)
    → (apply_spot note est t).instance_type ≡ est.instance_type
unfolding apply_spot
apply_spot-instance note est t = elim (Option-cases (spot_discount (card_of t))) [
  | inl n ↦ ground (arith, n)
  | inr (f, s) ↦ ground (arith, s)
]

module _ (sort : (InstanceType → InstanceType → Bool) → Catalog → Catalog) (s : IsSortSlice sort)
    (based_on : InstanceType → String) (static : Catalog) (w : WorkloadSpec)
    (t : TargetConfig) where
  abbrev pub req : InstanceRequirements
  req = requirements_from_spec w

  pub fallback-unsure :
      {p : ProviderId}
      → rate_card_to_provider (card_of t) ≡ some p
      → ((fallback sort based_on static w t).confidence ≡ low)
        ⊎ ((fallback sort based_on static w t).confidence ≡ unknown)
  unfolding fallback
  fallback-unsure e = ground (arith, estimate_from_rate_card-unsure w t e)

  pub matches-some :
      {p : ProviderId} (c : Catalog)
      → rate_card_to_provider (card_of t) ≡ some p
      → matches sort based_on static c w t ≡ find_cheapest_for_provider sort c p req
  unfolding matches
  matches-some c e = rw (e, matches) refl

  -- The first match of a catalog, if there is one, suits the workload.
  pub first-Suits :
      {p : ProviderId} (c : Catalog)
      → rate_card_to_provider (card_of t) ≡ some p
      → (r : Catalog) → find_cheapest_for_provider sort c p req ≡ r
      → first_name r ≢ ""
      → Any (Suits p w (first_name r)) c
  unfolding IsCheapest
  first-Suits {p} c e [] f ne = absurd (ne refl)
  first-Suits {p} c e (i ∷ rest) f ne =
      let k = subst (IsCheapest req p c) f (find_cheapest_for_provider-IsCheapest sort s c p req) in
      Any-map (λ j. j ≡ i) (Suits p w i.name) c
        (λ j same. subst (Suits p w i.name) (sym same) (refl, k.1, Meets-Serves w i k.0)) k.2

  pub fallback-instance :
      is_cloud_vm t.kind ≡ true
      → (fallback sort based_on static w t).instance_type ≡ static_instance sort based_on static w t
  unfolding fallback
  fallback-instance k = rw (k, estimate_from_rate_card-instance w t) refl

  -- EstimateCost took its price from the live catalog.
  pub record IsLive (p : ProviderId) (live : Option Catalog) : Type 0 where
    pub catalog : Catalog
    pub given : live ≡ some catalog
    pub instance_type : InstanceType
    pub others : Catalog
    pub found : find_cheapest_for_provider sort catalog p req ≡ instance_type ∷ others
    pub priced :
        estimate_cost sort based_on static w t live
        ≡ from_instance sort based_on static w instance_type

  abbrev or_fallback : Option CostEstimate → CostEstimate
  or_fallback none = fallback sort based_on static w t
  or_fallback (some est) = est

  pub estimate_cost-cloud :
      (live : Option Catalog)
      → is_cloud_vm t.kind ≡ true
      → estimate_cost sort based_on static w t live
        ≡ or_fallback (estimate_from_catalog sort based_on static w t live)
  unfolding estimate_cost
  estimate_cost-cloud live k =
      elim (Option-cases (estimate_from_catalog sort based_on static w t live)) [
        | inl n ↦ ground (arith, k, n)
        | inr (est, f) ↦ ground (arith, k, f)
      ]

  pub catalog_empty :
      {p : ProviderId} (c : Catalog)
      → rate_card_to_provider (card_of t) ≡ some p
      → find_cheapest_for_provider sort c p req ≡ []
      → estimate_from_catalog sort based_on static w t (some c) ≡ none
  unfolding estimate_from_catalog from_matches
  catalog_empty c e f = ap (from_matches sort based_on static w) (matches-some c e ∙ f)

  pub catalog_first :
      {p : ProviderId} (c : Catalog)
      → rate_card_to_provider (card_of t) ≡ some p
      → (i : InstanceType) (rest : Catalog) → find_cheapest_for_provider sort c p req ≡ i ∷ rest
      → estimate_from_catalog sort based_on static w t (some c)
        ≡ some (from_instance sort based_on static w i)
  unfolding estimate_from_catalog from_matches
  catalog_first c e i rest f = ap (from_matches sort based_on static w) (matches-some c e ∙ f)

  pub estimate_cost-cases :
      {p : ProviderId} (live : Option Catalog)
      → rate_card_to_provider (card_of t) ≡ some p
      → is_cloud_vm t.kind ≡ true
      → (estimate_cost sort based_on static w t live ≡ fallback sort based_on static w t)
        ⊎ IsLive p live
  unfolding estimate_from_catalog
  estimate_cost-cases none e k = inl (estimate_cost-cloud none k)
  estimate_cost-cases {p} (some c) e k =
      let r = estimate_cost-cloud (some c) k in
      elim (List-cases (find_cheapest_for_provider sort c p req)) [
        | inl f ↦ inl (r ∙ ap or_fallback (catalog_empty c e f))
        | inr (i, (rest, f)) ↦ inr (record {
          catalog = c;
          given = refl;
          instance_type = i;
          others = rest;
          found = f;
          priced = r ∙ ap or_fallback (catalog_first c e i rest f);
        })
      ]
