-- ===== src/Cost/Estimator/Pinned.antt =====
-- The instance that an estimate pins, and what a plan may be auto-approved on.
use dispatcher.Prelude.{
  ℕ, String, Bool, true, false, [], ◌∷◌, ◌++◌, Option, none, some, ◌≡◌, ◌≢◌, refl, ◌⊎◌, inl, inr,
  Any, subst, sym, ap, ◌∙◌, IsSortSlice, Any-append,
}
use dispatcher.Types.{CostEstimate, low, WorkloadSpec, TargetConfig, cloud_vm}
use dispatcher.CloudVm.Catalog.{ProviderId, InstanceType, InstanceRequirements, Catalog}
use dispatcher.CloudVm.Catalog.Cheapest.{IsCheapest, find_cheapest_for_provider-IsCheapest}
use dispatcher.Policy.{evaluate, evaluate-nil_iff}
use dispatcher.Cost.Estimator.{
  rate_card_to_provider, requirements_from_spec, assumed_hours, price_for, is_cloud_vm, first_name,
  static_instance, from_instance, estimate_cost, price_target,
}
use dispatcher.Cost.Estimator.Cases.{
  card_of, Suits, apply_spot-confidence, apply_spot-instance, fallback-unsure, matches-some,
  first-Suits, fallback-instance, IsLive, estimate_cost-cases,
}

module _ (sort : (InstanceType → InstanceType → Bool) → Catalog → Catalog) (s : IsSortSlice sort)
    (based_on : InstanceType → String) (static : Catalog) (w : WorkloadSpec)
    (t : TargetConfig) where
  abbrev req : InstanceRequirements
  req = requirements_from_spec w

  abbrev price : (ℕ → String) → Option Catalog → Bool → CostEstimate
  price note live spot = price_target sort based_on static note w t live spot

  price_target-instance :
      (note : ℕ → String) (live : Option Catalog) (spot : Bool)
      → (price note live spot).instance_type
        ≡ (estimate_cost sort based_on static w t live).instance_type
  unfolding price_target
  price_target-instance note live true = apply_spot-instance note _ t
  price_target-instance note live false = refl

  price_target-confidence :
      (note : ℕ → String) (live : Option Catalog) (spot : Bool)
      → ((price note live spot).confidence ≡ low)
        ⊎ (price note live spot ≡ estimate_cost sort based_on static w t live)
  unfolding price_target
  price_target-confidence note live true = apply_spot-confidence note _ t
  price_target-confidence note live false = inr refl

  abbrev live_catalog : Option Catalog → Catalog
  live_catalog none = []
  live_catalog (some c) = c

  static-Suits :
      {p : ProviderId}
      → rate_card_to_provider (card_of t) ≡ some p
      → static_instance sort based_on static w t ≢ ""
      → Any (Suits p w (static_instance sort based_on static w t)) static
  unfolding static_instance
  static-Suits {p} e ne =
      let n = ap first_name (matches-some sort s based_on static w t static e) in
      subst (λ x. x ≢ "" → Any (Suits p w x) static) (sym n)
        (first-Suits sort s based_on static w t static e _ refl) ne

  live-Suits :
      {p : ProviderId} (live : Option Catalog)
      → rate_card_to_provider (card_of t) ≡ some p
      → (v : IsLive sort s based_on static w t p live) → v.instance_type.name ≢ ""
      → Any (Suits p w v.instance_type.name) (live_catalog live)
  live-Suits {p} live e v ne =
      subst (λ o. Any (Suits p w v.instance_type.name) (live_catalog o)) (sym v.given)
        (first-Suits sort s based_on static w t v.catalog e (v.instance_type ∷ v.others) v.found ne)

  estimate_cost-Suits :
      {p : ProviderId} (live : Option Catalog)
      → rate_card_to_provider (card_of t) ≡ some p
      → is_cloud_vm t.kind ≡ true
      → (name : String) → (estimate_cost sort based_on static w t live).instance_type ≡ name
      → name ≢ ""
      → Any (Suits p w name) (live_catalog live ++ static)
  unfolding from_instance
  estimate_cost-Suits {p} live e k name at ne =
      elim (estimate_cost-cases sort s based_on static w t live e k) [
        | inl f ↦
            let n =
              sym (fallback-instance sort s based_on static w t k)
              ∙ sym (ap (λ x. x.instance_type) f)
              ∙ at in
            subst (λ x. x ≢ "" → Any (Suits p w x) (live_catalog live ++ static)) n
              (λ m. Any-append _ (live_catalog live) static (inr (static-Suits e m))) ne
        | inr v ↦
            let n = sym (ap (λ x. x.instance_type) v.priced) ∙ at in
            subst (λ x. x ≢ "" → Any (Suits p w x) (live_catalog live ++ static)) n
              (λ m. Any-append _ (live_catalog live) static (inl (live-Suits live e v m))) ne
      ]

  -- On a cloud VM whose rate card names a provider, with sort.Slice as documented, an estimate that
  -- pins an instance pins one of the live or the static catalog that is the provider's and meets the
  -- size, GPU, architecture and confidentiality that the workload asks for, spot or not.
  pub price_target-Suits :
      {p : ProviderId} (note : ℕ → String) (live : Option Catalog) (spot : Bool)
      → t.kind ≡ cloud_vm
      → rate_card_to_provider (card_of t) ≡ some p
      → (price note live spot).instance_type ≢ ""
      → Any (Suits p w (price note live spot).instance_type) (live_catalog live ++ static)
  unfolding is_cloud_vm
  price_target-Suits note live spot k e ne =
      estimate_cost-Suits live e (ap is_cloud_vm k) _ (sym (price_target-instance note live spot))
        ne

  -- What an estimate of the live price says.
  pub record IsLivePrice (p : ProviderId) (live : Option Catalog) (est : CostEstimate)
      : Type 0 where
    pub catalog : Catalog
    pub given : live ≡ some catalog
    pub instance_type : InstanceType
    pub others : Catalog
    pub cheapest : IsCheapest req p catalog (instance_type ∷ others)
    pub value : est.value ≡ price_for instance_type.price_per_hour (assumed_hours w)
    pub pinned : est.instance_type ≡ instance_type.name

  from_live :
      {p : ProviderId} (note : ℕ → String) (live : Option Catalog) (spot : Bool)
      → (v : IsLive sort s based_on static w t p live)
      → price note live spot ≡ from_instance sort based_on static w v.instance_type
      → IsLivePrice p live (price note live spot)
  unfolding from_instance
  from_live {p} note live spot v e = record {
    catalog = v.catalog;
    given = v.given;
    instance_type = v.instance_type;
    others = v.others;
    cheapest =
        subst (IsCheapest req p v.catalog) v.found
          (find_cheapest_for_provider-IsCheapest sort s v.catalog p req);
    value = ap (λ x. x.value) e;
    pinned = ap (λ x. x.instance_type) e;
  }

  -- On a cloud VM whose rate card names a provider, nobody need be asked for a plan only if its
  -- estimate is the undiscounted price of the cheapest instance of the provider in the live catalog
  -- that meets the requirements, for the assumed hours, and pins that instance.
  pub auto_approved-IsLivePrice :
      {p : ProviderId} (note : ℕ → String) (live : Option Catalog) (spot : Bool)
      → t.kind ≡ cloud_vm
      → rate_card_to_provider (card_of t) ≡ some p
      → evaluate w t (price note live spot) ≡ []
      → IsLivePrice p live (price note live spot)
  unfolding is_cloud_vm
  auto_approved-IsLivePrice {p} note live spot k e none_asked =
      let a = (evaluate-nil_iff w t (price note live spot)).0 none_asked in
      elim (price_target-confidence note live spot) [
        | inl unsure ↦ absurd (a.cloud_price_live unsure k)
        | inr same ↦
            elim (estimate_cost-cases sort s based_on static w t live e (ap is_cloud_vm k)) [
              | inl f ↦
                  let at_end = ap (λ x. x.confidence) (same ∙ f) in
                  elim (fallback-unsure sort s based_on static w t e) [
                    | inl unsure ↦ absurd (a.cloud_price_live (at_end ∙ unsure) k)
                    | inr unpriced ↦ absurd (a.priced (at_end ∙ unpriced))
                  ]
              | inr v ↦ from_live note live spot v (same ∙ v.priced)
            ]
      ]
