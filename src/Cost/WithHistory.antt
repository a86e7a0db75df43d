-- ===== src/Cost/WithHistory.antt =====
-- EstimateCostWithHistory and scaleEstimateToHours of internal/cost/estimator.go. The text on the
-- past runs is a parameter.
use dispatcher.Prelude.{
  String, Bool, List, [], ◌∷◌, ◌++◌, Option, none, some, ltb, if◌then◌else◌, ◌≡◌, refl, arith,
  Bool-cases, inl, inr,
}
use dispatcher.Types.{
  Duration, Usd, CostEstimate, Confidence, Confidence-discrete, unknown, eq_by, WorkloadSpec,
  WorkloadKind, TargetConfig, script, job, service, gpu_job, sandbox, container, unknown_kind,
}
use dispatcher.CloudVm.Catalog.{InstanceType, Catalog}
use dispatcher.Cost.Estimator.{
  rate_cards, price_for, card_price, is_cloud_vm, matches, estimate_cost,
}
use dispatcher.Cost.History.{RunHistory, estimate_duration, confidence_for_target}

-- The value of the constant.
abbrev kind_name : WorkloadKind → String
kind_name script = "script"
kind_name job = "job"
kind_name service = "service"
kind_name gpu_job = "gpu-job"
kind_name sandbox = "sandbox"
kind_name container = "container"
kind_name unknown_kind = "unknown"

abbrev first_price : Catalog → Duration → Option Usd
unfolding price_for
first_price [] d = none
first_price (i ∷ rest) d = some (price_for i.price_per_hour d)

module _ (sort : (InstanceType → InstanceType → Bool) → Catalog → Catalog)
    (based_on : InstanceType → String) (past : Duration → String) (static : Catalog) where
  -- The price of the first match of the live catalog.
  catalog_price : WorkloadSpec → TargetConfig → Option Catalog → Duration → Option Usd
  unfolding matches price_for is_cloud_vm
  catalog_price w t none d = none
  catalog_price w t (some c) d =
      if is_cloud_vm t.kind then first_price (matches sort based_on static c w t) d else none

  -- The value of scaleEstimateToHours; of the rest only the history's text is kept.
  unfoldable pub scaled_value : WorkloadSpec → TargetConfig → Option Catalog → Duration → Usd
  unfolding catalog_price card_price rate_cards
  scaled_value w t live d = elim (catalog_price w t live d) [
    | some v ↦ v
    | none ↦ elim (rate_cards t.capabilities.accounting.rate_card) [
      | none ↦ 0
      | some c ↦ card_price c w d
    ]
  ]

  unfoldable pub rescaled :
      WorkloadSpec → TargetConfig → Option Catalog → Duration → CostEstimate → CostEstimate
  unfolding scaled_value
  rescaled w t live d base =
      if ltb 0 d
      then record base { value = scaled_value w t live d; assumptions = past d ∷ [] }
      else base

  unfoldable pub judged : Option Confidence → CostEstimate → CostEstimate
  judged none est = est
  judged (some c) est = record est {
    confidence = c;
    assumptions = est.assumptions ++ "confidence based on historical cost accuracy" ∷ [];
  }

  -- EstimateCostWithHistory.
  unfoldable pub estimate_cost_with_history :
      WorkloadSpec → TargetConfig → Option (List RunHistory) → Option Catalog → CostEstimate
  unfolding estimate_cost rescaled judged estimate_duration confidence_for_target
      Confidence-discrete
  estimate_cost_with_history w t none live = estimate_cost sort based_on static w t live
  estimate_cost_with_history w t (some es) live =
      let base = estimate_cost sort based_on static w t live in
      let d = estimate_duration t.id (kind_name w.detected_kind) es in
      if eq_by Confidence-discrete base.confidence unknown
      then base
      else judged (confidence_for_target t.id es) (rescaled w t live d base)

  judged-instance :
      (c : Option Confidence) (est : CostEstimate)
      → (judged c est).instance_type ≡ est.instance_type
  unfolding judged
  judged-instance none est = refl
  judged-instance (some c) est = refl

  rescaled-instance :
      (w : WorkloadSpec) (t : TargetConfig) (live : Option Catalog) (d : Duration)
      (base : CostEstimate)
      → (rescaled w t live d base).instance_type ≡ base.instance_type
  unfolding rescaled
  rescaled-instance w t live d base = elim (Bool-cases (ltb 0 d)) [
    | inl y ↦ rw y refl
    | inr n ↦ rw n refl
  ]

  -- The past runs change the price and the confidence of an estimate, but not the instance that it
  -- pins.
  pub estimate_cost_with_history-instance :
      (w : WorkloadSpec) (t : TargetConfig) (h : Option (List RunHistory)) (live : Option Catalog)
      → (estimate_cost_with_history w t h live).instance_type
        ≡ (estimate_cost sort based_on static w t live).instance_type
  unfolding estimate_cost_with_history
  estimate_cost_with_history-instance w t none live = refl
  estimate_cost_with_history-instance w t (some es) live =
      let base = estimate_cost sort based_on static w t live in
      let d = estimate_duration t.id (kind_name w.detected_kind) es in
      let same = judged-instance (confidence_for_target t.id es) (rescaled w t live d base) in
      let kept = rescaled-instance w t live d base in
      elim (Bool-cases (eq_by Confidence-discrete base.confidence unknown)) [
        | inl y ↦ ground (arith, y)
        | inr n ↦ ground (arith, n, same, kept)
      ]
