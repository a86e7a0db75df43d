-- ===== src/CloudVm/Catalog/Cheapest.antt =====
-- What FindCheapestForProvider promises to the estimator, stated without the loop and the sort.
use mathlib.Core.List.Permᴰ
use dispatcher.Prelude.{
  subst, ℕ, ◌≤◌, Bool, true, false, [], ◌∷◌, ◌≡◌, ◌≢◌, refl, ◌↔◌, arith, All, Any, equal_fold,
  eq_iff, filter, All-filter, All-filter_inv, All-filter_sub, All-Any_self, IsSorted-filter,
  All-Perm, All-map, All-both, IsSorted, IsStrictWeak, IsSortSlice,
}
use dispatcher.CloudVm.Catalog.{
  ProviderId, same_provider, InstanceType, InstanceRequirements, Catalog, is_match, cheaper,
  find_cheapest, find_cheapest_for_provider, too_small, wrong_gpu, wrong_arch, wrong_bucket,
}

too_small_iff : (wanted offered : ℕ) → (too_small wanted offered ≡ false) ↔ (wanted ≤ offered)
unfolding too_small
too_small_iff wanted offered = (λ h. ground arith, λ h. ground arith)

-- The GPUs of an offering are those asked for.
abbrev pub GpusFit : InstanceRequirements → InstanceType → Type 0
GpusFit req inst =
    (req.gpu_count ≤ inst.gpu_count)
    × (req.gpu_count ≡ 0 → inst.gpu_count ≡ 0)
    × (req.gpu_model ≢ "" → equal_fold inst.gpu_model req.gpu_model ≡ true)

wrong_gpu_iff :
    (req : InstanceRequirements) (inst : InstanceType)
    → (wrong_gpu req inst ≡ false) ↔ GpusFit req inst
unfolding wrong_gpu
wrong_gpu_iff req inst =
    let m = eq_iff req.gpu_model "" in (λ h. ground (arith, m), λ h. ground (arith, m))

-- An offering meets the requirements.
pub record Meets (req : InstanceRequirements) (inst : InstanceType) : Type 0 where
  pub vcpus : req.min_vcpus ≤ inst.vcpus
  pub memory : req.min_memory ≤ inst.memory
  pub gpus : GpusFit req inst
  pub confidential : inst.confidential ≡ req.confidential
  pub arch : req.arch ≢ "" → inst.arch ≡ req.arch

wrong_arch_iff :
    (req : InstanceRequirements) (inst : InstanceType)
    → (wrong_arch req inst ≡ false) ↔ (req.arch ≢ "" → inst.arch ≡ req.arch)
unfolding wrong_arch
wrong_arch_iff req inst =
    let a = eq_iff req.arch "" in
    let b = eq_iff inst.arch req.arch in (λ h. ground (arith, a, b), λ h. ground (arith, a, b))

wrong_bucket_iff :
    (req : InstanceRequirements) (inst : InstanceType)
    → (wrong_bucket req inst ≡ false) ↔ (inst.confidential ≡ req.confidential)
unfolding wrong_bucket
wrong_bucket_iff req inst = (λ h. ground arith, λ h. ground arith)

pub is_match_iff :
    (req : InstanceRequirements) (inst : InstanceType) → (is_match req inst ≡ true) ↔ Meets req inst
unfolding is_match
is_match_iff req inst =
    let v = too_small_iff req.min_vcpus inst.vcpus in
    let m = too_small_iff req.min_memory inst.memory in
    let g = wrong_gpu_iff req inst in
    let a = wrong_arch_iff req inst in
    let b = wrong_bucket_iff req inst in
    (λ h. ground (arith, v, m, g, a, b), λ h. ground (arith, v, m, g, a, b))

same_provider_iff : (p q : ProviderId) → (same_provider p q ≡ true) ↔ (p ≡ q)
same_provider_iff p q = (λ h. ground arith, λ h. ground arith)

cheaper-IsStrictWeak : IsStrictWeak cheaper
unfolding cheaper
cheaper-IsStrictWeak = record {
  irreflexive = λ a. ground arith;
  transitive = λ a b c p q. ground arith;
  weak = λ a b c p q. ground arith;
}

-- What the search is for: with no result nothing of the provider meets the requirements, and the
-- first result is an offering of the catalog and the provider that meets them at the least price.
unfoldable pub IsCheapest : InstanceRequirements → ProviderId → Catalog → Catalog → Type 0
IsCheapest req p c [] = All (λ i. Meets req i → i.provider ≢ p) c
IsCheapest req p c (x ∷ rest) =
    Meets req x
    × (x.provider ≡ p)
    × Any (λ i. i ≡ x) c
    × All (λ i. Meets req i → i.provider ≡ p → x.price_per_hour ≤ i.price_per_hour) c

module _ (sort : (InstanceType → InstanceType → Bool) → Catalog → Catalog) (s : IsSortSlice sort)
    (c : Catalog) (p : ProviderId) (req : InstanceRequirements) where
  -- What holds of all results holds of all offerings that meet the requirements.
  from_results :
      (P : InstanceType → Type 0)
      → All P (find_cheapest_for_provider sort c p req)
      → All (λ i. Meets req i → i.provider ≡ p → P i) c
  unfolding find_cheapest_for_provider find_cheapest
  from_results P h =
      let of = λ (i : InstanceType). same_provider i.provider p in
      let a = All-filter_inv of P (find_cheapest sort c req) h in
      let back = Permᴰ.symm (s.permutes cheaper (filter (is_match req) c)) in
      let b = All-Perm (λ i. of i ≡ true → P i) back a in
      let d = All-filter_inv (is_match req) (λ i. of i ≡ true → P i) c b in
      All-map (λ i. is_match req i ≡ true → of i ≡ true → P i)
        (λ i. Meets req i → i.provider ≡ p → P i) c
        (λ i f m e. f ((is_match_iff req i).1 m) ((same_provider_iff i.provider p).1 e)) d

  -- What holds of all offerings holds of the results.
  to_results :
      (P : InstanceType → Type 0) → All P c → All P (find_cheapest_for_provider sort c p req)
  unfolding find_cheapest_for_provider find_cheapest
  to_results P h =
      All-filter_sub (λ i. same_provider i.provider p) P (find_cheapest sort c req)
        (All-Perm P (s.permutes cheaper (filter (is_match req) c))
          (All-filter_sub (is_match req) P c h))

  results_meet : All (λ i. Meets req i × (i.provider ≡ p)) (find_cheapest_for_provider sort c p req)
  unfolding find_cheapest_for_provider find_cheapest
  results_meet =
      let of = λ (i : InstanceType). same_provider i.provider p in
      let found = filter (is_match req) c in
      let m = All-filter (is_match req) (Meets req) c (λ i h. (is_match_iff req i).0 h) in
      let a =
        All-filter_sub of (Meets req) (sort cheaper found)
          (All-Perm (Meets req) (s.permutes cheaper found) m) in
      let b =
        All-filter of (λ i. i.provider ≡ p) (sort cheaper found)
          (λ i h. (same_provider_iff i.provider p).0 h) in
      All-both (Meets req) (λ i. i.provider ≡ p) (filter of (sort cheaper found)) a b

  results-IsSorted : IsSorted cheaper (find_cheapest_for_provider sort c p req)
  unfolding find_cheapest_for_provider find_cheapest
  results-IsSorted =
      IsSorted-filter (λ i. same_provider i.provider p) cheaper (find_cheapest sort c req)
        (s.sorts cheaper (filter (is_match req) c) cheaper-IsStrictWeak)

  least :
      (x : InstanceType) (r : Catalog)
      → IsSorted cheaper (x ∷ r)
      → All (λ i. x.price_per_hour ≤ i.price_per_hour) (x ∷ r)
  unfolding cheaper
  least x r h = (
    omega arith,
    All-map (λ y. cheaper y x ≡ false) (λ i. x.price_per_hour ≤ i.price_per_hour) r
        (λ i e. ground arith) h.0,
  )

  pub judge : (r : Catalog) → find_cheapest_for_provider sort c p req ≡ r → IsCheapest req p c r
  unfolding IsCheapest
  judge [] e = from_results (λ i. ⊥) (rw e tt)
  judge (x ∷ r) e =
      let meet = subst (All (λ i. Meets req i × (i.provider ≡ p))) e results_meet in
      let order = subst (IsSorted cheaper) e results-IsSorted in
      let found =
        subst (All (λ y. Any (λ i. i ≡ y) c)) e
          (to_results (λ y. Any (λ i. i ≡ y) c) (All-Any_self c)) in
      (
        meet.0.0,
        meet.0.1,
        found.0,
        from_results (λ i. x.price_per_hour ≤ i.price_per_hour) (rw e (least x r order)),
      )

  -- For any sort that is as documented: FindCheapestForProvider finds nothing only if no offering
  -- of the provider meets the requirements, and otherwise its first result meets them, is in the
  -- catalog, and no other offering of the provider that meets them costs less.
  pub find_cheapest_for_provider-IsCheapest :
      IsCheapest req p c (find_cheapest_for_provider sort c p req)
  find_cheapest_for_provider-IsCheapest = judge (find_cheapest_for_provider sort c p req) refl
