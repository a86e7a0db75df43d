-- ===== src/CloudVm/Catalog.antt =====
-- internal/cloudvm/catalog.go: the offerings of the providers and the search for the cheapest.
-- Prices are in 1/1000000 USD per hour, memory in 1/1000 of a MiB. sort.Slice is a parameter.
pub mod Cheapest
use dispatcher.Prelude.{
  ℕ, String, Bool, true, false, ◌&&◌, ◌||◌, not, List, [], ◌∷◌, ◌==◌, ltb, if◌then◌else◌, str_eq,
  equal_fold, filter, any, Option, none, some, ◌++◌,
}

pub data ProviderId : Type 0 where
  hetzner aws gcp azure lima kubernetes oci lambda : ProviderId

unfoldable pub ProviderId-discrete : Discrete ProviderId
ProviderId-discrete = hlevel

abbrev pub same_provider : ProviderId → ProviderId → Bool
same_provider p q = elim (ProviderId-discrete p q) [ yes _ ↦ true | no _ ↦ false ]

pub record InstanceType : Type 0 where
  pub name : String
  pub provider : ProviderId
  pub vcpus : ℕ
  pub memory : ℕ
  pub gpu_count : ℕ
  pub gpu_model : String
  pub price_per_hour : ℕ
  pub spot_price_per_hour : ℕ
  pub arch : String
  pub confidential : Bool

pub record InstanceRequirements : Type 0 where
  pub min_vcpus : ℕ
  pub min_memory : ℕ
  pub gpu_count : ℕ
  pub gpu_model : String
  pub arch : String
  pub confidential : Bool

abbrev pub Catalog : Type 0
Catalog = List InstanceType

-- An offering with no specification cannot meet a size that is asked for, nor one too small.
unfoldable pub too_small : ℕ → ℕ → Bool
too_small wanted offered =
    if ltb 0 wanted && offered == 0 then true else ltb 0 offered && ltb offered wanted

-- Too few GPUs, a GPU that nobody asked for, or the wrong model.
unfoldable pub wrong_gpu : InstanceRequirements → InstanceType → Bool
wrong_gpu req inst =
    (ltb 0 req.gpu_count && ltb inst.gpu_count req.gpu_count)
    || (req.gpu_count == 0 && ltb 0 inst.gpu_count)
    || (not (str_eq req.gpu_model "") && not (equal_fold inst.gpu_model req.gpu_model))

unfoldable pub wrong_bucket : InstanceRequirements → InstanceType → Bool
wrong_bucket req inst =
    (req.confidential && not inst.confidential) || (inst.confidential && not req.confidential)

unfoldable pub wrong_arch : InstanceRequirements → InstanceType → Bool
wrong_arch req inst = not (str_eq req.arch "") && not (str_eq inst.arch req.arch)

-- No `continue` of the loop is taken.
unfoldable pub is_match : InstanceRequirements → InstanceType → Bool
is_match req inst = not (
    too_small req.min_vcpus inst.vcpus
    || too_small req.min_memory inst.memory
    || wrong_gpu req inst
    || wrong_bucket req inst
    || wrong_arch req inst)

unfoldable pub cheaper : InstanceType → InstanceType → Bool
cheaper a b = ltb a.price_per_hour b.price_per_hour

-- Catalog.PriceByName; the first entry of the name decides.
unfoldable pub price_by_name : Catalog → ProviderId → String → ℕ
price_by_name [] p name = 0
price_by_name (inst ∷ c) p name =
    if same_provider inst.provider p && str_eq inst.name name
    then inst.price_per_hour
    else price_by_name c p name

module _ (sort : (InstanceType → InstanceType → Bool) → Catalog → Catalog) where
  -- Catalog.FindCheapest.
  unfoldable pub find_cheapest : Catalog → InstanceRequirements → Catalog
  find_cheapest c req = sort cheaper (filter (is_match req) c)

  -- Catalog.FindCheapestForProvider.
  unfoldable pub find_cheapest_for_provider : Catalog → ProviderId → InstanceRequirements → Catalog
  find_cheapest_for_provider c p req =
      filter (λ inst. same_provider inst.provider p) (find_cheapest c req)

-- Catalog.Providers: in the order in which they first appear.
providers_from : List ProviderId → Catalog → List ProviderId
providers_from seen [] = []
providers_from seen (inst ∷ c) =
    let rest = providers_from (inst.provider ∷ seen) c in
    let same = providers_from seen c in
    if any (same_provider inst.provider) seen then same else inst.provider ∷ rest

unfoldable pub providers : Catalog → List ProviderId
unfolding providers_from
providers c = providers_from [] c
