-- ===== src/Adapter/Resources.antt =====
-- internal/adapter/adapter.go: the resources that gc sees, and internal/cloudvm/reprice.go.
-- The monthly cost is in 1/1000000 USD.
use dispatcher.Prelude.{
  ℕ, ◌*◌, String, Bool, true, false, ◌&&◌, not, List, [], ◌∷◌, Option, none, some, ltb,
  if◌then◌else◌, str_eq, map,
}
use dispatcher.Types.{Time}
use dispatcher.CloudVm.Catalog.{
  ProviderId, hetzner, aws, gcp, azure, lima, kubernetes, oci, lambda, Catalog, price_by_name,
}

pub data ResourceKind : Type 0 where
  instance_resource disk image_resource snapshot address firewall container_image : ResourceKind

pub record ResourceInfo : Type 0 where
  pub resource_id : String
  pub provider : String
  pub kind : ResourceKind
  pub region : String
  pub instance_type : String
  pub created_at : Time
  pub run_id : String
  pub tags : List (String × String)
  pub scope : String
  pub monthly_usd : ℕ

-- The value of a tag, the empty text where it is missing.
unfoldable pub tag : String → List (String × String) → String
tag name [] = ""
tag name ((k, v) ∷ tags) = if str_eq k name then v else tag name tags

-- ResourceInfo.DispatcherOwned.
unfoldable pub dispatcher_owned : ResourceInfo → Bool
dispatcher_owned r = str_eq (tag "dispatcher" r.tags) "true"

-- ProviderID(r.Provider), if it is one of the constants.
provider_named : String → Option ProviderId
provider_named s =
    if str_eq s "hetzner"
    then some hetzner
    else if str_eq s "aws"
    then some aws
    else if str_eq s "gcp"
    then some gcp
    else if str_eq s "azure"
    then some azure
    else if str_eq s "lima"
    then some lima
    else if str_eq s "kubernetes"
    then some kubernetes
    else if str_eq s "oci"
    then some oci
    else if str_eq s "lambda"
    then some lambda
    else none

live_price : Catalog → ResourceInfo → ℕ
unfolding provider_named
live_price c r = elim (provider_named r.provider) [
  | none ↦ 0
  | some p ↦ price_by_name c p r.instance_type
]

unfoldable pub is_instance : ResourceKind → Bool
is_instance instance_resource = true
is_instance _ = false

-- One round of RepriceInstancesLive; a month has 730 hours.
unfoldable pub reprice : Catalog → ResourceInfo → ResourceInfo
unfolding live_price is_instance
reprice c r =
    if is_instance r.kind && not (str_eq r.instance_type "") && ltb 0 (live_price c r)
    then record r { monthly_usd = live_price c r * 730 }
    else r

-- RepriceInstancesLive.
unfoldable pub reprice_all : Option Catalog → List ResourceInfo → List ResourceInfo
reprice_all none rs = rs
reprice_all (some c) rs = map (reprice c) rs
