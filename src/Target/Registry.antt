-- ===== src/Target/Registry.antt =====
-- internal/target/registry.go: the targets by id. sort.Strings is a parameter.
use dispatcher.Prelude.{
  String, Bool, not, List, [], ◌∷◌, ◌++◌, Option, none, some, if◌then◌else◌, str_eq, any, filter,
  map, ◌≡◌, refl, arith, eq_iff, All, All-append, subst, sym,
}
use dispatcher.Types.{TargetConfig}

abbrev pub Registry : Type 0
Registry = List TargetConfig

-- Registry.Add: one target for an id.
unfoldable pub add : Registry → TargetConfig → Registry
add [] t = t ∷ []
add (u ∷ r) t = let rest = add r t in if str_eq u.id t.id then t ∷ r else u ∷ rest

-- Registry.Get.
unfoldable pub get : Registry → String → Option TargetConfig
get [] id = none
get (t ∷ r) id = let rest = get r id in if str_eq t.id id then some t else rest

abbrev listing_order : List String
listing_order =
    "local-process" ∷ "local-docker" ∷ "lima-vm" ∷ "ssh" ∷ "kubernetes" ∷ "firecracker-vm"
    ∷ "hetzner-vm" ∷ "aws-vm" ∷ "gcp-vm" ∷ "azure-vm" ∷ []

abbrev prepend : Option TargetConfig → List TargetConfig → List TargetConfig
prepend none ts = ts
prepend (some t) ts = t ∷ ts

-- The targets of these ids, in their order.
unfoldable pub pick : Registry → List String → List TargetConfig
unfolding get
pick r [] = []
pick r (id ∷ ids) = prepend (get r id) (pick r ids)

abbrev is_extra : String → Bool
is_extra id = not (any (λ v. str_eq v id) listing_order)

module _ (sort_strings : List String → List String) where
  -- Registry.List.
  unfoldable pub list_targets : Registry → List TargetConfig
  unfolding pick
  list_targets r =
      pick r listing_order ++ pick r (sort_strings (filter is_extra (map (λ t. t.id) r)))

-- A target is registered, under its own id.
abbrev pub Registered : Registry → TargetConfig → Type 0
Registered r t = get r t.id ≡ some t

pub get-id : (r : Registry) (id : String) (t : TargetConfig) → get r id ≡ some t → t.id ≡ id
unfolding get
get-id [] id t e = cc
get-id (u ∷ r) id t e = ground (arith, eq_iff u.id id, get-id r id t)

pub get-Registered :
    (r : Registry) (id : String) (t : TargetConfig) → get r id ≡ some t → Registered r t
get-Registered r id t e = subst (λ x. get r x ≡ some t) (sym (get-id r id t e)) e

prepend-Registered :
    (r : Registry) (o : Option TargetConfig) (ts : List TargetConfig)
    → ((t : TargetConfig) → o ≡ some t → Registered r t)
    → All (Registered r) ts
    → All (Registered r) (prepend o ts)
prepend-Registered r none ts f a = a
prepend-Registered r (some t) ts f a = (f t refl, a)

pick-Registered : (r : Registry) (ids : List String) → All (Registered r) (pick r ids)
unfolding pick
pick-Registered r [] = tt
pick-Registered r (id ∷ ids) =
    prepend-Registered r (get r id) (pick r ids) (get-Registered r id) (pick-Registered r ids)

pub list_targets-Registered :
    (sort_strings : List String → List String) (r : Registry)
    → All (Registered r) (list_targets sort_strings r)
unfolding list_targets
list_targets-Registered sort_strings r =
    All-append (Registered r) (pick r listing_order) _ (pick-Registered r listing_order)
      (pick-Registered r _)
