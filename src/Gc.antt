-- ===== src/Gc.antt =====
-- internal/cli/gc.go: which cloud resources `dispatcher gc` destroys. The records, the adapters'
-- listings, the confirmation and the outcome of each destruction come from outside. Costs are in
-- 1/1000000 USD.
pub mod Safety
use dispatcher.Prelude.{
  ℕ, ◌+◌, String, Bool, true, false, ◌&&◌, ◌||◌, not, List, [], ◌∷◌, ◌++◌, Option, none, some, ◌==◌,
  ltb, if◌then◌else◌, str_eq, any, is_empty, length,
}
use dispatcher.Types.{RunState, RunState-discrete, artifact_failed, is_terminal, eq_by}
use dispatcher.Run.Record.{RunRecord}
use dispatcher.Adapter.Resources.{ResourceInfo, dispatcher_owned, reprice_all}
use dispatcher.CloudVm.Catalog.{Catalog}

-- What LoadRecord gave for a listed id: a record, or an error, with the plan that RecoverPlanID
-- found in the file (the empty text where it found none).
pub data Loaded : Type 0 where
  readable : RunRecord → Loaded
  unreadable : String → Loaded

pub record Protected : Type 0 where
  pub active : List String
  pub unreadable_plans : List String
  pub unrecoverable : Bool

-- A run that still needs its resources: it is going on, or its outputs wait to be recovered.
unfoldable pub is_protected : RunState → Bool
unfolding RunState-discrete
is_protected s = not (is_terminal s) || eq_by RunState-discrete s artifact_failed

unfoldable pub protect : Protected → Loaded → Protected
unfolding is_protected
protect p (readable rec) =
    if is_protected rec.state then record p { active = rec.plan_id ∷ p.active } else p
protect p (unreadable plan) =
    if str_eq plan ""
    then record p { unrecoverable = true }
    else record p { unreadable_plans = plan ∷ p.unreadable_plans }

unfoldable pub protect_all : Protected → List Loaded → Protected
protect_all p [] = p
protect_all p (l ∷ ls) = protect_all (protect p l) ls

abbrev pub nothing_protected : Protected
nothing_protected = record { active = []; unreadable_plans = []; unrecoverable = false }

pub data Verdict : Type 0 where
  external standing kept orphan : Verdict

abbrev pub holds : List String → String → Bool
holds ids id = any (λ i. str_eq i id) ids

-- The branches of the scan for one resource.
unfoldable pub verdict : Protected → ResourceInfo → Verdict
verdict p res =
    if not (dispatcher_owned res)
    then external
    else if str_eq res.run_id ""
    then standing
    else if holds p.active res.run_id || p.unrecoverable || holds p.unreadable_plans res.run_id
    then kept
    else orphan

pub record Scan : Type 0 where
  pub orphans : List ResourceInfo
  pub standing : List ResourceInfo
  pub external : List ResourceInfo

unfoldable pub sort_out : Verdict → ResourceInfo → Scan → Scan
sort_out external res s = record s { external = res ∷ s.external }
sort_out standing res s = record s { standing = res ∷ s.standing }
sort_out kept res s = s
sort_out orphan res s = record s { orphans = res ∷ s.orphans }

unfoldable pub scan : Protected → List ResourceInfo → Scan
unfolding sort_out
scan p [] = record { orphans = []; standing = []; external = [] }
scan p (res ∷ rs) = sort_out (verdict p res) res (scan p rs)

-- An adapter whose listing fails is passed over.
unfoldable pub listed : Option Catalog → List (Option (List ResourceInfo)) → List ResourceInfo
listed live [] = []
listed live (none ∷ rest) = listed live rest
listed live (some rs ∷ rest) = reprice_all live rs ++ listed live rest

pub record Flags : Type 0 where
  pub dry_run : Bool
  pub force : Bool
  pub allow_empty_store : Bool
  pub as_json : Bool
  pub warn_over : ℕ

unfoldable pub monthly : List ResourceInfo → ℕ
monthly [] = 0
monthly (r ∷ rs) = r.monthly_usd + monthly rs

-- What gc leaves: the resources that it asked to destroy, those that were, the runs whose key files
-- it removed, and the cost that it shows.
pub record Report : Type 0 where
  pub found : ℕ
  pub attempted : List ResourceInfo
  pub destroyed : List ResourceInfo
  pub keys_removed : List String
  pub monthly_total : ℕ
  pub cost_warning : Bool

pub data GcEnd : Type 0 where
  cannot_enumerate store_looks_empty json_needs_intent no_adapters : GcEnd
  reported : Report → GcEnd

module _ (destroys : ResourceInfo → Bool) where
  unfoldable pub destroyed_of : List ResourceInfo → List ResourceInfo
  destroyed_of [] = []
  destroyed_of (r ∷ rs) = let rest = destroyed_of rs in if destroys r then r ∷ rest else rest

  unfoldable pub keys_of : List ResourceInfo → List String
  keys_of [] = []
  keys_of (r ∷ rs) = let rest = keys_of rs in if str_eq r.run_id "" then rest else r.run_id ∷ rest

  unfoldable pub report : Flags → Scan → List ResourceInfo → Report
  unfolding destroyed_of keys_of monthly
  report f s attempted =
      let total = monthly s.orphans + monthly s.standing + monthly s.external in
      record {
        found = length s.orphans;
        attempted = attempted;
        destroyed = destroyed_of attempted;
        keys_removed = keys_of (destroyed_of attempted);
        monthly_total = total;
        cost_warning = ltb 0 f.warn_over && ltb f.warn_over total;
      }

  -- After the scan, with the answer to the prompt.
  unfoldable pub conclude : Flags → Bool → Bool → Scan → GcEnd
  unfolding report
  conclude f empty_store confirmed s =
      if not f.dry_run
        && (not f.as_json || f.force)
        && not f.allow_empty_store
        && empty_store
        && not (is_empty s.orphans)
      then store_looks_empty
      else if f.as_json && not (is_empty s.orphans) && not f.dry_run && not f.force
      then json_needs_intent
      else if f.dry_run || (not f.as_json && not f.force && not confirmed)
      then reported (report f s [])
      else reported (report f s s.orphans)

  -- The command.
  unfoldable pub gc :
      Flags
      → Option (List Loaded)
      → List (Option (List ResourceInfo))
      → Option Catalog
      → Bool
      → GcEnd
  unfolding conclude
  gc f none adapters live confirmed = cannot_enumerate
  gc f (some runs) adapters live confirmed =
      if is_empty adapters
      then no_adapters
      else conclude f (is_empty runs) confirmed
          (scan (protect_all nothing_protected runs) (listed live adapters))
