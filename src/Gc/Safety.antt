-- ===== src/Gc/Safety.antt =====
-- gc destroys nothing that could be in use.
use dispatcher.Prelude.{
  subst, String, Bool, true, false, List, [], ◌∷◌, Option, some, ◌≡◌, ◌≢◌, sym, ◌⊎◌, inl, inr,
  arith, All, eq_iff, is_empty,
}
use dispatcher.Types.{is_terminal, artifact_failed}
use dispatcher.Adapter.Resources.{ResourceInfo, dispatcher_owned}
use dispatcher.CloudVm.Catalog.{Catalog}
use dispatcher.Gc.{
  Loaded, readable, unreadable, Protected, is_protected, protect, protect_all, nothing_protected,
  verdict, orphan, holds, Scan, scan, sort_out, listed, Flags, Report, reported, report, conclude,
  gc,
}

-- A listed record does not speak for the resources of a plan.
abbrev pub IsGone : String → Loaded → Type 0
IsGone plan (readable rec) =
    rec.plan_id ≡ plan → (is_terminal rec.state ≡ true) × (rec.state ≢ artifact_failed)
IsGone plan (unreadable recovered) = (recovered ≢ "") × (recovered ≢ plan)

-- Everything that must hold before a resource is destroyed.
pub record IsReapable (runs : List Loaded) (r : ResourceInfo) : Type 0 where
  pub owned : dispatcher_owned r ≡ true
  pub run_scoped : r.run_id ≢ ""
  pub gone : All (IsGone r.run_id) runs

-- A plan that is protected at the end was not protected before, and no record protects it.
Free : Protected → String → Type 0
Free p plan =
    (holds p.active plan ≡ false)
    × (p.unrecoverable ≡ false)
    × (holds p.unreadable_plans plan ≡ false)

protect-Free :
    (p : Protected) (l : Loaded) (plan : String)
    → Free (protect p l) plan
    → Free p plan × IsGone plan l
unfolding Free protect is_protected
protect-Free p (readable rec) plan f = ground (arith, eq_iff rec.plan_id plan)
protect-Free p (unreadable got) plan f = ground (arith, eq_iff got plan, eq_iff got "")

protect_all-Free :
    (p : Protected) (ls : List Loaded) (plan : String)
    → Free (protect_all p ls) plan
    → Free p plan × All (IsGone plan) ls
unfolding protect_all
protect_all-Free p [] plan f = (f, tt)
protect_all-Free p (l ∷ ls) plan f =
    let rest = protect_all-Free (protect p l) ls plan f in
    let here = protect-Free p l plan rest.0 in (here.0, (here.1, rest.1))

orphan-Free :
    (p : Protected) (r : ResourceInfo)
    → verdict p r ≡ orphan
    → (dispatcher_owned r ≡ true) × (r.run_id ≢ "") × Free p r.run_id
unfolding verdict Free
orphan-Free p r v = ground (arith, eq_iff r.run_id "")

scan-orphans :
    (p : Protected) (rs : List ResourceInfo) → All (λ r. verdict p r ≡ orphan) (scan p rs).orphans
unfolding scan sort_out
scan-orphans p [] = tt
scan-orphans p (r ∷ rs) = ground (arith, scan-orphans p rs)

orphans-IsReapable :
    (runs : List Loaded) (rs : List ResourceInfo)
    → All (λ r. verdict (protect_all nothing_protected runs) r ≡ orphan) rs
    → All (IsReapable runs) rs
orphans-IsReapable runs [] h = tt
orphans-IsReapable runs (r ∷ rs) h =
    let p = protect_all nothing_protected runs in
    let o = orphan-Free p r h.0 in
    let g = protect_all-Free nothing_protected runs r.run_id o.2 in
    (record { owned = o.0; run_scoped = o.1; gone = g.1 }, orphans-IsReapable runs rs h.1)

-- Who is asked for before anything is destroyed.
abbrev pub IsMeant : Flags → Bool → Bool → Type 0
IsMeant f empty_store confirmed =
    (f.dry_run ≡ false)
    × ((f.force ≡ true) ⊎ (confirmed ≡ true))
    × ((empty_store ≡ false) ⊎ (f.allow_empty_store ≡ true))

conclude-attempted :
    (destroys : ResourceInfo → Bool) (f : Flags) (empty_store confirmed : Bool) (s : Scan)
    (rep : Report)
    → conclude destroys f empty_store confirmed s ≡ reported rep
    → (rep.attempted ≡ []) ⊎ ((rep.attempted ≡ s.orphans) × IsMeant f empty_store confirmed)
unfolding conclude report
conclude-attempted destroys f empty_store confirmed s rep e = ground arith

-- gc asks to destroy a resource only if it is tagged as dispatcher's, belongs to a run, every
-- readable record of its plan is terminal and keeps no outputs to recover, and every unreadable
-- record could be traced to another plan. It destroys nothing on a dry run, nothing without --yes or
-- a confirmation, and nothing where the store is empty and --allow-empty-store was not given.
pub gc-IsReapable :
    (destroys : ResourceInfo → Bool) (f : Flags) (runs : List Loaded)
    (adapters : List (Option (List ResourceInfo))) (live : Option Catalog) (confirmed : Bool)
    (rep : Report)
    → gc destroys f (some runs) adapters live confirmed ≡ reported rep
    → All (IsReapable runs) rep.attempted
      × ((rep.attempted ≡ []) ⊎ IsMeant f (is_empty runs) confirmed)
unfolding gc
gc-IsReapable destroys f runs adapters live confirmed rep e =
    let s = scan (protect_all nothing_protected runs) (listed live adapters) in
    let ok = orphans-IsReapable runs s.orphans (scan-orphans _ (listed live adapters)) in
    elim (conclude-attempted destroys f (is_empty runs) confirmed s rep (ground arith)) [
      | inl none_left ↦ (subst (λ xs. All (IsReapable runs) xs) (sym none_left) tt, inl none_left)
      | inr both ↦ (subst (λ xs. All (IsReapable runs) xs) (sym both.0) ok, inr both.1)
    ]
