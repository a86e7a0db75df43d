-- ===== src/Approval/Settle.antt =====
-- The outcome of a sequence of decisions on one gate.
use dispatcher.Prelude.{
  String, true, false, List, [], ◌∷◌, Option, none, some, ◌≡◌, refl, ◌⊎◌, inl, inr, arith,
}
use dispatcher.Types.{PolicyRequirement}
use dispatcher.Approval.Defs.{approved, denied, DecisionMsg, Gate, new_gate, settle}

-- The decisions that reach the gate before Wait looks at it, in the order in which they take the
-- lock.
unfoldable pub settle_all : Gate → List DecisionMsg → Gate
settle_all g [] = g
settle_all g (d ∷ ds) = settle_all (settle g d).0 ds

-- The first denial of a sequence.
abbrev pub first_denial : List DecisionMsg → Option DecisionMsg
first_denial [] = none
first_denial (d ∷ ds) = elim d.decision [ denied ↦ some d | approved ↦ first_denial ds ]

abbrev or_else : Option DecisionMsg → Option DecisionMsg → Option DecisionMsg
or_else none b = b
or_else (some a) b = some a

-- What the gate promises: the first denial wins, and the first approval if nobody denies.
abbrev pub winner : List DecisionMsg → Option DecisionMsg
winner [] = none
winner (d ∷ ds) = or_else (first_denial (d ∷ ds)) (some d)

-- A decided gate refuses every decision but a denial over an approval.
settle-decided :
    (g : Gate) (r d : DecisionMsg)
    → g.abandoned ≡ false
    → g.result ≡ some r
    → (d.decision ≡ approved) ⊎ (r.decision ≡ denied)
    → settle g d ≡ (g, false)
unfolding settle
settle-decided g r d o e (inl h) = ground arith
settle-decided g r d o e (inr h) = ground arith

settle-override :
    (g : Gate) (r d : DecisionMsg)
    → g.abandoned ≡ false
    → g.result ≡ some r
    → r.decision ≡ approved
    → d.decision ≡ denied
    → settle g d ≡ (record g { result = some d }, true)
unfolding settle
settle-override g r d o e h k = ground arith

settle_all_denied :
    (g : Gate) (r : DecisionMsg) (ds : List DecisionMsg)
    → g.abandoned ≡ false
    → g.result ≡ some r
    → r.decision ≡ denied
    → settle_all g ds ≡ g
unfolding settle_all
settle_all_denied g r [] o e q = refl
settle_all_denied g r (d ∷ ds) o e q =
    rw (settle-decided g r d o e (inr q)) (settle_all_denied g r ds o e q)

settle_all_approved :
    (g : Gate) (r : DecisionMsg) (ds : List DecisionMsg)
    → g.abandoned ≡ false
    → g.result ≡ some r
    → r.decision ≡ approved
    → (settle_all g ds).result ≡ or_else (first_denial ds) (some r)
unfolding settle_all
settle_all_approved g r [] o e q = e
settle_all_approved g r (d ∷ ds) o e q = ground (
  arith,
  settle-decided g r d o e,
  settle-override g r d o e q,
  settle_all_approved g r ds o e q,
  settle_all_denied (record g { result = some d }) d ds o refl,
)

-- Whatever decisions race for a new gate, and in whatever order they take its lock, as long as no Wait
-- has returned from it and nothing has abandoned it, the decision that stands is the first denial if
-- there is one, and else the first approval.
pub settle_all-winner :
    (id : String) (reqs : List PolicyRequirement) (ds : List DecisionMsg)
    → (settle_all (new_gate id reqs) ds).result ≡ winner ds
unfolding settle_all settle new_gate
settle_all-winner id reqs [] = refl
settle_all-winner id reqs (d ∷ ds) =
    let g = record (new_gate id reqs) { result = some d } in
    ground (arith, settle_all_denied g d ds refl refl, settle_all_approved g d ds refl refl)

-- Once Wait has returned with a decision, or was canceled before there was one, the gate accepts
-- nothing more and does not change.
pub settle-closed : (g : Gate) (d : DecisionMsg) → g.abandoned ≡ true → settle g d ≡ (g, false)
unfolding settle
settle-closed g d h = rw h
