-- ===== src/Build/Order.antt =====
-- The comparison that sorts the candidates.
use dispatcher.Prelude.{ℕ, Bool, true, false, not, ◌&&◌, ◌≡◌, arith, ltb, if◌then◌else◌}
use dispatcher.Types.{OptimizeGoal, optimize_cost, optimize_speed}
use dispatcher.Build.{Candidate, is_unknown, is_near, cheaper, less}

-- What sort.Slice asks of its comparison, and that an unknown cost comes after every known one.
pub record IsOrder (lt : Candidate → Candidate → Bool) : Type 0 where
  pub irreflexive : (a : Candidate) → lt a a ≡ false
  pub transitive : (a b c : Candidate) → lt a b ≡ true → lt b c ≡ true → lt a c ≡ true
  pub weak : (a b c : Candidate) → lt a c ≡ true → lt b c ≡ false → lt a b ≡ true
  pub unknown_last : (a b : Candidate) → is_unknown a ≡ false → is_unknown b ≡ true → lt a b ≡ true

-- What the comparison for speed reads of a candidate: an unknown cost, a near target, the cost.
record Key : Type 0 where
  unpriced : Bool
  near : Bool
  value : ℕ

key : Candidate → Key
key c = record { unpriced = is_unknown c; near = is_near c.target.kind; value = c.cost.value }

before : Key → Key → Bool
before a b =
    if a.unpriced && not b.unpriced
    then false
    else if b.unpriced && not a.unpriced
    then true
    else if a.near && not b.near
    then true
    else if b.near && not a.near
    then false
    else if not a.near && not b.near
    then ltb b.value a.value
    else ltb a.value b.value

before-transitive : (a b c : Key) → before a b ≡ true → before b c ≡ true → before a c ≡ true
unfolding before
before-transitive a b c p q = ground arith

before_weak : (a b c : Key) → before a c ≡ true → before b c ≡ false → before a b ≡ true
unfolding before
before_weak a b c p q = ground arith

-- For either goal the comparison of candidates is a strict weak order, as sort.Slice needs, and
-- puts a candidate of unknown cost after every priced one.
pub less-IsOrder : (goal : OptimizeGoal) → IsOrder (less goal)
unfolding less cheaper before key
less-IsOrder optimize_cost = record {
  irreflexive = λ a. ground arith;
  transitive = λ a b c p q. ground arith;
  weak = λ a b c p q. ground arith;
  unknown_last = λ a b p q. ground arith;
}
less-IsOrder optimize_speed = record {
  irreflexive = λ a. ground arith;
  transitive = λ a b c p q. before-transitive (key a) (key b) (key c) p q;
  weak = λ a b c p q. before_weak (key a) (key b) (key c) p q;
  unknown_last = λ a b p q. ground arith;
}
