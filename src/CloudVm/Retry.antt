-- ===== src/CloudVm/Retry.antt =====
-- internal/cloudvm/retry.go: Retry, with the operation, the classifier and the context as functions
-- of the attempt. A delay that doubles past 2^63 ns, 292 years, is outside the model.
pub mod Attempts
use dispatcher.Prelude.{
  ℕ, zero, suc, ◌+◌, ◌*◌, ◌-◌, Bool, true, false, ◌&&◌, ◌||◌, not, List, [], ◌∷◌, Option, none,
  some, ◌==◌, ltb, if◌then◌else◌,
}
use dispatcher.Types.{Duration}

pub record RetryPolicy : Type 0 where
  pub max_attempts : ℕ
  pub initial : Duration
  pub max : Duration

pub data RetryEnd (E : Type 0) : Type 0 where
  succeeded canceled : RetryEnd E
  gave_up : E → RetryEnd E

-- How often the operation ran, the delays before the next attempts, and the end.
pub record Retried (E : Type 0) : Type 0 where
  pub attempts : ℕ
  pub delays : List Duration
  pub end : RetryEnd E

unfoldable pub next_delay : Duration → Duration → Duration
next_delay max d = if ltb max (d * 2) && ltb 0 max then max else d * 2

abbrev pub after : {E : Type 0} → Duration → Retried E → Retried E
after d r = record r { attempts = r.attempts + 1; delays = d ∷ r.delays }

abbrev pub once : {E : Type 0} → List Duration → RetryEnd E → Retried E
once ds e = record { attempts = 1; delays = ds; end = e }

module _ {E : Type 0} (op : ℕ → Option E) (transient : E → Bool) (done : ℕ → Bool)
    (max : Duration) where
  -- The loop at this attempt, with so many after it.
  unfoldable pub retry_from : ℕ → ℕ → Duration → Retried E
  unfolding next_delay
  retry_from zero i d = elim (op i) [ none ↦ once [] succeeded | some e ↦ once [] (gave_up e) ]
  retry_from (suc left) i d =
      let rest = retry_from left (suc i) (next_delay max d) in
      elim (op i) [
        | none ↦ once [] succeeded
        | some e ↦
            if not (transient e)
            then once [] (gave_up e)
            else if done i
            then once (d ∷ []) canceled
            else after d rest
      ]

unfoldable pub first_delay : RetryPolicy → Duration
first_delay p = if p.initial == 0 then 100000000 else p.initial

unfoldable pub retry :
    {E : Type 0} → RetryPolicy → (E → Bool) → (ℕ → Option E) → (ℕ → Bool) → Retried E
unfolding retry_from first_delay
retry p transient op done =
    retry_from op transient done p.max (p.max_attempts - 1) 0 (first_delay p)
