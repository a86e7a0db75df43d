-- ===== src/CloudVm/Retry/Attempts.antt =====
-- How often Retry runs the operation, and how long it waits.
use dispatcher.Prelude.{
  ℕ, zero, suc, ◌+◌, ◌-◌, ◌≤◌, Bool, true, false, List, [], ◌∷◌, Option, none, some, ◌≡◌, refl, ◌⊎◌,
  inl, inr, arith, All, length, Option-cases, Bool-cases, subst, if◌then◌else◌, ltb, ◌==◌,
}
use dispatcher.Types.{Duration}
use dispatcher.CloudVm.Retry.{
  RetryPolicy, RetryEnd, succeeded, canceled, gave_up, Retried, next_delay, retry_from, first_delay,
  retry, after, once,
}

-- The end is what the last attempt says; an error ends it if it is not transient or if the attempts
-- are used up.
abbrev pub Ended :
    {E : Type 0} → (ℕ → Option E) → (E → Bool) → (ℕ → Bool) → ℕ → ℕ → ℕ → RetryEnd E → Type 0
Ended op transient done last attempts limit succeeded = op last ≡ none
Ended op transient done last attempts limit canceled = done last ≡ true
Ended op transient done last attempts limit (gave_up e) =
    (op last ≡ some e) × ((transient e ≡ false) ⊎ (attempts ≡ limit))

-- From attempt `first` on.
pub record IsRetried {E : Type 0} (op : ℕ → Option E) (transient : E → Bool) (done : ℕ → Bool)
    (bound : Duration) (first limit : ℕ) (r : Retried E) : Type 0 where
  pub some_attempt : 1 ≤ r.attempts
  pub few_attempts : r.attempts ≤ limit
  pub last : ℕ
  pub at_last : first + r.attempts ≡ suc last
  pub ended : Ended op transient done last r.attempts limit r.end
  pub waits : length r.delays ≤ r.attempts
  pub short : All (λ d. d ≤ bound) r.delays

module _ {E : Type 0} (op : ℕ → Option E) (transient : E → Bool) (done : ℕ → Bool)
    (max bound : Duration) (capped : max ≤ bound) (on : 1 ≤ max) where
  Ended-step :
      (last attempts limit : ℕ) (end : RetryEnd E)
      → Ended op transient done last attempts limit end
      → Ended op transient done last (attempts + 1) (suc limit) end
  Ended-step last attempts limit succeeded h = h
  Ended-step last attempts limit canceled h = h
  Ended-step last attempts limit (gave_up e) (h, inl t) = (h, inl t)
  Ended-step last attempts limit (gave_up e) (h, inr full) = (h, inr (omega arith))

  at_once :
      (i limit : ℕ) (ds : List Duration) (end : RetryEnd E)
      → Ended op transient done i 1 (suc limit) end
      → length ds ≤ 1
      → All (λ d. d ≤ bound) ds
      → IsRetried op transient done bound i (suc limit) (once ds end)
  at_once i limit ds end h l a = record {
    some_attempt = omega arith;
    few_attempts = omega arith;
    last = i;
    at_last = omega arith;
    ended = h;
    waits = l;
    short = a;
  }

  retried_after :
      (i limit : ℕ) (d : Duration) (r : Retried E)
      → d ≤ bound
      → IsRetried op transient done bound (suc i) limit r
      → IsRetried op transient done bound i (suc limit) (after d r)
  retried_after i limit d r h k = record {
    some_attempt = omega arith;
    few_attempts = omega (arith, k.few_attempts);
    last = k.last;
    at_last = omega (arith, k.at_last);
    ended = Ended-step k.last r.attempts limit r.end k.ended;
    waits = omega (arith, k.waits);
    short = (h, k.short);
  }

  retry_from-IsRetried :
      (left i : ℕ) (d : Duration)
      → d ≤ bound
      → IsRetried op transient done bound i (suc left) (retry_from op transient done max left i d)
  unfolding retry_from next_delay
  retry_from-IsRetried zero i d h = elim (Option-cases (op i)) [
    | inl n ↦ rw (n, retry_from) (at_once i 0 [] succeeded n (omega arith) tt)
    | inr (e, f) ↦ rw (f, retry_from) (at_once i 0 [] (gave_up e) (f, inr refl) (omega arith) tt)
  ]
  retry_from-IsRetried (suc left) i d h =
      let ih = retry_from-IsRetried left (suc i) (next_delay max d) (ground arith) in
      elim (Option-cases (op i)) [
        | inl n ↦ rw (n, retry_from) (at_once i (suc left) [] succeeded n (omega arith) tt)
        | inr (e, f) ↦ elim (Bool-cases (transient e)) [
          | inr t ↦
              rw (f, t, retry_from)
                (at_once i (suc left) [] (gave_up e) (f, inl t) (omega arith) tt)
          | inl t ↦ elim (Bool-cases (done i)) [
            | inl c ↦
                rw (f, t, c, retry_from)
                  (at_once i (suc left) (d ∷ []) canceled c (omega arith) (h, tt))
            | inr c ↦ rw (f, t, c, retry_from) (retried_after i (suc left) d _ h ih)
          ]
        ]
      ]

-- The longer of the first delay and the cap.
abbrev pub longest : RetryPolicy → Duration
longest p = if ltb p.max (first_delay p) then first_delay p else p.max

abbrev pub limit : RetryPolicy → ℕ
limit p = if p.max_attempts == 0 then 1 else p.max_attempts

limit_lem : (n : ℕ) → suc (n - 1) ≡ (if n == 0 then 1 else n)
limit_lem n = ground arith

-- Under a policy with a cap, Retry runs the operation at least once and at most MaxAttempts times
-- (once for 0), waits at most once for each attempt, never longer than the cap or the first delay,
-- and ends by what its last attempt said: with success, with the context, or with the error of that
-- attempt, which is not transient or came at the last attempt allowed.
pub retry-IsRetried :
    {E : Type 0} (p : RetryPolicy) (transient : E → Bool) (op : ℕ → Option E) (done : ℕ → Bool)
    → 1 ≤ p.max
    → IsRetried op transient done (longest p) 0 (limit p) (retry p transient op done)
unfolding retry
retry-IsRetried p transient op done on =
    subst (λ n. IsRetried op transient done (longest p) 0 n (retry p transient op done))
      (limit_lem p.max_attempts)
      (retry_from-IsRetried op transient done p.max (longest p) (ground arith) on
        (p.max_attempts - 1) 0 (first_delay p) (ground arith))
