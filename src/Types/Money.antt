-- ===== src/Types/Money.antt =====
-- Amounts, times and equality on the constants of internal/types.
-- cost.roundCents keeps four decimals of a dollar, so an amount is a number of 1/10000 USD.
use mathlib.Core.Logic.{ite}
use dispatcher.Prelude.{ℕ, ◌*◌, Bool, true, false}

abbrev pub Usd : Type 0
Usd = ℕ

-- time.Time and time.Duration, in nanoseconds; 0 is the zero time.
abbrev pub Time : Type 0
Time = ℕ

abbrev pub Duration : Type 0
Duration = ℕ

abbrev pub second : Duration
second = 1000000000

abbrev pub minute : Duration
minute = 60 * second

abbrev pub hour : Duration
hour = 60 * minute

-- Go's `==` on a type whose equality is decided.
abbrev pub eq_by {ℓ} : {A : Type ℓ} → Discrete A → A → A → Bool
eq_by d a b = ite (d a b) true false
