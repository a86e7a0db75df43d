-- ===== src/Cost/Parse.antt =====
-- parseCPU and parseMemoryGB of internal/cost/estimator.go. The first is modelled up to 2^63 - 1,
-- where a Go int wraps; memory is in 1/1000 of a MiB and cut to it, where the Go code has a float.
use dispatcher.Prelude.{
  ℕ, ◌+◌, ◌-◌, ◌*◌, ◌/◌, ◌^◌, String, Bool, ◌&&◌, ◌||◌, List, [], ◌∷◌, Option, none, some, ◌==◌,
  leb, if◌then◌else◌, codes, to_lower, trim_space,
}

abbrev pub is_digit : ℕ → Bool
is_digit c = leb 48 c && leb c 57

-- The leading digits.
unfoldable pub digits_from : ℕ → List ℕ → ℕ
digits_from n [] = n
digits_from n (c ∷ cs) =
    let rest = digits_from (n * 10 + (c - 48)) cs in if is_digit c then rest else n

unfoldable pub or_two : ℕ → ℕ
or_two n = if n == 0 then 2 else n

-- parseCPU.
unfoldable pub parse_cpu : String → ℕ
unfolding digits_from or_two
parse_cpu cpu = or_two (digits_from 0 (codes cpu))

-- The characters up to the first that is neither a digit nor a full stop, and the rest.
unfoldable pub split_number : List ℕ → List ℕ × List ℕ
split_number [] = ([], [])
split_number (c ∷ cs) =
    let (num, unit) = split_number cs in
    if is_digit c || c == 46 then (c ∷ num, unit) else ([], c ∷ cs)

-- strconv.ParseFloat on digits and full stops: the digits as a number, and how many of them are
-- decimals. It refuses two full stops, and no digit.
unfoldable pub decimals : ℕ → ℕ → List ℕ → Option (ℕ × ℕ)
decimals n k [] = some (n, k)
decimals n k (c ∷ cs) =
    let rest = decimals (n * 10 + (c - 48)) (k + 1) cs in if c == 46 then none else rest

unfoldable pub whole : ℕ → List ℕ → Option (ℕ × ℕ)
unfolding decimals
whole n [] = some (n, 0)
whole n (c ∷ cs) =
    let rest = whole (n * 10 + (c - 48)) cs in
    let after = decimals n 0 cs in if c == 46 then after else rest

unfoldable pub parse_float : List ℕ → Option (ℕ × ℕ)
unfolding whole
parse_float [] = none
parse_float (c ∷ []) = if c == 46 then none else whole 0 (c ∷ [])
parse_float (c ∷ d ∷ cs) = whole 0 (c ∷ d ∷ cs)

-- 1 GiB, and 1 MiB where the unit says so.
unfoldable pub unit_size : List ℕ → ℕ
unit_size [] = 1024000
unit_size (c ∷ cs) = if c == b'm' then 1000 else 1024000

-- parseMemoryGB.
unfoldable pub parse_memory : String → ℕ
unfolding split_number parse_float unit_size
parse_memory s =
    let (num, unit) = split_number (trim_space (to_lower (codes s))) in
    elim (parse_float num) [ none ↦ 0 | some (n, k) ↦ n * unit_size unit / 10 ^ k ]
