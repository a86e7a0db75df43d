-- ===== src/Shard/RoundRobin.antt =====
-- Where the items of a workload go.
use dispatcher.Prelude.{
  ℕ, zero, suc, ◌+◌, ◌%◌, ◌≤◌, ◌<◌, String, List, [], ◌∷◌, ◌++◌, some, ◌≡◌, ◌≢◌, refl, ap, arith,
  ◌==◌, if◌then◌else◌, length, get_elem?, eq_iff, update_at, length-append, length-update_at,
  get_elem?-update_at_self, get_elem?-update_at_ne, Bool-cases, ==_iff, inl, inr, ◌∙◌,
}
use native.Mathlib.Nat.{mod-eq_of_lt, mod-lt, zero-add}
use mathlib.Core.List.{append-nil, append_assoc}
use dispatcher.Types.{ShardSpec}
use dispatcher.Shard.Assign.{Assignment, numbered, give, distribute, shard_count, plan}

-- The items that shard i of n gets by turns, from item j on.
unfoldable pub turns : ℕ → ℕ → ℕ → List String → List String
turns n i j [] = []
turns n i j (item ∷ rest) =
    let later = turns n i (j + 1) rest in if (j % n) == i then item ∷ later else later

length-numbered : (n i left : ℕ) → length (numbered n i left) ≡ left
unfolding numbered
length-numbered n i zero = refl
length-numbered n i (suc left) = ap suc (length-numbered n (i + 1) left)

get_elem?-numbered :
    (n i left k : ℕ)
    → k < left
    → get_elem? (numbered n i left) k ≡ some (record { index = i + k; count = n; items = [] })
unfolding numbered
get_elem?-numbered n i zero k h = absurd (omega arith)
get_elem?-numbered n i (suc left) zero h = ground arith
get_elem?-numbered n i (suc left) (suc k) h =
    get_elem?-numbered n (i + 1) left k (omega arith) ∙ ground arith

length-distribute :
    (n j : ℕ) (xs : List String) (out : List Assignment)
    → length (distribute n j xs out) ≡ length out
unfolding distribute
length-distribute n j [] out = refl
length-distribute n j (x ∷ xs) out =
    length-distribute n (j + 1) xs (update_at (j % n) (give x) out)
    ∙ length-update_at (j % n) (give x) out

given :
    (a : Assignment) (x : String) (later : List String)
    → some (record (give x a) { items = (give x a).items ++ later })
      ≡ some (record a { items = a.items ++ (x ∷ later) })
unfolding give
given a x later = rw (append_assoc a.items (x ∷ []) later)

get_elem?-distribute :
    (n j i : ℕ) (xs : List String) (out : List Assignment) (a : Assignment)
    → get_elem? out i ≡ some a
    → get_elem? (distribute n j xs out) i ≡ some (record a { items = a.items ++ turns n i j xs })
unfolding distribute turns
get_elem?-distribute n j i [] out a h = rw (append-nil a.items) h
get_elem?-distribute n j i (x ∷ xs) out a h = elim (Bool-cases ((j % n) == i)) [
  | inl here ↦
      let e : j % n ≡ i = (==_iff (j % n) i).0 here in
      simp here (
        get_elem?-distribute n (j + 1) i xs (update_at (j % n) (give x) out) (give x a)
          (rw e (get_elem?-update_at_self i (give x) out h))
        ∙ given a x (turns n i (j + 1) xs))
  | inr away ↦ simp away (
      get_elem?-distribute n (j + 1) i xs (update_at (j % n) (give x) out) a
        (get_elem?-update_at_ne (j % n) i (give x) out (λ e. ground arith) ∙ h))
]

-- The item that opens a turn is among the turns of its shard.
turns_nonempty :
    (n i j k : ℕ) (xs : List String) → (j + k) % n ≡ i → k < length xs → turns n i j xs ≢ []
unfolding turns
turns_nonempty n i j k [] e h = absurd (omega arith)
turns_nonempty n i j zero (x ∷ xs) e h = ground arith
turns_nonempty n i j (suc k) (x ∷ xs) e h = ground (arith, turns_nonempty n i (j + 1) k xs)

shard_count-le : (spec : ShardSpec) (xs : List String) → shard_count spec xs ≤ length xs
unfolding shard_count
shard_count-le spec xs = ground arith

plan_discover :
    (spec : ShardSpec) (xs : List String)
    → spec.discover ≢ ""
    → 0 < length xs
    → let n = shard_count spec xs in plan spec xs ≡ distribute n 0 xs (numbered n 0 n)
unfolding plan
plan_discover spec [] d h = absurd (omega arith)
plan_discover spec (x ∷ xs) d h = ground (arith, eq_iff spec.discover "")

-- With work to discover, shard i of n gets the items i, i + n, i + 2n and so on, in order, and is
-- told i and n; no shard is empty.
pub plan_round_robin :
    (spec : ShardSpec) (discovered : List String) (i : ℕ)
    → let n = shard_count spec discovered in
      spec.discover ≢ ""
      → i < n
      → (get_elem? (plan spec discovered) i
          ≡ some (record { index = i; count = n; items = turns n i 0 discovered }))
        × (length (plan spec discovered) ≡ n)
        × (turns n i 0 discovered ≢ [])
plan_round_robin spec xs i d h =
    let n = shard_count spec xs in
    let le = shard_count-le spec xs in
    rw (plan_discover spec xs d (omega arith)) (
      get_elem?-distribute n 0 i xs (numbered n 0 n) (record { index = i; count = n; items = [] })
          (get_elem?-numbered n 0 n i h ∙ ground arith),
      length-distribute n 0 xs (numbered n 0 n) ∙ length-numbered n 0 n,
      turns_nonempty n i 0 i xs (rw zero-add (mod-eq_of_lt h)) (omega arith),
    )

-- In count mode shard i of n is told i and n and partitions the work itself.
pub plan_count :
    (spec : ShardSpec) (discovered : List String) (i : ℕ)
    → spec.discover ≡ ""
    → i < spec.count
    → (get_elem? (plan spec discovered) i
        ≡ some (record { index = i; count = spec.count; items = [] }))
      × (length (plan spec discovered) ≡ spec.count)
unfolding plan
plan_count spec xs i d h = ground (
  arith,
  eq_iff spec.discover "",
  get_elem?-numbered spec.count 0 spec.count i h,
  length-numbered spec.count 0 spec.count,
)

-- Σ of the items handed out.
abbrev pub dealt : List Assignment → ℕ
dealt [] = 0
dealt (a ∷ out) = length a.items + dealt out

dealt-update_at :
    (i : ℕ) (x : String) (out : List Assignment)
    → i < length out
    → dealt (update_at i (give x) out) ≡ dealt out + 1
unfolding update_at give
dealt-update_at i x [] h = absurd (omega arith)
dealt-update_at zero x (a ∷ out) h = omega (arith, length-append a.items (x ∷ []))
dealt-update_at (suc i) x (a ∷ out) h = omega (arith, dealt-update_at i x out)

dealt-distribute :
    (n j : ℕ) (xs : List String) (out : List Assignment)
    → 0 < n
    → length out ≡ n
    → dealt (distribute n j xs out) ≡ dealt out + length xs
unfolding distribute
dealt-distribute n j [] out p e = omega arith
dealt-distribute n j (x ∷ xs) out p e = omega (
  arith,
  dealt-distribute n (j + 1) xs (update_at (j % n) (give x) out) p
      (length-update_at (j % n) (give x) out ∙ e),
  dealt-update_at (j % n) x out (rw e (mod-lt j p)),
)

dealt-numbered : (n i left : ℕ) → dealt (numbered n i left) ≡ 0
unfolding numbered
dealt-numbered n i zero = refl
dealt-numbered n i (suc left) = omega (arith, dealt-numbered n (i + 1) left)

shard_count-pos : (spec : ShardSpec) (xs : List String) → 0 < length xs → 0 < shard_count spec xs
unfolding shard_count
shard_count-pos spec xs h = ground arith

-- Every discovered item is handed out once: the shards hold as many items as were discovered.
pub plan_deals_all :
    (spec : ShardSpec) (discovered : List String)
    → spec.discover ≢ ""
    → dealt (plan spec discovered) ≡ length discovered
unfolding plan
plan_deals_all spec [] d = ground (arith, eq_iff spec.discover "")
plan_deals_all spec (x ∷ xs) d =
    let n = shard_count spec (x ∷ xs) in
    rw (plan_discover spec (x ∷ xs) d (omega arith)) (
      omega (
        arith,
        dealt-distribute n 0 (x ∷ xs) (numbered n 0 n) (shard_count-pos spec (x ∷ xs) (omega arith))
            (length-numbered n 0 n),
        dealt-numbered n 0 n,
      ))
