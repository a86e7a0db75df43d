-- ===== src/Shard/Assign.antt =====
-- internal/shard/shard.go: Plan and Assignment. A negative Count is like 0, so it is a number here.
use dispatcher.Prelude.{
  ℕ, zero, suc, ◌+◌, ◌%◌, String, ◌||◌, List, [], ◌∷◌, ◌++◌, ◌==◌, ltb, if◌then◌else◌, length,
  is_empty, str_eq, update_at,
}
use dispatcher.Types.{ShardSpec}

pub record Assignment : Type 0 where
  pub index : ℕ
  pub count : ℕ
  pub items : List String

-- make([]Assignment, n) with the loop that numbers it, from index i on.
unfoldable pub numbered : ℕ → ℕ → ℕ → List Assignment
numbered n i zero = []
numbered n i (suc left) = record { index = i; count = n; items = [] } ∷ numbered n (i + 1) left

unfoldable pub give : String → Assignment → Assignment
give item a = record a { items = a.items ++ item ∷ [] }

-- The loop over the discovered items, from item j on.
unfoldable pub distribute : ℕ → ℕ → List String → List Assignment → List Assignment
distribute n j [] out = out
distribute n j (item ∷ rest) out = distribute n (j + 1) rest (update_at (j % n) (give item) out)

unfoldable pub shard_count : ShardSpec → List String → ℕ
shard_count spec discovered =
    if spec.count == 0 || ltb (length discovered) spec.count then length discovered else spec.count

-- The function Plan, whose nil is the empty list.
unfoldable pub plan : ShardSpec → List String → List Assignment
plan spec discovered =
    if str_eq spec.discover ""
    then (if spec.count == 0 then [] else numbered spec.count 0 spec.count)
    else if is_empty discovered
    then []
    else let n = shard_count spec discovered in distribute n 0 discovered (numbered n 0 n)
