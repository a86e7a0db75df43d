-- ===== src/Tests/Shards.antt =====
-- Sharding: two shards of three items, and schedules of the pool.
use dispatcher.Prelude.{
  ◌+◌, ◌≤◌, String, List, [], ◌∷◌, some, ◌≡◌, ◌≢◌, refl, arith, length, get_elem?, eq_iff,
  update_at,
}
use dispatcher.Types.{ShardSpec}
use dispatcher.Shard.Assign.{plan, shard_count}
use dispatcher.Shard.RoundRobin.{turns, plan_round_robin}
use dispatcher.Shard.Engine.{
  Engine, success, failure, busy, workers, Event, step, is_failed, do_retry, hand, returned,
  advance, run, start, fail_fast, next_job, succeeded, failed, skipped, count,
}
use dispatcher.Shard.Engine.Bounds.{run_bounded}
use dispatcher.Shard.Engine.FailFast.{past, started, fail_fast_stops_launching}
use dispatcher.Shard.Engine.Continue.{continue_skips_none}
use dispatcher.Tests.Data.{fan_out}

abbrev files : List String
files = "a" ∷ "b" ∷ "c" ∷ []

abbrev by_count : ShardSpec
by_count = record fan_out { discover = "" }

discovers : fan_out.discover ≢ ""
discovers h = ground (arith, eq_iff "ls inputs" "", h)

plan_round_robin_example :
    (get_elem? (plan fan_out files) 0
      ≡ some (record { index = 0; count = 2; items = "a" ∷ "c" ∷ [] }))
    × (length (plan fan_out files) ≡ 2)
    × (turns 2 0 0 files ≢ [])
unfolding shard_count turns
plan_round_robin_example = plan_round_robin fan_out files 0 discovers (omega arith)

abbrev retrying : Engine
retrying = record { max_parallel = 1; on_shard_failure = "retry" }

abbrev continuing : Engine
continuing = record { max_parallel = 0; on_shard_failure = "continue" }

-- The first shard fails, and fails again.
abbrev failing : List Event
failing =
    hand
    ∷ advance 0
    ∷ advance 0
    ∷ returned 0 (failure "a")
    ∷ advance 0
    ∷ returned 0 (failure "b")
    ∷ advance 0
    ∷ []

-- Both shards run; one fails.
abbrev finishing : List Event
finishing =
    hand
    ∷ hand
    ∷ advance 0
    ∷ advance 1
    ∷ advance 0
    ∷ advance 1
    ∷ returned 1 (failure "a")
    ∷ returned 0 success
    ∷ advance 0
    ∷ advance 1
    ∷ []

run_bounded_example :
    (busy (run retrying (start 3) failing).statuses ≤ 3)
    × (retrying.max_parallel ≡ 0 → busy (run retrying (start 3) failing).statuses ≤ 4)
    × (retrying.max_parallel ≢ 0
        → busy (run retrying (start 3) failing).statuses ≤ retrying.max_parallel)
    × (length (run retrying (start 3) failing).statuses ≡ 3)
run_bounded_example = run_bounded retrying 3 failing

retries : retrying.on_shard_failure ≢ "continue"
retries h = ground (arith, eq_iff "retry" "continue", h)

fail_fast_stops_launching_example :
    (past (run retrying (run retrying (start 3) failing) (hand ∷ advance 1 ∷ [])).statuses
      ≡ past (run retrying (start 3) failing).statuses)
    × (started (run retrying (run retrying (start 3) failing) (hand ∷ advance 1 ∷ [])).statuses
        ≤ past (run retrying (start 3) failing).statuses)
unfolding run start fail_fast step workers next_job update_at is_failed do_retry
fail_fast_stops_launching_example =
    fail_fast_stops_launching retrying 3 0 2 "b" failing (hand ∷ advance 1 ∷ []) retries refl

continue_skips_none_example :
    (count skipped (run continuing (start 2) finishing).statuses ≡ 0)
    × (count succeeded (run continuing (start 2) finishing).statuses
          + count failed (run continuing (start 2) finishing).statuses
        ≡ length (run continuing (start 2) finishing).statuses)
unfolding run start fail_fast step workers next_job update_at is_failed do_retry
continue_skips_none_example =
    continue_skips_none continuing 2 finishing refl
      (refl, (refl, (refl, (refl, (refl, (refl, (refl, (refl, (refl, (refl, _)))))))))) refl refl
