-- ===== src/Shard/Engine.antt =====
-- internal/shard/engine.go: Engine.Run. The feeder and the workers are one state, and a schedule of
-- events says which of them moves next.
pub mod Moves
pub mod Bounds
pub mod FailFast
pub mod Continue
use dispatcher.Prelude.{
  ℕ, zero, suc, ◌+◌, String, Bool, true, false, ◌&&◌, ◌||◌, not, List, [], ◌∷◌, Option, none, some,
  ◌==◌, ltb, if◌then◌else◌, length, get_elem?, str_eq, update_at, map,
}

pub record Engine : Type 0 where
  pub max_parallel : ℕ
  pub on_shard_failure : String

pub data Outcome : Type 0 where
  success : Outcome
  failure : String → Outcome

-- Where the job of a shard is: not yet fed, drained by a worker without a call, taken by a worker that
-- has not looked at the context, past the check before its k-th call of run, in that call, with its
-- result written after k calls, or left behind by its worker, which has canceled where it must.
pub data Status : Type 0 where
  queued dropped taken : Status
  cleared running : ℕ → Status
  recorded done : ℕ → Outcome → Status

pub record Pool : Type 0 where
  pub statuses : List Status
  pub canceled : Bool
  pub feeding : Bool

abbrev pub default_max_parallel : ℕ
default_max_parallel = 4

-- maxPar.
unfoldable pub workers : Engine → ℕ → ℕ
workers e shards =
    let wanted = if e.max_parallel == 0 then default_max_parallel else e.max_parallel in
    if ltb shards wanted then shards else wanted

unfoldable pub fail_fast : Engine → Bool
fail_fast e = not (str_eq e.on_shard_failure "continue")

unfoldable pub do_retry : Engine → Bool
do_retry e = str_eq e.on_shard_failure "retry"

abbrev pub is_held : Status → ℕ
is_held taken = 1
is_held (cleared k) = 1
is_held (running k) = 1
is_held (recorded k o) = 1
is_held _ = 0

-- How many workers hold a job.
abbrev pub busy : List Status → ℕ
busy [] = 0
busy (s ∷ ss) = is_held s + busy ss

-- The first job that was not fed yet: the position of the loop over the assignments.
unfoldable pub next_job : List Status → Option ℕ
next_job [] = none
next_job (queued ∷ ss) = some 0
next_job (_ ∷ ss) = elim (next_job ss) [ none ↦ none | some i ↦ some (suc i) ]

pub data Event : Type 0 where
  -- An idle worker takes the next job from the channel.
  hand : Event
  -- The feeder sees that the context is done.
  stop_feeding : Event
  -- The call of run for a shard returns.
  returned : ℕ → Outcome → Event
  -- The worker of a shard takes its next step: the check of the context, the call, or the cancel.
  advance : ℕ → Event
  -- The caller's context is canceled.
  cancel : Event

unfoldable pub is_failed : Outcome → Bool
is_failed success = false
is_failed (failure err) = true

set_status : Pool → ℕ → Status → Pool
set_status p i s = record p { statuses = update_at i (λ _. s) p.statuses }

-- A worker receives a job.
give_job : Pool → Option ℕ → Pool
unfolding set_status
give_job p none = p
give_job p (some i) = set_status p i taken

-- A call of run came back for a job in the given status: runOnce is about to call again, or the
-- result is written.
return_job : Engine → Pool → ℕ → Outcome → Option Status → Pool
unfolding set_status
return_job e p i o (some (running k)) =
    if is_failed o && do_retry e && not p.canceled && k == 1
    then set_status p i (cleared 2)
    else set_status p i (recorded k o)
return_job e p i o _ = p

-- A worker drains its job if the context is done, calls run once it is past that check, and after
-- the result is written cancels the others, unless the policy is to continue.
advance_job : Engine → Pool → ℕ → Option Status → Pool
unfolding set_status
advance_job e p i (some taken) = set_status p i (if p.canceled then dropped else cleared 1)
advance_job e p i (some (cleared k)) = set_status p i (running k)
advance_job e p i (some (recorded k o)) = record (set_status p i (done k o)) {
  canceled = p.canceled || (is_failed o && fail_fast e);
}
advance_job e p i _ = p

unfoldable pub step : Engine → Pool → Event → Pool
unfolding give_job return_job advance_job
step e p hand =
    if p.feeding && ltb (busy p.statuses) (workers e (length p.statuses))
    then give_job p (next_job p.statuses)
    else p
step e p stop_feeding = if p.canceled then record p { feeding = false } else p
step e p (returned i o) = return_job e p i o (get_elem? p.statuses i)
step e p (advance i) = advance_job e p i (get_elem? p.statuses i)
step e p cancel = record p { canceled = true }

unfoldable pub run : Engine → Pool → List Event → Pool
run e p [] = p
run e p (ev ∷ evs) = run e (step e p ev) evs

-- The state before the first event, for so many assignments.
all_queued : ℕ → List Status
all_queued zero = []
all_queued (suc n) = queued ∷ all_queued n

unfoldable pub start : ℕ → Pool
unfolding all_queued
start shards = record { statuses = all_queued shards; canceled = false; feeding = true }

-- Result, but for the index and the error: a shard whose job never ran is skipped.
pub data Result : Type 0 where
  succeeded failed skipped : Result

unfoldable pub result : Status → Result
result (recorded k success) = succeeded
result (recorded k (failure err)) = failed
result (done k success) = succeeded
result (done k (failure err)) = failed
result _ = skipped

abbrev is_result : Result → Result → ℕ
is_result succeeded succeeded = 1
is_result failed failed = 1
is_result skipped skipped = 1
is_result _ _ = 0

-- Summary.count.
unfoldable pub count : Result → List Status → ℕ
unfolding result
count r [] = 0
count r (s ∷ ss) = is_result r (result s) + count r ss

-- Summary.OK.
unfoldable pub ok : Pool → Bool
ok p = count failed p.statuses == 0 && count skipped p.statuses == 0
