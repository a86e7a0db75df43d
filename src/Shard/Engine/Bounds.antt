-- ===== src/Shard/Engine/Bounds.antt =====
-- How many calls of run are in flight, and how many one shard gets.
use dispatcher.Prelude.{
  ℕ, zero, suc, ◌+◌, ◌≤◌, List, [], ◌∷◌, some, ◌≡◌, ◌≢◌, refl, ap, ◌⊎◌, inl, inr, arith, length,
  get_elem?, update_at, length-update_at, All, ◌∙◌, if◌then◌else◌,
}
use dispatcher.Shard.Engine.{
  Engine, Status, queued, dropped, taken, cleared, running, recorded, done, Pool, Event, workers,
  do_retry, is_held, busy, step, run, start, all_queued,
}
use dispatcher.Shard.Engine.Moves.{
  Sets, Moves, stay, take, drain, pass, call, retry, write, finish, step-Moves, All-update_at,
  All-get_elem?,
}

busy-update_at :
    (ss : List Status) (i : ℕ) (t : Status) {s : Status}
    → get_elem? ss i ≡ some s
    → busy (update_at i (λ _. t) ss) + is_held s ≡ busy ss + is_held t
unfolding update_at
busy-update_at [] i t h = cc
busy-update_at (u ∷ ss) zero t h = ground arith
busy-update_at (u ∷ ss) (suc i) t h = omega (arith, busy-update_at ss i t h)

busy-Sets :
    (p q : Pool) (i : ℕ) (s t : Status)
    → Sets p q i s t
    → busy q.statuses + is_held s ≡ busy p.statuses + is_held t
busy-Sets p q i s t h = rw h.1 (busy-update_at p.statuses i t h.0)

length-Sets :
    (p q : Pool) (i : ℕ) (s t : Status) → Sets p q i s t → length q.statuses ≡ length p.statuses
length-Sets p q i s t h = rw h.1 (length-update_at i (λ _. t) p.statuses)

length-Moves : (e : Engine) (p q : Pool) → Moves e p q → length q.statuses ≡ length p.statuses
length-Moves e p q (stay h) = ap length h
length-Moves e p q (take i h room) = length-Sets p q i queued taken h
length-Moves e p q (drain i h c) = length-Sets p q i taken dropped h
length-Moves e p q (pass i h c) = length-Sets p q i taken (cleared 1) h
length-Moves e p q (call i k h) = length-Sets p q i (cleared k) (running k) h
length-Moves e p q (retry i h r) = length-Sets p q i (running 1) (cleared 2) h
length-Moves e p q (write i k o h) = length-Sets p q i (running k) (recorded k o) h
length-Moves e p q (finish i k o h f) = length-Sets p q i (recorded k o) (done k o) h

abbrev InBounds : Engine → Pool → Type 0
InBounds e p = busy p.statuses ≤ workers e (length p.statuses)

busy-Moves :
    (e : Engine) (p q : Pool)
    → Moves e p q
    → (busy q.statuses ≤ busy p.statuses)
      ⊎ (suc (busy p.statuses) ≤ workers e (length p.statuses))
        × (busy q.statuses ≡ suc (busy p.statuses))
busy-Moves e p q (stay h) = inl (rw h (omega arith))
busy-Moves e p q (take i h room) = inr (room, omega (arith, busy-Sets p q i queued taken h))
busy-Moves e p q (drain i h c) = inl (omega (arith, busy-Sets p q i taken dropped h))
busy-Moves e p q (pass i h c) = inl (omega (arith, busy-Sets p q i taken (cleared 1) h))
busy-Moves e p q (call i k h) = inl (omega (arith, busy-Sets p q i (cleared k) (running k) h))
busy-Moves e p q (retry i h r) = inl (omega (arith, busy-Sets p q i (running 1) (cleared 2) h))
busy-Moves e p q (write i k o h) = inl (omega (arith, busy-Sets p q i (running k) (recorded k o) h))
busy-Moves e p q (finish i k o h f) =
    inl (omega (arith, busy-Sets p q i (recorded k o) (done k o) h))

run-InBounds : (e : Engine) (p : Pool) (evs : List Event) → InBounds e p → InBounds e (run e p evs)
unfolding run
run-InBounds e p [] h = h
run-InBounds e p (ev ∷ evs) h =
    let m = step-Moves e p ev in
    run-InBounds e (step e p ev) evs
      (rw (length-Moves e p (step e p ev) m) (omega (arith, busy-Moves e p (step e p ev) m)))

length-run :
    (e : Engine) (p : Pool) (evs : List Event) → length (run e p evs).statuses ≡ length p.statuses
unfolding run
length-run e p [] = refl
length-run e p (ev ∷ evs) =
    length-run e (step e p ev) evs ∙ length-Moves e p (step e p ev) (step-Moves e p ev)

busy-all_queued : (n : ℕ) → (busy (all_queued n) ≡ 0) × (length (all_queued n) ≡ n)
unfolding all_queued
busy-all_queued zero = (refl, refl)
busy-all_queued (suc n) = omega (arith, busy-all_queued n)

workers-bound :
    (e : Engine) (n : ℕ)
    → (workers e n ≤ n)
      × (e.max_parallel ≡ 0 → workers e n ≤ 4)
      × (e.max_parallel ≢ 0 → workers e n ≤ e.max_parallel)
unfolding workers
workers-bound e n = ground arith

-- In any schedule at most MaxParallel shards (4 where it is 0), and at most all, are with a worker at
-- once, and every shard keeps exactly one entry in the results.
pub run_bounded :
    (e : Engine) (shards : ℕ) (evs : List Event)
    → let p = run e (start shards) evs in
      (busy p.statuses ≤ shards)
      × (e.max_parallel ≡ 0 → busy p.statuses ≤ 4)
      × (e.max_parallel ≢ 0 → busy p.statuses ≤ e.max_parallel)
      × (length p.statuses ≡ shards)
unfolding start
run_bounded e shards evs =
    let p = run e (start shards) evs in
    let same = length-run e (start shards) evs ∙ (busy-all_queued shards).1 in
    let bound : busy p.statuses ≤ workers e shards =
      rw same at (run-InBounds e (start shards) evs (omega (arith, busy-all_queued shards))) in
    let w = workers-bound e shards in
    (
      omega (arith, bound, w.0),
      λ z. (let l = w.1 z in omega (arith, bound, l)),
      λ n. (let l = w.2 n in omega (arith, bound, l)),
      same,
    )

-- How often run was called for a shard, or is about to be.
abbrev pub calls : Status → ℕ
calls (cleared k) = k
calls (running k) = k
calls (recorded k o) = k
calls (done k o) = k
calls _ = 0

abbrev pub call_limit : Engine → ℕ
call_limit e = if do_retry e then 2 else 1

abbrev pub WithinCalls : Engine → List Status → Type 0
WithinCalls e = All (λ s. calls s ≤ call_limit e)

Moves-WithinCalls :
    (e : Engine) (p q : Pool) → Moves e p q → WithinCalls e p.statuses → WithinCalls e q.statuses
Moves-WithinCalls e p q (stay h) w = rw h w
Moves-WithinCalls e p q (take i h room) w =
    rw h.1 (All-update_at _ i taken p.statuses w (ground arith))
Moves-WithinCalls e p q (drain i h c) w =
    rw h.1 (All-update_at _ i dropped p.statuses w (ground arith))
Moves-WithinCalls e p q (pass i h c) w =
    rw h.1 (All-update_at _ i (cleared 1) p.statuses w (ground arith))
Moves-WithinCalls e p q (call i k h) w =
    rw h.1 (All-update_at _ i (running k) p.statuses w (All-get_elem? _ i p.statuses w h.0))
Moves-WithinCalls e p q (retry i h r) w =
    rw h.1 (All-update_at _ i (cleared 2) p.statuses w (ground arith))
Moves-WithinCalls e p q (write i k o h) w =
    rw h.1 (All-update_at _ i (recorded k o) p.statuses w (All-get_elem? _ i p.statuses w h.0))
Moves-WithinCalls e p q (finish i k o h f) w =
    rw h.1 (All-update_at _ i (done k o) p.statuses w (All-get_elem? _ i p.statuses w h.0))

run-WithinCalls :
    (e : Engine) (p : Pool) (evs : List Event)
    → WithinCalls e p.statuses
    → WithinCalls e (run e p evs).statuses
unfolding run
run-WithinCalls e p [] w = w
run-WithinCalls e p (ev ∷ evs) w =
    run-WithinCalls e (step e p ev) evs (Moves-WithinCalls e p (step e p ev) (step-Moves e p ev) w)

all_queued-WithinCalls : (e : Engine) (n : ℕ) → WithinCalls e (all_queued n)
unfolding all_queued
all_queued-WithinCalls e zero = tt
all_queued-WithinCalls e (suc n) = (ground arith, all_queued-WithinCalls e n)

-- A shard is run at most once, or at most twice under "retry", whatever it returns.
pub run_calls_limited :
    (e : Engine) (shards : ℕ) (evs : List Event) → WithinCalls e (run e (start shards) evs).statuses
unfolding start
run_calls_limited e shards evs =
    run-WithinCalls e (start shards) evs (all_queued-WithinCalls e shards)
