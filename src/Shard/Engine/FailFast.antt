-- ===== src/Shard/Engine/FailFast.antt =====
-- Fail-fast: the default policy, and the end of "retry".
use dispatcher.Prelude.{
  ℕ, String, zero, suc, ◌+◌, ◌≤◌, ◌==◌, if◌then◌else◌, Bool, true, false, List, [], ◌∷◌, some, ◌≡◌,
  ◌≢◌, refl, ap, arith, eq_iff, get_elem?, update_at, All, ◌∙◌,
}
use dispatcher.Shard.Engine.{
  Engine, Outcome, success, failure, Status, queued, dropped, taken, cleared, running, recorded,
  done, Pool, Event, fail_fast, is_failed, step, run, start, all_queued,
}
use dispatcher.Shard.Engine.Moves.{
  Sets, Moves, stay, take, drain, pass, call, retry, write, finish, step-Moves, step-canceled,
  All-update_at, All-get_elem?,
}

-- The worker of this shard is past its check of the context.
abbrev pub is_past : Status → ℕ
is_past (cleared k) = 1
is_past (running k) = 1
is_past (recorded k o) = 1
is_past (done k o) = 1
is_past _ = 0

abbrev pub past : List Status → ℕ
past [] = 0
past (s ∷ ss) = is_past s + past ss

-- A run of this shard was started.
abbrev pub is_started : Status → ℕ
is_started (cleared zero) = 0
is_started (cleared (suc k)) = if k == 0 then 0 else 1
is_started (running k) = 1
is_started (recorded k o) = 1
is_started (done k o) = 1
is_started _ = 0

abbrev pub started : List Status → ℕ
started [] = 0
started (s ∷ ss) = is_started s + started ss

is_started-bound : (s : Status) → is_started s ≤ is_past s
is_started-bound queued = omega arith
is_started-bound dropped = omega arith
is_started-bound taken = omega arith
is_started-bound (cleared zero) = omega arith
is_started-bound (cleared (suc k)) = ground arith
is_started-bound (running k) = omega arith
is_started-bound (recorded k o) = omega arith
is_started-bound (done k o) = omega arith

started-bound : (ss : List Status) → started ss ≤ past ss
started-bound [] = omega arith
started-bound (s ∷ ss) = omega (arith, is_started-bound s, started-bound ss)

past-update_at :
    (ss : List Status) (i : ℕ) (t : Status) {s : Status}
    → get_elem? ss i ≡ some s
    → past (update_at i (λ _. t) ss) + is_past s ≡ past ss + is_past t
unfolding update_at
past-update_at [] i t h = cc
past-update_at (u ∷ ss) zero t h = ground arith
past-update_at (u ∷ ss) (suc i) t h = omega (arith, past-update_at ss i t h)

past-Sets :
    (p q : Pool) (i : ℕ) (s t : Status)
    → Sets p q i s t
    → past q.statuses + is_past s ≡ past p.statuses + is_past t
past-Sets p q i s t h = rw h.1 (past-update_at p.statuses i t h.0)

canceled_freezes :
    (e : Engine) (p q : Pool) → Moves e p q → p.canceled ≡ true → past q.statuses ≡ past p.statuses
canceled_freezes e p q (stay h) c = ap past h
canceled_freezes e p q (take i h room) c = omega (arith, past-Sets p q i queued taken h)
canceled_freezes e p q (drain i h d) c = omega (arith, past-Sets p q i taken dropped h)
canceled_freezes e p q (pass i h live) c = cc
canceled_freezes e p q (call i k h) c = omega (arith, past-Sets p q i (cleared k) (running k) h)
canceled_freezes e p q (retry i h r) c = omega (arith, past-Sets p q i (running 1) (cleared 2) h)
canceled_freezes e p q (write i k o h) c =
    omega (arith, past-Sets p q i (running k) (recorded k o) h)
canceled_freezes e p q (finish i k o h f) c =
    omega (arith, past-Sets p q i (recorded k o) (done k o) h)

run-canceled :
    (e : Engine) (p : Pool) (evs : List Event)
    → p.canceled ≡ true
    → past (run e p evs).statuses ≡ past p.statuses
unfolding run
run-canceled e p [] c = refl
run-canceled e p (ev ∷ evs) c =
    run-canceled e (step e p ev) evs (step-canceled e p ev c)
    ∙ canceled_freezes e p (step e p ev) (step-Moves e p ev) c

abbrev pub has_failed : Status → Bool
has_failed (done k (failure err)) = true
has_failed _ = false

-- The worker of a shard that failed for good has canceled the context.
abbrev Alarmed : Pool → Type 0
Alarmed p = All (λ s. has_failed s ≡ true → p.canceled ≡ true) p.statuses

All-map :
    (P Q : Status → Type 0) (ss : List Status) → ((s : Status) → P s → Q s) → All P ss → All Q ss
All-map P Q [] f h = tt
All-map P Q (s ∷ ss) f h = (f s h.0, All-map P Q ss f h.1)

Alarmed-keep :
    (p q : Pool)
    → (p.canceled ≡ true → q.canceled ≡ true)
    → Alarmed p
    → All (λ s. has_failed s ≡ true → q.canceled ≡ true) p.statuses
Alarmed-keep p q mono h = All-map _ _ p.statuses (λ s k f. mono (k f)) h

done-alarm :
    (e : Engine) (q : Pool) (k : ℕ) (o : Outcome)
    → (is_failed o ≡ true → fail_fast e ≡ true → q.canceled ≡ true)
    → fail_fast e ≡ true
    → has_failed (done k o) ≡ true
    → q.canceled ≡ true
unfolding is_failed
done-alarm e q k success f ff h = cc
done-alarm e q k (failure err) f ff h = f refl ff

Moves-Alarmed :
    (e : Engine) (p q : Pool)
    → fail_fast e ≡ true
    → (p.canceled ≡ true → q.canceled ≡ true)
    → Moves e p q
    → Alarmed p
    → Alarmed q
Moves-Alarmed e p q ff mono (stay h) a = rw h (Alarmed-keep p q mono a)
Moves-Alarmed e p q ff mono (take i h room) a =
    rw h.1 (All-update_at _ i taken p.statuses (Alarmed-keep p q mono a) (λ f. cc))
Moves-Alarmed e p q ff mono (drain i h d) a =
    rw h.1 (All-update_at _ i dropped p.statuses (Alarmed-keep p q mono a) (λ f. cc))
Moves-Alarmed e p q ff mono (pass i h live) a =
    rw h.1 (All-update_at _ i (cleared 1) p.statuses (Alarmed-keep p q mono a) (λ f. cc))
Moves-Alarmed e p q ff mono (call i k h) a =
    rw h.1 (All-update_at _ i (running k) p.statuses (Alarmed-keep p q mono a) (λ f. cc))
Moves-Alarmed e p q ff mono (retry i h r) a =
    rw h.1 (All-update_at _ i (cleared 2) p.statuses (Alarmed-keep p q mono a) (λ f. cc))
Moves-Alarmed e p q ff mono (write i k o h) a =
    rw h.1 (All-update_at _ i (recorded k o) p.statuses (Alarmed-keep p q mono a) (λ f. cc))
Moves-Alarmed e p q ff mono (finish i k o h alarm) a = rw h.1 (
    All-update_at _ i (done k o) p.statuses (Alarmed-keep p q mono a) (done-alarm e q k o alarm ff))

run-Alarmed :
    (e : Engine) (p : Pool) (evs : List Event)
    → fail_fast e ≡ true
    → Alarmed p
    → Alarmed (run e p evs)
unfolding run
run-Alarmed e p [] ff a = a
run-Alarmed e p (ev ∷ evs) ff a =
    run-Alarmed e (step e p ev) evs ff
      (Moves-Alarmed e p (step e p ev) ff (step-canceled e p ev) (step-Moves e p ev) a)

start-Alarmed : (n : ℕ) (b : Bool) → All (λ s. has_failed s ≡ true → b ≡ true) (all_queued n)
unfolding all_queued
start-Alarmed zero b = tt
start-Alarmed (suc n) b = (λ h. cc, start-Alarmed n b)

fail_fast_unless : (e : Engine) → e.on_shard_failure ≢ "continue" → fail_fast e ≡ true
unfolding fail_fast
fail_fast_unless e n = ground (arith, eq_iff e.on_shard_failure "continue", n)

-- Unless the policy is "continue", in any schedule, once the worker of a shard that failed for good has
-- canceled the context, no other worker passes its check of the context, and no more shards are ever
-- started than had a worker past that check.
pub fail_fast_stops_launching :
    (e : Engine) (shards i k : ℕ) (err : String) (before after : List Event)
    → let p = run e (start shards) before in
      e.on_shard_failure ≢ "continue"
      → get_elem? p.statuses i ≡ some (done k (failure err))
      → (past (run e p after).statuses ≡ past p.statuses)
        × (started (run e p after).statuses ≤ past p.statuses)
unfolding start
fail_fast_stops_launching e shards i k err before after n at =
    let p = run e (start shards) before in
    let ff = fail_fast_unless e n in
    let frozen = run-canceled e p after (
      All-get_elem? _ i p.statuses
        (run-Alarmed e (start shards) before ff (start-Alarmed shards false)) at refl) in
    (frozen, omega (arith, frozen, started-bound (run e p after).statuses))
