-- ===== src/Shard/Engine/Continue.antt =====
-- "continue", and how the results are summed up.
use dispatcher.Prelude.{
  ℕ, zero, suc, ◌+◌, Bool, true, false, List, [], ◌∷◌, Option, none, some, get_elem?, ◌≡◌, ◌≢◌,
  refl, ◌↔◌, arith, length, All,
}
use dispatcher.Shard.Engine.{
  Engine, success, failure, Status, queued, dropped, taken, cleared, running, recorded, done, Pool,
  Event, hand, stop_feeding, returned, advance, advance_job, cancel, fail_fast, busy, next_job,
  step, run, start, all_queued, succeeded, failed, skipped, count, ok,
}
use dispatcher.Shard.Engine.Moves.{
  Moves, stay, take, drain, pass, call, retry, write, finish, step-Moves, All-update_at,
}

-- The caller cancels nothing.
abbrev pub is_cancel : Event → Bool
is_cancel cancel = true
is_cancel _ = false

abbrev Undisturbed : Pool → Type 0
Undisturbed p = (p.canceled ≡ false) × All (λ s. s ≢ dropped) p.statuses

advance_live :
    (e : Engine) (p : Pool) (i : ℕ) (s : Option Status)
    → fail_fast e ≡ false
    → p.canceled ≡ false
    → (advance_job e p i s).canceled ≡ false
unfolding advance_job
advance_live e p i none ff c = c
advance_live e p i (some queued) ff c = c
advance_live e p i (some dropped) ff c = c
advance_live e p i (some taken) ff c = c
advance_live e p i (some (cleared k)) ff c = c
advance_live e p i (some (running k)) ff c = c
advance_live e p i (some (recorded k o)) ff c = ground arith
advance_live e p i (some (done k o)) ff c = c

step_live :
    (e : Engine) (p : Pool) (ev : Event)
    → fail_fast e ≡ false
    → is_cancel ev ≡ false
    → p.canceled ≡ false
    → (step e p ev).canceled ≡ false
unfolding step
step_live e p hand ff n c = ground arith
step_live e p stop_feeding ff n c = ground arith
step_live e p (returned i o) ff n c = ground arith
step_live e p (advance i) ff n c = advance_live e p i (get_elem? p.statuses i) ff c
step_live e p cancel ff n c = cc

Moves-Undisturbed :
    (e : Engine) (p q : Pool)
    → p.canceled ≡ false
    → Moves e p q
    → All (λ s. s ≢ dropped) p.statuses
    → All (λ s. s ≢ dropped) q.statuses
Moves-Undisturbed e p q c (stay h) a = rw h a
Moves-Undisturbed e p q c (take i h room) a =
    rw h.1 (All-update_at _ i taken p.statuses a (λ f. cc))
Moves-Undisturbed e p q c (drain i h d) a = cc
Moves-Undisturbed e p q c (pass i h live) a =
    rw h.1 (All-update_at _ i (cleared 1) p.statuses a (λ f. cc))
Moves-Undisturbed e p q c (call i k h) a =
    rw h.1 (All-update_at _ i (running k) p.statuses a (λ f. cc))
Moves-Undisturbed e p q c (retry i h r) a =
    rw h.1 (All-update_at _ i (cleared 2) p.statuses a (λ f. cc))
Moves-Undisturbed e p q c (write i k o h) a =
    rw h.1 (All-update_at _ i (recorded k o) p.statuses a (λ f. cc))
Moves-Undisturbed e p q c (finish i k o h alarm) a =
    rw h.1 (All-update_at _ i (done k o) p.statuses a (λ f. cc))

run-Undisturbed :
    (e : Engine) (p : Pool) (evs : List Event)
    → fail_fast e ≡ false
    → All (λ ev. is_cancel ev ≡ false) evs
    → Undisturbed p
    → Undisturbed (run e p evs)
unfolding run
run-Undisturbed e p [] ff n u = u
run-Undisturbed e p (ev ∷ evs) ff n u =
    run-Undisturbed e (step e p ev) evs ff n.1
      (step_live e p ev ff n.0 u.0, Moves-Undisturbed e p (step e p ev) u.0 (step-Moves e p ev) u.1)

start-Undisturbed : (n : ℕ) → All (λ s. s ≢ dropped) (all_queued n)
unfolding all_queued
start-Undisturbed zero = tt
start-Undisturbed (suc n) = (λ h. cc, start-Undisturbed n)

settled_count :
    (ss : List Status)
    → All (λ s. s ≢ dropped) ss
    → next_job ss ≡ none
    → busy ss ≡ 0
    → (count skipped ss ≡ 0) × (count succeeded ss + count failed ss ≡ length ss)
unfolding next_job count
settled_count [] a n b = (refl, refl)
settled_count (queued ∷ ss) a n b = cc
settled_count (dropped ∷ ss) a n b = absurd (a.0 refl)
settled_count (taken ∷ ss) a n b = absurd (omega arith)
settled_count (cleared k ∷ ss) a n b = absurd (omega arith)
settled_count (running k ∷ ss) a n b = absurd (omega arith)
settled_count (recorded k o ∷ ss) a n b = absurd (omega arith)
settled_count (done k o ∷ ss) a n b = ground (arith, settled_count ss a.1)

-- "continue", with nobody canceling: when every job has been fed and no worker has one, no
-- shard was skipped, and the successes and failures together are all the shards.
pub continue_skips_none :
    (e : Engine) (shards : ℕ) (evs : List Event)
    → let p = run e (start shards) evs in
      fail_fast e ≡ false
      → All (λ ev. is_cancel ev ≡ false) evs
      → next_job p.statuses ≡ none
      → busy p.statuses ≡ 0
      → (count skipped p.statuses ≡ 0)
        × (count succeeded p.statuses + count failed p.statuses ≡ length p.statuses)
unfolding start
continue_skips_none e shards evs ff n fed idle =
    settled_count (run e (start shards) evs).statuses
      (run-Undisturbed e (start shards) evs ff n (refl, start-Undisturbed shards)).1 fed idle

-- The run of this shard returned nil.
abbrev pub IsSuccess : Status → Type 0
IsSuccess (recorded k success) = Unit
IsSuccess (done k success) = Unit
IsSuccess _ = ⊥

counts_iff :
    (ss : List Status) → ((count failed ss ≡ 0) × (count skipped ss ≡ 0)) ↔ All IsSuccess ss
unfolding count
counts_iff [] = (λ h. tt, λ h. (refl, refl))
counts_iff (queued ∷ ss) = (λ h. absurd (omega arith), λ h. absurd h.0)
counts_iff (dropped ∷ ss) = (λ h. absurd (omega arith), λ h. absurd h.0)
counts_iff (taken ∷ ss) = (λ h. absurd (omega arith), λ h. absurd h.0)
counts_iff (cleared k ∷ ss) = (λ h. absurd (omega arith), λ h. absurd h.0)
counts_iff (running k ∷ ss) = (λ h. absurd (omega arith), λ h. absurd h.0)
counts_iff (recorded k (failure err) ∷ ss) = (λ h. absurd (omega arith), λ h. absurd h.0)
counts_iff (recorded k success ∷ ss) = (
  λ h. (tt, (counts_iff ss).0 (omega arith)),
  λ h. let rest = (counts_iff ss).1 h.1 in omega arith,
)
counts_iff (done k (failure err) ∷ ss) = (λ h. absurd (omega arith), λ h. absurd h.0)
counts_iff (done k success ∷ ss) = (
  λ h. (tt, (counts_iff ss).0 (omega arith)),
  λ h. let rest = (counts_iff ss).1 h.1 in omega arith,
)

-- The fan-out is reported as a success exactly when every shard ran and returned no error.
pub ok_iff : (p : Pool) → (ok p ≡ true) ↔ All IsSuccess p.statuses
unfolding ok
ok_iff p = (
  λ h. (counts_iff p.statuses).0 (ground arith),
  λ h. let counts = (counts_iff p.statuses).1 h in ground arith,
)
