-- ===== src/Shard/Engine/Moves.antt =====
-- What one event does to the jobs: the step function as a relation.
use dispatcher.Prelude.{
  ℕ, zero, suc, ◌<◌, Bool, true, false, ◌&&◌, not, ◌==◌, ltb, List, [], ◌∷◌, Option, none, some,
  ◌≡◌, refl, ◌⊎◌, inl, inr, arith, length, get_elem?, update_at, All, Bool-cases, Option-cases,
}
use mathlib.Core.Path.{subst}
use dispatcher.Shard.Engine.{
  Engine, Outcome, Status, queued, dropped, taken, cleared, running, recorded, done, Pool, Event,
  hand, stop_feeding, returned, advance, cancel, workers, do_retry, fail_fast, is_failed, busy,
  next_job, step, return_job, advance_job,
}

-- At shard i, which has status s, the pool p becomes q with status t there.
abbrev pub Sets : Pool → Pool → ℕ → Status → Status → Type 0
Sets p q i s t = (get_elem? p.statuses i ≡ some s) × (q.statuses ≡ update_at i (λ _. t) p.statuses)

pub data Moves (e : Engine) (p : Pool) (q : Pool) : Type 0 where
  stay : q.statuses ≡ p.statuses → Moves e p q
  take :
      (i : ℕ)
      → Sets p q i queued taken
      → busy p.statuses < workers e (length p.statuses)
      → Moves e p q
  drain : (i : ℕ) → Sets p q i taken dropped → p.canceled ≡ true → Moves e p q
  pass : (i : ℕ) → Sets p q i taken (cleared 1) → p.canceled ≡ false → Moves e p q
  call : (i k : ℕ) → Sets p q i (cleared k) (running k) → Moves e p q
  retry : (i : ℕ) → Sets p q i (running 1) (cleared 2) → do_retry e ≡ true → Moves e p q
  write : (i k : ℕ) (o : Outcome) → Sets p q i (running k) (recorded k o) → Moves e p q
  finish :
      (i k : ℕ) (o : Outcome)
      → Sets p q i (recorded k o) (done k o)
      → (is_failed o ≡ true → fail_fast e ≡ true → q.canceled ≡ true)
      → Moves e p q

next_job-queued : (ss : List Status) {i : ℕ} → next_job ss ≡ some i → get_elem? ss i ≡ some queued
unfolding next_job
next_job-queued [] h = cc
next_job-queued (queued ∷ ss) h = ground arith
next_job-queued (dropped ∷ ss) {i = zero} h = ground arith
next_job-queued (dropped ∷ ss) {i = suc i} h = next_job-queued ss (ground arith)
next_job-queued (taken ∷ ss) {i = zero} h = ground arith
next_job-queued (taken ∷ ss) {i = suc i} h = next_job-queued ss (ground arith)
next_job-queued (cleared k ∷ ss) {i = zero} h = ground arith
next_job-queued (cleared k ∷ ss) {i = suc i} h = next_job-queued ss (ground arith)
next_job-queued (running k ∷ ss) {i = zero} h = ground arith
next_job-queued (running k ∷ ss) {i = suc i} h = next_job-queued ss (ground arith)
next_job-queued (recorded k o ∷ ss) {i = zero} h = ground arith
next_job-queued (recorded k o ∷ ss) {i = suc i} h = next_job-queued ss (ground arith)
next_job-queued (done k o ∷ ss) {i = zero} h = ground arith
next_job-queued (done k o ∷ ss) {i = suc i} h = next_job-queued ss (ground arith)

hand-Moves :
    (e : Engine) (p : Pool) (i : ℕ)
    → next_job p.statuses ≡ some i
    → (busy p.statuses < workers e (length p.statuses)) ⊎ (step e p hand ≡ p)
    → Moves e p (step e p hand)
unfolding step
hand-Moves e p i job (inr idle) = stay (rw idle)
hand-Moves e p i job (inl room) = elim (Bool-cases p.feeding) [
  | inr closed ↦ stay (ground arith)
  | inl fed ↦ take i (next_job-queued p.statuses job, ground arith) room
]

step-hand-Moves : (e : Engine) (p : Pool) → Moves e p (step e p hand)
unfolding step
step-hand-Moves e p = elim (Option-cases (next_job p.statuses)) [
  | inl no_job ↦ stay (ground arith)
  | inr (i, job) ↦ elim (Bool-cases (ltb (busy p.statuses) (workers e (length p.statuses)))) [
    | inl room ↦ hand-Moves e p i job (inl (ground arith))
    | inr full ↦ hand-Moves e p i job (inr (ground arith))
  ]
]

abbrev retries : Engine → Pool → ℕ → Outcome → Bool
retries e p k o = is_failed o && do_retry e && not p.canceled && k == 1

returned-Moves :
    (e : Engine) (p : Pool) (i k : ℕ) (o : Outcome)
    → get_elem? p.statuses i ≡ some (running k)
    → Moves e p (return_job e p i o (some (running k)))
unfolding return_job
returned-Moves e p i k o at = elim (Bool-cases (retries e p k o)) [
  | inl again ↦ retry i (ground arith, ground arith) (ground arith)
  | inr over ↦ write i k o (at, ground arith)
]

advance-Moves :
    (e : Engine) (p : Pool) (i : ℕ) (s : Status)
    → get_elem? p.statuses i ≡ some s
    → Moves e p (advance_job e p i (some s))
unfolding advance_job
advance-Moves e p i queued at = stay refl
advance-Moves e p i dropped at = stay refl
advance-Moves e p i taken at = elim (Bool-cases p.canceled) [
  | inl c ↦ drain i (at, ground arith) c
  | inr c ↦ pass i (at, ground arith) c
]
advance-Moves e p i (cleared k) at = call i k (at, refl)
advance-Moves e p i (running k) at = stay refl
advance-Moves e p i (recorded k o) at = finish i k o (at, refl) (ground arith)
advance-Moves e p i (done k o) at = stay refl

pub step-Moves : (e : Engine) (p : Pool) (ev : Event) → Moves e p (step e p ev)
unfolding step
step-Moves e p hand = step-hand-Moves e p
step-Moves e p stop_feeding = stay (ground arith)
step-Moves e p (returned i o) = elim (Option-cases (get_elem? p.statuses i)) [
  | inl absent ↦ stay (ground arith)
  | inr (queued, at) ↦ stay (ground arith)
  | inr (dropped, at) ↦ stay (ground arith)
  | inr (taken, at) ↦ stay (ground arith)
  | inr (cleared k, at) ↦ stay (ground arith)
  | inr (recorded k r, at) ↦ stay (ground arith)
  | inr (done k r, at) ↦ stay (ground arith)
  | inr (running k, at) ↦ rw at (returned-Moves e p i k o at)
]
step-Moves e p (advance i) = elim (Option-cases (get_elem? p.statuses i)) [
  | inl absent ↦ stay (ground arith)
  | inr (s, at) ↦ rw at (advance-Moves e p i s at)
]
step-Moves e p cancel = stay refl

advance-canceled :
    (e : Engine) (p : Pool) (i : ℕ) (s : Option Status)
    → p.canceled ≡ true
    → (advance_job e p i s).canceled ≡ true
unfolding advance_job
advance-canceled e p i none h = h
advance-canceled e p i (some queued) h = h
advance-canceled e p i (some dropped) h = h
advance-canceled e p i (some taken) h = h
advance-canceled e p i (some (cleared k)) h = h
advance-canceled e p i (some (running k)) h = h
advance-canceled e p i (some (recorded k o)) h = ground arith
advance-canceled e p i (some (done k o)) h = h

-- A canceled context stays canceled.
pub step-canceled :
    (e : Engine) (p : Pool) (ev : Event) → p.canceled ≡ true → (step e p ev).canceled ≡ true
unfolding step
step-canceled e p hand h = ground arith
step-canceled e p stop_feeding h = ground arith
step-canceled e p (returned i o) h = ground arith
step-canceled e p (advance i) h = advance-canceled e p i (get_elem? p.statuses i) h
step-canceled e p cancel h = refl

pub All-update_at :
    (P : Status → Type 0) (i : ℕ) (t : Status) (ss : List Status)
    → All P ss
    → P t
    → All P (update_at i (λ _. t) ss)
unfolding update_at
All-update_at P i t [] h k = tt
All-update_at P zero t (s ∷ ss) h k = (k, h.1)
All-update_at P (suc i) t (s ∷ ss) h k = (h.0, All-update_at P i t ss h.1 k)

pub All-get_elem? :
    (P : Status → Type 0) (i : ℕ) (ss : List Status) {s : Status}
    → All P ss
    → get_elem? ss i ≡ some s
    → P s
All-get_elem? P i [] h e = cc
All-get_elem? P zero (u ∷ ss) {s} h e = let q : u ≡ s = cc in subst P q h.0
All-get_elem? P (suc i) (u ∷ ss) h e = All-get_elem? P i ss h.1 e
