-- ===== src/Run/Machine.antt =====
-- What the state machine promises, over any sequence of calls of its writers.
use dispatcher.Prelude.{
  ℕ, ◌≤◌, ◌<◌, ◌+◌, String, true, false, List, [], ◌∷◌, ◌++◌, Option, none, some, ◌≡◌, ◌≢◌, refl,
  ◌↔◌, arith, length, length-append, All,
}
use dispatcher.Types.{
  RunState, created, planning, validated, awaiting_approval, preparing, running,
  collecting_artifacts, reconciling_cost, cleaning_up, stopping, is_terminal, is_failure, Time,
  Plan, Recommendation,
}
use dispatcher.Run.State.{
  PhaseMark, Failure, Run, new_run, is_valid_transition, transition, set_error, mark_terminal,
}

-- How far a state is along the lifecycle.
abbrev pub rank : RunState → ℕ
rank created = 0
rank planning = 1
rank validated = 2
rank awaiting_approval = 3
rank preparing = 4
rank running = 5
rank collecting_artifacts = 6
rank stopping = 6
rank reconciling_cost = 7
rank cleaning_up = 8
rank _ = 9

valid-rank : (from to : RunState) → is_valid_transition from to ≡ true → rank from < rank to
unfolding is_valid_transition
valid-rank from to h = ground arith

-- A call of one of the three writers of Run.State.
pub data Write : Type 0 where
  move : RunState → Time → Write
  fail : RunState → Failure → Time → Write
  finish : RunState → Time → Write

unfoldable pub write : Run → Write → Run
write r (move to now) = (transition r to now).0
write r (fail s err now) = set_error r s err now
write r (finish s now) = mark_terminal r s now

unfoldable pub write_all : Run → List Write → Run
write_all r [] = r
write_all r (w ∷ ws) = write_all (write r w) ws

write-terminal : (r : Run) (w : Write) → is_terminal r.state ≡ true → write r w ≡ r
unfolding write transition set_error mark_terminal
write-terminal r (move to now) h = ground arith
write-terminal r (fail s err now) h = ground arith
write-terminal r (finish s now) h = ground arith

-- Whoever finalises a run first decides: no later call of any writer changes a field of it.
pub terminal_is_final :
    (r : Run) (ws : List Write) → is_terminal r.state ≡ true → write_all r ws ≡ r
unfolding write_all
terminal_is_final r [] h = refl
terminal_is_final r (w ∷ ws) h = rw (write-terminal r w h) (terminal_is_final r ws h)

-- How the program calls the writers: the clock is past the zero time, SetError gets a failure
-- state and MarkTerminal a terminal one.
abbrev pub IsProper : Write → Type 0
IsProper (move to now) = now ≢ 0
IsProper (fail s err now) = (is_failure s ≡ true) × (now ≢ 0)
IsProper (finish s now) = (is_terminal s ≡ true) × (now ≢ 0)

abbrev pub last_state : List PhaseMark → Option RunState
last_state [] = none
last_state (m ∷ []) = some m.state
last_state (m ∷ n ∷ ms) = last_state (n ∷ ms)

last_state-append : (ms : List PhaseMark) (m : PhaseMark) → last_state (ms ++ m ∷ []) ≡ some m.state
last_state-append [] m = refl
last_state-append (n ∷ []) m = refl
last_state-append (n ∷ k ∷ ms) m = last_state-append (k ∷ ms) m

-- What a record on disk says at any moment.
pub record IsConsistent (r : Run) : Type 0 where
  -- The timeline ends in the current state.
  pub timeline_current : last_state r.timeline ≡ some r.state
  -- A finishing time is set exactly when the run is over.
  pub finished_iff : (is_terminal r.state ≡ true) ↔ (r.finished_at ≢ 0)
  -- Only a failed run carries an error.
  pub error_failed : r.error ≢ none → is_failure r.state ≡ true
  -- The lifecycle has no cycle, so the timeline stays short.
  pub timeline_short : length r.timeline ≤ rank r.state + 1

failure_terminal : (s : RunState) → is_failure s ≡ true → is_terminal s ≡ true
unfolding is_failure is_terminal
failure_terminal s h = ground arith

terminal-rank : (s : RunState) → is_terminal s ≡ true → rank s ≡ 9
unfolding is_terminal
terminal-rank s h = ground arith

rank_live : (s : RunState) → is_terminal s ≡ false → rank s < 9
unfolding is_terminal
rank_live s h = ground arith

new_run-IsConsistent :
    (id : String) (plan : Plan) (rec : Recommendation) (now : Time)
    → IsConsistent (new_run id plan rec now)
unfolding new_run is_terminal is_failure
new_run-IsConsistent id plan rec now = ground arith

write-IsConsistent : (r : Run) (w : Write) → IsProper w → IsConsistent r → IsConsistent (write r w)
unfolding write transition set_error mark_terminal
write-IsConsistent r (move to now) p i = ground (
  arith,
  last_state-append r.timeline (record { state = to; entered_at = now }),
  length-append r.timeline (record { state = to; entered_at = now } ∷ []),
  valid-rank r.state to,
  i.finished_iff,
  i.error_failed,
  failure_terminal r.state,
  failure_terminal to,
)
write-IsConsistent r (fail s err now) p i = ground (
  arith,
  last_state-append r.timeline (record { state = s; entered_at = now }),
  length-append r.timeline (record { state = s; entered_at = now } ∷ []),
  failure_terminal s,
  terminal-rank s,
  rank_live r.state,
)
write-IsConsistent r (finish s now) p i = ground (
  arith,
  last_state-append r.timeline (record { state = s; entered_at = now }),
  length-append r.timeline (record { state = s; entered_at = now } ∷ []),
  failure_terminal s,
  failure_terminal r.state,
  terminal-rank s,
  rank_live r.state,
)

write_all-IsConsistent :
    (r : Run) (ws : List Write) → IsConsistent r → All IsProper ws → IsConsistent (write_all r ws)
unfolding write_all
write_all-IsConsistent r [] i p = i
write_all-IsConsistent r (w ∷ ws) i p =
    write_all-IsConsistent (write r w) ws (write-IsConsistent r w p.0 i) p.1

-- After any calls of the three writers on a new run, with the clock past the zero time, failure
-- states for SetError and terminal ones for MarkTerminal, the record is consistent.
pub new_run_stays-IsConsistent :
    (id : String) (plan : Plan) (rec : Recommendation) (now : Time) (ws : List Write)
    → All IsProper ws
    → IsConsistent (write_all (new_run id plan rec now) ws)
new_run_stays-IsConsistent id plan rec now ws p =
    write_all-IsConsistent (new_run id plan rec now) ws (new_run-IsConsistent id plan rec now) p

rank-le : (s : RunState) → rank s ≤ 9
rank-le s = ground arith

-- After any such calls on a new run its timeline has at most ten entries.
pub timeline_bounded :
    (id : String) (plan : Plan) (rec : Recommendation) (now : Time) (ws : List Write)
    → All IsProper ws
    → length (write_all (new_run id plan rec now) ws).timeline ≤ 10
timeline_bounded id plan rec now ws p =
    let r = write_all (new_run id plan rec now) ws in
    omega (arith, (new_run_stays-IsConsistent id plan rec now ws p).timeline_short, rank-le r.state)
