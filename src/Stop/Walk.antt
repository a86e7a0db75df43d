-- ===== src/Stop/Walk.antt =====
-- The states that a run passes while `dispatcher stop` works on it.
use dispatcher.Prelude.{Bool, true, false, if◌then◌else◌, ◌≡◌, refl, arith}
use dispatcher.Types.{
  RunState, created, planning, validated, awaiting_approval, preparing, running,
  collecting_artifacts, reconciling_cost, cleaning_up, completed, stopping, is_terminal, Time,
}
use dispatcher.Run.State.{Run, Failure, transition, is_valid_transition, set_error, set_cost}
use dispatcher.Run.Cost.{finalize_cost}

-- The state after a stop that nothing went wrong in, with a handle and without.
abbrev pub after_stop : Bool → RunState → RunState
after_stop true running = completed
after_stop true stopping = completed
after_stop true reconciling_cost = completed
after_stop true cleaning_up = completed
after_stop false running = stopping
after_stop false cleaning_up = completed
after_stop _ s = s

pub finalize_cost-state : (r : Run) (now : Time) → (finalize_cost r now).state ≡ r.state
unfolding finalize_cost set_cost
finalize_cost-state r now = ground arith

-- The state that Transition leaves.
pub moved : RunState → RunState → RunState
moved s to = if is_terminal s then s else if is_valid_transition s to then to else s

pub transition-state :
    (r : Run) (to : RunState) (now : Time) → (transition r to now).0.state ≡ moved r.state to
unfolding transition moved
transition-state r to now = ground arith

pub moved-settles :
    (s : RunState)
    → (moved (moved (moved s stopping) cleaning_up) completed ≡ after_stop true s)
      × (moved (moved s stopping) completed ≡ after_stop false s)
unfolding moved is_terminal is_valid_transition
moved-settles running = (refl, refl)
moved-settles _ = (refl, refl)

pub moved-live :
    (s : RunState)
    → is_terminal s ≡ false
    → is_terminal (moved (moved s stopping) cleaning_up) ≡ false
unfolding moved is_terminal is_valid_transition
moved-live created n = refl
moved-live planning n = refl
moved-live validated n = refl
moved-live awaiting_approval n = refl
moved-live preparing n = refl
moved-live running n = refl
moved-live stopping n = refl
moved-live collecting_artifacts n = refl
moved-live reconciling_cost n = refl
moved-live cleaning_up n = refl
moved-live _ n = n

pub set_error-state :
    (r : Run) (s : RunState) (e : Failure) (now : Time)
    → is_terminal r.state ≡ false
    → (set_error r s e now).state ≡ s
unfolding set_error
set_error-state r s e now live_run = ground arith
