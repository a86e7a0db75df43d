-- ===== src/Approval/Defs.antt =====
-- Gate, settle, abandon, and the two ways in which Wait returns.
use Prim.Native.String.{◌++◌ as text_append}
use dispatcher.Prelude.{
  String, Bool, true, false, ◌&&◌, List, Option, none, some, if◌then◌else◌, is_some,
}
use dispatcher.Types.{Time, PolicyRequirement, eq_by}

pub data Decision : Type 0 where
  approved denied : Decision

unfoldable pub Decision-discrete : Discrete Decision
Decision-discrete = hlevel

-- `decision` is none until the gate is decided.
pub record Record : Type 0 where
  pub run_id : String
  pub requirements : List PolicyRequirement
  pub requested_at : Time
  pub decided_at : Time
  pub decision : Option Decision
  pub decider : String

pub record DecisionMsg : Type 0 where
  pub decision : Decision
  pub decider : String

-- The fields that settle, abandon and Wait share under the gate's lock. `settled` and `result` are
-- written together, so they are one option; resultCh is closed exactly when it is `some`.
pub record Gate : Type 0 where
  pub run_id : String
  pub reqs : List PolicyRequirement
  pub result : Option DecisionMsg
  pub abandoned : Bool

-- The state that NewGate leaves; the socket is the operating system's.
unfoldable pub new_gate : String → List PolicyRequirement → Gate
new_gate run_id reqs = record { run_id = run_id; reqs = reqs; result = none; abandoned = false }

-- The branches of settle on a gate that is not abandoned.
settle_open : Option DecisionMsg → Gate → DecisionMsg → Gate × Bool
unfolding Decision-discrete
settle_open none g d = (record g { result = some d }, true)
settle_open (some r) g d =
    if eq_by Decision-discrete d.decision denied && eq_by Decision-discrete r.decision approved
    then (record g { result = some d }, true)
    else (g, false)

-- Gate.settle: the new gate, and whether the decision was accepted.
unfoldable pub settle : Gate → DecisionMsg → Gate × Bool
unfolding settle_open
settle g d = if g.abandoned then (g, false) else settle_open g.result g d

-- Gate.abandon.
unfoldable pub abandon : Gate → Gate
abandon g = if is_some g.result then g else record g { abandoned = true }

-- What an in-process approver returns: a decider, and no error, ErrDenied, or another error.
pub data InProcess : Type 0 where
  grants refuses : String → InProcess
  errors : String → String → InProcess

-- The message that Wait's goroutine settles the gate with.
unfoldable pub in_process_msg : InProcess → DecisionMsg
in_process_msg (grants decider) = record { decision = approved; decider = decider }
in_process_msg (refuses decider) = record { decision = denied; decider = decider }
in_process_msg (errors decider err) = record {
  decision = denied;
  decider = text_append "approver-error:" err;
}

opened : Gate → Time → Record
opened g requested = record {
  run_id = g.run_id;
  requirements = g.reqs;
  requested_at = requested;
  decided_at = 0;
  decision = none;
  decider = "";
}

-- Wait takes the branch of ctx.Done().
unfoldable pub wait_canceled : Gate → Time → Gate × Record
unfolding abandon opened
wait_canceled g requested = (abandon g, opened g requested)

-- Wait takes the branch of resultCh, which is ready only once the gate is settled.
unfoldable pub wait_settled : Gate → Time → Time → Option (Gate × Record)
unfolding opened
wait_settled g requested now = elim g.result [
  | none ↦ none
  | some d ↦ some (
    record g { abandoned = true },
    record (opened g requested) {
      decided_at = now;
      decision = some d.decision;
      decider = d.decider;
    },
  )
]
