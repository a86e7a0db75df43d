-- ===== src/Approval/Steps.antt =====
-- The gate over time: external messages, the in-process approver and Wait in any interleaving.
use dispatcher.Prelude.{
  String, Bool, true, false, List, [], ◌∷◌, Option, none, some, ◌≡◌, arith, any,
}
use dispatcher.Types.{Time, PolicyRequirement}
use dispatcher.Approval.Defs.{
  Decision, approved, denied, Record, DecisionMsg, Gate, InProcess, new_gate, settle, abandon,
  in_process_msg, wait_canceled, wait_settled,
}

-- Where the goroutine in Wait is.
pub data Phase : Type 0 where
  waiting : Phase
  canceled returned : Record → Phase

-- `acked` are the decisions that an external client was told "ok" for, newest first.
pub record System : Type 0 where
  pub gate : Gate
  pub phase : Phase
  pub requested : Time
  pub acked : List DecisionMsg

pub data Event : Type 0 where
  external : DecisionMsg → Event
  in_process : InProcess → Event
  cancel : Event
  take : Time → Event

-- Wait's select, which runs once.
wait_step : Phase → Option (Gate × Record) → (Record → Phase) → System → System
wait_step waiting (some (g, rec)) to s = record s { gate = g; phase = to rec }
wait_step waiting none to s = s
wait_step (canceled rec) r to s = s
wait_step (returned rec) r to s = s

unfoldable pub step : System → Event → System
unfolding wait_step
step s (external d) =
    let (g, accepted) = settle s.gate d in
    record s { gate = g; acked = elim accepted [ true ↦ d ∷ s.acked | false ↦ s.acked ] }
step s (in_process p) = record s { gate = (settle s.gate (in_process_msg p)).0 }
step s cancel = wait_step s.phase (some (wait_canceled s.gate s.requested)) canceled s
step s (take now) = wait_step s.phase (wait_settled s.gate s.requested now) returned s

unfoldable pub run_gate : System → List Event → System
run_gate s [] = s
run_gate s (e ∷ es) = run_gate (step s e) es

unfoldable pub start : String → List PolicyRequirement → Time → System
start id reqs now = record { gate = new_gate id reqs; phase = waiting; requested = now; acked = [] }

abbrev pub is_denied : Decision → Bool
is_denied denied = true
is_denied approved = false

-- Some client was told that its denial was accepted.
abbrev pub denial_acked : List DecisionMsg → Bool
denial_acked ds = any (λ d. is_denied d.decision) ds

abbrev pub decision_of : Option DecisionMsg → Option Decision
decision_of none = none
decision_of (some d) = some d.decision

-- After Wait has returned a record, the gate is closed and the record is what it holds.
abbrev PhaseInv : Phase → Gate → Type 0
PhaseInv waiting g = g.abandoned ≡ false
PhaseInv (canceled rec) g = rec.decision ≡ none
PhaseInv (returned rec) g = (g.abandoned ≡ true) × (rec.decision ≡ decision_of g.result)

record Inv (s : System) : Type 0 where
  denial_kept : denial_acked s.acked ≡ true → decision_of s.gate.result ≡ some denied
  phase_inv : PhaseInv s.phase s.gate

step-Inv : (s : System) (e : Event) → Inv s → Inv (step s e)
unfolding step settle abandon wait_canceled wait_settled
step-Inv s (external d) i = ground arith
step-Inv s (in_process p) i = ground arith
step-Inv s cancel i = ground arith
step-Inv s (take now) i = ground arith

run_gate-Inv : (s : System) (es : List Event) → Inv s → Inv (run_gate s es)
unfolding run_gate
run_gate-Inv s [] i = i
run_gate-Inv s (e ∷ es) i = run_gate-Inv (step s e) es (step-Inv s e i)

start-Inv : (id : String) (reqs : List PolicyRequirement) (now : Time) → Inv (start id reqs now)
unfolding start new_gate
start-Inv id reqs now = ground arith

-- A run whose Wait returned an approval was never told to stop: in no interleaving had a client
-- been told that its denial was accepted, before or after.
pub approved_no_denial_acked :
    (id : String) (reqs : List PolicyRequirement) (now : Time) (es : List Event) (rec : Record)
    → let s = run_gate (start id reqs now) es in
      s.phase ≡ returned rec → rec.decision ≡ some approved → denial_acked s.acked ≡ false
approved_no_denial_acked id reqs now es rec p d =
    ground (arith, run_gate-Inv (start id reqs now) es (start-Inv id reqs now))
