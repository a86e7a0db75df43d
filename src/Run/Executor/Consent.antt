-- ===== src/Run/Executor/Consent.antt =====
-- Execute: what stands before the call of the adapter's Execute.
use dispatcher.Prelude.{
  ℕ, String, true, false, ◌∷◌, some, ◌≡◌, ◌≢◌, refl, ◌∙◌, sym, ap, ◌⊎◌, inl, inr, arith, Bool-cases,
  is_empty, if◌then◌else◌,
}
use dispatcher.Types.{
  RunState, planning, validated, awaiting_approval, preparing, running, Plan, ValidationResult,
  is_valid,
}
use dispatcher.Approval.{Record}
use dispatcher.Run.State.{Run, transition}
use dispatcher.Run.World.{
  World, Machine, validate, prepare, open_gate, save, Trace, ok, GateResult, granted, refused,
  gate_error, go, call, on_run, save_run,
}
use dispatcher.Run.Sampler.Budget.{executes}
use dispatcher.Run.Executor.Cleanup.{fail}
use dispatcher.Run.Executor.Ephemeral.{ExecError, Ended}
use dispatcher.Run.Executor.Release.{Answer-cases}
use dispatcher.Run.Executor.Launch.{
  Stage, stop, ready, ◌>>=◌, checked, judge_validation, validate_plan, stamp, judge_gate, ask_gate,
  approve, judge_prepare, prepare_target, prelaunch, launched, execute_run,
}

abbrev reached : Stage → Machine
reached (stop m e) = m
reached (ready m) = m

Stage-cases :
    (s : Stage)
    → ((m : Machine) × (s ≡ ready m)) ⊎ ((m : Machine) × (e : ExecError) × (s ≡ stop m e))
Stage-cases (ready m) = inl (m, refl)
Stage-cases (stop m e) = inr (m, e, refl)

-- A stage has not called Execute.
IsQuiet : Machine → Stage → Type 0
IsQuiet m s = executes (reached s).trace ≡ executes m.trace

>>=-IsQuiet :
    (m : Machine) (s : Stage) (f : Machine → Stage)
    → IsQuiet m s
    → ((n : Machine) → IsQuiet n (f n))
    → IsQuiet m (s >>= f)
unfolding IsQuiet
>>=-IsQuiet m (stop n e) f q r = q
>>=-IsQuiet m (ready n) f q r = r n ∙ q

checked-IsQuiet : (w : World) (s : RunState) (m : Machine) → IsQuiet m (checked (go w s m))
unfolding go IsQuiet
checked-IsQuiet w s m = ground arith

validate_plan-IsQuiet : (w : World) (m : Machine) → IsQuiet m (validate_plan w m)
unfolding validate_plan judge_validation fail on_run call IsQuiet
validate_plan-IsQuiet w m = ground arith

approve-IsQuiet : (w : World) (p : Plan) (m : Machine) → IsQuiet m (approve w p m)
unfolding approve ask_gate judge_gate stamp fail on_run call go IsQuiet
approve-IsQuiet w p m = ground arith

prepare_target-IsQuiet : (w : World) (m : Machine) → IsQuiet m (prepare_target w m)
unfolding prepare_target judge_prepare fail on_run call IsQuiet
prepare_target-IsQuiet w m = ground arith

>>=-ready :
    (s : Stage) (f : Machine → Stage) (n : Machine)
    → (s >>= f) ≡ ready n
    → (m : Machine) × ((s ≡ ready m) × (f m ≡ ready n))
>>=-ready (stop m e) f n q = ground arith
>>=-ready (ready m) f n q = (m, (refl, q))

checked-ready :
    (w : World) (s : RunState) (m n : Machine)
    → checked (go w s m) ≡ ready n
    → (n.run.state ≡ s) × (n.trace ≡ m.trace) × (n.run.approval ≡ m.run.approval)
unfolding go transition
checked-ready w s m n q = ground arith

validate_plan-ready :
    (w : World) (m n : Machine)
    → validate_plan w m ≡ ready n
    → (n.trace ≡ validate ∷ m.trace)
      × ((v : ValidationResult) × ((w.on_validate (validate ∷ m.trace) ≡ ok v)
            × (is_valid v ≡ true)))
unfolding validate_plan judge_validation call
validate_plan-ready w m n q = elim (Answer-cases (w.on_validate (validate ∷ m.trace))) [
  | inl (v, a) ↦ (ground (arith, a, q), (v, (a, ground (arith, a, q))))
  | inr (e, a) ↦ ground (arith, a, q)
]

-- The gate was granted, and its record is on the run.
pub IsGranted : World → Trace → Run → Type 0
IsGranted w t r = (rec : Record) × ((w.on_gate t ≡ granted rec) × (r.approval ≡ some rec))

Gate-cases :
    (g : GateResult)
    → ((rec : Record) × (g ≡ granted rec))
      ⊎ (((rec : Record) × (g ≡ refused rec)) ⊎ ((e : String) × (g ≡ gate_error e)))
Gate-cases (granted rec) = inl (rec, refl)
Gate-cases (refused rec) = inr (inl (rec, refl))
Gate-cases (gate_error e) = inr (inr (e, refl))

ask_gate-ready :
    (w : World) (m n : Machine)
    → ask_gate w m ≡ ready n
    → (n.trace ≡ open_gate ∷ m.trace) × IsGranted w (open_gate ∷ m.trace) n.run
unfolding ask_gate judge_gate stamp on_run call IsGranted
ask_gate-ready w m n q = elim (Gate-cases (w.on_gate (open_gate ∷ m.trace))) [
  | inl (rec, a) ↦ (ground (arith, a, q), (rec, (a, ground (arith, a, q))))
  | inr x ↦ ground (arith, x, q)
]

prepare_target-ready :
    (w : World) (m n : Machine)
    → prepare_target w m ≡ ready n
    → (n.trace ≡ prepare ∷ m.trace)
      × (n.run.approval ≡ m.run.approval)
      × ((u : Unit {0}) × (w.on_prepare (prepare ∷ m.trace) ≡ ok u))
unfolding prepare_target judge_prepare call
prepare_target-ready w m n q = elim (Answer-cases (w.on_prepare (prepare ∷ m.trace))) [
  | inl (u, a) ↦ (ground (arith, a, q), ground (arith, a, q), (u, a))
  | inr (e, a) ↦ ground (arith, a, q)
]

-- The calls that precede a consent, newest first.
abbrev pub asked : Plan → Trace → Trace
asked p t = if is_empty p.required_approvals then t else open_gate ∷ t

approve-ready :
    (w : World) (p : Plan) (m n : Machine)
    → approve w p m ≡ ready n
    → (n.trace ≡ asked p m.trace)
      × (is_empty p.required_approvals ≡ false → IsGranted w (asked p m.trace) n.run)
unfolding approve
approve-ready w p m n q = elim (Bool-cases (is_empty p.required_approvals)) [
  | inl e ↦ (ground (arith, e, q), ground (arith, e, q))
  | inr e ↦
      let (a, (c, d)) =
        >>=-ready (checked (go w awaiting_approval m)) (ask_gate w) n (ground (arith, e, q)) in
      let g = ask_gate-ready w a n d in
      let t = (checked-ready w awaiting_approval m a c).1 in
      (ground (arith, e, g.0, t), λ _. rw (e, ← t) g.1)
]

-- What a run owes to its launch: the plan was validated, its approvals were granted, with their
-- record on the run, and the target was prepared, in this order and nothing else.
pub record IsCleared (w : World) (p : Plan) (m n : Machine) : Type 0 where
  pub state : n.run.state ≡ running
  pub trace : n.trace ≡ save running ∷ prepare ∷ asked p (validate ∷ m.trace)
  pub valid :
      (v : ValidationResult) × ((w.on_validate (validate ∷ m.trace) ≡ ok v) × (is_valid v ≡ true))
  pub consent :
      is_empty p.required_approvals ≡ false → IsGranted w (asked p (validate ∷ m.trace)) n.run
  pub prepared : (u : Unit {0}) × (w.on_prepare (prepare ∷ asked p (validate ∷ m.trace)) ≡ ok u)

IsGranted-same :
    (w : World) (t u : Trace) (r s : Run)
    → t ≡ u
    → s.approval ≡ r.approval
    → IsGranted w t r
    → IsGranted w u s
unfolding IsGranted
IsGranted-same w t u r s e a (rec, (g, b)) = (rec, (rw (← e) g, a ∙ b))

prelaunch-IsCleared :
    (w : World) (p : Plan) (m n : Machine) → prelaunch w p m ≡ ready n → IsCleared w p m n
unfolding prelaunch save_run
prelaunch-IsCleared w p m n q =
    let (m7, (q7, e8)) = >>=-ready _ (λ m. ready (save_run m)) n q in
    let (m6, (q6, e7)) = >>=-ready _ (λ m. checked (go w running m)) m7 q7 in
    let (m5, (q5, e6)) = >>=-ready _ (prepare_target w) m6 q6 in
    let (m4, (q4, e5)) = >>=-ready _ (λ m. checked (go w preparing m)) m5 q5 in
    let (m3, (q3, e4)) = >>=-ready _ (approve w p) m4 q4 in
    let (m2, (q2, e3)) = >>=-ready _ (λ m. checked (go w validated m)) m3 q3 in
    let (m1, (q1, e2)) = >>=-ready _ (validate_plan w) m2 q2 in
    let c1 = checked-ready w planning m m1 q1 in
    let c2 = validate_plan-ready w m1 m2 e2 in
    let c3 = checked-ready w validated m2 m3 e3 in
    let c4 = approve-ready w p m3 m4 e4 in
    let c5 = checked-ready w preparing m4 m5 e5 in
    let c6 = prepare_target-ready w m5 m6 e6 in
    let c7 = checked-ready w running m6 m7 e7 in
    let t2 : validate ∷ m1.trace ≡ validate ∷ m.trace = ap (λ t. validate ∷ t) c1.1 in
    let t3 : m3.trace ≡ validate ∷ m.trace = c3.1 ∙ c2.0 ∙ t2 in
    let t4 : asked p m3.trace ≡ asked p (validate ∷ m.trace) = ap (asked p) t3 in
    let t6 : prepare ∷ m5.trace ≡ prepare ∷ asked p (validate ∷ m.trace) =
      ap (λ t. prepare ∷ t) (c5.1 ∙ c4.0 ∙ t4) in
    let t7 : save running ∷ m7.trace ≡ save running ∷ prepare ∷ asked p (validate ∷ m.trace) =
      ap (λ t. save running ∷ t) (c7.1 ∙ c6.0 ∙ t6) in
    let (v, (a, b)) = c2.1 in
    let (u, z) = c6.2 in
    let run : m7.run ≡ n.run = ground (arith, e8) in
    let approval : n.run.approval ≡ m4.run.approval =
      ap (λ r. r.approval) (sym run) ∙ c7.2 ∙ c6.1 ∙ c5.2 in
    record {
      state = ap (λ r. r.state) (sym run) ∙ c7.0;
      trace = ground (arith, e8, t7, c7.0);
      valid = (v, (rw (← t2) a, b));
      consent = λ e. IsGranted-same w _ _ m4.run n.run t4 approval (c4.1 e);
      prepared = (u, rw (← t6) z);
    }

save_run-IsQuiet : (m : Machine) → IsQuiet m (ready (save_run m))
unfolding save_run IsQuiet
save_run-IsQuiet m = refl

prelaunch-IsQuiet : (w : World) (p : Plan) (m : Machine) → IsQuiet m (prelaunch w p m)
unfolding prelaunch
prelaunch-IsQuiet w p m =
    let s1 = >>=-IsQuiet m _ _ (checked-IsQuiet w planning m) (validate_plan-IsQuiet w) in
    let s2 = >>=-IsQuiet m _ _ s1 (checked-IsQuiet w validated) in
    let s3 = >>=-IsQuiet m _ _ s2 (approve-IsQuiet w p) in
    let s4 = >>=-IsQuiet m _ _ s3 (checked-IsQuiet w preparing) in
    let s5 = >>=-IsQuiet m _ _ s4 (prepare_target-IsQuiet w) in
    let s6 = >>=-IsQuiet m _ _ s5 (checked-IsQuiet w running) in
    >>=-IsQuiet m _ (λ m. ready (save_run m)) s6 save_run-IsQuiet

-- Execute never provisions without consent: if the adapter's Execute was called at all, then
-- before it the plan was found valid, a gate was granted and its record put on the run if the plan
-- requires approvals, the target was prepared, and the run was saved as running; the calls were
-- these, in this order, and no others.
pub execute_run-IsCleared :
    (w : World) (fuel : ℕ) (p : Plan) (m : Machine) (e : Ended)
    → execute_run w fuel p m ≡ some e
    → executes e.machine.trace ≢ executes m.trace
    → (n : Machine) × ((prelaunch w p m ≡ ready n) × IsCleared w p m n)
unfolding execute_run launched IsQuiet
execute_run-IsCleared w fuel p m e q called = elim (Stage-cases (prelaunch w p m)) [
  | inl (n, s) ↦ (n, (s, prelaunch-IsCleared w p m n s))
  | inr (n, x, s) ↦ ground (arith, s, q, called, prelaunch-IsQuiet w p m)
]
